-- ===== src/Uuid/Expand.antt =====
-- The comparison of UUIDs decides whether they have the same long form.
use gattlibcpp.Base.{
  ℕ, ◌/◌, ◌%◌, ◌^◌, ◌<◌, ◌≡◌, ◌↔◌, refl, sym, ◌∙◌, ap, Bool, true, List, [], ◌∷◌, length, ==_iff,
  arith,
}
use gattlibcpp.World.{Uuid, uuid16, uuid32, uuid128, unspec}
use gattlibcpp.Uuid.{uuid_to_uuid128, same_bytes, bytes_of, zero_or_two, cmp_long, uuid_cmp}

-- A UUID of one of the three types, its value in range.
abbrev pub InRange : Uuid → Type 0
InRange (uuid16 v) = v < 2 ^ 16
InRange (uuid32 v) = v < 2 ^ 32
InRange (uuid128 b) = length b ≡ 16
InRange (unspec t) = ⊥

pub same_bytes_iff : (xs ys : List ℕ) → (same_bytes xs ys ≡ true) ↔ (xs ≡ ys)
unfolding same_bytes
same_bytes_iff [] [] = ground arith
same_bytes_iff [] (y ∷ ys) = ground arith
same_bytes_iff (x ∷ xs) [] = ground arith
same_bytes_iff (x ∷ xs) (y ∷ ys) =
    let (to, from) = same_bytes_iff xs ys in ground (arith, to, from, ==_iff x y)

zero_or_two_iff : (b : Bool) → (zero_or_two b ≡ 0) ↔ (b ≡ true)
zero_or_two_iff b = ground arith

is_long : (u : Uuid) → uuid_to_uuid128 u ≡ uuid128 (bytes_of (uuid_to_uuid128 u))
unfolding uuid_to_uuid128
is_long (uuid16 v) = refl
is_long (uuid32 v) = refl
is_long (uuid128 b) = refl
is_long (unspec t) = refl

uuid128_eq :
    (u v : Uuid)
    → bytes_of (uuid_to_uuid128 u) ≡ bytes_of (uuid_to_uuid128 v)
    → uuid_to_uuid128 u ≡ uuid_to_uuid128 v
uuid128_eq u v e = is_long u ∙ ap uuid128 e ∙ sym (is_long v)

cmp_long_iff : (u v : Uuid) → (cmp_long u v ≡ 0) ↔ (uuid_to_uuid128 u ≡ uuid_to_uuid128 v)
cmp_long_iff u v =
    let (to, from) = same_bytes_iff (bytes_of (uuid_to_uuid128 u)) (bytes_of (uuid_to_uuid128 v)) in
    let (z, s) =
      zero_or_two_iff (same_bytes (bytes_of (uuid_to_uuid128 u)) (bytes_of (uuid_to_uuid128 v))) in
    (λ e. uuid128_eq u v (to (z e)), λ e. s (from (ap bytes_of e)))

-- `gattlib_uuid_cmp` answers 0 exactly if the two UUIDs have the same long form
-- (`gattlib_uuid_to_uuid128`), for values in range of the types 16, 32 and 128 bits.
pub uuid_cmp_iff :
    (u v : Uuid)
    → InRange u
    → InRange v
    → (uuid_cmp u v ≡ 0) ↔ (uuid_to_uuid128 u ≡ uuid_to_uuid128 v)
unfolding uuid_cmp uuid_to_uuid128
uuid_cmp_iff (uuid16 a) (uuid16 b) h k = ground arith
uuid_cmp_iff (uuid32 a) (uuid32 b) h k = ground arith
uuid_cmp_iff (uuid128 a) (uuid128 b) h k =
    let (to, from) = same_bytes_iff a b in
    (λ e. ap uuid128 (to (ground arith)), λ e. ground (arith, from (ap bytes_of e)))
uuid_cmp_iff (unspec s) v h k = absurd h
uuid_cmp_iff u (unspec t) h k = absurd k
uuid_cmp_iff u v h k = cmp_long_iff u v

-- So the comparison does not depend on the order of the two UUIDs.
pub uuid_cmp_comm : (u v : Uuid) → InRange u → InRange v → (uuid_cmp u v ≡ 0) ↔ (uuid_cmp v u ≡ 0)
uuid_cmp_comm u v h k =
    let (to, from) = uuid_cmp_iff u v h k in
    let (to', from') = uuid_cmp_iff v u k h in (λ e. from' (sym (to e)), λ e. from (sym (to' e)))

-- The long form of a 16-bit UUID under the Bluetooth base UUID, 0000xxxx-0000-1000-8000-00805F9B34FB.
abbrev pub bluetooth_base : ℕ → Uuid
bluetooth_base v = uuid128 (
    0
    ∷ 0
    ∷ (v / 2 ^ 8 % 2 ^ 8)
    ∷ (v % 2 ^ 8)
    ∷ 0
    ∷ 0
    ∷ 0x10
    ∷ 0
    ∷ 0x80
    ∷ 0
    ∷ 0
    ∷ 0x80
    ∷ 0x5F
    ∷ 0x9B
    ∷ 0x34
    ∷ 0xFB
    ∷ [])

-- No 16-bit UUID compares equal to its long form under the Bluetooth base UUID, in either order:
-- the code expands it under another base.
pub uuid_cmp-bluetooth_base :
    (v : ℕ)
    → (uuid_cmp (uuid16 v) (bluetooth_base v) ≡ 2) × (uuid_cmp (bluetooth_base v) (uuid16 v) ≡ 2)
unfolding uuid_cmp
uuid_cmp-bluetooth_base v = (refl, refl)
