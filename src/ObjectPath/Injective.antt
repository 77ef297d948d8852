-- ===== src/ObjectPath/Injective.antt =====
-- Different devices of an adapter have different object paths.
use gattlibcpp.Base.{
  ℕ, suc, zero, ◌+◌, ◌<◌, ◌≤◌, ◌≡◌, refl, sym, ◌∙◌, ap, false, Option, none, some, List, [], ◌∷◌,
  ◌++◌, ltb, elem, ◌-◌, length, length-append, take, Bool-cases, inl, inr, arith,
}
use mathlib.Core.Option.{some-injective}
use gattlibcpp.World.{Text, codes}
use gattlibcpp.ObjectPath.{
  colons_to_underscores, device_address_str, snprintf, adapter_or_default, get_device_path_from_mac,
  object_path_size_max,
}

take_whole {ℓ} : {A : Type ℓ} (n : ℕ) (xs : List A) → length xs ≤ n → take n xs ≡ xs
take_whole zero [] h = refl
take_whole zero (x ∷ xs) h = absurd (omega arith)
take_whole (suc n) [] h = refl
take_whole (suc n) (x ∷ xs) h = ap (◌∷◌ x) (take_whole n xs (omega arith))

append_cancel {ℓ} : {A : Type ℓ} (xs : List A) {ys zs : List A} → xs ++ ys ≡ xs ++ zs → ys ≡ zs
append_cancel [] e = e
append_cancel (x ∷ xs) e = append_cancel xs (cc)

length-colons : (s : Text) → length (colons_to_underscores s) ≡ length s
unfolding colons_to_underscores
length-colons [] = refl
length-colons (c ∷ s) = ap suc (length-colons s)

-- The replacement loses nothing on addresses without '_'.
colons_injective :
    (s t : Text)
    → elem b'_' s ≡ false
    → elem b'_' t ≡ false
    → colons_to_underscores s ≡ colons_to_underscores t
    → s ≡ t
unfolding colons_to_underscores
colons_injective [] [] hs ht e = refl
colons_injective [] (d ∷ t) hs ht e = cc
colons_injective (c ∷ s) [] hs ht e = cc
colons_injective (c ∷ s) (d ∷ t) hs ht e =
    let rest = λ (p : colons_to_underscores s ≡ colons_to_underscores t).
      colons_injective s t (ground arith) (ground arith) p in
    ground (arith, rest)

-- A text that fits into the buffer is printed whole.
snprintf_whole : (size : ℕ) (s : Text) → length s < size → snprintf size s ≡ s
snprintf_whole size s h = take_whole (size - 1) s (omega arith)

abbrev whole_path : Text → Text → Text
whole_path name address = codes "/org/bluez/" ++ (name ++ (codes "/dev_" ++ address))

length-whole_path :
    (name address : Text) → length (whole_path name address) ≡ 16 + length name + length address
length-whole_path name address = omega (arith, length-append {0} name (codes "/dev_" ++ address))

path_of :
    (name : Option Text) (mac p : Text) (size : ℕ)
    → 16 + length (adapter_or_default name) + length mac < size
    → get_device_path_from_mac name mac size ≡ some p
    → p ≡ whole_path (adapter_or_default name) (colons_to_underscores mac)
unfolding get_device_path_from_mac device_address_str
path_of name mac p size fits e = elim (Bool-cases (ltb (length mac) 20)) [
  | inl short ↦
      let whole =
        snprintf_whole size (whole_path (adapter_or_default name) (colons_to_underscores mac)) (
          omega (
            arith,
            length-whole_path (adapter_or_default name) (colons_to_underscores mac),
            length-colons mac,
          )) in
      some-injective _ _ (sym (rw short at e)) ∙ whole
  | inr long ↦ let f : ◌≡◌ {A = Option Text} none (some p) = rw long at e in cc
]

-- Two MAC addresses without '_' that get the same path on the same adapter are equal, where the
-- adapter's name and the address fit into the buffer of GATTLIB_DBUS_OBJECT_PATH_SIZE_MAX bytes.
pub get_device_path_from_mac_injective :
    (name : Option Text) (mac mac' p : Text)
    → elem b'_' mac ≡ false
    → elem b'_' mac' ≡ false
    → 16 + length (adapter_or_default name) + length mac < object_path_size_max
    → 16 + length (adapter_or_default name) + length mac' < object_path_size_max
    → get_device_path_from_mac name mac object_path_size_max ≡ some p
    → get_device_path_from_mac name mac' object_path_size_max ≡ some p
    → mac ≡ mac'
get_device_path_from_mac_injective name mac mac' p hm hm' fits fits' e e' =
    let one = path_of name mac p object_path_size_max fits e in
    let two = path_of name mac' p object_path_size_max fits' e' in
    let tails =
      append_cancel (adapter_or_default name)
        (append_cancel (codes "/org/bluez/") (sym one ∙ two)) in
    colons_injective mac mac' hm hm' (append_cancel (codes "/dev_") tails)
