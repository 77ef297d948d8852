-- ===== src/Characteristic/Search.antt =====
-- The search for a characteristic by UUID, `get_characteristic_from_uuid` of dbus/gattlib_char.c,
-- against a description without proxies: the first object that is a characteristic of the connected
-- device with the UUID.
use gattlibcpp.Base.{
  ℕ, ◌≡◌, ◌≢◌, refl, ◌∙◌, ap, inl, inr, Bool, true, ◌&&◌, Option, none, some, List, [], ◌∷◌, ◌==◌,
  if◌then◌else◌, ◌>>=◌, Bool-cases, Option-cases, elem, ==_refl, arith,
}
use gattlibcpp.World.{Text, Uuid, World, emit, object_unref}
use gattlibcpp.Uuid.{string_to_uuid, uuid_cmp, same_bytes}
use gattlibcpp.Characteristic.{
  DbusCharacteristic, type_gatt, CharacteristicProxy, Bus, characteristic_from_path, wanted_proxy,
  battery_step, look_at, search_uuid,
}

-- The proxy of an object that is a characteristic of the device with the UUID.
abbrev pub wanted_by : Bus → Text → Uuid → CharacteristicProxy → Option ℕ
wanted_by bus own uuid p = do
  text ← p.uuid
  theirs ← (string_to_uuid bus.parse text).1
  device ← p.device
  if uuid_cmp uuid theirs == 0 && same_bytes own device then some p.object else none

abbrev pub matching : Bus → Text → Uuid → ℕ → Option ℕ
matching bus own uuid o =
    if bus.is_characteristic o
    then (do p ← bus.characteristic o; wanted_by bus own uuid p)
    else none

-- What the first match gives, or the last battery where the UUID is that of the battery level.
abbrev pub first_match : Bus → Text → Uuid → Bool → List ℕ → DbusCharacteristic → DbusCharacteristic
first_match bus own uuid is_battery_level [] found = found
first_match bus own uuid is_battery_level (o ∷ os) found = elim (matching bus own uuid o) [
  | some g ↦ type_gatt g
  | none ↦ first_match bus own uuid is_battery_level os (battery_step bus is_battery_level o found)
]

-- The UUID of a proxy can be parsed, where it has one.
abbrev pub ParsesProxy : Bus → CharacteristicProxy → Type 0
ParsesProxy bus p = (text : Text) → p.uuid ≡ some text → (string_to_uuid bus.parse text).1 ≢ none

-- The UUIDs of the characteristics among the objects can be parsed; nothing is asked of other texts.
abbrev pub Parses : Bus → List ℕ → Type 0
Parses bus os =
    (o : ℕ) (p : CharacteristicProxy)
    → elem o os ≡ true
    → bus.is_characteristic o ≡ true
    → bus.characteristic o ≡ some p
    → ParsesProxy bus p

module _ (bus : Bus) (own : Text) (uuid : Uuid) where
  -- A proxy is kept if it is the wanted one, and given back if it is not.
  wanted_lem :
      (p : CharacteristicProxy) (w : World)
      → ParsesProxy bus p
      → (w' : World) × (wanted_proxy bus.parse (some own) (some uuid) p w
          ≡ some (wanted_by bus own uuid p, w'))
  wanted_lem p w parses = elim (Option-cases p.uuid) [
    | inl e ↦ (emit (object_unref p.object) w, rw e refl)
    | inr (text, e) ↦ elim (Option-cases (string_to_uuid bus.parse text).1) [
      | inl f ↦ absurd (parses text e f)
      | inr (theirs, f) ↦ elim (Bool-cases (uuid_cmp uuid theirs == 0)) [
        | inr other ↦ elim (Option-cases p.device) [
          | inl g ↦ (emit (object_unref p.object) w, rw (e, f, other, g) refl)
          | inr (device, g) ↦ (emit (object_unref p.object) w, rw (e, f, other, g) refl)
        ]
        | inl equal ↦ elim (Option-cases p.device) [
          | inl g ↦ (emit (object_unref p.object) w, rw (e, f, equal, g) refl)
          | inr (device, g) ↦ elim (Bool-cases (same_bytes own device)) [
            | inl same ↦ (w, rw (e, f, equal, g, same) refl)
            | inr differ ↦ (emit (object_unref p.object) w, rw (e, f, equal, g, differ) refl)
          ]
        ]
      ]
    ]
  ]

  look_at_lem :
      (o : ℕ) (w : World)
      → ((p : CharacteristicProxy)
          → bus.is_characteristic o ≡ true
          → bus.characteristic o ≡ some p
          → ParsesProxy bus p)
      → (w' : World) × (look_at bus (some own) (some uuid) o w ≡ some (matching bus own uuid o, w'))
  unfolding characteristic_from_path
  look_at_lem o w parses = elim (Bool-cases (bus.is_characteristic o)) [
    | inr other ↦ (w, rw other refl)
    | inl is ↦ elim (Option-cases (bus.characteristic o)) [
      | inl e ↦ (w, rw (is, e) refl)
      | inr (p, e) ↦ let (w', f) = wanted_lem p w (parses p is e) in (w', rw (is, e) f)
    ]
  ]

  module _ (is_battery_level : Bool) (o : ℕ) (os : List ℕ) (found : DbusCharacteristic) where
    over_hit :
        (w w1 : World) (g : ℕ)
        → look_at bus (some own) (some uuid) o w ≡ some (some g, w1)
        → search_uuid bus (some own) uuid is_battery_level (o ∷ os) found w ≡ some (type_gatt g, w1)
    unfolding search_uuid
    over_hit w w1 g e = rw e refl

    over_miss :
        (w w1 : World)
        → look_at bus (some own) (some uuid) o w ≡ some (none, w1)
        → search_uuid bus (some own) uuid is_battery_level (o ∷ os) found w
          ≡ search_uuid bus
              (some own)
              uuid
              is_battery_level
              os
              (battery_step bus is_battery_level o found)
              w1
    unfolding search_uuid
    over_miss w w1 e = rw e refl

    first_hit :
        (g : ℕ)
        → matching bus own uuid o ≡ some g
        → type_gatt g ≡ first_match bus own uuid is_battery_level (o ∷ os) found
    first_hit g m = rw (first_match, m) refl

    first_miss :
        matching bus own uuid o ≡ none
        → first_match bus own uuid is_battery_level os (battery_step bus is_battery_level o found)
          ≡ first_match bus own uuid is_battery_level (o ∷ os) found
    first_miss m = rw (first_match, m) refl

  -- Where the UUID texts of the characteristics among the objects can be parsed, the search of a
  -- connection with a path ends without a fault, with the characteristic that the description gives.
  pub search_uuid-first_match :
      (is_battery_level : Bool) (os : List ℕ) (found : DbusCharacteristic) (w : World)
      → Parses bus os
      → (w' : World) × (search_uuid bus (some own) uuid is_battery_level os found w
          ≡ some (first_match bus own uuid is_battery_level os found, w'))
  unfolding search_uuid
  search_uuid-first_match is_battery_level [] found w parses = (w, refl)
  search_uuid-first_match is_battery_level (o ∷ os) found w parses =
      let (w1, e) = look_at_lem o w (λ p. parses o p (ground (arith, ==_refl o))) in
      let later : Parses bus os = λ x p m. parses x p (ground (arith, m)) in
      elim (Option-cases (matching bus own uuid o)) [
        | inr (g, m) ↦ (
          w1,
          over_hit is_battery_level o os found w w1 g (e ∙ ap (λ r. some (r, w1)) m)
              ∙ ap (λ r. some (r, w1)) (first_hit is_battery_level o os found g m),
        )
        | inl m ↦
            let (w2, f) =
              search_uuid-first_match is_battery_level os
                (battery_step bus is_battery_level o found) w1 later in
            (
              w2,
              over_miss is_battery_level o os found w w1 (e ∙ ap (λ r. some (r, w1)) m)
                  ∙ f
                  ∙ ap (λ r. some (r, w2)) (first_miss is_battery_level o os found m),
            )
      ]
