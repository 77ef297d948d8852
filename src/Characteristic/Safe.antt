-- ===== src/Characteristic/Safe.antt =====
-- The search for a characteristic of dbus/gattlib_char.c keeps the objects well-formed.
use gattlibcpp.Base.{
  ℕ, ◌≡◌, refl, true, false, Bool, Option, none, some, List, [], ◌∷◌, ◌==◌, elem, Holds, Holds-bind,
  Holds-read, Holds-if, Holds-option, inl, inr, subst, sym, ◌∙◌,
}
use gattlibcpp.Glib.{AsciiCase}
use gattlibcpp.World.{
  live_objects, ConnectionBackend, Text, Uuid, Device, Adapter, World, write_adapter,
}
use gattlibcpp.Uuid.{Parsed, string_to_uuid, uuid_cmp, same_bytes}
use gattlibcpp.Device.Invariant.{WellFormed, write_adapter-WellFormed}
use gattlibcpp.Validity.Place.{Place-ok, connected_cases}
use gattlibcpp.Adapter.{get_device_manager, keep_manager}
use gattlibcpp.Connection.Safe.{Same, Same-refl, Same-trans, Same-WellFormed}
use gattlibcpp.Characteristic.{
  DbusCharacteristic, type_none, type_gatt, CharacteristicProxy, Bus, battery_level_uuid, ccc_uuid,
  reject, same_path, right_device, right_uuid, characteristic_from_path, look_at, battery_step,
  search_uuid, search_live, search_known, get_characteristic_from_uuid,
}

-- The world behind a result, compared with an earlier one.
abbrev pub Untouched {ℓ} : {A : Type ℓ} → World → A × World → Type 0
Untouched w r = Same w r.1

Holds-weaken {ℓ} :
    {A : Type ℓ} (w w1 : World)
    → Same w w1
    → (r : Option (A × World)) → Holds (Untouched w1) r
    → Holds (Untouched w) r
Holds-weaken w w1 same none h = tt
Holds-weaken w w1 same (some (x, w2)) h = Same-trans w w1 w2 same h

right_device-Untouched :
    (own : Option Text) (p : CharacteristicProxy) (w : World)
    → Holds (Untouched w) (right_device own p w)
right_device-Untouched own p w =
    Holds-option (Untouched w) p.device (reject p w) (λ theirs. same_path own theirs p w)
      (Same-refl w) (with_path own)
  where
    with_path : (own : Option Text) (theirs : Text) → Holds (Untouched w) (same_path own theirs p w)
    with_path none theirs = tt
    with_path (some path) theirs =
        Holds-if (Untouched w) (same_bytes path theirs) (some (some p.object, w)) (reject p w)
          (λ e. Same-refl w) (λ e. Same-refl w)

right_uuid-Untouched :
    (own : Option Text) (uuid : Uuid) (theirs : Option Uuid) (p : CharacteristicProxy) (w : World)
    → Holds (Untouched w) (right_uuid own uuid theirs p w)
right_uuid-Untouched own uuid none p w = tt
right_uuid-Untouched own uuid (some theirs) p w =
    Holds-if (Untouched w) (uuid_cmp uuid theirs == 0) (right_device own p w) (reject p w)
      (λ e. right_device-Untouched own p w) (λ e. Same-refl w)

characteristic_from_path-Untouched :
    (parse : Text → Parsed) (own : Option Text) (uuid : Option Uuid)
    (p : Option CharacteristicProxy) (w : World)
    → Holds (Untouched w) (characteristic_from_path parse own uuid p w)
unfolding characteristic_from_path
characteristic_from_path-Untouched parse own uuid none w = Same-refl w
characteristic_from_path-Untouched parse own none (some p) w = right_device-Untouched own p w
characteristic_from_path-Untouched parse own (some uuid) (some p) w =
    Holds-option (Untouched w) p.uuid (reject p w)
      (λ text. right_uuid own uuid (string_to_uuid parse text).1 p w) (Same-refl w)
      (λ text. right_uuid-Untouched own uuid (string_to_uuid parse text).1 p w)

look_at-Untouched :
    (bus : Bus) (own : Option Text) (uuid : Option Uuid) (o : ℕ) (w : World)
    → Holds (Untouched w) (look_at bus own uuid o w)
look_at-Untouched bus own uuid o w =
    Holds-if (Untouched w) (bus.is_characteristic o)
      (characteristic_from_path bus.parse own uuid (bus.characteristic o) w) (some (none, w))
      (λ e. characteristic_from_path-Untouched bus.parse own uuid (bus.characteristic o) w)
      (λ e. Same-refl w)

search_uuid-Untouched :
    (bus : Bus) (own : Option Text) (uuid : Uuid) (is_battery_level : Bool) (os : List ℕ)
    (found : DbusCharacteristic) (w : World)
    → Holds (Untouched w) (search_uuid bus own uuid is_battery_level os found w)
unfolding search_uuid
search_uuid-Untouched bus own uuid is_battery_level [] found w = Same-refl w
search_uuid-Untouched bus own uuid is_battery_level (o ∷ os) found w =
    Holds-bind (Untouched w) (Untouched w) (look_at bus own (some uuid) o w) _
      (look_at-Untouched bus own (some uuid) o w)
      (λ (hit, w1) same.
        go
          (search_uuid-Untouched bus own uuid is_battery_level os
            (battery_step bus is_battery_level o found))
          hit w1 same)
  where
    go :
        ((v : World)
          → Holds (Untouched v) (
              search_uuid bus own uuid is_battery_level os
                (battery_step bus is_battery_level o found)
                v))
        → (hit : Option ℕ) (w1 : World) → Same w w1
        → Holds (Untouched w) (elim hit [
          | some g ↦ some (type_gatt g, w1)
          | none ↦
              search_uuid bus own uuid is_battery_level os
                (battery_step bus is_battery_level o found)
                w1
        ])
    go later (some g) w1 same = same
    go later none w1 same =
        Holds-weaken w w1 same
          (search_uuid bus own uuid is_battery_level os (battery_step bus is_battery_level o found)
            w1)
          (later w1)

search_live-Untouched :
    (bus : Bus) (b : ConnectionBackend) (uuid : Uuid) (is_battery_level : Bool) (w : World)
    → Holds (Untouched w) (search_live bus b uuid is_battery_level w)
search_live-Untouched bus b uuid is_battery_level w =
    Holds-read (Untouched w) (live_objects b)
      (λ os. search_uuid bus b.device_object_path uuid is_battery_level os type_none w)
      (λ os e. search_uuid-Untouched bus b.device_object_path uuid is_battery_level os type_none w)

search_known-Untouched :
    (c : ℕ) (dev : Device) (bus : Bus) (uuid : Uuid) (m : Option ℕ) (w : World)
    → Holds (Untouched w) (search_known c dev bus uuid m w)
search_known-Untouched c dev bus uuid none w = Same-refl w
search_known-Untouched c dev bus uuid (some m) w =
    let b = dev.connection.backend in
    Holds-if (Untouched w) (uuid_cmp uuid battery_level_uuid == 0) (search_live bus b uuid true w) _
      (λ e. search_live-Untouched bus b uuid true w)
      (λ e.
        Holds-if (Untouched w) (uuid_cmp uuid ccc_uuid == 0) (some (type_none, w))
          (search_live bus b uuid false w) (λ f. Same-refl w)
          (λ f. search_live-Untouched bus b uuid false w))

module _ (case : AsciiCase) where
  -- The world behind a result is well-formed and has the devices of an earlier one.
  abbrev pub Kept {ℓ} : {A : Type ℓ} → World → A × World → Type 0
  Kept w r = WellFormed case r.1 × (r.1.devices ≡ w.devices)

  Untouched-Kept {ℓ} :
      {A : Type ℓ} (w w1 : World)
      → WellFormed case w1
      → w1.devices ≡ w.devices
      → (r : Option (A × World)) → Holds (Untouched w1) r
      → Holds (Kept w) r
  Untouched-Kept w w1 h e none u = tt
  Untouched-Kept w w1 h e (some (x, w2)) u = (Same-WellFormed case w1 w2 u h, u.2 ∙ e)

  module _ (w : World) (h : WellFormed case w) where
    -- The manager of an open adapter is remembered on it.
    pub get_device_manager-Kept :
        (a : ℕ) (reply : Option ℕ)
        → elem a w.adapter_list ≡ true
        → Holds (Kept w) (get_device_manager a reply w)
    unfolding get_device_manager
    get_device_manager-Kept a reply m =
        Holds-read (Kept w) (w.adapters a) (λ ad. some (keep_manager a ad reply w))
          (λ ad e. go ad e ad.device_manager)
      where
        go :
            (ad : Adapter)
            → w.adapters a ≡ some ad
            → (o : Option ℕ)
            → Kept {A = Option ℕ} w (elim o [
              | some m ↦ (some m, w)
              | none ↦ (reply, write_adapter a (record ad { device_manager = reply }) w)
            ])
        go ad e (some m') = (h, refl)
        go ad e none =
            let ok = h.adapter_ok a ad m e in
            (
              write_adapter-WellFormed case w a ad (record ad { device_manager = reply }) h e
                  (λ d l. l)
                  (record {
                    held = ok.held;
                    counter_fits = ok.counter_fits;
                    distinct = ok.distinct;
                  }),
              refl,
            )

    pub get_characteristic_from_uuid-Kept :
        (c : ℕ) (uuid : Uuid) (bus : Bus)
        → Holds (Kept w) (get_characteristic_from_uuid c uuid bus w)
    unfolding get_characteristic_from_uuid
    get_characteristic_from_uuid-Kept c uuid bus = elim (connected_cases case w h c) [
      | inl e ↦ rw e (h, refl)
      | inr (p, e, s) ↦
          let open_owner : elem p.device.adapter w.adapter_list ≡ true =
            subst (λ b. elem b w.adapter_list ≡ true) (sym (Place-ok case w h c p).owner)
              p.owner_listed in
          rw (e, p.stored)
            (Holds-bind (Kept w) (Kept w) (get_device_manager p.device.adapter bus.manager w) _
              (get_device_manager-Kept p.device.adapter bus.manager open_owner)
              (λ (m, w1) (h1, e1).
                Untouched-Kept w w1 h1 e1 (search_known c p.device bus uuid m w1)
                  (search_known-Untouched c p.device bus uuid m w1)))
    ]
