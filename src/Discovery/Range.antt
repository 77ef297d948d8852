-- ===== src/Discovery/Range.antt =====
-- The characteristics that `gattlib_discover_char_range` of dbus/gattlib.c finds: their handles, and
-- the size of the array they are written to.
use gattlibcpp.Base.{
  ℕ, ◌%◌, ◌^◌, ◌≤◌, ◌<◌, ◌≡◌, ◌≢◌, refl, ap, ◌∙◌, ◌⊎◌, inl, inr, Bool, true, false, ◌&&◌, ◌||◌,
  Option, none, some, List, [], ◌∷◌, ◌++◌, ◌>>=◌, ltb, length, length-append, Bool-cases,
  Option-cases, arith,
}
use gattlibcpp.Glib.{AsciiCase}
use gattlibcpp.World.{Text, World, object_unref, emit}
use gattlibcpp.World.Codes.{success}
use gattlibcpp.Uuid.{same_bytes, string_to_uuid}
use gattlibcpp.Device.Invariant.{WellFormed}
use gattlibcpp.Validity.Place.{Place, Place-ok, valid-Place}
use gattlibcpp.Adapter.{get_device_manager}
use gattlibcpp.Characteristic.{Bus}
use gattlibcpp.Discovery.{ServiceProxy, ServiceBus, Array, array_of, parsed_uuid}
use gattlibcpp.Discovery.Characteristics.{
  GattCharacteristic, FlaggedProxy, Opened, opened, Wanted, last_handle, new_entry, flag_bits,
  battery_entry, with_opened, add_characteristics_from_service, count_characteristics,
  with_service_proxy, add_battery, services_loop, discover_char_range, discover_char,
}

-- What BlueZ's characteristics and services are like: a characteristic can be opened, tells its
-- service, its flags and its UUID, and its path ends in a handle; a service tells its device. Nothing
-- is asked of the other objects (adapters, devices, descriptors).
pub record Complete (bus : Bus) (sb : ServiceBus) (open_proxy : ℕ → Opened) : Type 0 where
  pub opens :
      (o : ℕ) → bus.is_characteristic o ≡ true → (p : FlaggedProxy) × (open_proxy o ≡ opened p)
  pub has_service :
      (o : ℕ) (p : FlaggedProxy)
      → bus.is_characteristic o ≡ true
      → open_proxy o ≡ opened p
      → p.service ≢ none
  pub has_flags :
      (o : ℕ) (p : FlaggedProxy)
      → bus.is_characteristic o ≡ true
      → open_proxy o ≡ opened p
      → p.flags ≢ none
  pub has_uuid :
      (o : ℕ) (p : FlaggedProxy)
      → bus.is_characteristic o ≡ true
      → open_proxy o ≡ opened p
      → p.uuid ≢ none
  pub has_handle : (o : ℕ) → bus.is_characteristic o ≡ true → last_handle bus o ≢ none
  pub has_device :
      (o : ℕ) (p : ServiceProxy) → sb.is_service o ≡ true → sb.service o ≡ some p → p.device ≢ none

-- An entry's handle is in the range, or it is the 0 of a battery.
abbrev pub Within : Wanted → List GattCharacteristic → Type 0
Within q [] = Unit {0}
Within q (e ∷ es) = (((q.first ≤ e.handle) × (e.handle ≤ q.last)) ⊎ (e.handle ≡ 0)) × Within q es

Within-snoc :
    (q : Wanted) (e : GattCharacteristic) (es : List GattCharacteristic)
    → Within q es
    → ((q.first ≤ e.handle) × (e.handle ≤ q.last)) ⊎ (e.handle ≡ 0)
    → Within q (es ++ e ∷ [])
Within-snoc q e [] h k = (k, tt)
Within-snoc q e (x ∷ es) h k = (h.0, Within-snoc q e es h.1 k)

-- The entries fit into the array, and their handles are as asked for.
abbrev pub Fits : Wanted → List GattCharacteristic → Type 0
Fits q es = Within q es × (length es ≤ q.count_max)

Fits-snoc :
    (q : Wanted) (e : GattCharacteristic) (es : List GattCharacteristic)
    → Fits q es
    → ((q.first ≤ e.handle) × (e.handle ≤ q.last)) ⊎ (e.handle ≡ 0)
    → length es < q.count_max
    → Fits q (es ++ e ∷ [])
Fits-snoc q e es h k n = (Within-snoc q e es h.0 k, omega (arith, length-append es (e ∷ [])))

module _ (bus : Bus) (sb : ServiceBus) (open_proxy : ℕ → Opened)
    (complete : Complete bus sb open_proxy) (q : Wanted) (short : q.last < 2 ^ 16) where
  -- A step ends without a fault, and what is found still fits.
  abbrev Ended : Option (List GattCharacteristic × World) → Type 0
  Ended r = (found : List GattCharacteristic) × (w : World) × (r ≡ some (found, w)) × Fits q found

  new_entry_lem :
      (o handle : ℕ) (p : FlaggedProxy)
      → bus.is_characteristic o ≡ true
      → open_proxy o ≡ opened p
      → (e : GattCharacteristic) × (new_entry bus handle p ≡ some e) × (e.handle ≡ handle % 2 ^ 16)
  new_entry_lem o handle p is op = elim (Option-cases p.flags) [
    | inl e ↦ absurd (complete.has_flags o p is op e)
    | inr (flags, ef) ↦ elim (Option-cases p.uuid) [
      | inl e ↦ absurd (complete.has_uuid o p is op e)
      | inr (text, et) ↦ (
        record {
          handle = handle % 2 ^ 16;
          properties = flag_bits flags 0;
          value_handle = handle % 2 ^ 16;
          uuid = parsed_uuid (string_to_uuid bus.parse text).1;
        },
        rw (ef, et) refl,
        refl,
      )
    ]
  ]

  -- What one characteristic does to the list.
  abbrev Added : Text → ℕ → List GattCharacteristic → World → Type 0
  Added service_path o found w =
      (found' : List GattCharacteristic) × (w' : World) × (with_opened bus q service_path o
          (open_proxy o) false found w
        ≡ some (false, found', w'))
      × Fits q found'

  in_range :
      (service_path theirs : Text) (o handle : ℕ) (p : FlaggedProxy)
      (found : List GattCharacteristic) (w : World)
      → bus.is_characteristic o ≡ true
      → Fits q found
      → open_proxy o ≡ opened p
      → p.service ≡ some theirs
      → same_bytes theirs service_path ≡ true
      → last_handle bus o ≡ some handle
      → Added service_path o found w
  in_range service_path theirs o handle p found w is h op es same eh =
      elim (Bool-cases (ltb handle q.first || ltb q.last handle)) [
        | inl out ↦ (found, w, rw (op, es, same, eh, out) refl, h)
        | inr within ↦ elim (Bool-cases (ltb (length found) q.count_max)) [
          | inr full ↦ (found, w, rw (op, es, same, eh, within, full) refl, h)
          | inl free ↦
              let (e, ee, he) = new_entry_lem o handle p is op in
              (
                found ++ e ∷ [],
                emit (object_unref p.object) w,
                rw (op, es, same, eh, within, free) (ap put ee),
                Fits-snoc q e found h (inl (ground arith)) (ground arith),
              )
        ]
      ]
    where
      put : Option GattCharacteristic → Option (Bool × List GattCharacteristic × World)
      put r = do
        (found', w') ← do e ← r; some (found ++ e ∷ [], emit (object_unref p.object) w)
        some (false, found', w')

  added :
      (service_path : Text) (o : ℕ) (found : List GattCharacteristic) (w : World)
      → bus.is_characteristic o ≡ true
      → Fits q found
      → Added service_path o found w
  added service_path o found w is h =
      let (p, op) = complete.opens o is in
      elim (Option-cases p.service) [
        | inl e ↦ absurd (complete.has_service o p is op e)
        | inr (theirs, es) ↦ elim (Bool-cases (same_bytes theirs service_path)) [
          | inr differ ↦ (found, emit (object_unref p.object) w, rw (op, es, differ) refl, h)
          | inl same ↦ elim (Option-cases (last_handle bus o)) [
            | inl e ↦ absurd (complete.has_handle o is e)
            | inr (handle, eh) ↦ in_range service_path theirs o handle p found w is h op es same eh
          ]
        ]
      ]

  over_characteristic :
      (service_path : Text) (o : ℕ) (os : List ℕ) (found found1 : List GattCharacteristic)
      (w w1 : World)
      → bus.is_characteristic o ≡ true
      → with_opened bus q service_path o (open_proxy o) false found w ≡ some (false, found1, w1)
      → add_characteristics_from_service bus open_proxy q service_path (o ∷ os) false found w
        ≡ add_characteristics_from_service bus open_proxy q service_path os false found1 w1
  unfolding add_characteristics_from_service
  over_characteristic service_path o os found found1 w w1 is e = rw (is, e) refl

  over_other :
      (service_path : Text) (o : ℕ) (os : List ℕ) (found : List GattCharacteristic) (w : World)
      → bus.is_characteristic o ≡ false
      → add_characteristics_from_service bus open_proxy q service_path (o ∷ os) false found w
        ≡ add_characteristics_from_service bus open_proxy q service_path os false found w
  unfolding add_characteristics_from_service
  over_other service_path o os found w other = rw other refl

  added_all :
      (service_path : Text) (os : List ℕ) (found : List GattCharacteristic) (w : World)
      → Fits q found
      → Ended (add_characteristics_from_service bus open_proxy q service_path os false found w)
  unfolding add_characteristics_from_service
  added_all service_path [] found w h = (found, w, refl, h)
  added_all service_path (o ∷ os) found w h = elim (Bool-cases (bus.is_characteristic o)) [
    | inr other ↦
        let (found', w', e, h') = added_all service_path os found w h in
        (found', w', over_other service_path o os found w other ∙ e, h')
    | inl is ↦
        let (found1, w1, e1, h1) = added service_path o found w is h in
        let (found', w', e, h') = added_all service_path os found1 w1 h1 in
        (found', w', over_characteristic service_path o os found found1 w w1 is e1 ∙ e, h')
  ]

  add_battery-Fits :
      (o : ℕ) (found : List GattCharacteristic) → Fits q found → Fits q (add_battery bus q o found)
  add_battery-Fits o found h =
      elim (Bool-cases (bus.is_battery o && ltb (length found) q.count_max)) [
        | inr skip ↦ rw skip h
        | inl room ↦
            rw room (Fits-snoc q (battery_entry bus) found h (inr refl) (ground (arith, room)))
      ]

  -- What one service does to the list.
  at_service :
      (objects : List ℕ) (own : Text) (o : ℕ) (r : Option ServiceProxy)
      (found : List GattCharacteristic) (w : World)
      → sb.is_service o ≡ true
      → sb.service o ≡ r
      → Fits q found
      → Ended (with_service_proxy bus open_proxy q objects (some own) o r found w)
  unfolding add_characteristics_from_service
  at_service objects own o none found w is es h = (found, w, refl, h)
  at_service objects own o (some p) found w is es h = elim (Option-cases p.device) [
    | inl e ↦ absurd (complete.has_device o p is es e)
    | inr (theirs, e) ↦ elim (Bool-cases (same_bytes own theirs)) [
      | inr differ ↦ (found, emit (object_unref p.object) w, rw (e, differ) refl, h)
      | inl same ↦
          let (found', w', f, h') = added_all (bus.path o) objects found w h in
          (found', emit (object_unref p.object) w', rw (e, same) (ap give_back f), h')
    ]
  ]
    where
      give_back :
          Option (List GattCharacteristic × World) → Option (List GattCharacteristic × World)
      give_back r = do (found', w') ← r; some (found', emit (object_unref p.object) w')

  over_service :
      (objects : List ℕ) (own : Text) (o : ℕ) (os : List ℕ) (found found1 : List GattCharacteristic)
      (w w1 : World)
      → sb.is_service o ≡ true
      → with_service_proxy bus open_proxy q objects (some own) o (sb.service o) found w
        ≡ some (found1, w1)
      → services_loop bus sb open_proxy q objects (some own) (o ∷ os) found w
        ≡ services_loop bus sb open_proxy q objects (some own) os found1 w1
  unfolding services_loop
  over_service objects own o os found found1 w w1 is e = rw (is, e) refl

  over_battery :
      (objects : List ℕ) (own : Text) (o : ℕ) (os : List ℕ) (found : List GattCharacteristic)
      (w : World)
      → sb.is_service o ≡ false
      → services_loop bus sb open_proxy q objects (some own) (o ∷ os) found w
        ≡ services_loop bus sb open_proxy q objects (some own) os (add_battery bus q o found) w
  unfolding services_loop
  over_battery objects own o os found w other = rw other refl

  pub services_loop_lem :
      (objects : List ℕ) (own : Text) (os : List ℕ) (found : List GattCharacteristic) (w : World)
      → Fits q found
      → Ended (services_loop bus sb open_proxy q objects (some own) os found w)
  unfolding services_loop
  services_loop_lem objects own [] found w h = (found, w, refl, h)
  services_loop_lem objects own (o ∷ os) found w h = elim (Bool-cases (sb.is_service o)) [
    | inr other ↦
        let (found', w', e, h') =
          services_loop_lem objects own os (add_battery bus q o found) w
            (add_battery-Fits o found h) in
        (found', w', over_battery objects own o os found w other ∙ e, h')
    | inl is ↦
        let (found1, w1, e1, h1) = at_service objects own o (sb.service o) found w is refl h in
        let (found', w', e, h') = services_loop_lem objects own os found1 w1 h1 in
        (found', w', over_service objects own o os found found1 w w1 is e1 ∙ e, h')
  ]

module _ (case : AsciiCase) (w : World) (h : WellFormed case w) (c : ℕ) (p : Place c w) (bus : Bus)
    (sb : ServiceBus) (open_proxy : ℕ → Opened) (complete : Complete bus sb open_proxy) (own : Text)
    (has_path : p.device.connection.backend.device_object_path ≡ some own) (m : ℕ)
    (has_manager : p.adapter.device_manager ≡ some m) (memory : sb.memory ≡ true)
    (live : p.device.connection.backend.objects_freed ≡ false) where
  -- The range with room for every characteristic and battery of the connection.
  abbrev pub wanted : ℕ → ℕ → Wanted
  wanted first last = record {
    first = first;
    last = last;
    count_max = count_characteristics bus p.device.connection.backend.dbus_objects;
  }

  abbrev run :
      Option (List GattCharacteristic × World) → Option (ℕ × Array GattCharacteristic × World)
  run r = do (found, w') ← r; some (success, array_of found, w')

  to_loop :
      (first last : ℕ)
      → discover_char_range c first last bus sb open_proxy w
        ≡ run (
            services_loop bus sb open_proxy
              (wanted first last)
              p.device.connection.backend.dbus_objects
              (some own)
              p.device.connection.backend.dbus_objects
              []
              w)
  unfolding discover_char_range get_device_manager
  to_loop first last =
      rw
        (
          valid-Place case w h c p,
          p.stored,
          (Place-ok case w h c p).owner,
          p.adapter_stored,
          has_manager,
          live,
          memory,
          has_path,
        )
        refl

  -- On a live connection with a path, a device manager and objects that are not freed, where there is
  -- memory and the characteristics and services among the objects are as BlueZ makes them, the
  -- discovery of the characteristics of a range of 16-bit handles succeeds: it writes no more entries
  -- than there are characteristics and batteries, which is the size of the array, and each entry's
  -- handle is in the range or the 0 of a battery.
  pub discover_char_range-Fits :
      (first last : ℕ)
      → last < 2 ^ 16
      → (found : List GattCharacteristic) × (w' : World) × (discover_char_range c first last bus sb
            open_proxy w
          ≡ some (success, array_of found, w'))
        × Fits (wanted first last) found
  discover_char_range-Fits first last short =
      let (found, w', e, fits) =
        services_loop_lem bus sb open_proxy complete (wanted first last) short
          p.device.connection.backend.dbus_objects own p.device.connection.backend.dbus_objects [] w
          (tt, omega arith) in
      (found, w', to_loop first last ∙ ap run e, fits)

  -- `gattlib_discover_char` asks for the handles up to 0xFF only: no characteristic with a handle
  -- beyond them is reported, though handles have 16 bits.
  pub discover_char-Fits :
      (found : List GattCharacteristic) × (w' : World) × (discover_char c bus sb open_proxy w
        ≡ some (success, array_of found, w'))
      × Fits (wanted 0 0xFF) found
  unfolding discover_char
  discover_char-Fits = discover_char_range-Fits 0 0xFF (omega arith)
