-- ===== src/Discovery/Handles.antt =====
-- The primary services that `gattlib_discover_primary` of dbus/gattlib.c finds: their handles, and
-- the size of the array they are written to.
use gattlibcpp.Base.{
  ℕ, ◌+◌, ◌%◌, ◌^◌, ◌≤◌, ◌<◌, ◌≡◌, ◌≢◌, refl, ap, ◌∙◌, ◌>>=◌, inl, inr, true, false, ◌&&◌, ◌||◌,
  Option, none, some, List, [], ◌∷◌, ◌++◌, ltb, if◌then◌else◌, length, drop, ◌-◌, length-append,
  Bool-cases, Option-cases, arith,
}
use gattlibcpp.DbusError.{has_prefix}
use gattlibcpp.World.{Text, World, object_unref, emit}
use gattlibcpp.Uuid.{same_bytes, string_to_uuid}
use gattlibcpp.Glib.{AsciiCase}
use gattlibcpp.World.Codes.{success}
use gattlibcpp.Device.Invariant.{WellFormed}
use gattlibcpp.Validity.Place.{Place, Place-ok, valid-Place}
use gattlibcpp.Adapter.{get_device_manager}
use gattlibcpp.Characteristic.{Bus, path_handle}
use gattlibcpp.Discovery.{
  PrimaryService, ServiceProxy, ServiceBus, parsed_uuid, max_of, end_handle, primary_service,
  primary_loop, with_service, discover_primary, Array, array_of,
}

-- What BlueZ's services and characteristics are like: the path of one ends in four characters, which
-- give a number of 16 bits if they give one, and a service tells its UUID. Nothing is asked of other
-- texts or objects.
pub record Regular (bus : Bus) (sb : ServiceBus) : Type 0 where
  pub long_path :
      (o : ℕ)
      → (sb.is_service o || bus.is_characteristic o) ≡ true
      → ltb (length (bus.path o)) 4 ≡ false
  pub short_handle :
      (o h : ℕ)
      → (sb.is_service o || bus.is_characteristic o) ≡ true
      → bus.scan_hex (drop (length (bus.path o) - 4) (bus.path o)) ≡ some h
      → h < 2 ^ 16
  pub has_uuid :
      (o : ℕ) (p : ServiceProxy) → sb.is_service o ≡ true → sb.service o ≡ some p → p.uuid ≢ none

-- Is it a primary service of the device with a path? 1 or 0.
abbrev pub own_primary : Text → Option ServiceProxy → ℕ
own_primary own r = elim r [
  | none ↦ 0
  | some p ↦ elim p.device [
    | none ↦ 0
    | some theirs ↦ if same_bytes own theirs then (if p.primary then 1 else 0) else 0
  ]
]

-- The number of primary services of the device among the objects.
abbrev pub count_primary : ServiceBus → Text → List ℕ → ℕ
count_primary sb own [] = 0
count_primary sb own (o ∷ os) =
    (if sb.is_service o then own_primary own (sb.service o) else 0) + count_primary sb own os

-- Every service's range of handles has its start first.
abbrev pub Ordered : List PrimaryService → Type 0
Ordered [] = Unit {0}
Ordered (s ∷ ss) = (s.attr_handle_start ≤ s.attr_handle_end) × Ordered ss

Ordered-snoc :
    (s : PrimaryService) (ss : List PrimaryService)
    → Ordered ss
    → s.attr_handle_start ≤ s.attr_handle_end
    → Ordered (ss ++ s ∷ [])
Ordered-snoc s [] h e = (e, tt)
Ordered-snoc s (x ∷ ss) h e = (h.0, Ordered-snoc s ss h.1 e)

module _ (bus : Bus) (sb : ServiceBus) (regular : Regular bus sb) where
  path_handle_lem :
      (o last : ℕ)
      → (sb.is_service o || bus.is_characteristic o) ≡ true
      → last < 2 ^ 16
      → (h : ℕ) × (path_handle bus o last ≡ some h) × (h < 2 ^ 16)
  path_handle_lem o last of_gatt small =
      let tail = drop (length (bus.path o) - 4) (bus.path o) in
      elim (Option-cases (bus.scan_hex tail)) [
        | inl e ↦ (last, rw (regular.long_path o of_gatt, e), small)
        | inr (h, e) ↦ (h, rw (regular.long_path o of_gatt, e), regular.short_handle o h of_gatt e)
      ]

  -- The end handle never falls below the one it starts from.
  end_handle_lem :
      (prefix : Text) (os : List ℕ) (last : ℕ)
      → last < 2 ^ 16
      → (e : ℕ) × (end_handle bus prefix os last ≡ some e) × (last ≤ e)
  unfolding end_handle
  end_handle_lem prefix [] last small = (last, refl, omega arith)
  end_handle_lem prefix (o ∷ os) last small =
      elim (Bool-cases (bus.is_characteristic o && has_prefix prefix (bus.path o))) [
        | inr other ↦ rw other (end_handle_lem prefix os last small)
        | inl own ↦
            let (h, eh, hs) = path_handle_lem o last (ground (arith, own)) small in
            let (e, ee, le) = end_handle_lem prefix os (max_of last h % 2 ^ 16) (omega arith) in
            (e, rw (own, eh) ee, ground arith)
      ]

  primary_service_lem :
      (objects : List ℕ) (o : ℕ) (p : ServiceProxy)
      → sb.is_service o ≡ true
      → sb.service o ≡ some p
      → (s : PrimaryService) × (primary_service bus objects o p ≡ some s)
        × (s.attr_handle_start ≤ s.attr_handle_end)
  unfolding primary_service
  primary_service_lem objects o p is e =
      let (h, eh, hs) = path_handle_lem o 0xFFFF (ground (arith, is)) (omega arith) in
      let (last, el, le) = end_handle_lem (bus.path o) objects (h % 2 ^ 16) (omega arith) in
      elim (Option-cases p.uuid) [
        | inl missing ↦ absurd (regular.has_uuid o p is e missing)
        | inr (text, et) ↦ (
          record {
            attr_handle_start = h % 2 ^ 16;
            attr_handle_end = last;
            uuid = parsed_uuid (string_to_uuid bus.parse text).1;
          },
          rw (eh, el, et),
          le,
        )
      ]

  -- One service is passed over, or it is put at the end.
  abbrev Stepped : List ℕ → ℕ → Text → ℕ → List PrimaryService → World → Type 0
  Stepped objects count_max own o found w =
      (found' : List PrimaryService) × (w' : World) × (with_service bus objects count_max (some own)
          o (sb.service o) found w
        ≡ some (found', w'))
      × Ordered found'
      × (length found' ≡ length found + own_primary own (sb.service o))

  module _ (objects : List ℕ) (count_max : ℕ) (own : Text) (o : ℕ) (found : List PrimaryService)
      (w : World) (is : sb.is_service o ≡ true) (h : Ordered found)
      (room : length found + own_primary own (sb.service o) ≤ count_max) where
    passed :
        (w1 : World)
        → with_service bus objects count_max (some own) o (sb.service o) found w ≡ some (found, w1)
        → own_primary own (sb.service o) ≡ 0
        → Stepped objects count_max own o found w
    passed w1 e z = (found, w1, e, h, omega arith)

    taken :
        (p : ServiceProxy) (theirs : Text) (s : PrimaryService)
        → sb.service o ≡ some p
        → p.device ≡ some theirs
        → same_bytes own theirs ≡ true
        → p.primary ≡ true
        → primary_service bus objects o p ≡ some s
        → with_service bus objects count_max (some own) o (sb.service o) found w
          ≡ some (found ++ s ∷ [], emit (object_unref p.object) w)
    taken p theirs s e f same primary es =
        let one : own_primary own (sb.service o) ≡ 1 = rw (e, f, same, primary) refl in
        let free : ltb (length found) count_max ≡ true = ground arith in
        rw (e, f, same, es, primary, free) refl

    at_primary :
        (p : ServiceProxy) (theirs : Text)
        → sb.service o ≡ some p
        → p.device ≡ some theirs
        → same_bytes own theirs ≡ true
        → Stepped objects count_max own o found w
    at_primary p theirs e f same = elim (Bool-cases p.primary) [
      | inr secondary ↦
          passed (emit (object_unref p.object) w) (rw (e, f, same, secondary) refl)
            (rw (e, f, same, secondary) refl)
      | inl primary ↦
          let (s, es, le) = primary_service_lem objects o p is e in
          let one : own_primary own (sb.service o) ≡ 1 = rw (e, f, same, primary) refl in
          (
            found ++ s ∷ [],
            emit (object_unref p.object) w,
            taken p theirs s e f same primary es,
            Ordered-snoc s found h le,
            omega (arith, length-append found (s ∷ [])),
          )
    ]

    stepped : (r : Option ServiceProxy) → sb.service o ≡ r → Stepped objects count_max own o found w
    stepped none e = passed w (rw e refl) (rw e refl)
    stepped (some p) e = elim (Option-cases p.device) [
      | inl f ↦ passed w (rw (e, f) refl) (rw (e, f) refl)
      | inr (theirs, f) ↦ elim (Bool-cases (same_bytes own theirs)) [
        | inr differ ↦
            passed (emit (object_unref p.object) w) (rw (e, f, differ) refl)
              (rw (e, f, differ) refl)
        | inl same ↦ at_primary p theirs e f same
      ]
    ]

  over_other :
      (objects : List ℕ) (count_max : ℕ) (own : Text) (o : ℕ) (os : List ℕ)
      (found : List PrimaryService) (w : World)
      → sb.is_service o ≡ false
      → primary_loop bus sb objects count_max (some own) (o ∷ os) found w
        ≡ primary_loop bus sb objects count_max (some own) os found w
  unfolding primary_loop
  over_other objects count_max own o os found w other = rw other refl

  over_service :
      (objects : List ℕ) (count_max : ℕ) (own : Text) (o : ℕ) (os : List ℕ)
      (found found1 : List PrimaryService) (w w1 : World)
      → sb.is_service o ≡ true
      → with_service bus objects count_max (some own) o (sb.service o) found w ≡ some (found1, w1)
      → primary_loop bus sb objects count_max (some own) (o ∷ os) found w
        ≡ primary_loop bus sb objects count_max (some own) os found1 w1
  unfolding primary_loop
  over_service objects count_max own o os found found1 w w1 service e = rw (service, e) refl

  -- The loop over the objects ends without a fault where the array has room for the primary services
  -- of the device: it writes exactly these, and each range of handles has its start first.
  pub primary_loop_lem :
      (objects : List ℕ) (count_max : ℕ) (own : Text) (os : List ℕ) (found : List PrimaryService)
      (w : World)
      → length found + count_primary sb own os ≤ count_max
      → Ordered found
      → (found' : List PrimaryService) × (w' : World) × (primary_loop bus sb objects count_max
            (some own)
            os
            found
            w
          ≡ some (found', w'))
        × Ordered found'
        × (length found' ≡ length found + count_primary sb own os)
  unfolding primary_loop
  primary_loop_lem objects count_max own [] found w room h = (found, w, refl, h, omega arith)
  primary_loop_lem objects count_max own (o ∷ os) found w room h =
      elim (Bool-cases (sb.is_service o)) [
        | inr other ↦
            let same : count_primary sb own (o ∷ os) ≡ 0 + count_primary sb own os =
              rw other refl in
            let (found', w', e, h', n) =
              primary_loop_lem objects count_max own os found w (omega arith) h in
            (found', w', over_other objects count_max own o os found w other ∙ e, h', omega arith)
        | inl service ↦
            let split : count_primary sb own (o ∷ os)
                ≡ own_primary own (sb.service o) + count_primary sb own os =
              rw service refl in
            let (found1, w1, e1, h1, n1) =
              stepped objects count_max own o found w service h (omega arith) (sb.service o) refl in
            let (found', w', e, h', n) =
              primary_loop_lem objects count_max own os found1 w1 (omega arith) h1 in
            (
              found',
              w',
              over_service objects count_max own o os found found1 w w1 service e1 ∙ e,
              h',
              omega arith,
            )
      ]

module _ (case : AsciiCase) (w : World) (h : WellFormed case w) (c : ℕ) (p : Place c w) (bus : Bus)
    (sb : ServiceBus) (device : ℕ) (has_device : p.device.connection.backend.device ≡ some device)
    (own : Text) (has_path : p.device.connection.backend.device_object_path ≡ some own) (m : ℕ)
    (has_manager : p.adapter.device_manager ≡ some m) (count_max : ℕ)
    (has_uuids : sb.uuid_count ≡ some count_max) (memory : sb.memory ≡ true)
    (live : p.device.connection.backend.objects_freed ≡ false) where
  abbrev objects : List ℕ
  objects = p.device.connection.backend.dbus_objects

  to_loop : discover_primary (some c) bus sb w ≡ (do
    (found, w') ← primary_loop bus sb objects count_max (some own) objects [] w
    some (success, array_of found, w'))
  unfolding discover_primary get_device_manager
  to_loop =
      let owner = (Place-ok case w h c p).owner in
      rw
        (
          valid-Place case w h c p,
          p.stored,
          owner,
          p.adapter_stored,
          has_manager,
          has_device,
          has_uuids,
          memory,
          live,
          has_path,
        )
        refl

  -- On a live connection with a proxy, a path, a device manager and objects that are not freed, where
  -- there is memory, the services and characteristics are as BlueZ makes them, and the device has at
  -- least as many UUIDs as primary services among the objects, the discovery succeeds: it writes
  -- exactly one entry for each primary service of the device, and each one's start handle is at most
  -- its end handle.
  pub discover_primary-Ordered :
      Regular bus sb
      → count_primary sb own objects ≤ count_max
      → (found : List PrimaryService) × (w' : World) × (discover_primary (some c) bus sb w
          ≡ some (success, array_of found, w'))
        × Ordered found
        × (length found ≡ count_primary sb own objects)
  discover_primary-Ordered regular room =
      let (found, w', e, ordered, n) =
        primary_loop_lem bus sb regular objects count_max own objects [] w (omega arith) tt in
      (found, w', to_loop ∙ ap run e, ordered, omega (arith, n))
    where
      run : Option (List PrimaryService × World) → Option (ℕ × Array PrimaryService × World)
      run r = do (found, w') ← r; some (success, array_of found, w')

-- The size of the array is the number of the device's UUIDs, and it is not tested: where the array is
-- full, the next primary service of the device is written behind its end.
pub primary_loop-overflow :
    (bus : Bus) (sb : ServiceBus) (objects : List ℕ) (count_max o : ℕ) (os : List ℕ)
    (own theirs : Text) (p : ServiceProxy) (found : List PrimaryService) (w : World)
    → length found ≡ count_max
    → sb.is_service o ≡ true
    → sb.service o ≡ some p
    → p.device ≡ some theirs
    → same_bytes own theirs ≡ true
    → p.primary ≡ true
    → primary_loop bus sb objects count_max (some own) (o ∷ os) found w ≡ none
unfolding primary_loop
primary_loop-overflow bus sb objects count_max o os own theirs p found w full service e f same
      primary =
    let no_room : ltb (length found) count_max ≡ false = ground arith in
    elim (Option-cases (primary_service bus objects o p)) [
      | inl es ↦ rw (service, e, f, same, es, primary) refl
      | inr (s, es) ↦ rw (service, e, f, same, es, primary, no_room) refl
    ]
