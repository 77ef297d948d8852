-- ===== src/Discovery/Listed.antt =====
-- `gattlib_discover_primary` of dbus/gattlib.c as built for BlueZ below 5.38, where the device lists the
-- paths of its services.
use gattlibcpp.Base.{
  ℕ, suc, ◌+◌, ◌≤◌, ◌≡◌, refl, sym, ap, ◌∙◌, Bool, true, Option, none, some, List, [], ◌∷◌, ◌++◌,
  ltb, if◌then◌else◌, ◌>>=◌, length, length-append, Bool-cases, inl, inr, arith,
}
use mathlib.Core.List.{append-nil, append_assoc}
use gattlibcpp.Glib.{AsciiCase}
use gattlibcpp.Device.Invariant.{WellFormed}
use gattlibcpp.Validity.Place.{Place, valid-Place}
use gattlibcpp.Connection.Safe.{Same, Same-refl, Same-trans}
use gattlibcpp.World.{Text, World, object_unref, emit}
use gattlibcpp.World.Codes.{success, invalid_parameter, out_of_memory, device_disconnected}
use gattlibcpp.Uuid.{Parsed, string_to_uuid}
use gattlibcpp.Validity.{connection_is_valid}
use gattlibcpp.Discovery.{
  PrimaryService, ServiceProxy, Array, unwritten, no_array, array_of, parsed_uuid,
}

-- What D-Bus tells of a device, the paths of its services if it has the property, and of a path;
-- BlueZ's parser, and whether there is memory for the array.
pub record ListedBus : Type 0 where
  pub gatt_services : ℕ → Option (List Text)
  pub service : Text → Option ServiceProxy
  pub parse : Text → Parsed
  pub memory : Bool

-- The handles of an entry are 0; a NULL text for the UUID is a fault.
abbrev pub listed_entry : (Text → Parsed) → ServiceProxy → Option PrimaryService
listed_entry parse p = do
  text ← p.uuid
  some (record {
    attr_handle_start = 0;
    attr_handle_end = 0;
    uuid = parsed_uuid (string_to_uuid parse text).1;
  })

-- A service more than the array has room for is written behind it, which is a fault.
abbrev pub add_listed :
    ListedBus
    → ℕ
    → Option ServiceProxy
    → List PrimaryService
    → World
    → Option (List PrimaryService × World)
add_listed bus count_max none found w = some (found, w)
add_listed bus count_max (some p) found w =
    if p.primary
    then (do
      entry ← listed_entry bus.parse p
      if ltb (length found) count_max
          then some (found ++ entry ∷ [], emit (object_unref p.object) w)
          else none)
    else some (found, emit (object_unref p.object) w)

unfoldable pub listed_loop :
    ListedBus → ℕ → List Text → List PrimaryService → World → Option (List PrimaryService × World)
unfolding string_to_uuid
listed_loop bus count_max [] found w = some (found, w)
listed_loop bus count_max (path ∷ paths) found w = do
  (found', w1) ← add_listed bus count_max (bus.service path) found w
  listed_loop bus count_max paths found' w1

-- Without the property the device's reference is not given back.
abbrev pub with_listed :
    ListedBus → ℕ → Option (List Text) → World → Option (ℕ × Array PrimaryService × World)
with_listed bus device none w = some (success, no_array, w)
with_listed bus device (some paths) w =
    if bus.memory
    then (do
      (found, w1) ← listed_loop bus (length paths) paths [] w
      some (success, array_of found, emit (object_unref device) w1))
    else some (out_of_memory, unwritten, emit (object_unref device) w)

-- `gattlib_discover_primary`; `g_object_ref` of NULL and its services are a fault.
unfoldable pub discover_primary_listed :
    Option ℕ → ListedBus → World → Option (ℕ × Array PrimaryService × World)
unfolding listed_loop
discover_primary_listed none bus w = some (invalid_parameter, unwritten, w)
discover_primary_listed (some c) bus w = do
  valid ← connection_is_valid c w
  if valid
      then (do
        dev ← w.devices c
        device ← dev.connection.backend.device
        with_listed bus device (bus.gatt_services device) w)
      else some (device_disconnected, unwritten, w)

-- The entry that a service gives, if it is a primary one, and the entries of a list of paths, in order.
abbrev pub entry_of : (Text → Parsed) → Option ServiceProxy → Option PrimaryService
entry_of parse none = none
entry_of parse (some p) = if p.primary then listed_entry parse p else none

abbrev pub put : Option PrimaryService → List PrimaryService → List PrimaryService
put none es = es
put (some e) es = e ∷ es

abbrev pub entries_of : ListedBus → List Text → List PrimaryService
entries_of bus [] = []
entries_of bus (path ∷ paths) = put (entry_of bus.parse (bus.service path)) (entries_of bus paths)

-- A primary service tells its UUID.
abbrev pub Known : Option ServiceProxy → Type 0
Known none = Unit {0}
Known (some p) = p.primary ≡ true → (text : Text) × (p.uuid ≡ some text)

length-put :
    (e : Option PrimaryService) (es : List PrimaryService) → length (put e es) ≤ suc (length es)
length-put none es = omega arith
length-put (some e) es = omega arith

length-entries_of :
    (bus : ListedBus) (paths : List Text) → length (entries_of bus paths) ≤ length paths
length-entries_of bus [] = omega arith
length-entries_of bus (path ∷ paths) =
    let one = length-put (entry_of bus.parse (bus.service path)) (entries_of bus paths) in
    omega (arith, length-entries_of bus paths)

add_listed_lem :
    (bus : ListedBus) (count_max : ℕ) (o : Option ServiceProxy) (found : List PrimaryService)
    (w : World)
    → Known o
    → ltb (length found) count_max ≡ true
    → (w' : World) × (add_listed bus count_max o found w
        ≡ some (found ++ put (entry_of bus.parse o) [], w'))
      × Same w w'
add_listed_lem bus count_max none found w known room =
    (w, ap (λ l. some (l, w)) (sym (append-nil found)), Same-refl w)
add_listed_lem bus count_max (some p) found w known room = elim (Bool-cases p.primary) [
  | inl e ↦
      let (text, u) = known e in (emit (object_unref p.object) w, rw (e, u, room) refl, Same-refl w)
  | inr e ↦
      let nil = append-nil found in (emit (object_unref p.object) w, rw (e, nil) refl, Same-refl w)
]

listed_loop_lem :
    (bus : ListedBus) (count_max : ℕ) (paths : List Text) (found : List PrimaryService) (w : World)
    → ((path : Text) → Known (bus.service path))
    → length found + length paths ≤ count_max
    → (w' : World) × (listed_loop bus count_max paths found w
        ≡ some (found ++ entries_of bus paths, w'))
      × Same w w'
unfolding listed_loop
listed_loop_lem bus count_max [] found w known room =
    (w, ap (λ l. some (l, w)) (sym (append-nil found)), Same-refl w)
listed_loop_lem bus count_max (path ∷ paths) found w known room =
    let o = bus.service path in
    let e = entry_of bus.parse o in
    let (w1, f, s) = add_listed_lem bus count_max o found w (known path) (ground arith) in
    let one = length-put e [] in
    let sum = length-append found (put e []) in
    let (w2, g, t) =
      listed_loop_lem bus count_max paths (found ++ put e []) w1 known (omega arith) in
    (w2, rw f g ∙ ap (λ l. some (l, w2)) (joined e), Same-trans w w1 w2 s t)
  where
    joined :
        (e : Option PrimaryService)
        → (found ++ put e []) ++ entries_of bus paths ≡ found ++ put e (entries_of bus paths)
    joined none = append_assoc found [] (entries_of bus paths)
    joined (some x) = append_assoc found (x ∷ []) (entries_of bus paths)

if_true {ℓ} : {A : Type ℓ} (b : Bool) (x y : A) → b ≡ true → (if b then x else y) ≡ x
if_true b x y e = rw e refl

with_listed_lem :
    (bus : ListedBus) (device : ℕ) (paths : List Text) (es : List PrimaryService) (w w1 : World)
    → bus.memory ≡ true
    → listed_loop bus (length paths) paths [] w ≡ some (es, w1)
    → with_listed bus device (some paths) w
      ≡ some (success, array_of es, emit (object_unref device) w1)
with_listed_lem bus device paths es w w1 memory f =
    if_true bus.memory _ _ memory
    ∙ ap (λ r. do (found, w2) ← r; some (success, array_of found, emit (object_unref device) w2)) f

-- On a listed device with a proxy, where D-Bus lists the services of the device, where each primary one
-- tells its UUID and where there is memory: the discovery succeeds with the entries of the primary
-- services in the order of the list, no more than the array has room for, and no object changes.
pub discover_primary_listed_lem :
    (case : AsciiCase) (w : World) (h : WellFormed case w) (c : ℕ) (p : Place c w) (bus : ListedBus)
    (device : ℕ) (paths : List Text)
    → p.device.connection.backend.device ≡ some device
    → bus.gatt_services device ≡ some paths
    → bus.memory ≡ true
    → ((path : Text) → Known (bus.service path))
    → (w' : World) × (discover_primary_listed (some c) bus w
        ≡ some (success, array_of (entries_of bus paths), w'))
      × (length (entries_of bus paths) ≤ length paths)
      × Same w w'
unfolding discover_primary_listed
discover_primary_listed_lem case w h c p bus device paths e services memory known =
    let valid = valid-Place case w h c p in
    let (w1, f, s) = listed_loop_lem bus (length paths) paths [] w known (omega arith) in
    (
      emit (object_unref device) w1,
      rw (valid, p.stored, e, services)
          (with_listed_lem bus device paths (entries_of bus paths) w w1 memory f),
      length-entries_of bus paths,
      s,
    )
