-- ===== src/Characteristic.antt =====
-- GATT characteristics over D-Bus, dbus/gattlib_char.c: the search by UUID and by handle. (Reading
-- and writing are in Characteristic/Access.antt.) What D-Bus knows of its objects is a parameter.
pub mod Access
pub mod Search
pub mod Safe
pub mod Calls
use gattlibcpp.Base.{
  ℕ, ◌-◌, ◌≡◌, Bool, true, false, ◌&&◌, Option, none, some, List, [], ◌∷◌, ◌==◌, ltb, if◌then◌else◌,
  ◌>>=◌, length, drop,
}
use gattlibcpp.World.{
  Text, Uuid, uuid16, ConnectionBackend, live_objects, Device, World, object_unref, emit,
}
use gattlibcpp.Uuid.{Parsed, string_to_uuid, uuid_cmp, same_bytes}
use gattlibcpp.Validity.{connection_is_connected}
use gattlibcpp.Adapter.{get_device_manager}

-- `struct dbus_characteristic`
pub data DbusCharacteristic : Type 0 where
  type_none : DbusCharacteristic
  type_gatt : ℕ → DbusCharacteristic
  type_battery_level : ℕ → DbusCharacteristic

-- A proxy of a characteristic: its object, its UUID, and the device path that its service tells,
-- if there is a proxy of the service.
pub record CharacteristicProxy : Type 0 where
  pub object : ℕ
  pub uuid : Option Text
  pub device : Option Text

-- What D-Bus, BlueZ's UUID parser and `sscanf("%x")` answer, by object.
pub record Bus : Type 0 where
  pub manager : Option ℕ
  pub is_characteristic : ℕ → Bool
  pub characteristic : ℕ → Option CharacteristicProxy
  pub is_battery : ℕ → Bool
  pub battery : ℕ → Option ℕ
  pub path : ℕ → Text
  pub parse : Text → Parsed
  pub scan_hex : Text → Option ℕ

abbrev pub battery_level_uuid : Uuid
battery_level_uuid = uuid16 0x2A19

abbrev pub ccc_uuid : Uuid
ccc_uuid = uuid16 0x2902

-- The proxy is not the one that is looked for.
abbrev pub reject : CharacteristicProxy → World → Option (Option ℕ × World)
reject p w = some (none, emit (object_unref p.object) w)

-- `strcmp` with an unset path is a fault.
abbrev pub same_path : Option Text → Text → CharacteristicProxy → World → Option (Option ℕ × World)
same_path none theirs p w = none
same_path (some own) theirs p w =
    if same_bytes own theirs then some (some p.object, w) else reject p w

abbrev pub right_device : Option Text → CharacteristicProxy → World → Option (Option ℕ × World)
right_device own p w = elim p.device [ none ↦ reject p w | some theirs ↦ same_path own theirs p w ]

-- A UUID that could not be parsed would be compared unset, which is a fault.
abbrev pub right_uuid :
    Option Text → Uuid → Option Uuid → CharacteristicProxy → World → Option (Option ℕ × World)
right_uuid own uuid none p w = none
right_uuid own uuid (some theirs) p w =
    if uuid_cmp uuid theirs == 0 then right_device own p w else reject p w

abbrev pub wanted_proxy :
    (Text → Parsed)
    → Option Text
    → Option Uuid
    → CharacteristicProxy
    → World
    → Option (Option ℕ × World)
wanted_proxy parse own none p w = right_device own p w
wanted_proxy parse own (some uuid) p w = elim p.uuid [
  | none ↦ reject p w
  | some text ↦ right_uuid own uuid (string_to_uuid parse text).1 p w
]

-- `handle_dbus_gattcharacteristic_from_path`
unfoldable pub characteristic_from_path :
    (Text → Parsed)
    → Option Text
    → Option Uuid
    → Option CharacteristicProxy
    → World
    → Option (Option ℕ × World)
characteristic_from_path parse own uuid none w = some (none, w)
characteristic_from_path parse own uuid (some p) w = wanted_proxy parse own uuid p w

-- `handle_dbus_battery_from_uuid`: it never says that it found one, so the search goes on.
abbrev pub battery_or : Option ℕ → DbusCharacteristic → DbusCharacteristic
battery_or none found = found
battery_or (some b) found = type_battery_level b

abbrev pub battery_step : Bus → Bool → ℕ → DbusCharacteristic → DbusCharacteristic
battery_step bus is_battery_level o found =
    if is_battery_level && bus.is_battery o then battery_or (bus.battery o) found else found

abbrev pub look_at : Bus → Option Text → Option Uuid → ℕ → World → Option (Option ℕ × World)
look_at bus own uuid o w =
    if bus.is_characteristic o
    then characteristic_from_path bus.parse own uuid (bus.characteristic o) w
    else some (none, w)

-- The loop of `get_characteristic_from_uuid` over the objects.
unfoldable pub search_uuid :
    Bus
    → Option Text
    → Uuid
    → Bool
    → List ℕ
    → DbusCharacteristic
    → World
    → Option (DbusCharacteristic × World)
search_uuid bus own uuid is_battery_level [] found w = some (found, w)
search_uuid bus own uuid is_battery_level (o ∷ os) found w = do
  (hit, w1) ← look_at bus own (some uuid) o w
  elim hit [
    | some g ↦ some (type_gatt g, w1)
    | none ↦
        search_uuid bus own uuid is_battery_level os (battery_step bus is_battery_level o found) w1
  ]

-- The last four characters of the path; a shorter path would be read before its start.
abbrev pub path_handle : Bus → ℕ → ℕ → Option ℕ
path_handle bus o previous =
    if ltb (length (bus.path o)) 4
    then none
    else elim (bus.scan_hex (drop (length (bus.path o) - 4) (bus.path o))) [
      | none ↦ some previous
      | some h ↦ some h
    ]

abbrev pub look_at_handle : Bus → Option Text → ℕ → ℕ → ℕ → World → Option (ℕ × Option ℕ × World)
look_at_handle bus own handle o previous w =
    if bus.is_characteristic o
    then (do
      h ← path_handle bus o previous
      (hit, w1) ←
          if h == handle
          then characteristic_from_path bus.parse own none (bus.characteristic o) w
          else some (none, w)
      some (h, hit, w1))
    else some (previous, none, w)

-- The loop of `get_characteristic_from_handle`; `previous` is what the variable `char_handle` holds.
unfoldable pub search_handle :
    Bus → Option Text → ℕ → List ℕ → ℕ → World → Option (DbusCharacteristic × World)
search_handle bus own handle [] previous w = some (type_none, w)
search_handle bus own handle (o ∷ os) previous w = do
  (h, hit, w1) ← look_at_handle bus own handle o previous w
  elim hit [ some g ↦ some (type_gatt g, w1) | none ↦ search_handle bus own handle os h w1 ]

abbrev pub search_live :
    Bus → ConnectionBackend → Uuid → Bool → World → Option (DbusCharacteristic × World)
search_live bus b uuid is_battery_level w = do
  objects ← live_objects b
  search_uuid bus b.device_object_path uuid is_battery_level objects type_none w

abbrev pub search_known :
    ℕ → Device → Bus → Uuid → Option ℕ → World → Option (DbusCharacteristic × World)
search_known c dev bus uuid none w = some (type_none, w)
search_known c dev bus uuid (some m) w =
    if uuid_cmp uuid battery_level_uuid == 0
    then search_live bus dev.connection.backend uuid true w
    else if uuid_cmp uuid ccc_uuid == 0
    then some (type_none, w)
    else search_live bus dev.connection.backend uuid false w

unfoldable pub get_characteristic_from_uuid :
    ℕ → Uuid → Bus → World → Option (DbusCharacteristic × World)
unfolding get_device_manager
get_characteristic_from_uuid c uuid bus w = do
  answer ← connection_is_connected c w
  if answer
      then (do
        dev ← w.devices c
        (m, w1) ← get_device_manager dev.adapter bus.manager w
        search_known c dev bus uuid m w1)
      else some (type_none, w)

abbrev pub search_known_handle :
    ℕ → Device → Bus → ℕ → ℕ → Option ℕ → World → Option (DbusCharacteristic × World)
search_known_handle c dev bus handle unset none w = some (type_none, w)
search_known_handle c dev bus handle unset (some m) w = do
  objects ← live_objects dev.connection.backend
  search_handle bus dev.connection.backend.device_object_path handle objects unset w

-- `unset` is what `char_handle` holds before the first path is read.
unfoldable pub get_characteristic_from_handle :
    ℕ → ℕ → Bus → ℕ → World → Option (DbusCharacteristic × World)
unfolding get_device_manager
get_characteristic_from_handle c handle bus unset w = do
  answer ← connection_is_connected c w
  if answer
      then (do
        dev ← w.devices c
        (m, w1) ← get_device_manager dev.adapter bus.manager w
        search_known_handle c dev bus handle unset m w1)
      else some (type_none, w)
