-- ===== src/Discovery/Characteristics.antt =====
-- The discovery of characteristics, `gattlib_discover_char_range` and its helper
-- `add_characteristics_from_service` of dbus/gattlib.c.
use Prim.Native.Nat.{bit_or}
use gattlibcpp.Base.{
  ℕ, suc, ◌%◌, ◌^◌, Bool, true, false, ◌&&◌, ◌||◌, Option, none, some, List, [], ◌∷◌, ◌++◌, ltb,
  if◌then◌else◌, ◌>>=◌, length, drop, ◌-◌,
}
use gattlibcpp.DbusError.{dbus_failure}
use gattlibcpp.World.{Text, codes, Uuid, Device, live_objects, World, object_unref, emit}
use gattlibcpp.World.Codes.{success, out_of_memory, not_supported, device_disconnected}
use gattlibcpp.Uuid.{string_to_uuid, same_bytes}
use gattlibcpp.Validity.{connection_is_valid}
use gattlibcpp.Adapter.{get_device_manager}
use gattlibcpp.Characteristic.{Bus}
use gattlibcpp.Discovery.{ServiceProxy, ServiceBus, Array, unwritten, array_of, parsed_uuid}

-- `gattlib_characteristic_t`
pub record GattCharacteristic : Type 0 where
  pub handle : ℕ  -- uint16_t
  pub properties : ℕ  -- uint8_t
  pub value_handle : ℕ  -- uint16_t
  pub uuid : Uuid

-- A proxy of a characteristic: its object, the path of its service, its flags and its UUID.
pub record FlaggedProxy : Type 0 where
  pub object : ℕ
  pub service : Option Text
  pub flags : Option (List Text)
  pub uuid : Option Text

-- What opening a proxy gives: NULL, with or without an error, or the proxy.
pub data Opened : Type 0 where
  failed_open : Bool → Opened
  opened : FlaggedProxy → Opened

-- GATTLIB_CHARACTERISTIC_ of a flag's text.
abbrev pub flag_bit : Text → ℕ
flag_bit flag =
    if same_bytes flag (codes "broadcast")
    then 0x01
    else if same_bytes flag (codes "read")
    then 0x02
    else if same_bytes flag (codes "write")
    then 0x08
    else if same_bytes flag (codes "write-without-response")
    then 0x04
    else if same_bytes flag (codes "notify")
    then 0x10
    else if same_bytes flag (codes "indicate")
    then 0x20
    else 0

-- The loop over the flags.
unfoldable pub flag_bits : List Text → ℕ → ℕ
flag_bits [] properties = properties
flag_bits (flag ∷ flags) properties = flag_bits flags (bit_or properties (flag_bit flag))

-- The last four characters of the path as a number; without one, or in a shorter path, what is read
-- is not defined.
abbrev pub last_handle : Bus → ℕ → Option ℕ
last_handle bus o =
    if ltb (length (bus.path o)) 4
    then none
    else bus.scan_hex (drop (length (bus.path o) - 4) (bus.path o))

-- The range that is asked for and the size of the array.
pub record Wanted : Type 0 where
  pub first : ℕ
  pub last : ℕ
  pub count_max : ℕ

abbrev pub new_entry : Bus → ℕ → FlaggedProxy → Option GattCharacteristic
new_entry bus handle p = do
  flags ← p.flags
  text ← p.uuid
  some (record {
    handle = handle % 2 ^ 16;
    properties = flag_bits flags 0;
    value_handle = handle % 2 ^ 16;
    uuid = parsed_uuid (string_to_uuid bus.parse text).1;
  })

-- The part for a characteristic of the service: out of range or without space it is skipped, and its
-- proxy is not given back.
abbrev pub add_in_range :
    Bus
    → Wanted
    → ℕ
    → FlaggedProxy
    → List GattCharacteristic
    → World
    → Option (List GattCharacteristic × World)
add_in_range bus q handle p found w =
    if ltb handle q.first || ltb q.last handle
    then some (found, w)
    else if ltb (length found) q.count_max
    then (do
      entry ← new_entry bus handle p
      some (found ++ entry ∷ [], emit (object_unref p.object) w))
    else some (found, w)

-- `stale` tells that `error` still points to an error that was freed: it is read again where a
-- proxy or its service is missing, which is a fault.
abbrev pub missing_service :
    Bool → List GattCharacteristic → World → Option (Bool × List GattCharacteristic × World)
missing_service true found w = none
missing_service false found w = some (false, found, w)

abbrev pub with_characteristic :
    Bus
    → Wanted
    → Text
    → ℕ
    → FlaggedProxy
    → Bool
    → List GattCharacteristic
    → World
    → Option (Bool × List GattCharacteristic × World)
with_characteristic bus q service_path o p stale found w = elim p.service [
  | none ↦ missing_service stale found w
  | some theirs ↦
      if same_bytes theirs service_path
      then (do
        handle ← last_handle bus o
        (found', w') ← add_in_range bus q handle p found w
        some (stale, found', w'))
      else some (stale, found, emit (object_unref p.object) w)
]

abbrev pub with_opened :
    Bus
    → Wanted
    → Text
    → ℕ
    → Opened
    → Bool
    → List GattCharacteristic
    → World
    → Option (Bool × List GattCharacteristic × World)
with_opened bus q service_path o (failed_open with_error) true found w = none
with_opened bus q service_path o (failed_open with_error) false found w =
    some (with_error, found, w)
with_opened bus q service_path o (opened p) stale found w =
    with_characteristic bus q service_path o p stale found w

-- `add_characteristics_from_service`
unfoldable pub add_characteristics_from_service :
    Bus
    → (ℕ → Opened)
    → Wanted
    → Text
    → List ℕ
    → Bool
    → List GattCharacteristic
    → World
    → Option (List GattCharacteristic × World)
unfolding flag_bits
add_characteristics_from_service bus open_proxy q service_path [] stale found w = some (found, w)
add_characteristics_from_service bus open_proxy q service_path (o ∷ os) stale found w = do
  (stale', found', w') ←
      if bus.is_characteristic o
      then with_opened bus q service_path o (open_proxy o) stale found w
      else some (stale, found, w)
  add_characteristics_from_service bus open_proxy q service_path os stale' found' w'

-- The number of characteristics and batteries.
unfoldable pub count_characteristics : Bus → List ℕ → ℕ
count_characteristics bus [] = 0
count_characteristics bus (o ∷ os) =
    if bus.is_characteristic o || bus.is_battery o
    then suc (count_characteristics bus os)
    else count_characteristics bus os

abbrev pub battery_entry : Bus → GattCharacteristic
battery_entry bus = record {
  handle = 0;
  properties = bit_or 0x02 0x10;
  value_handle = 0;
  uuid = parsed_uuid (string_to_uuid bus.parse (codes "00002a19-0000-1000-8000-00805f9b34fb")).1;
}

abbrev pub add_battery : Bus → Wanted → ℕ → List GattCharacteristic → List GattCharacteristic
add_battery bus q o found =
    if bus.is_battery o && ltb (length found) q.count_max
    then found ++ battery_entry bus ∷ []
    else found

-- A service of another device is passed over; `strcmp` of an unset path is a fault.
abbrev pub with_service_path :
    Bus
    → (ℕ → Opened)
    → Wanted
    → List ℕ
    → ℕ
    → ServiceProxy
    → Option Text
    → Option Text
    → List GattCharacteristic
    → World
    → Option (List GattCharacteristic × World)
with_service_path bus open_proxy q objects o p none theirs found w = none
with_service_path bus open_proxy q objects o p (some own) none found w = none
with_service_path bus open_proxy q objects o p (some own) (some theirs) found w =
    if same_bytes own theirs
    then (do
      (found', w') ←
          add_characteristics_from_service bus open_proxy q (bus.path o) objects false found w
      some (found', emit (object_unref p.object) w'))
    else some (found, emit (object_unref p.object) w)

abbrev pub with_service_proxy :
    Bus
    → (ℕ → Opened)
    → Wanted
    → List ℕ
    → Option Text
    → ℕ
    → Option ServiceProxy
    → List GattCharacteristic
    → World
    → Option (List GattCharacteristic × World)
with_service_proxy bus open_proxy q objects own o none found w = some (found, w)
with_service_proxy bus open_proxy q objects own o (some p) found w =
    with_service_path bus open_proxy q objects o p own p.device found w

-- The loop over the objects of `gattlib_discover_char_range`.
unfoldable pub services_loop :
    Bus
    → ServiceBus
    → (ℕ → Opened)
    → Wanted
    → List ℕ
    → Option Text
    → List ℕ
    → List GattCharacteristic
    → World
    → Option (List GattCharacteristic × World)
unfolding add_characteristics_from_service
services_loop bus sb open_proxy q objects own [] found w = some (found, w)
services_loop bus sb open_proxy q objects own (o ∷ os) found w = do
  (found', w') ←
      if sb.is_service o
      then with_service_proxy bus open_proxy q objects own o (sb.service o) found w
      else some (add_battery bus q o found, w)
  services_loop bus sb open_proxy q objects own os found' w'

abbrev pub discover_with_manager :
    Bus
    → ServiceBus
    → (ℕ → Opened)
    → ℕ
    → ℕ
    → Device
    → Option ℕ
    → World
    → Option (ℕ × Array GattCharacteristic × World)
discover_with_manager bus sb open_proxy first last dev none w =
    some (dbus_failure sb.manager_error, unwritten, w)
discover_with_manager bus sb open_proxy first last dev (some m) w = do
  objects ← live_objects dev.connection.backend
  if sb.memory
      then (do
        (found, w') ←
            services_loop bus sb open_proxy
              (record { first = first; last = last; count_max = count_characteristics bus objects })
              objects dev.connection.backend.device_object_path objects [] w
        some (success, array_of found, w'))
      else some (out_of_memory, unwritten, w)

-- `gattlib_discover_char_range`
unfoldable pub discover_char_range :
    ℕ
    → ℕ
    → ℕ
    → Bus
    → ServiceBus
    → (ℕ → Opened)
    → World
    → Option (ℕ × Array GattCharacteristic × World)
unfolding services_loop count_characteristics get_device_manager
discover_char_range c first last bus sb open_proxy w = do
  valid ← connection_is_valid c w
  if valid
      then (do
        dev ← w.devices c
        (m, w1) ← get_device_manager dev.adapter bus.manager w
        discover_with_manager bus sb open_proxy first last dev m w1)
      else some (device_disconnected, unwritten, w)

-- `gattlib_discover_char`
unfoldable pub discover_char :
    ℕ → Bus → ServiceBus → (ℕ → Opened) → World → Option (ℕ × Array GattCharacteristic × World)
unfolding discover_char_range
discover_char c bus sb open_proxy w = discover_char_range c 0x00 0xFF bus sb open_proxy w

-- `gattlib_discover_desc_range` and `gattlib_discover_desc`
abbrev pub discover_desc_range : ℕ
discover_desc_range = not_supported
