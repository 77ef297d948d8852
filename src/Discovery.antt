-- ===== src/Discovery.antt =====
-- The discovery of primary services, `gattlib_discover_primary` of dbus/gattlib.c. (The one of
-- characteristics is in Discovery/Characteristics.antt.) What D-Bus knows is a parameter.
pub mod Handles
pub mod Characteristics
pub mod Range
pub mod Listed
use gattlibcpp.Base.{
  ℕ, ◌%◌, ◌^◌, ◌≡◌, Bool, true, false, ◌&&◌, Option, none, some, List, [], ◌∷◌, ◌++◌, ◌==◌, ltb,
  if◌then◌else◌, ◌>>=◌, length,
}
use gattlibcpp.DbusError.{GError, dbus_failure, has_prefix}
use gattlibcpp.World.{Text, Uuid, unspec, live_objects, Device, World, object_unref, emit}
use gattlibcpp.World.Codes.{success, invalid_parameter, out_of_memory, device_disconnected}
use gattlibcpp.Uuid.{string_to_uuid, same_bytes}
use gattlibcpp.Validity.{connection_is_valid}
use gattlibcpp.Adapter.{get_device_manager}
use gattlibcpp.Characteristic.{Bus, path_handle}

-- `gattlib_primary_service_t`
pub record PrimaryService : Type 0 where
  pub attr_handle_start : ℕ  -- uint16_t
  pub attr_handle_end : ℕ  -- uint16_t
  pub uuid : Uuid

-- A proxy of a service: its object, the path of the device that it belongs to, whether it is a
-- primary one, and its UUID.
pub record ServiceProxy : Type 0 where
  pub object : ℕ
  pub device : Option Text
  pub primary : Bool
  pub uuid : Option Text

-- What D-Bus knows of services, by object, and the number of UUIDs of the device, if it tells them;
-- `memory` tells whether there was memory for the array.
pub record ServiceBus : Type 0 where
  pub is_service : ℕ → Bool
  pub service : ℕ → Option ServiceProxy
  pub uuid_count : Option ℕ
  pub manager_error : Option GError
  pub memory : Bool

-- The caller's `*services` and `*services_count`, where it passes both: left as they were, NULL and
-- 0, or an array and its length.
pub data Array (A : Type 0) : Type 0 where
  unwritten : Array A
  no_array : Array A
  array_of : List A → Array A

-- The field `uuid` of an entry: the array is cleared by `calloc`, and a text that is not a UUID
-- leaves the field as it was.
abbrev pub parsed_uuid : Option Uuid → Uuid
parsed_uuid none = unspec 0
parsed_uuid (some u) = u

-- `MAX(a, b)`
abbrev pub max_of : ℕ → ℕ → ℕ
max_of a b = if ltb b a then a else b

-- The loop over the characteristics whose path begins with the service's; the end handle is a
-- `uint16_t`.
unfoldable pub end_handle : Bus → Text → List ℕ → ℕ → Option ℕ
end_handle bus service_path [] last = some last
end_handle bus service_path (o ∷ os) last =
    if bus.is_characteristic o && has_prefix service_path (bus.path o)
    then (do h ← path_handle bus o last; end_handle bus service_path os (max_of last h % 2 ^ 16))
    else end_handle bus service_path os last

-- The entry for one service, over all the objects; a handle that cannot be read is 0xFFFF.
unfoldable pub primary_service : Bus → List ℕ → ℕ → ServiceProxy → Option PrimaryService
unfolding end_handle
primary_service bus objects o p = do
  h ← path_handle bus o 0xFFFF
  last ← end_handle bus (bus.path o) objects (h % 2 ^ 16)
  text ← p.uuid
  some (record {
    attr_handle_start = h % 2 ^ 16;
    attr_handle_end = last;
    uuid = parsed_uuid (string_to_uuid bus.parse text).1;
  })

-- The array has as many entries as the device has UUIDs: a service more is written behind it, which
-- is a fault.
abbrev pub add_primary :
    Bus → List ℕ → ℕ → ℕ → ServiceProxy → List PrimaryService → Option (List PrimaryService)
add_primary bus objects count_max o p found =
    if p.primary
    then (do
      entry ← primary_service bus objects o p
      if ltb (length found) count_max then some (found ++ entry ∷ []) else none)
    else some found

-- `strcmp` of the connection's path, unset is a fault, and the service's.
abbrev pub service_of :
    Bus
    → List ℕ
    → ℕ
    → ℕ
    → ServiceProxy
    → Option Text
    → Text
    → List PrimaryService
    → World
    → Option (List PrimaryService × World)
service_of bus objects count_max o p none theirs found w = none
service_of bus objects count_max o p (some own) theirs found w =
    if same_bytes own theirs
    then (do
      found' ← add_primary bus objects count_max o p found
      some (found', emit (object_unref p.object) w))
    else some (found, emit (object_unref p.object) w)

abbrev pub with_service :
    Bus
    → List ℕ
    → ℕ
    → Option Text
    → ℕ
    → Option ServiceProxy
    → List PrimaryService
    → World
    → Option (List PrimaryService × World)
with_service bus objects count_max own o none found w = some (found, w)
with_service bus objects count_max own o (some p) found w = elim p.device [
  | none ↦ some (found, w)
  | some theirs ↦ service_of bus objects count_max o p own theirs found w
]

-- The loop over the objects.
unfoldable pub primary_loop :
    Bus
    → ServiceBus
    → List ℕ
    → ℕ
    → Option Text
    → List ℕ
    → List PrimaryService
    → World
    → Option (List PrimaryService × World)
unfolding primary_service
primary_loop bus sb objects count_max own [] found w = some (found, w)
primary_loop bus sb objects count_max own (o ∷ os) found w = do
  (found', w') ←
      if sb.is_service o
      then with_service bus objects count_max own o (sb.service o) found w
      else some (found, w)
  primary_loop bus sb objects count_max own os found' w'

abbrev pub with_uuids :
    Bus → ServiceBus → Device → Option ℕ → World → Option (ℕ × Array PrimaryService × World)
with_uuids bus sb dev none w = some (success, no_array, w)
with_uuids bus sb dev (some count_max) w =
    if sb.memory
    then (do
      let b = dev.connection.backend
      objects ← live_objects b
      (found, w') ← primary_loop bus sb objects count_max b.device_object_path objects [] w
      some (success, array_of found, w'))
    else some (out_of_memory, unwritten, w)

abbrev pub with_service_manager :
    Bus → ServiceBus → Device → Option ℕ → World → Option (ℕ × Array PrimaryService × World)
with_service_manager bus sb dev none w = some (dbus_failure sb.manager_error, unwritten, w)
with_service_manager bus sb dev (some m) w = with_uuids bus sb dev sb.uuid_count w

-- `gattlib_discover_primary`; the UUIDs of a NULL proxy are a fault.
unfoldable pub discover_primary :
    Option ℕ → Bus → ServiceBus → World → Option (ℕ × Array PrimaryService × World)
unfolding primary_loop get_device_manager
discover_primary none bus sb w = some (invalid_parameter, unwritten, w)
discover_primary (some c) bus sb w = do
  valid ← connection_is_valid c w
  if valid
      then (do
        dev ← w.devices c
        (m, w1) ← get_device_manager dev.adapter bus.manager w
        device ← dev.connection.backend.device
        with_service_manager bus sb dev m w1)
      else some (device_disconnected, unwritten, w)
