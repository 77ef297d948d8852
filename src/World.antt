-- ===== src/World.antt =====
-- The objects of common/gattlib_internal.h and dbus/gattlib_backend.h, and the memory they live in.
-- An address is a number. An object that is not allocated, or was freed, is `none` in its store, and
-- an operation that reads it faults. A `gattlib_connection_t` is a field of its device, so its
-- address is the device's.
pub mod Codes
use Prim.Native.Char.{code}
use Prim.Native.String.{String}
use Prim.Native.String
use gattlibcpp.Base.{
  ℕ, ◌≡◌, ◌≢◌, Bool, true, false, Option, none, some, List, [], ◌∷◌, ◌==◌, if◌then◌else◌, ◌++◌,
}

-- A text is the list of its bytes, without the final NUL.
abbrev pub Text : Type 0
Text = List ℕ

-- The bytes of an ASCII text literal.
abbrev pub codes : String → Text
codes String.[] = []
codes (String.◌∷◌ c s) = code c ∷ codes s

pub data DeviceState : Type 0 where
  not_found connecting connected disconnecting disconnected : DeviceState

pub DeviceState-discrete : Discrete DeviceState
DeviceState-discrete = hlevel

-- `NULL` is `none`; any other function is the number that names it.
pub record Handler : Type 0 where
  pub callback : Option ℕ
  pub user_data : ℕ
  pub thread_pool : Option ℕ

abbrev pub empty_handler : Handler
empty_handler = record { callback = none; user_data = 0; thread_pool = none }

-- `uuid_t`: the value of a 16, 32 or 128-bit UUID, or another type with its number.
pub data Uuid : Type 0 where
  uuid16 : ℕ → Uuid
  uuid32 : ℕ → Uuid
  uuid128 : List ℕ → Uuid
  unspec : ℕ → Uuid

pub record NotificationHandle : Type 0 where
  pub gatt : ℕ
  pub signal_id : ℕ
  pub uuid : Uuid

pub record ConnectionBackend : Type 0 where
  pub device_object_path : Option Text
  pub device : Option ℕ
  pub connection_timeout_id : ℕ
  pub property_change_id : ℕ
  pub dbus_objects : List ℕ
  pub objects_freed : Bool  -- the list was freed, and the pointer to it is still there
  pub notified_characteristics : List NotificationHandle

abbrev pub empty_backend : ConnectionBackend
empty_backend = record {
  device_object_path = none;
  device = none;
  connection_timeout_id = 0;
  property_change_id = 0;
  dbus_objects = [];
  objects_freed = false;
  notified_characteristics = [];
}

-- The list of objects, where it is read; once it is freed, reading it is a fault.
abbrev pub live_objects : ConnectionBackend → Option (List ℕ)
live_objects b = elim b.objects_freed [ true ↦ none | false ↦ some b.dbus_objects ]

pub record Connection : Type 0 where
  pub backend : ConnectionBackend
  pub on_connection : Handler
  pub notification : Handler
  pub indication : Handler
  pub on_disconnection : Handler

abbrev pub empty_connection : Connection
empty_connection = record {
  backend = empty_backend;
  on_connection = empty_handler;
  notification = empty_handler;
  indication = empty_handler;
  on_disconnection = empty_handler;
}

pub record Device : Type 0 where
  pub adapter : ℕ
  pub device_id : Text
  pub reference_counter : ℕ  -- uintptr_t
  pub state : DeviceState
  pub connection : Connection

pub record BleScan : Type 0 where
  pub added_signal_id : ℕ
  pub changed_signal_id : ℕ
  pub removed_signal_id : ℕ
  pub ble_scan_timeout : ℕ
  pub ble_scan_timeout_id : ℕ
  pub scan_loop_thread : Option ℕ
  pub is_scanning : Bool
  pub enabled_filters : ℕ

abbrev pub empty_scan : BleScan
empty_scan = record {
  added_signal_id = 0;
  changed_signal_id = 0;
  removed_signal_id = 0;
  ble_scan_timeout = 0;
  ble_scan_timeout_id = 0;
  scan_loop_thread = none;
  is_scanning = false;
  enabled_filters = 0;
}

pub record Adapter : Type 0 where
  pub id : Text
  pub name : Text
  pub reference_counter : ℕ  -- uintptr_t
  pub devices : List ℕ
  pub device_manager : Option ℕ
  pub adapter_proxy : Option ℕ
  pub ble_scan : BleScan
  pub discovered_device_callback : Handler

-- The functions of the library that it hands to GLib as signal handlers.
pub data Listener : Type 0 where
  on_device_properties on_added on_removed on_interface_properties : Listener
  on_battery on_value_notification on_value_indication : Listener

-- The functions that it runs in threads of their own; the discovered device's thread gets copies of
-- the device's address and name.
pub data Task : Type 0 where
  connected_task scan_task : Task
  discovered_task : Text → Option Text → Task

-- What the library asks of D-Bus, GLib and the application, in the order of the calls.
pub data Effect : Type 0 where
  set_powered : ℕ → Effect
  set_discovery_filter : ℕ → Option (List Text) → Option ℕ → Effect
  start_discovery : ℕ → Effect
  stop_discovery : ℕ → Effect
  signal_connect : ℕ → Listener → Effect
  signal_disconnect : ℕ → ℕ → Effect
  source_remove : ℕ → Effect
  device_connect : ℕ → Effect
  device_disconnect : ℕ → Effect
  start_notify : ℕ → Effect
  stop_notify : ℕ → Effect
  read_value : ℕ → Effect
  write_value : ℕ → List ℕ → Bool → Effect
  read_callback : ℕ → List ℕ → Effect
  acquire_write : ℕ → Effect
  write_file : ℕ → List ℕ → Effect
  close_file : ℕ → Effect
  thread_start : Task → ℕ → Effect
  thread_ref : ℕ → Effect
  thread_join : ℕ → Effect
  thread_unref : ℕ → Effect
  pool_push : ℕ → ℕ → Uuid → List ℕ → Effect
  pool_free : ℕ → Effect
  pool_new : ℕ → Effect
  connect_callback : ℕ → ℕ → Option Text → Option ℕ → ℕ → ℕ → Effect
  disconnect_callback : ℕ → ℕ → ℕ → Effect
  discovered_callback : ℕ → ℕ → Text → Option Text → ℕ → Effect
  notification_callback : ℕ → Uuid → List ℕ → ℕ → Effect
  object_unref : ℕ → Effect
  broadcast : Effect

-- `effects` has the newest first. `signals` is `m_gattlib_signal.signals`, by its two bits.
pub record World : Type 0 where
  pub adapter_list : List ℕ
  pub adapters : ℕ → Option Adapter
  pub devices : ℕ → Option Device
  pub disconnection_signal : Bool
  pub stop_scanning_signal : Bool
  pub effects : List Effect

-- A store with one address written.
abbrev pub update {ℓ} : {A : Type ℓ} → (ℕ → Option A) → ℕ → Option A → ℕ → Option A
update h p v q = if q == p then v else h q

abbrev pub emit : Effect → World → World
emit e w = record w { effects = e ∷ w.effects }

abbrev pub write_device : ℕ → Device → World → World
write_device d dev w = record w { devices = update w.devices d (some dev) }

abbrev pub write_adapter : ℕ → Adapter → World → World
write_adapter a ad w = record w { adapters = update w.adapters a (some ad) }
