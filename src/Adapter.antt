-- ===== src/Adapter.antt =====
-- The life of an adapter, dbus/gattlib_adapter.c: opening, references, closing, and the device
-- manager that it caches.
pub mod Unref
pub mod Open
use gattlibcpp.Base.{
  ℕ, Bool, true, false, Option, none, some, [], ◌∷◌, ◌++◌, ◌==◌, ltb, if◌then◌else◌, ◌>>=◌, remove,
}
use gattlibcpp.DbusError.{GError, dbus_failure}
use gattlibcpp.World.{
  Text, codes, empty_handler, Adapter, empty_scan, World, set_powered, object_unref, thread_unref,
  emit, update, write_adapter,
}
use gattlibcpp.World.Codes.{success, invalid_parameter, out_of_memory}
use gattlibcpp.Device.{incr, decr, devices_free}
use gattlibcpp.ObjectPath.{snprintf}
use gattlibcpp.Validity.{adapter_from_id}

unfoldable pub adapter_ref : ℕ → World → Option (ℕ × World)
adapter_ref a w = do
  ad ← w.adapters a
  some (success, write_adapter a (record ad { reference_counter = incr ad.reference_counter }) w)

-- What the last reference gives back: the scan thread, the manager, the proxy.
abbrev pub unref_thread : Option ℕ → World → World
unref_thread none w = w
unref_thread (some t) w = emit (thread_unref t) w

abbrev pub unref_object : Option ℕ → World → World
unref_object none w = w
unref_object (some o) w = emit (object_unref o) w

unfoldable pub adapter_unref : ℕ → World → Option (ℕ × World)
adapter_unref a w = do
  ad ← w.adapters a
  if ltb 0 (decr ad.reference_counter)
      then some
          (success, write_adapter a (record ad { reference_counter = decr ad.reference_counter }) w)
      else do
        w' ← devices_free ad.devices (
            unref_object ad.adapter_proxy
              (unref_object ad.device_manager (unref_thread ad.ble_scan.scan_loop_thread w)))
        some (
          success,
          record w' {
            adapter_list = remove a w'.adapter_list;
            adapters = update w'.adapters a none;
          },
        )

-- What opening an adapter gets from D-Bus and from `calloc`, and what other threads do while it holds no
-- mutex, between its two critical sections.
pub record OpenReply : Type 0 where
  pub proxy : Option ℕ
  pub error : Option GError
  pub memory : Option ℕ
  pub meanwhile : World → World

abbrev pub default_adapter : Text
default_adapter = codes "hci0"

abbrev pub adapter_path : Text → Text
adapter_path name = snprintf 20 (codes "/org/bluez/" ++ name)

abbrev pub new_adapter : Text → ℕ → Adapter
new_adapter name proxy = record {
  id = adapter_path name;
  name = name;
  reference_counter = 1;
  devices = [];
  device_manager = none;
  adapter_proxy = some proxy;
  ble_scan = empty_scan;
  discovered_device_callback = empty_handler;
}

abbrev pub name_or_default : Option Text → Text
name_or_default none = default_adapter
name_or_default (some name) = name

-- The first critical section of `gattlib_adapter_open`: an adapter that is loaded already gets one more
-- reference.
unfoldable pub adapter_reopen : Text → World → Option (Option ℕ × World)
unfolding adapter_ref adapter_from_id
adapter_reopen name w = do
  found ← adapter_from_id (adapter_path name) w
  elim found [ none ↦ some (none, w) | some a ↦ do (_, w') ← adapter_ref a w; some (some a, w') ]

-- The second one, for a new structure: the list is not searched again. The result is the code, the
-- caller's `*adapter`, and the world.
abbrev pub register_adapter : Text → ℕ → Option ℕ → World → ℕ × Option ℕ × World
register_adapter name proxy none w = (out_of_memory, none, w)
register_adapter name proxy (some a) w = (
  success,
  some a,
  record w {
    adapter_list = w.adapter_list ++ a ∷ [];
    adapters = update w.adapters a (some (new_adapter name proxy));
  },
)

-- Between the two, D-Bus is asked for a proxy and to power the adapter.
abbrev pub open_new : Text → OpenReply → World → ℕ × Option ℕ × World
open_new name reply w = elim reply.proxy [
  | none ↦ (dbus_failure reply.error, none, reply.meanwhile w)
  | some proxy ↦
      register_adapter name proxy reply.memory (reply.meanwhile (emit (set_powered proxy) w))
]

abbrev pub opened_or_new : Text → OpenReply → Option ℕ → World → ℕ × Option ℕ × World
opened_or_new name reply (some a) w = (success, some a, w)
opened_or_new name reply none w = open_new name reply w

-- `wanted` is false if the caller passes NULL for `adapter`.
unfoldable pub adapter_open : Option Text → Bool → OpenReply → World → Option (ℕ × Option ℕ × World)
unfolding adapter_reopen
adapter_open name false reply w = some (invalid_parameter, none, w)
adapter_open name true reply w = do
  (found, w') ← adapter_reopen (name_or_default name) w
  some (opened_or_new (name_or_default name) reply found w')

unfoldable pub init_default_adapter : OpenReply → World → Option (Option ℕ × World)
unfolding adapter_open
init_default_adapter reply w = do
  (code, a, w') ← adapter_open none true reply w
  if code == success then some (a, w') else some (none, w')

-- `get_device_manager_from_adapter`: the manager is asked for once, and then kept.
abbrev pub keep_manager : ℕ → Adapter → Option ℕ → World → Option ℕ × World
keep_manager a ad reply w = elim ad.device_manager [
  | some m ↦ (some m, w)
  | none ↦ (reply, write_adapter a (record ad { device_manager = reply }) w)
]

unfoldable pub get_device_manager : ℕ → Option ℕ → World → Option (Option ℕ × World)
get_device_manager a reply w = do ad ← w.adapters a; some (keep_manager a ad reply w)
