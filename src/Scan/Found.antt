-- ===== src/Scan/Found.antt =====
-- The devices that D-Bus reports during a scan, dbus/gattlib_adapter.c and
-- common/gattlib_callback_discovered_device.c.
use gattlibcpp.Base.{ℕ, Bool, ◌&&◌, Option, none, some, ◌==◌, if◌then◌else◌, ◌>>=◌}
use gattlibcpp.Glib.{AsciiCase}
use gattlibcpp.World.{
  Text, not_found, disconnected, Handler, Task, discovered_task, World, discovered_callback,
  object_unref, emit,
}
use gattlibcpp.World.Codes.{success}
use gattlibcpp.Device.{adapter_is_valid, get_state, set_state, is_not_found}
use gattlibcpp.Handler.{dispatch_to_thread}
use gattlibcpp.Adapter.{adapter_ref, adapter_unref}

-- A proxy of a device: its object, and the address and the name that it tells, if any.
pub record DeviceProxy : Type 0 where
  pub object : ℕ
  pub address : Option Text
  pub name : Option Text

-- `_discovered_device_thread_args_allocator`: `strdup` of a NULL address is a fault.
abbrev pub discovered_args : DeviceProxy → Option Task
discovered_args proxy = do address ← proxy.address; some (discovered_task address proxy.name)

-- `gattlib_on_discovered_device`
unfoldable pub on_discovered_device : ℕ → DeviceProxy → Bool → World → Option World
unfolding adapter_is_valid dispatch_to_thread
on_discovered_device a proxy started w =
    if adapter_is_valid a w
    then (do
      ad ← w.adapters a
      dispatch_to_thread ad.discovered_device_callback (discovered_args proxy) a started w)
    else some w

-- `_gattlib_discovered_device_thread`: it holds a reference during the callback, and gives it back
-- under the mutex; `others` is what other threads do meanwhile.
abbrev pub call_discovered :
    ℕ → Handler → Option ℕ → Text → Option Text → (World → World) → World → Option World
call_discovered a h none address name others w = some w
call_discovered a h (some f) address name others w = do
  (_, w1) ← adapter_ref a w
  (_, w2) ← adapter_unref a (others (emit (discovered_callback f a address name h.user_data) w1))
  some w2

unfoldable pub discovered_device_thread :
    ℕ → Text → Option Text → (World → World) → World → Option World
unfolding adapter_is_valid adapter_ref adapter_unref
discovered_device_thread a address name others w =
    if adapter_is_valid a w
    then (do
      ad ← w.adapters a
      call_discovered a ad.discovered_device_callback ad.discovered_device_callback.callback address
          name others w)
    else some w

module _ (case : AsciiCase) (fresh : Option ℕ) (started : Bool) where
  -- `gattlib_device_set_state(.., DISCONNECTED)`, then the callback if it succeeded.
  abbrev pub report_device : ℕ → Text → DeviceProxy → World → Option World
  report_device a path proxy w = do
    (code, w1) ← set_state case fresh a path disconnected w
    if code == success then on_discovered_device a proxy started w1 else some w1

  -- `device_manager_on_added_device1_signal`
  unfoldable pub on_added_device : ℕ → Text → Option DeviceProxy → World → Option World
  unfolding adapter_is_valid on_discovered_device
  on_added_device a path none w = some w
  on_added_device a path (some proxy) w = elim proxy.address [
    | none ↦ some (emit (object_unref proxy.object) w)
    | some address ↦
        if adapter_is_valid a w
        then (do w1 ← report_device a path proxy w; some (emit (object_unref proxy.object) w1))
        else some (emit (object_unref proxy.object) w)
  ]

  -- `on_interface_proxy_properties_changed`: `is_device` tells whether the interface is
  -- `org.bluez.Device1`, `seen` whether the RSSI or the manufacturer data changed.
  abbrev pub refresh_device : ℕ → Text → Bool → DeviceProxy → World → Option World
  refresh_device a path seen proxy w = do
    old ← get_state case a path w
    w1 ← if is_not_found old && seen then report_device a path proxy w else some w
    some (emit (object_unref proxy.object) w1)

  abbrev pub with_device_proxy : ℕ → Text → Bool → Option DeviceProxy → World → Option World
  with_device_proxy a path seen none w = some w
  with_device_proxy a path seen (some proxy) w = refresh_device a path seen proxy w

  abbrev pub with_manager :
      ℕ → Text → Bool → Bool → Option DeviceProxy → Option ℕ → World → Option World
  with_manager a path is_device seen proxy none w = some w
  with_manager a path is_device seen proxy (some m) w =
      if is_device then with_device_proxy a path seen proxy w else some w

  unfoldable pub on_properties_changed :
      ℕ → Text → Bool → Bool → Option DeviceProxy → World → Option World
  unfolding adapter_is_valid on_discovered_device
  on_properties_changed a path is_device seen proxy w =
      if adapter_is_valid a w
      then (do ad ← w.adapters a; with_manager a path is_device seen proxy ad.device_manager w)
      else some w

  -- `on_dbus_object_removed`: the returned code is dropped.
  unfoldable pub on_object_removed : ℕ → Text → World → Option World
  on_object_removed a path w = do (_, w1) ← set_state case fresh a path not_found w; some w1
