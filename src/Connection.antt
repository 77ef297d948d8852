-- ===== src/Connection.antt =====
-- Connecting and disconnecting a device: dbus/gattlib.c, common/gattlib_callback_connected_device.c
-- and common/gattlib_callback_disconnected_device.c. Each critical section under the library's
-- mutex is one step. `none` is a fault: an object that was freed is read.
pub mod Safe
pub mod Connect
pub mod Connected
use gattlibcpp.Base.{
  ℕ, suc, ◌≡◌, Bool, true, false, not, ◌&&◌, Option, none, some, List, [], ◌∷◌, ◌++◌, ◌==◌, ltb,
  if◌then◌else◌, ◌>>=◌, elem,
}
use gattlibcpp.Glib.{AsciiCase}
use gattlibcpp.DbusError.{GError, dbus_error, dbus_failure, has_prefix}
use gattlibcpp.World.{
  Text, codes, DeviceState, not_found, connecting, connected, disconnecting, disconnected, Handler,
  NotificationHandle, ConnectionBackend, Connection, Device, Adapter, Effect, World, signal_connect,
  source_remove, device_connect, on_device_properties, connected_task, connect_callback, emit,
  write_device,
}
use gattlibcpp.World.Codes.{
  success, invalid_parameter, not_found_code, timeout, busy, adapter_close,
}
use gattlibcpp.ObjectPath.{get_device_path_from_mac, object_path_size_max}
use gattlibcpp.Device.{
  is_disconnected, adapter_is_valid, get_device, set_state, device_ref, device_unref,
}
use gattlibcpp.Validity.{connection_is_valid, connection_is_connected}
use gattlibcpp.Handler.{has_valid_handler, with_on_connection, dispatch_to_thread}
use gattlibcpp.Adapter.{OpenReply, init_default_adapter, get_device_manager}

abbrev pub with_backend : ConnectionBackend → Device → Device
with_backend b dev = record dev { connection = record dev.connection { backend = b } }

-- What D-Bus and GLib answer to one call of `gattlib_connect`.
pub record ConnectReply : Type 0 where
  pub open_reply : OpenReply
  pub proxy : Option ℕ
  pub proxy_error : Option GError
  pub signal_id : ℕ
  pub connect_error : Option GError
  pub timeout_id : ℕ

abbrev pub unknown_object : Text
unknown_object = codes "GDBus.Error:org.freedesktop.DBus.Error.UnknownObject"

-- The code for an error of the D-Bus method `Connect`.
unfoldable pub connect_error_code : GError → ℕ
connect_error_code e =
    if has_prefix unknown_object e.message
    then not_found_code
    else if e.domain == 238 && e.code == 60952
    then timeout
    else dbus_error e

-- `if (timeout_id) { g_source_remove(timeout_id); timeout_id = 0; }`
abbrev pub stop_timeout : ℕ → Device → World → World
stop_timeout c dev w =
    if dev.connection.backend.connection_timeout_id == 0
    then w
    else emit (source_remove dev.connection.backend.connection_timeout_id) (
        write_device c
          (with_backend (record dev.connection.backend { connection_timeout_id = 0 }) dev) w)

-- `gattlib_on_connected_device`
unfoldable pub on_connected_device : ℕ → Bool → World → Option World
on_connected_device c started w = do
  valid ← connection_is_valid c w
  if valid
      then (do
        dev ← w.devices c
        dispatch_to_thread dev.connection.on_connection (some connected_task) c started w)
      else some w

-- `_stop_connect_func`
unfoldable pub stop_connect : ℕ → World → Option World
stop_connect c w = do
  valid ← connection_is_valid c w
  if valid
      then (do
        dev ← w.devices c
        some (
            write_device c
              (with_backend (record dev.connection.backend { connection_timeout_id = 0 }) dev) w))
      else some w

-- The callback of `_gattlib_connected_device_thread`, with a reference held; `others` is what other
-- threads do while it runs, without the mutex.
abbrev pub call_connected :
    ℕ → Device → Option Text → Option ℕ → (World → World) → World → Option World
call_connected c dev address none others w = some w
call_connected c dev address (some f) others w = do
  (_, w1) ← device_ref c w
  (_, w2) ← device_unref c (
      others (
        emit
          (connect_callback f dev.adapter address (some c) success
            dev.connection.on_connection.user_data)
          w1))
  some w2

-- `_gattlib_connected_device_thread`; `address` is what the device's proxy tells. The proxy is read
-- before the mutex is taken.
unfoldable pub connected_device_thread : ℕ → Option Text → (World → World) → World → Option World
unfolding device_ref device_unref
connected_device_thread c address others w = do
  dev ← w.devices c
  answer ← connection_is_connected c w
  if answer
      then call_connected c dev address dev.connection.on_connection.callback others w
      else some w

module _ (case : AsciiCase) where
  module _ (connect_cb user_data : ℕ) (dst : Text) where
    -- The label EXIT with a code that is not GATTLIB_SUCCESS: the application is told.
    abbrev pub refuse : ℕ → ℕ → World → Option (ℕ × World)
    refuse a code w =
        some (code, emit (connect_callback connect_cb a (some dst) none code user_data) w)

    -- The D-Bus method `Connect` failed: the device is disconnected again, its path is freed.
    unfoldable pub connect_failed : ℕ → ℕ → GError → World → Option (ℕ × World)
    connect_failed a d e w = do
      dev ← w.devices d
      (_, w1) ← set_state case none a dev.device_id disconnected w
      dev1 ← w1.devices d
      refuse a (connect_error_code e) (
          write_device d
            (with_backend (record dev1.connection.backend { device_object_path = none }) dev1) w1)

    abbrev pub after_connect : ℕ → ℕ → ConnectReply → Option GError → World → Option (ℕ × World)
    after_connect a d reply (some e) w = connect_failed a d e w
    after_connect a d reply none w = do
      dev ← w.devices d
      some (
        success,
        write_device d
            (with_backend
              (record dev.connection.backend { connection_timeout_id = reply.timeout_id }) dev)
            w,
      )

    abbrev pub with_proxy : ℕ → ℕ → Text → ConnectReply → Option ℕ → World → Option (ℕ × World)
    with_proxy a d path reply none w = refuse a (dbus_failure reply.proxy_error) w
    with_proxy a d path reply (some proxy) w = do
      dev ← w.devices d
      after_connect a d reply reply.connect_error (
          emit (device_connect proxy) (
            emit (signal_connect proxy on_device_properties) (
              write_device d
                (with_backend
                  (record dev.connection.backend {
                    device = some proxy;
                    device_object_path = some path;
                    property_change_id = reply.signal_id;
                  })
                  dev)
                w)))

    abbrev pub connect_device : ℕ → Option ℕ → Text → ConnectReply → World → Option (ℕ × World)
    connect_device a none path reply w = refuse a invalid_parameter w
    connect_device a (some d) path reply w = do
      dev ← w.devices d
      if is_disconnected dev.state
          then (do
            (_, w1) ← set_state case none dev.adapter dev.device_id connecting (
                write_device d
                  (with_on_connection
                    (record dev.connection.on_connection {
                      callback = some connect_cb;
                      user_data = user_data;
                    })
                    dev)
                  w)
            with_proxy a d path reply reply.proxy w1)
          else refuse a busy w

    unfoldable pub connect_locked : ℕ → Text → ConnectReply → World → Option (ℕ × World)
    connect_locked a path reply w =
        if adapter_is_valid a w
        then (do found ← get_device case a path w; connect_device a found path reply w)
        else refuse a adapter_close w

  -- A NULL adapter is replaced by the default one; the name of a given one is read unchecked.
  abbrev pub choose_adapter :
      Option ℕ → ConnectReply → World → Option (Option ℕ × Option Text × World)
  choose_adapter none reply w = do
    (a, w1) ← init_default_adapter reply.open_reply w
    some (a, none, w1)
  choose_adapter (some a) reply w = do ad ← w.adapters a; some (some a, some ad.name, w)

  abbrev pub connect_chosen :
      Option ℕ → Option ℕ → ℕ → Option Text → Text → ConnectReply → World → Option (ℕ × World)
  connect_chosen none connect_cb user_data name dst reply w = some (not_found_code, w)
  connect_chosen (some a) none user_data name dst reply w = some (invalid_parameter, w)
  connect_chosen (some a) (some cb) user_data name dst reply w = do
    path ← get_device_path_from_mac name dst object_path_size_max
    connect_locked cb user_data dst a path reply w

  unfoldable pub connect :
      Option ℕ → Text → Option ℕ → ℕ → ConnectReply → World → Option (ℕ × World)
  unfolding connect_locked
  connect adapter dst connect_cb user_data reply w = do
    (a, name, w1) ← choose_adapter adapter reply w
    connect_chosen a connect_cb user_data name dst reply w1

  -- The part of `_on_device_connect` after the device manager was found.
  abbrev pub services_known : ℕ → List ℕ → Bool → Option ℕ → World → Option World
  services_known c objects started none w = some w
  services_known c objects started (some m) w = do
    dev ← w.devices c
    (_, w1) ← set_state case none dev.adapter dev.device_id connected (
        write_device c
          (with_backend
            (record dev.connection.backend { dbus_objects = objects; objects_freed = false }) dev)
          w)
    on_connected_device c started w1

  -- `_on_device_connect`: the services of the device are known.
  unfoldable pub on_device_connect : ℕ → Option ℕ → List ℕ → Bool → World → Option World
  unfolding get_device_manager on_connected_device
  on_device_connect c manager objects started w = do
    valid ← connection_is_valid c w
    if valid
        then (do
          dev ← w.devices c
          (m, w1) ← get_device_manager dev.adapter manager (stop_timeout c dev w)
          services_known c objects started m w1)
        else some w
