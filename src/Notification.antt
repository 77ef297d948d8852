-- ===== src/Notification.antt =====
-- Notifications and indications, dbus/gattlib_notification.c and
-- common/gattlib_callback_notification_device.c.
pub mod RoundTrip
pub mod Pools
pub mod Safe
use gattlibcpp.Base.{
  ℕ, ◌≡◌, Bool, true, false, Option, none, some, List, [], ◌∷◌, ◌++◌, ◌==◌, if◌then◌else◌, ◌>>=◌,
}
use gattlibcpp.DbusError.{GError, dbus_error}
use gattlibcpp.World.{
  Text, Uuid, Handler, NotificationHandle, Device, Listener, on_battery, on_value_notification,
  on_value_indication, World, signal_connect, signal_disconnect, start_notify, stop_notify,
  pool_push, notification_callback, emit, write_device,
}
use gattlibcpp.World.Codes.{success, invalid_parameter, not_found_code, out_of_memory, error_dbus}
use gattlibcpp.Uuid.{Parsed, string_to_uuid, uuid_cmp}
use gattlibcpp.Validity.{connection_is_connected}
use gattlibcpp.Handler.{has_valid_handler}
use gattlibcpp.Connection.{with_backend}
use gattlibcpp.Characteristic.{
  DbusCharacteristic, type_none, type_gatt, type_battery_level, Bus, battery_level_uuid,
  get_characteristic_from_uuid,
}

abbrev pub with_notified : List NotificationHandle → Device → Device
with_notified ns dev =
    with_backend (record dev.connection.backend { notified_characteristics = ns }) dev

-- What GLib, `calloc` and D-Bus answer to the start of a notification.
pub record StartReply : Type 0 where
  pub signal_id : ℕ
  pub memory : Bool
  pub error : Option GError

abbrev pub notify_code : Option GError → ℕ
notify_code none = success
notify_code (some e) = dbus_error e

-- From the signal on: the handle is put at the end of the list before the notification is asked for.
abbrev pub remember_signal : ℕ → Uuid → ℕ → StartReply → World → Option (ℕ × World)
remember_signal c uuid g reply w = do
  dev ← w.devices c
  some (
    notify_code reply.error,
    emit (start_notify g) (
        write_device c
          (with_notified
            (dev.connection.backend.notified_characteristics
              ++ record { gatt = g; signal_id = reply.signal_id; uuid = uuid } ∷ [])
            dev)
          w),
  )

abbrev pub connect_found :
    Listener → ℕ → Uuid → StartReply → DbusCharacteristic → World → Option (ℕ × World)
connect_found listener c uuid reply type_none w = some (not_found_code, w)
connect_found listener c uuid reply (type_battery_level b) w =
    some (success, emit (signal_connect b on_battery) w)
connect_found listener c uuid reply (type_gatt g) w =
    if reply.signal_id == 0
    then some (error_dbus, emit (signal_connect g listener) w)
    else if reply.memory
    then remember_signal c uuid g reply (emit (signal_connect g listener) w)
    else some (out_of_memory, emit (signal_connect g listener) w)

-- `connect_signal_to_characteristic_uuid`
unfoldable pub connect_signal : Listener → ℕ → Uuid → Bus → StartReply → World → Option (ℕ × World)
connect_signal listener c uuid bus reply w = do
  answer ← connection_is_connected c w
  if answer
      then (do
        (found, w1) ← get_characteristic_from_uuid c uuid bus w
        connect_found listener c uuid reply found w1)
      else some (invalid_parameter, w)

-- `gattlib_notification_start`
unfoldable pub notification_start : ℕ → Uuid → Bus → StartReply → World → Option (ℕ × World)
unfolding connect_signal
notification_start c uuid bus reply w = connect_signal on_value_notification c uuid bus reply w

-- `gattlib_indication_start`
unfoldable pub indication_start : ℕ → Uuid → Bus → StartReply → World → Option (ℕ × World)
unfolding connect_signal
indication_start c uuid bus reply w = connect_signal on_value_indication c uuid bus reply w

-- The first handle with the UUID, and the list without it.
abbrev pub keep_in_front :
    NotificationHandle
    → Option (NotificationHandle × List NotificationHandle)
    → Option (NotificationHandle × List NotificationHandle)
keep_in_front n none = none
keep_in_front n (some (m, ms)) = some (m, n ∷ ms)

unfoldable pub take_handle :
    Uuid → List NotificationHandle → Option (NotificationHandle × List NotificationHandle)
take_handle uuid [] = none
take_handle uuid (n ∷ ns) =
    let rest = take_handle uuid ns in
    if uuid_cmp n.uuid uuid == 0 then some (n, ns) else keep_in_front n rest

abbrev pub stop_code : Option GError → ℕ
stop_code none = success
stop_code (some e) = not_found_code

abbrev pub stop_taken :
    ℕ
    → Device
    → Option GError
    → Option (NotificationHandle × List NotificationHandle)
    → World
    → ℕ × World
stop_taken c dev error none w = (not_found_code, w)
stop_taken c dev error (some (n, ns)) w = (
  stop_code error,
  emit (stop_notify n.gatt)
      (emit (signal_disconnect n.gatt n.signal_id) (write_device c (with_notified ns dev) w)),
)

-- `disconnect_signal_to_characteristic_uuid`, all that `gattlib_notification_stop` and
-- `gattlib_indication_stop` do: the callback that they pass is not used.
unfoldable pub notification_stop : ℕ → Uuid → Option GError → World → Option (ℕ × World)
unfolding take_handle
notification_stop c uuid error w = do
  answer ← connection_is_connected c w
  if answer
      then (do
        dev ← w.devices c
        some (
            stop_taken c dev error
              (take_handle uuid dev.connection.backend.notified_characteristics) w))
      else some (invalid_parameter, w)

-- `gattlib_on_gatt_notification`: the pool is that of the notification handler, for indications as
-- well, and an assertion that fails is a fault.
unfoldable pub on_gatt_notification : ℕ → Uuid → List ℕ → World → Option World
on_gatt_notification c uuid bytes w = do
  dev ← w.devices c
  pool ← dev.connection.notification.thread_pool
  some (emit (pool_push pool c uuid bytes) w)

-- The new value of the characteristic, whose UUID D-Bus tells; a UUID that could not be parsed
-- would be passed on unset, which is a fault.
abbrev pub pass_on : (Text → Parsed) → ℕ → Text → Option (List ℕ) → World → Option World
pass_on parse c text none w = some w
pass_on parse c text (some bytes) w = do
  uuid ← (string_to_uuid parse text).1
  on_gatt_notification c uuid bytes w

-- `on_handle_characteristic_property_change`; `value` is the property "Value".
unfoldable pub on_property_change :
    (Text → Parsed) → ℕ → Text → Option (List ℕ) → World → Option World
unfolding on_gatt_notification
on_property_change parse c text value w = do
  answer ← connection_is_connected c w
  if answer
      then (do
        dev ← w.devices c
        if has_valid_handler (some dev.connection.notification)
            then pass_on parse c text value w
            else some w)
      else some w

-- `on_handle_characteristic_indication`: without the mutex and the test of the connection.
unfoldable pub on_indication : (Text → Parsed) → ℕ → Text → Option (List ℕ) → World → Option World
unfolding on_gatt_notification
on_indication parse c text value w = do
  dev ← w.devices c
  if has_valid_handler (some dev.connection.indication)
      then pass_on parse c text value w
      else some w

abbrev pub pass_on_percentage : ℕ → Option ℕ → World → Option World
pass_on_percentage c none w = some w
pass_on_percentage c (some percentage) w =
    on_gatt_notification c battery_level_uuid (percentage ∷ []) w

-- `on_handle_battery_level_property_change`; `value` is the property "Percentage".
unfoldable pub on_battery_change : ℕ → Option ℕ → World → Option World
unfolding on_gatt_notification
on_battery_change c value w = do
  answer ← connection_is_connected c w
  if answer
      then (do
        dev ← w.devices c
        if has_valid_handler (some dev.connection.notification)
            then pass_on_percentage c value w
            else some w)
      else some w

-- The handler whose pool runs the thread: `&connection->indication` or `&connection->notification`.
abbrev pub pool_handler : Bool → Device → Handler
pool_handler true dev = dev.connection.indication
pool_handler false dev = dev.connection.notification

-- `gattlib_notification_device_thread`; an unset callback is a NULL function.
unfoldable pub notification_device_thread : Bool → ℕ → Uuid → List ℕ → World → Option World
notification_device_thread of_indication c uuid bytes w = do
  answer ← connection_is_connected c w
  if answer
      then (do
        dev ← w.devices c
        f ← (pool_handler of_indication dev).callback
        some (
            emit (notification_callback f uuid bytes (pool_handler of_indication dev).user_data) w))
      else some w
