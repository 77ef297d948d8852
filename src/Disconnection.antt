-- ===== src/Disconnection.antt =====
-- Disconnecting: `gattlib_connection_free`, `gattlib_disconnect` and the property signal of
-- dbus/gattlib.c, and common/gattlib_callback_disconnected_device.c.
pub mod Free
pub mod Request
pub mod Wait
pub mod Held
use gattlibcpp.Base.{
  ℕ, ◌≡◌, Bool, true, false, ◌&&◌, Option, none, some, List, [], ◌∷◌, ◌==◌, if◌then◌else◌, ◌>>=◌,
}
use gattlibcpp.Glib.{AsciiCase}
use gattlibcpp.World.{
  connecting, connected, disconnecting, disconnected, NotificationHandle, ConnectionBackend,
  live_objects, Device, World, signal_disconnect, source_remove, device_disconnect,
  disconnect_callback, object_unref, broadcast, emit, write_device,
}
use gattlibcpp.World.Codes.{success, invalid_parameter, timeout, busy}
use gattlibcpp.Device.{set_state}
use gattlibcpp.Validity.{connection_is_valid, connection_is_connected}
use gattlibcpp.Connection.{with_backend, on_device_connect}

-- `end_notification` on each handle; the list is emptied first.
unfoldable pub end_notifications : List NotificationHandle → World → World
end_notifications [] w = w
end_notifications (n ∷ ns) w = end_notifications ns (emit (signal_disconnect n.gatt n.signal_id) w)

unfoldable pub unref_objects : List ℕ → World → World
unref_objects [] w = w
unref_objects (o ∷ os) w = unref_objects os (emit (object_unref o) w)

-- `g_signal_handler_disconnect` of the property signal, if there is one; without a proxy GLib
-- refuses the call.
abbrev pub drop_signal : ConnectionBackend → World → World
drop_signal b w = if b.property_change_id == 0 then w else elim b.device [
  | some proxy ↦ emit (signal_disconnect proxy b.property_change_id) w
  | none ↦ w
]

abbrev pub has_objects : List ℕ → Bool
has_objects [] = false
has_objects (o ∷ os) = true

-- The backend that `gattlib_connection_free` leaves. The list of D-Bus objects is freed and the
-- pointer to it stays.
abbrev pub freed_backend : ConnectionBackend → ConnectionBackend
freed_backend b = record b {
  property_change_id = 0;
  connection_timeout_id = 0;
  device_object_path = none;
  notified_characteristics = [];
  objects_freed = has_objects b.dbus_objects;
}

abbrev pub drop_timeout : ConnectionBackend → World → World
drop_timeout b w =
    if b.connection_timeout_id == 0 then w else emit (source_remove b.connection_timeout_id) w

-- The entries of a `PropertiesChanged` signal of the device.
pub data Property : Type 0 where
  connected_property : Bool → Property
  services_resolved : Bool → Property
  other_property : Property

-- What ends one wait on the condition, with the world that the other threads have made meanwhile: a
-- signal, or the end of the time.
pub data Wakeup : Type 0 where
  woken timed_out : World → Wakeup

-- The loop of `gattlib_disconnect` over the wake-ups that come; `none` inside is a loop that
-- still waits when they are used up.
unfoldable pub wait_disconnection : ℕ → List Wakeup → World → Option (Option ℕ × World)
wait_disconnection c [] w = do
  answer ← connection_is_connected c w
  some (if answer then none else some success, w)
wait_disconnection c (timed_out w1 ∷ more) w = do
  answer ← connection_is_connected c w
  some (if answer then (some timeout, w1) else (some success, w))
wait_disconnection c (woken w1 ∷ more) w = do
  answer ← connection_is_connected c w
  if answer then wait_disconnection c more w1 else some (some success, w)

module _ (case : AsciiCase) where
  -- `gattlib_connection_free`; a list of objects that was freed before is freed again, a fault.
  unfoldable pub connection_free : ℕ → World → Option (ℕ × World)
  unfolding end_notifications unref_objects
  connection_free c w = do
    dev ← w.devices c
    objects ← live_objects dev.connection.backend
    set_state case none dev.adapter dev.device_id disconnected (
        write_device c (with_backend (freed_backend dev.connection.backend) dev) (
          end_notifications dev.connection.backend.notified_characteristics (
            unref_objects objects
              (drop_timeout dev.connection.backend (drop_signal dev.connection.backend w)))))

  -- The application's disconnection handler runs inside the section.
  abbrev pub tell_disconnected : ℕ → Device → World → World
  tell_disconnected c dev w = elim dev.connection.on_disconnection.callback [
    | none ↦ w
    | some f ↦ emit (disconnect_callback f c dev.connection.on_disconnection.user_data) w
  ]

  unfoldable pub on_disconnected_device : ℕ → World → Option World
  unfolding connection_free
  on_disconnected_device c w = do
    valid ← connection_is_valid c w
    if valid
        then (do
          dev ← w.devices c
          (_, w1) ← connection_free c (tell_disconnected c dev w)
          some (record w1 { disconnection_signal = true; effects = broadcast ∷ w1.effects }))
        else some w

  unfoldable pub on_device_property_change :
      ℕ → Option ℕ → List ℕ → Bool → List Property → World → Option World
  unfolding on_disconnected_device on_device_connect
  on_device_property_change c manager objects started [] w = some w
  on_device_property_change c manager objects started (connected_property false ∷ ps) w = do
    w1 ← on_disconnected_device c w
    on_device_property_change c manager objects started ps w1
  on_device_property_change c manager objects started (services_resolved true ∷ ps) w = do
    w1 ← on_device_connect case c manager objects started w
    on_device_property_change c manager objects started ps w1
  on_device_property_change c manager objects started (_ ∷ ps) w =
      on_device_property_change c manager objects started ps w

  -- `gattlib_disconnect` before the wait. A connection that is not connected is read for the log.
  unfoldable pub disconnect_request : Option ℕ → World → Option (ℕ × World)
  disconnect_request none w = some (invalid_parameter, w)
  disconnect_request (some c) w = do
    answer ← connection_is_connected c w
    dev ← w.devices c
    if answer
        then (do
          (_, w1) ←
              set_state case none dev.adapter dev.device_id disconnecting
                (elim dev.connection.backend.device [
                  | some proxy ↦ emit (device_disconnect proxy) w
                  | none ↦ w
                ])
          some (success, w1))
        else some (busy, w)

  -- `gattlib_disconnect`; `others` is what other threads do once the mutex is free, up to the first
  -- test of the wait.
  unfoldable pub disconnect :
      Option ℕ → Bool → (World → World) → List Wakeup → World → Option (Option ℕ × World)
  unfolding disconnect_request wait_disconnection
  disconnect none wait others wakeups w = some (some invalid_parameter, w)
  disconnect (some c) wait others wakeups w = do
    (code, w1) ← disconnect_request (some c) w
    if code == success && wait
        then wait_disconnection c wakeups (others w1)
        else some (some code, others w1)
