-- ===== src/Notification/Safe.antt =====
-- The start, the stop and the delivery of notifications (dbus/gattlib_notification.c,
-- common/gattlib_callback_notification_device.c) keep the objects well-formed.
use gattlibcpp.Base.{
  ℕ, ◌≡◌, refl, Bool, Option, none, some, List, ◌==◌, if◌then◌else◌, ◌>>=◌, Holds, Holds-bind,
  Holds-read, Holds-if, inl, inr,
}
use gattlibcpp.DbusError.{GError}
use gattlibcpp.Glib.{AsciiCase}
use gattlibcpp.World.{
  Text, Uuid, Device, NotificationHandle, Listener, on_value_notification, on_value_indication,
  World, signal_connect, emit,
}
use gattlibcpp.World.Codes.{error_dbus, out_of_memory}
use gattlibcpp.Uuid.{Parsed, string_to_uuid}
use gattlibcpp.Device.Invariant.{WellFormed, write_device-WellFormed}
use gattlibcpp.Validity.{connection_is_connected}
use gattlibcpp.Validity.Place.{Place, Place-ok, connected_cases}
use gattlibcpp.Connection.Safe.{Same, Same-refl}
use gattlibcpp.Handler.{has_valid_handler}
use gattlibcpp.Handler.Register.{write_place-WellFormed}
use gattlibcpp.Characteristic.{
  DbusCharacteristic, type_none, type_gatt, type_battery_level, Bus, get_characteristic_from_uuid,
}
use gattlibcpp.Characteristic.Safe.{Kept, get_characteristic_from_uuid-Kept}
use gattlibcpp.Notification.{
  StartReply, with_notified, remember_signal, connect_found, connect_signal, take_handle,
  stop_taken, notification_stop, notification_start, indication_start, on_gatt_notification,
  pass_on, on_property_change, on_indication, pass_on_percentage, on_battery_change, pool_handler,
  notification_device_thread,
}

-- The delivery of a value changes no object, of whatever connection and on every branch.
on_gatt_notification-Same :
    (c : ℕ) (uuid : Uuid) (bytes : List ℕ) (w : World)
    → Holds (Same w) (on_gatt_notification c uuid bytes w)
unfolding on_gatt_notification
on_gatt_notification-Same c uuid bytes w =
    Holds-read (Same w) (w.devices c) _ (λ dev e.
      Holds-read (Same w) dev.connection.notification.thread_pool _ (λ pool f. Same-refl w))

pass_on-Same :
    (parse : Text → Parsed) (c : ℕ) (text : Text) (value : Option (List ℕ)) (w : World)
    → Holds (Same w) (pass_on parse c text value w)
pass_on-Same parse c text none w = Same-refl w
pass_on-Same parse c text (some bytes) w =
    Holds-read (Same w) (string_to_uuid parse text).1 (λ uuid. on_gatt_notification c uuid bytes w)
      (λ uuid e. on_gatt_notification-Same c uuid bytes w)

-- A block that runs on a connected device, and does nothing on another.
if_connected-Same :
    (c : ℕ) (w : World) (body : Device → Option World)
    → ((dev : Device) → Holds (Same w) (body dev))
    → Holds (Same w) (do
      answer ← connection_is_connected c w
      if answer then (do dev ← w.devices c; body dev) else some w)
if_connected-Same c w body h = Holds-read (Same w) (connection_is_connected c w) _ (λ answer e.
    Holds-if (Same w) answer (w.devices c >>= body) (some w)
      (λ f. Holds-read (Same w) (w.devices c) body (λ dev g. h dev)) (λ f. Same-refl w))

pub on_property_change-Same :
    (parse : Text → Parsed) (c : ℕ) (text : Text) (value : Option (List ℕ)) (w : World)
    → Holds (Same w) (on_property_change parse c text value w)
unfolding on_property_change
on_property_change-Same parse c text value w = if_connected-Same c w _ (λ dev.
    Holds-if (Same w) (has_valid_handler (some dev.connection.notification))
      (pass_on parse c text value w) (some w) (λ e. pass_on-Same parse c text value w)
      (λ e. Same-refl w))

pub on_indication-Same :
    (parse : Text → Parsed) (c : ℕ) (text : Text) (value : Option (List ℕ)) (w : World)
    → Holds (Same w) (on_indication parse c text value w)
unfolding on_indication
on_indication-Same parse c text value w = Holds-read (Same w) (w.devices c) _ (λ dev e.
    Holds-if (Same w) (has_valid_handler (some dev.connection.indication))
      (pass_on parse c text value w) (some w) (λ f. pass_on-Same parse c text value w)
      (λ f. Same-refl w))

percentage-Same :
    (c : ℕ) (value : Option ℕ) (w : World) → Holds (Same w) (pass_on_percentage c value w)
percentage-Same c none w = Same-refl w
percentage-Same c (some percentage) w = on_gatt_notification-Same c _ _ w

pub on_battery_change-Same :
    (c : ℕ) (value : Option ℕ) (w : World) → Holds (Same w) (on_battery_change c value w)
unfolding on_battery_change
on_battery_change-Same c value w = if_connected-Same c w _ (λ dev.
    Holds-if (Same w) (has_valid_handler (some dev.connection.notification))
      (pass_on_percentage c value w) (some w) (λ e. percentage-Same c value w) (λ e. Same-refl w))

pub notification_device_thread-Same :
    (of_indication : Bool) (c : ℕ) (uuid : Uuid) (bytes : List ℕ) (w : World)
    → Holds (Same w) (notification_device_thread of_indication c uuid bytes w)
unfolding notification_device_thread
notification_device_thread-Same of_indication c uuid bytes w =
    if_connected-Same c w _
      (λ dev. Holds-read (Same w) (pool_handler of_indication dev).callback _ (λ f e. Same-refl w))

module _ (case : AsciiCase) (w : World) (h : WellFormed case w) where
  abbrev Fine : ℕ × World → Type 0
  Fine r = WellFormed case r.1

  stop_taken-Fine :
      (c : ℕ) (p : Place c w) (error : Option GError)
      (taken : Option (NotificationHandle × List NotificationHandle))
      → Fine (stop_taken c p.device error taken w)
  stop_taken-Fine c p error none = h
  stop_taken-Fine c p error (some (n, ns)) =
      write_place-WellFormed case w h c p (with_notified ns p.device) refl refl
        (Place-ok case w h c p).present refl

  pub notification_stop-WellFormed :
      (c : ℕ) (uuid : Uuid) (error : Option GError) → Holds Fine (notification_stop c uuid error w)
  unfolding notification_stop
  notification_stop-WellFormed c uuid error = elim (connected_cases case w h c) [
    | inl e ↦ rw e h
    | inr (p, e, s) ↦
        rw (e, p.stored)
          (stop_taken-Fine c p error
            (take_handle uuid p.device.connection.backend.notified_characteristics))
  ]

  module _ (c : ℕ) (p : Place c w) (uuid : Uuid) (reply : StartReply) where
    -- The signal of a characteristic that was found is remembered on the device.
    remember_signal-Fine :
        (w1 : World)
        → WellFormed case w1
        → w1.devices ≡ w.devices
        → (g : ℕ) → Holds Fine (remember_signal c uuid g reply w1)
    remember_signal-Fine w1 kept same g =
        let ok = Place-ok case w h c p in
        let stored : w1.devices c ≡ some p.device = rw same p.stored in
        rw stored (
          write_device-WellFormed case w1 c p.device _ kept stored refl refl ok.present ok.held
            ok.counter_fits)

    connect_found-Fine :
        (w1 : World)
        → WellFormed case w1
        → w1.devices ≡ w.devices
        → (listener : Listener) (found : DbusCharacteristic)
        → Holds Fine (connect_found listener c uuid reply found w1)
    connect_found-Fine w1 kept same listener type_none = kept
    connect_found-Fine w1 kept same listener (type_battery_level b) = kept
    connect_found-Fine w1 kept same listener (type_gatt g) =
        let asked = emit (signal_connect g listener) w1 in
        Holds-if Fine (reply.signal_id == 0) (some (error_dbus, asked)) _ (λ e. kept)
          (λ e.
            Holds-if Fine reply.memory (remember_signal c uuid g reply asked)
              (some (out_of_memory, asked)) (λ f. remember_signal-Fine asked kept same g)
              (λ f. kept))

  connect_signal-WellFormed :
      (listener : Listener) (c : ℕ) (uuid : Uuid) (bus : Bus) (reply : StartReply)
      → Holds Fine (connect_signal listener c uuid bus reply w)
  unfolding connect_signal
  connect_signal-WellFormed listener c uuid bus reply = elim (connected_cases case w h c) [
    | inl e ↦ rw e h
    | inr (p, e, s) ↦ rw e (
        Holds-bind (Kept case w) Fine (get_characteristic_from_uuid c uuid bus w) _
          (get_characteristic_from_uuid-Kept case w h c uuid bus)
          (λ (found, w1) (h1, e1). connect_found-Fine c p uuid reply w1 h1 e1 listener found))
  ]

  pub notification_start-WellFormed :
      (c : ℕ) (uuid : Uuid) (bus : Bus) (reply : StartReply)
      → Holds Fine (notification_start c uuid bus reply w)
  unfolding notification_start
  notification_start-WellFormed c uuid bus reply =
      connect_signal-WellFormed on_value_notification c uuid bus reply

  pub indication_start-WellFormed :
      (c : ℕ) (uuid : Uuid) (bus : Bus) (reply : StartReply)
      → Holds Fine (indication_start c uuid bus reply w)
  unfolding indication_start
  indication_start-WellFormed c uuid bus reply =
      connect_signal-WellFormed on_value_indication c uuid bus reply
