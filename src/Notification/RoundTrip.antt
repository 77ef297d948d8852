-- ===== src/Notification/RoundTrip.antt =====
-- A notification that is started and stopped again, dbus/gattlib_notification.c: the handle that the
-- start puts at the end of the list is the one that the stop takes.
use gattlibcpp.Base.{
  ℕ, ◌≡◌, refl, ◌∙◌, ap, true, false, Option, some, List, [], ◌∷◌, ◌++◌, ◌==◌, arith,
}
use gattlibcpp.Glib.{AsciiCase}
use gattlibcpp.DbusError.{GError}
use gattlibcpp.World.{
  Uuid, NotificationHandle, Listener, Device, World, emit, signal_connect, signal_disconnect,
  start_notify, stop_notify, write_device, connected,
}
use gattlibcpp.Uuid.{uuid_cmp}
use gattlibcpp.Uuid.Expand.{InRange, uuid_cmp_iff}
use gattlibcpp.Validity.{connection_is_connected}
use gattlibcpp.Device.{is_connected}
use gattlibcpp.Characteristic.{type_gatt}
use gattlibcpp.Device.Invariant.{WellFormed}
use gattlibcpp.Validity.Place.{Place, Place-ok, connected-Place}
use gattlibcpp.Handler.Register.{write_place-WellFormed}
use gattlibcpp.Connection.Safe.{Place-write}
use gattlibcpp.Notification.{
  with_notified, StartReply, notify_code, connect_found, take_handle, keep_in_front, stop_taken,
  stop_code, notification_stop,
}

-- No handle of the list is for the UUID.
abbrev pub Unused : Uuid → List NotificationHandle → Type 0
Unused uuid [] = Unit {0}
Unused uuid (n ∷ ns) = ((uuid_cmp n.uuid uuid == 0) ≡ false) × Unused uuid ns

-- The last handle is taken where it is the only one for the UUID.
take_last :
    (uuid : Uuid) (n : NotificationHandle) (ns : List NotificationHandle)
    → Unused uuid ns
    → (uuid_cmp n.uuid uuid == 0) ≡ true
    → take_handle uuid (ns ++ n ∷ []) ≡ some (n, ns)
unfolding take_handle
take_last uuid n [] h e = rw e refl
take_last uuid n (m ∷ ns) h e = rw h.0 (ap (keep_in_front m) (take_last uuid n ns h.1 e))

module _ (case : AsciiCase) (w : World) (h : WellFormed case w) (c : ℕ) (p : Place c w)
    (state : p.device.state ≡ connected) where
  -- On a connected device without a notification for the UUID, a start with the characteristic that
  -- was found, for which GLib gives a signal and memory, followed by a stop leaves the list of
  -- notifications as it was; the stop disconnects the signal that the start connected, and asks the
  -- same characteristic to notify no more.
  pub start_then_stop :
      (listener : Listener) (uuid : Uuid) (g : ℕ) (reply : StartReply) (error : Option GError)
      → InRange uuid
      → Unused uuid p.device.connection.backend.notified_characteristics
      → (reply.signal_id == 0) ≡ false
      → reply.memory ≡ true
      → (w1 : World) × (w2 : World) × (connect_found listener c uuid reply (type_gatt g) w
          ≡ some (notify_code reply.error, w1))
        × (notification_stop c uuid error w1 ≡ some (stop_code error, w2))
        × (w2.effects
            ≡ stop_notify g
              ∷ signal_disconnect g reply.signal_id
              ∷ start_notify g
              ∷ signal_connect g listener
              ∷ w.effects)
        × ((q : Place c w2) × (q.device.connection.backend.notified_characteristics
              ≡ p.device.connection.backend.notified_characteristics))
  unfolding notification_stop
  start_then_stop listener uuid g reply error range unused signal memory =
      let ns = p.device.connection.backend.notified_characteristics in
      let handle : NotificationHandle = record {
        gatt = g;
        signal_id = reply.signal_id;
        uuid = uuid;
      } in
      let dev1 = with_notified (ns ++ handle ∷ []) p.device in
      let w1 = emit (start_notify g) (write_device c dev1 (emit (signal_connect g listener) w)) in
      let p1 : Place c w1 = Place-write c w dev1 p in
      let h1 : WellFormed case w1 =
        write_place-WellFormed case w h c p dev1 refl refl (Place-ok case w h c p).present refl in
      let on : connection_is_connected c w1 ≡ some true =
        connected-Place case w1 h1 c p1 ∙ ap (λ s. some (is_connected s)) state in
      let self = (uuid_cmp_iff uuid uuid range range).1 refl in
      let taken = take_last uuid handle ns unused (ground (arith, self)) in
      let w2 =
        emit (stop_notify g) (
          emit (signal_disconnect g reply.signal_id) (write_device c (with_notified ns dev1) w1)) in
      (
        w1,
        w2,
        rw (signal, memory, p.stored) refl,
        stopped w1 dev1 handle ns error on p1.stored taken,
        refl,
        (Place-write c w1 (with_notified ns dev1) p1, refl),
      )
    where
      stopped :
          (v : World) (dev : Device) (n : NotificationHandle) (ns : List NotificationHandle)
          (error : Option GError)
          → connection_is_connected c v ≡ some true
          → v.devices c ≡ some dev
          → take_handle uuid dev.connection.backend.notified_characteristics ≡ some (n, ns)
          → notification_stop c uuid error v
            ≡ some (
              stop_code error,
              emit (stop_notify n.gatt) (
                  emit
                    (signal_disconnect n.gatt n.signal_id)
                    (write_device c (with_notified ns dev) v)),
            )
      stopped v dev n ns error on stored taken =
          let here : notification_stop c uuid error v
              ≡ some (
                  stop_taken c dev error
                    (take_handle uuid dev.connection.backend.notified_characteristics) v) =
            rw (on, stored) refl in
          here ∙ ap (λ t. some (stop_taken c dev error t v)) taken
