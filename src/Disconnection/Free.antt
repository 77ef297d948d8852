-- ===== src/Disconnection/Free.antt =====
-- The end of a connection, asked for or not: `gattlib_on_disconnected_device` of
-- common/gattlib_callback_disconnected_device.c and `gattlib_connection_free` of dbus/gattlib.c.
use gattlibcpp.Base.{
  ℕ, ◌≡◌, refl, ◌∙◌, ap, ◌⊎◌, inl, inr, Bool, true, false, Option, none, some, List, [], ◌∷◌, ◌==◌,
  map, if◌then◌else◌, Bool-cases, Option-cases,
}
use gattlibcpp.Glib.{AsciiCase}
use gattlibcpp.World.{
  disconnected, NotificationHandle, ConnectionBackend, Device, Effect, World, emit, write_device,
  signal_disconnect, object_unref, disconnect_callback, broadcast,
}
use gattlibcpp.World.Codes.{success}
use gattlibcpp.Device.{set_state}
use gattlibcpp.Device.Invariant.{WellFormed}
use gattlibcpp.Validity.Place.{Place, Place-ok, valid-Place, valid_cases}
use gattlibcpp.Connection.{with_backend}
use gattlibcpp.Connection.Safe.{
  Same, Same-refl, Same-trans, Same-WellFormed, Same-Place, rewrite_and_set, happened,
  timeout_reports,
}
use gattlibcpp.Disconnection.{
  end_notifications, unref_objects, drop_signal, drop_timeout, freed_backend, has_objects,
  tell_disconnected, connection_free, on_disconnected_device,
}

-- The clean-up loops only report to D-Bus and GLib.
end_notifications-Same :
    (ns : List NotificationHandle) (w : World) → Same w (end_notifications ns w)
unfolding end_notifications
end_notifications-Same [] w = Same-refl w
end_notifications-Same (n ∷ ns) w =
    end_notifications-Same ns (emit (signal_disconnect n.gatt n.signal_id) w)

unref_objects-Same : (os : List ℕ) (w : World) → Same w (unref_objects os w)
unfolding unref_objects
unref_objects-Same [] w = Same-refl w
unref_objects-Same (o ∷ os) w = unref_objects-Same os (emit (object_unref o) w)

drop_signal-Same : (b : ConnectionBackend) (w : World) → Same w (drop_signal b w)
drop_signal-Same b w = by_test (b.property_change_id == 0) b.device refl refl
  where
    by_test :
        (t : Bool) (o : Option ℕ)
        → (b.property_change_id == 0) ≡ t
        → b.device ≡ o
        → Same w (drop_signal b w)
    by_test true o e f = rw e (Same-refl w)
    by_test false none e f = rw (e, f) (Same-refl w)
    by_test false (some proxy) e f = rw (e, f) (Same-refl w)

drop_timeout-Same : (b : ConnectionBackend) (w : World) → Same w (drop_timeout b w)
drop_timeout-Same b w = elim (Bool-cases (b.connection_timeout_id == 0)) [
  | inl e ↦ rw e (Same-refl w)
  | inr e ↦ rw e (Same-refl w)
]

tell_disconnected-Same :
    (case : AsciiCase) (c : ℕ) (dev : Device) (w : World) → Same w (tell_disconnected case c dev w)
tell_disconnected-Same case c dev w = elim (Option-cases dev.connection.on_disconnection.callback) [
  | inl e ↦ rw e (Same-refl w)
  | inr (f, e) ↦ rw e (Same-refl w)
]

abbrev cleaned_up : ConnectionBackend → World → World
cleaned_up b w =
    end_notifications b.notified_characteristics
      (unref_objects b.dbus_objects (drop_timeout b (drop_signal b w)))

cleaned_up-Same : (b : ConnectionBackend) (w : World) → Same w (cleaned_up b w)
cleaned_up-Same b w =
    let w1 = drop_signal b w in
    let w2 = drop_timeout b w1 in
    let w3 = unref_objects b.dbus_objects w2 in
    Same-trans w w1 (cleaned_up b w) (drop_signal-Same b w) (
      Same-trans w1 w2 (cleaned_up b w) (drop_timeout-Same b w1) (
        Same-trans w2 w3 (cleaned_up b w) (unref_objects-Same b.dbus_objects w2)
          (end_notifications-Same b.notified_characteristics w3)))

abbrev pub end_signal : NotificationHandle → Effect
end_signal n = signal_disconnect n.gatt n.signal_id

abbrev pub signal_reports : ConnectionBackend → List Effect
signal_reports b = if b.property_change_id == 0 then [] else elim b.device [
  | some proxy ↦ signal_disconnect proxy b.property_change_id ∷ []
  | none ↦ []
]

-- The log after the clean-up of a backend: the property signal and the timeout where there is one,
-- then each of the objects, then each of the notifications.
abbrev pub clean_up_log : ConnectionBackend → List Effect → List Effect
clean_up_log b log = happened (map end_signal b.notified_characteristics) (
    happened (map object_unref b.dbus_objects)
      (happened (timeout_reports b) (happened (signal_reports b) log)))

end_notifications-happened :
    (ns : List NotificationHandle) (w : World)
    → (end_notifications ns w).effects ≡ happened (map end_signal ns) w.effects
unfolding end_notifications
end_notifications-happened [] w = refl
end_notifications-happened (n ∷ ns) w = end_notifications-happened ns (emit (end_signal n) w)

unref_objects-happened :
    (os : List ℕ) (w : World)
    → (unref_objects os w).effects ≡ happened (map object_unref os) w.effects
unfolding unref_objects
unref_objects-happened [] w = refl
unref_objects-happened (o ∷ os) w = unref_objects-happened os (emit (object_unref o) w)

drop_signal-happened :
    (b : ConnectionBackend) (w : World)
    → (drop_signal b w).effects ≡ happened (signal_reports b) w.effects
drop_signal-happened b w = elim (Bool-cases (b.property_change_id == 0)) [
  | inl e ↦ rw e refl
  | inr e ↦ elim (Option-cases b.device) [
    | inl f ↦ rw (e, f) refl
    | inr (proxy, f) ↦ rw (e, f) refl
  ]
]

drop_timeout-happened :
    (b : ConnectionBackend) (w : World)
    → (drop_timeout b w).effects ≡ happened (timeout_reports b) w.effects
drop_timeout-happened b w = elim (Bool-cases (b.connection_timeout_id == 0)) [
  | inl e ↦ rw e refl
  | inr e ↦ rw e refl
]

cleaned_up-log :
    (b : ConnectionBackend) (w : World) → (cleaned_up b w).effects ≡ clean_up_log b w.effects
cleaned_up-log b w =
    let w1 = drop_signal b w in
    let w2 = drop_timeout b w1 in
    let w3 = unref_objects b.dbus_objects w2 in
    end_notifications-happened b.notified_characteristics w3
    ∙ ap (happened (map end_signal b.notified_characteristics)) (
        unref_objects-happened b.dbus_objects w2
        ∙ ap (happened (map object_unref b.dbus_objects)) (
            drop_timeout-happened b w1
            ∙ ap (happened (timeout_reports b)) (drop_signal-happened b w)))

abbrev pub callback_reports : ℕ → Device → List Effect
callback_reports c dev = elim dev.connection.on_disconnection.callback [
  | none ↦ []
  | some f ↦ disconnect_callback f c dev.connection.on_disconnection.user_data ∷ []
]

tell_disconnected-happened :
    (case : AsciiCase) (c : ℕ) (dev : Device) (w : World)
    → (tell_disconnected case c dev w).effects ≡ happened (callback_reports c dev) w.effects
tell_disconnected-happened case c dev w =
    elim (Option-cases dev.connection.on_disconnection.callback) [
      | inl e ↦ rw e refl
      | inr (f, e) ↦ rw e refl
    ]

-- The device after the clean-up.
abbrev pub freed : Device → Device
freed dev = record dev {
  state = disconnected;
  connection = record dev.connection {
    backend = record dev.connection.backend {
      property_change_id = 0;
      connection_timeout_id = 0;
      device_object_path = none;
      notified_characteristics = [];
      objects_freed = has_objects dev.connection.backend.dbus_objects;
    };
  };
}

module _ (case : AsciiCase) (w : World) (h : WellFormed case w) (c : ℕ) (p : Place c w) where
  pub connection_free_lem :
      p.device.connection.backend.objects_freed ≡ false
      → (w' : World) × (connection_free case c w ≡ some (success, w'))
        × WellFormed case w'
        × ((q : Place c w') × (q.device ≡ freed p.device))
        × (w'.effects ≡ clean_up_log p.device.connection.backend w.effects)
  unfolding connection_free
  connection_free_lem live =
      let b = p.device.connection.backend in
      let (w', e, hw, rest, log) =
        rewrite_and_set case w h c p (cleaned_up b w) (with_backend (freed_backend b) p.device)
          disconnected (cleaned_up-Same b w) refl refl refl (Place-ok case w h c p).present
          (λ x. cc) in
      (w', to_set live e, hw, rest, log ∙ cleaned_up-log b w)
    where
      to_set :
          {v : World}
          → p.device.connection.backend.objects_freed ≡ false
          → set_state case none p.device.adapter p.device.device_id disconnected (
              write_device c
                (with_backend (freed_backend p.device.connection.backend) p.device)
                (cleaned_up p.device.connection.backend w))
            ≡ some (success, v)
          → connection_free case c w ≡ some (success, v)
      to_set live e = rw (p.stored, live, e) refl

  -- A list of objects that was freed before is freed again: a fault.
  pub connection_free_again :
      p.device.connection.backend.objects_freed ≡ true → connection_free case c w ≡ none
  unfolding connection_free
  connection_free_again e = rw (p.stored, e)

-- When a device is reported as disconnected, for whatever reason, and the objects of its connection
-- were not freed before, the application's handler is called, then the clean-up runs: the property
-- signal, the connection timeout, each of the objects and each of the notifications is given back
-- once, and the waiting threads are signalled last. The device ends in the state DISCONNECTED, with
-- no property signal, no connection timeout, no object path and no notification left, and its list
-- of objects, if there is one, marked as freed; its other fields are unchanged, and the world stays
-- well-formed.
pub on_disconnected_device_lem :
    (case : AsciiCase) (w : World) (c : ℕ)
    → WellFormed case w
    → (p : Place c w) → p.device.connection.backend.objects_freed ≡ false
    → (w' : World) × (on_disconnected_device case c w ≡ some w')
      × WellFormed case w'
      × (w'.disconnection_signal ≡ true)
      × (w'.effects
          ≡ broadcast
            ∷ clean_up_log p.device.connection.backend
                (happened (callback_reports c p.device) w.effects))
      × ((q : Place c w') × (q.device ≡ freed p.device))
unfolding on_disconnected_device
on_disconnected_device_lem case w c h p live =
    let v = tell_disconnected case c p.device w in
    let same = tell_disconnected-Same case c p.device w in
    let told = tell_disconnected-happened case c p.device w in
    let (pv, ev) = Same-Place c w v same p in
    let b = p.device.connection.backend in
    let backend : pv.device.connection.backend ≡ b = ap (λ (d : Device). d.connection.backend) ev in
    let (w', f, hw, qe, log) =
      connection_free_lem case v (Same-WellFormed case w v same h) c pv
        (ap (λ (x : ConnectionBackend). x.objects_freed) backend ∙ live) in
    (
      record w' { disconnection_signal = true; effects = broadcast ∷ w'.effects },
      rw (valid-Place case w h c p, p.stored, f),
      hw,
      refl,
      ap (λ es. broadcast ∷ es)
          (log ∙ ap (λ x. clean_up_log x v.effects) backend ∙ ap (clean_up_log b) told),
      (qe.0, qe.1 ∙ ap freed ev),
    )

-- A listed device whose objects were freed has them freed again: a fault.
disconnected_again :
    (case : AsciiCase) (w : World) (c : ℕ)
    → WellFormed case w
    → (p : Place c w) → p.device.connection.backend.objects_freed ≡ true
    → on_disconnected_device case c w ≡ none
unfolding on_disconnected_device
disconnected_again case w c h p gone =
    let v = tell_disconnected case c p.device w in
    let same = tell_disconnected-Same case c p.device w in
    let (pv, ev) = Same-Place c w v same p in
    let f =
      connection_free_again case v (Same-WellFormed case w v same h) c pv
        (ap (λ (d : Device). d.connection.backend.objects_freed) ev ∙ gone) in
    rw (valid-Place case w h c p, p.stored, f)

-- A connection that ends twice: in a well-formed world, the first report that a listed device is
-- disconnected, with objects that were not freed before, frees them and keeps the pointer; where
-- nothing has happened since, a second report frees the same list again, a fault.
pub on_disconnected_device-on_disconnected_device :
    (case : AsciiCase) (w : World) (c : ℕ)
    → WellFormed case w
    → (p : Place c w) → p.device.connection.backend.objects_freed ≡ false
    → (o : ℕ) (os : List ℕ) → p.device.connection.backend.dbus_objects ≡ o ∷ os
    → (w' : World) × (on_disconnected_device case c w ≡ some w')
      × (on_disconnected_device case c w' ≡ none)
on_disconnected_device-on_disconnected_device case w c h p live o os e =
    let (w', f, h', signalled, log, (q, eq)) = on_disconnected_device_lem case w c h p live in
    let gone : q.device.connection.backend.objects_freed ≡ true =
      ap (λ (d : Device). d.connection.backend.objects_freed) eq ∙ ap has_objects e in
    (w', f, disconnected_again case w' c h' q gone)

-- The two other cases: a stale connection is reported for nothing, and the world does not change; a
-- listed device whose objects were freed at an earlier disconnection has them freed again, a fault.
pub on_disconnected_device_cases :
    (case : AsciiCase) (w : World) (c : ℕ)
    → WellFormed case w
    → (on_disconnected_device case c w ≡ some w)
      ⊎ ((on_disconnected_device case c w ≡ none)
          ⊎ ((p : Place c w) × (p.device.connection.backend.objects_freed ≡ false)))
unfolding on_disconnected_device
on_disconnected_device_cases case w c h = elim (valid_cases case w h c) [
  | inl e ↦ inl (rw e)
  | inr (_, p) ↦ elim (Bool-cases p.device.connection.backend.objects_freed) [
    | inr live ↦ inr (inr (p, live))
    | inl gone ↦ inr (inl (disconnected_again case w c h p gone))
  ]
]
