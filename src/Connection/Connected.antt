-- ===== src/Connection/Connected.antt =====
-- A device whose services are known: `_on_device_connect` of dbus/gattlib.c, from the property signal
-- to the application's callback.
use gattlibcpp.Base.{
  ℕ, ◌≡◌, refl, sym, ap, ◌∙◌, inl, inr, Bool, true, false, Option, some, none, List, [], ◌∷◌,
  if◌then◌else◌, ◌==◌, Bool-cases, Option-cases, arith,
}
use gattlibcpp.Glib.{AsciiCase}
use gattlibcpp.World.{
  connected, Device, World, Effect, emit, thread_start, connected_task, write_adapter,
}
use gattlibcpp.Device.Invariant.{WellFormed, write_adapter-WellFormed}
use gattlibcpp.Validity.{connection_is_valid}
use gattlibcpp.Validity.Place.{Place, Place-ok, valid-Place}
use gattlibcpp.Handler.{has_valid_handler, dispatch_to_thread}
use gattlibcpp.Handler.Register.{write_place-WellFormed}
use gattlibcpp.Adapter.{get_device_manager}
use gattlibcpp.Connection.{
  with_backend, stop_timeout, on_connected_device, services_known, on_device_connect,
}
use gattlibcpp.Connection.Safe.{
  Place-write, update_self, Same, Same-refl, Same-WellFormed, Same-Place, rewrite_and_set, happened,
  timeout_reports,
}

-- The thread that runs the application's callback, where there is one and it can be started.
abbrev pub thread_reports : ℕ → Device → Bool → List Effect
thread_reports c dev started = elim dev.connection.on_connection.callback [
  | none ↦ []
  | some f ↦ if started then thread_start connected_task c ∷ [] else []
]

-- The device is in its place in a well-formed world.
abbrev pub At : AsciiCase → ℕ → Device → World → Type 0
At case c dev w = WellFormed case w × ((q : Place c w) × (q.device ≡ dev))

module _ (case : AsciiCase) (w : World) (h : WellFormed case w) (c : ℕ) (p : Place c w) where
  kept_manager :
      (m : Option ℕ)
      → WellFormed case (write_adapter p.owner (record p.adapter { device_manager = m }) w)
  kept_manager m =
      let ok = h.adapter_ok p.owner p.adapter p.owner_listed p.adapter_stored in
      write_adapter-WellFormed case w p.owner p.adapter _ h p.adapter_stored (λ d e. e)
        (record { held = ok.held; counter_fits = ok.counter_fits; distinct = ok.distinct })

  abbrev place_with_manager :
      (m : Option ℕ) → Place c (write_adapter p.owner (record p.adapter { device_manager = m }) w)
  place_with_manager m = record {
    owner = p.owner;
    adapter = record p.adapter { device_manager = m };
    device = p.device;
    owner_listed = p.owner_listed;
    adapter_stored =
        update_self w.adapters p.owner (some (record p.adapter { device_manager = m }));
    listed = p.listed;
    stored = p.stored;
  }

  -- The manager that is asked for is kept on the adapter; the device stays.
  pub get_device_manager_lem :
      (reply : ℕ)
      → (m : ℕ) × (w' : World) × (get_device_manager p.owner (some reply) w ≡ some (some m, w'))
        × At case c p.device w'
        × (w'.effects ≡ w.effects)
  unfolding get_device_manager
  get_device_manager_lem reply = elim (Option-cases p.adapter.device_manager) [
    | inr (m, e) ↦ (m, w, rw (p.adapter_stored, e) refl, (h, (p, refl)), refl)
    | inl e ↦ (
      reply,
      write_adapter p.owner (record p.adapter { device_manager = some reply }) w,
      rw (p.adapter_stored, e) refl,
      (kept_manager (some reply), (place_with_manager (some reply), refl)),
      refl,
    )
  ]

  -- The device once its timeout is stopped.
  abbrev pub without_timeout : Device
  without_timeout =
      with_backend (record p.device.connection.backend { connection_timeout_id = 0 }) p.device

  stop_timeout_lem : At case c without_timeout (stop_timeout c p.device w)
  stop_timeout_lem =
      let id = p.device.connection.backend.connection_timeout_id in
      elim (Bool-cases (id == 0)) [
        | inr set ↦ rw set (
          write_place-WellFormed case w h c p without_timeout refl refl
              (Place-ok case w h c p).present refl,
          (Place-write c w without_timeout p, refl),
        )
        | inl unset ↦ rw unset (h, (p, cleared unset))
      ]
    where
      cleared :
          (p.device.connection.backend.connection_timeout_id == 0) ≡ true
          → p.device ≡ without_timeout
      cleared e =
          let zero' : p.device.connection.backend.connection_timeout_id ≡ 0 = ground arith in
          ap
            (λ n.
              with_backend (record p.device.connection.backend { connection_timeout_id = n })
                p.device)
            zero'

  stop_timeout-happened :
      (stop_timeout c p.device w).effects
      ≡ happened (timeout_reports p.device.connection.backend) w.effects
  stop_timeout-happened =
      elim (Bool-cases (p.device.connection.backend.connection_timeout_id == 0)) [
        | inr set ↦ rw set refl
        | inl unset ↦ rw unset refl
      ]

  -- The thread for the callback is started if there is one, and nothing else happens.
  on_connected_device_lem :
      (started : Bool)
      → (w' : World) × (on_connected_device c started w ≡ some w')
        × Same w w'
        × (w'.effects ≡ happened (thread_reports c p.device started) w.effects)
  unfolding on_connected_device dispatch_to_thread has_valid_handler
  on_connected_device_lem started = elim (Option-cases p.device.connection.on_connection.callback) [
    | inl e ↦ (w, rw (valid-Place case w h c p, p.stored, e) refl, Same-refl w, rw e)
    | inr (f, e) ↦ elim (Bool-cases started) [
      | inl yes' ↦ (
        emit (thread_start connected_task c) w,
        rw (valid-Place case w h c p, p.stored, e, yes') refl,
        Same-refl w,
        rw (e, yes'),
      )
      | inr no' ↦
          (w, rw (valid-Place case w h c p, p.stored, e, no') refl, Same-refl w, rw (e, no'))
    ]
  ]

-- The device after its services are known.
abbrev pub known : List ℕ → Device → Device
known objects dev =
    record (with_backend
      (record dev.connection.backend {
        connection_timeout_id = 0;
        dbus_objects = objects;
        objects_freed = false;
      })
      dev) { state = connected }

services_known_lem :
    (case : AsciiCase) (w : World) (h : WellFormed case w) (c : ℕ) (p : Place c w)
    (objects : List ℕ) (started : Bool) (m : ℕ)
    → (w' : World) × (services_known case c objects started (some m) w ≡ some w')
      × At case c
          (record (with_backend
            (record p.device.connection.backend { dbus_objects = objects; objects_freed = false })
            p.device) { state = connected })
          w'
      × (w'.effects ≡ happened (thread_reports c p.device started) w.effects)
services_known_lem case w h c p objects started m =
    let new =
      with_backend
        (record p.device.connection.backend { dbus_objects = objects; objects_freed = false })
        p.device in
    let (w1, e, h1, (p1, e1), log1) =
      rewrite_and_set case w h c p w new connected (Same-refl w) refl refl refl
        (Place-ok case w h c p).present (λ x. cc) in
    let (w2, f, same, log2) = on_connected_device_lem case w1 h1 c p1 started in
    let (p2, e2) = Same-Place c w1 w2 same p1 in
    (
      w2,
      rw (p.stored, e, f) refl,
      (Same-WellFormed case w1 w2 same h1, (p2, e2 ∙ e1)),
      log2
          ∙ ap (λ (d : Device). happened (thread_reports c d started) w1.effects) e1
          ∙ ap (happened (thread_reports c p.device started)) log1,
    )

-- When the services of a listed device are resolved and a device manager is there, the device is
-- CONNECTED, whatever its state was: its objects are remembered and not freed, its other fields are
-- unchanged, and the world stays well-formed. The timeout of its connection, where there is one, is
-- removed from the main loop and its id reset; then the thread for the application's callback is
-- started where there is a callback and it can be; nothing else is done.
pub on_device_connect_lem :
    (case : AsciiCase) (w : World) (h : WellFormed case w) (c : ℕ) (p : Place c w) (manager : ℕ)
    (objects : List ℕ) (started : Bool)
    → (w' : World) × (on_device_connect case c (some manager) objects started w ≡ some w')
      × WellFormed case w'
      × ((q : Place c w') × (q.device ≡ known objects p.device))
      × (w'.effects
          ≡ happened
              (thread_reports c p.device started)
              (happened (timeout_reports p.device.connection.backend) w.effects))
unfolding on_device_connect
on_device_connect_lem case w h c p manager objects started =
    let w0 = stop_timeout c p.device w in
    let (h0, (p0, e0)) = stop_timeout_lem case w h c p in
    let owner : p.device.adapter ≡ p0.owner =
      sym (ap (λ (d : Device). d.adapter) e0) ∙ (Place-ok case w0 h0 c p0).owner in
    let (m, w1, em, (h1, (p1, e1)), log1) = get_device_manager_lem case w0 h0 c p0 manager in
    let (w2, es, (h2, (p2, e2)), log2) = services_known_lem case w1 h1 c p1 objects started m in
    let here : get_device_manager p.device.adapter (some manager) w0 ≡ some (some m, w1) =
      ap (λ x. get_device_manager x (some manager) w0) owner ∙ em in
    (
      w2,
      to_services valid_here p.stored here ∙ es,
      h2,
      (p2, e2 ∙ ap ready (e1 ∙ e0)),
      log2
          ∙ ap (λ (d : Device). happened (thread_reports c d started) w1.effects) (e1 ∙ e0)
          ∙ ap (happened (thread_reports c p.device started))
              (log1 ∙ stop_timeout-happened case w h c p),
    )
  where
    valid_here : connection_is_valid c w ≡ some true
    valid_here = valid-Place case w h c p

    ready : Device → Device
    ready dev =
        record (with_backend
          (record dev.connection.backend { dbus_objects = objects; objects_freed = false }) dev) {
            state = connected;
          }

    to_services :
        {v : World} {m : Option ℕ}
        → connection_is_valid c w ≡ some true
        → w.devices c ≡ some p.device
        → get_device_manager p.device.adapter (some manager) (stop_timeout c p.device w)
          ≡ some (m, v)
        → on_device_connect case c (some manager) objects started w
          ≡ services_known case c objects started m v
    to_services valid stored e = rw (valid, stored, e) refl
