-- ===== src/Connection/Connect.antt =====
-- `gattlib_connect` under the mutex, branch by branch.
use gattlibcpp.Base.{
  ℕ, ◌≡◌, ◌≢◌, refl, sym, ◌∙◌, ap, subst, inl, inr, true, false, none, some, elem, Bool-cases,
  Option-cases,
}
use gattlibcpp.Glib.{AsciiCase}
use gattlibcpp.DbusError.{GError, dbus_failure}
use gattlibcpp.World.{
  Text, DeviceState, DeviceState-discrete, connecting, disconnected, Device, World, write_device,
  emit, connect_callback, device_connect, signal_connect, on_device_properties,
}
use gattlibcpp.World.Codes.{success, invalid_parameter, busy, adapter_close}
use gattlibcpp.Device.{set_state, is_disconnected, adapter_is_valid}
use gattlibcpp.Device.Invariant.{WellFormed}
use gattlibcpp.Device.SetState.{Ends}
use gattlibcpp.Device.Lookup.{Listed, listed_cases, get_device-Listed, get_device-Unlisted}
use gattlibcpp.Validity.Place.{Place, Place-ok}
use gattlibcpp.Handler.{with_on_connection}
use gattlibcpp.Handler.Register.{write_place-WellFormed}
use gattlibcpp.Connection.{
  ConnectReply, connect_failed, connect_error_code, with_proxy, connect_device, connect_locked,
  with_backend,
}
use gattlibcpp.Connection.Safe.{
  Same-refl, Place-write, rewrite_and_set, update_self, set_state-Place,
}

-- The device once the request is noted: the application's callback is stored, the state is
-- CONNECTING.
abbrev pub requested : ℕ → ℕ → Device → Device
requested connect_cb user_data dev =
    record (with_on_connection
      (record dev.connection.on_connection { callback = some connect_cb; user_data = user_data })
      dev) { state = connecting }

abbrev pub proxied : ℕ → Text → ConnectReply → Device → Device
proxied proxy path reply dev =
    with_backend
      (record dev.connection.backend {
        device = some proxy;
        device_object_path = some path;
        property_change_id = reply.signal_id;
      })
      dev

abbrev pub with_timeout : ℕ → Device → Device
with_timeout id dev =
    with_backend (record dev.connection.backend { connection_timeout_id = id }) dev

-- A refused request: disconnected again, without an object path.
abbrev pub given_up : Device → Device
given_up dev =
    with_backend (record dev.connection.backend { device_object_path = none })
      (record dev { state = disconnected })

is_disconnected_ne : (s : DeviceState) → s ≢ disconnected → is_disconnected s ≡ false
is_disconnected_ne disconnected n = absurd (n refl)
is_disconnected_ne _ n = refl

-- The three ends of a request that D-Bus is asked about.
module _ (case : AsciiCase) (cb ud : ℕ) (dst : Text) (a : ℕ) (path : Text) (reply : ConnectReply)
    (c : ℕ) (v : World) (h : WellFormed case v) (q : Place c v) (own : q.owner ≡ a) where
  ask_none :
      reply.proxy ≡ none
      → with_proxy case cb ud dst a c path reply reply.proxy v
        ≡ some (
          dbus_failure reply.proxy_error,
          emit (connect_callback cb a (some dst) none (dbus_failure reply.proxy_error) ud) v,
        )
  ask_none e = rw e

  module _ (proxy : ℕ) (has_proxy : reply.proxy ≡ some proxy) where
    abbrev asked : World
    asked = emit (device_connect proxy) (
        emit (signal_connect proxy on_device_properties)
          (write_device c (proxied proxy path reply q.device) v))

    asked-WellFormed : WellFormed case asked
    asked-WellFormed =
        write_place-WellFormed case v h c q (proxied proxy path reply q.device) refl refl
          (Place-ok case v h c q).present refl

    ask_accepted :
        reply.connect_error ≡ none
        → (w' : World) × (with_proxy case cb ud dst a c path reply reply.proxy v
            ≡ some (success, w'))
          × WellFormed case w'
          × ((q' : Place c w') × (q'.device
                ≡ with_timeout reply.timeout_id (proxied proxy path reply q.device)))
    ask_accepted e =
        let dev = proxied proxy path reply q.device in
        let pa : Place c asked = Place-write c v dev q in
        (
          write_device c (with_timeout reply.timeout_id dev) asked,
          rw (has_proxy, q.stored, e) (rw (update_self v.devices c (some dev))),
          write_place-WellFormed case asked asked-WellFormed c pa _ refl refl
              (Place-ok case v h c q).present refl,
          (Place-write c asked (with_timeout reply.timeout_id dev) pa, refl),
        )

    ask_refused :
        (err : GError)
        → reply.connect_error ≡ some err
        → (w' : World) × (with_proxy case cb ud dst a c path reply reply.proxy v
            ≡ some (connect_error_code err, w'))
          × WellFormed case w'
          × ((q' : Place c w') × (q'.device ≡ given_up (proxied proxy path reply q.device)))
    unfolding connect_failed
    ask_refused err e =
        let dev = proxied proxy path reply q.device in
        let off : Device = record dev { state = disconnected } in
        let pa : Place c asked = Place-write c v dev q in
        let owner : dev.adapter ≡ a = (Place-ok case v h c q).owner ∙ own in
        let set =
          subst
            (λ b.
              set_state case none b dev.device_id disconnected asked
              ≡ some (success, write_device c off asked))
            owner (set_state-Place case asked asked-WellFormed c pa none disconnected (λ x. cc)) in
        let w1 = write_device c off asked in
        let p1 : Place c w1 = Place-write c asked off pa in
        let hw1 =
          write_place-WellFormed case asked asked-WellFormed c pa off refl refl (λ x. cc) refl in
        (
          emit (connect_callback cb a (some dst) none (connect_error_code err) ud)
              (write_device c (given_up dev) w1),
          rw (has_proxy, q.stored, e)
              (rw (update_self v.devices c (some dev))
                (rw set (rw (update_self asked.devices c (some off))))),
          write_place-WellFormed case w1 hw1 c p1 (given_up dev) refl refl (λ x. cc) refl,
          (Place-write c w1 (given_up dev) p1, refl),
        )

module _ (case : AsciiCase) (cb ud : ℕ) (dst : Text) (a : ℕ) (path : Text) (reply : ConnectReply)
    (w : World) (h : WellFormed case w) (ma : elem a w.adapter_list ≡ true)
    (l : Listed case a path w) where
  abbrev pub slot : Place l.address w
  slot = record {
    owner = a;
    adapter = l.owner;
    device = l.device;
    owner_listed = ma;
    adapter_stored = l.owner_stored;
    listed = l.listed;
    stored = l.stored;
  }

  locked_lem :
      connect_locked case cb ud dst a path reply w
      ≡ connect_device case cb ud dst a (some l.address) path reply w
  unfolding connect_locked adapter_is_valid
  locked_lem = rw (ma, get_device-Listed case a path w h ma l)

  -- A device that is connecting, connected or disconnecting is busy: the application is told, and
  -- nothing else happens.
  pub connect_locked-busy :
      l.device.state ≢ disconnected
      → connect_locked case cb ud dst a path reply w
        ≡ some (busy, emit (connect_callback cb a (some dst) none busy ud) w)
  connect_locked-busy n = locked_lem ∙ rw (l.stored, is_disconnected_ne l.device.state n)

  abbrev Noted : World → Type 0
  Noted w1 = WellFormed case w1 × ((q : Place l.address w1) × (q.device ≡ requested cb ud l.device))

  noted :
      l.device.state ≡ disconnected
      → (w1 : World) × (connect_locked case cb ud dst a path reply w
          ≡ with_proxy case cb ud dst a l.address path reply reply.proxy w1)
        × Noted w1
  noted d =
      let new =
        with_on_connection
          (record l.device.connection.on_connection { callback = some cb; user_data = ud })
          l.device in
      let (w1, e, hw, qe, log) =
        rewrite_and_set case w h l.address slot w new connecting (Same-refl w) refl refl refl
          (Place-ok case w h l.address slot).present (λ x. cc) in
      let ready : is_disconnected l.device.state ≡ true = ap is_disconnected d in
      (w1, locked_lem ∙ rw (l.stored, ready, e), (hw, qe))

  owner_eq :
      (v : World)
      → WellFormed case v
      → (q : Place l.address v) → q.device ≡ requested cb ud l.device
      → q.owner ≡ a
  owner_eq v hv q e =
      let mine = (Place-ok case w h l.address slot).owner in
      let theirs = (Place-ok case v hv l.address q).owner in
      sym theirs ∙ ap (λ (x : Device). x.adapter) e ∙ mine

  -- A disconnected device whose proxy D-Bus gives and whose request it takes: the application's
  -- callback, the proxy, the path, the signal and the timeout are stored, the state is CONNECTING,
  -- nothing else of the device changes, and the world stays well-formed.
  pub connect_locked_accepted :
      (proxy : ℕ)
      → l.device.state ≡ disconnected
      → reply.proxy ≡ some proxy
      → reply.connect_error ≡ none
      → (w' : World) × (connect_locked case cb ud dst a path reply w ≡ some (success, w'))
        × WellFormed case w'
        × ((q : Place l.address w') × (q.device
              ≡ with_timeout reply.timeout_id
                  (proxied proxy path reply (requested cb ud l.device))))
  connect_locked_accepted proxy d hp ne =
      let (v, e, (hv, (q, eq))) = noted d in
      let (w', f, hw, (q', eq')) =
        ask_accepted case cb ud dst a path reply l.address v hv q (owner_eq v hv q eq) proxy hp
          ne in
      (
        w',
        e ∙ f,
        hw,
        (q', eq' ∙ ap (λ dev. with_timeout reply.timeout_id (proxied proxy path reply dev)) eq),
      )

  -- A disconnected device whose request D-Bus refuses: the call answers the code for the error, and
  -- the device is disconnected again, without an object path; the world stays well-formed.
  pub connect_locked_refused :
      (proxy : ℕ) (err : GError)
      → l.device.state ≡ disconnected
      → reply.proxy ≡ some proxy
      → reply.connect_error ≡ some err
      → (w' : World) × (connect_locked case cb ud dst a path reply w
          ≡ some (connect_error_code err, w'))
        × WellFormed case w'
        × ((q : Place l.address w') × (q.device
              ≡ given_up (proxied proxy path reply (requested cb ud l.device))))
  connect_locked_refused proxy err d hp he =
      let (v, e, (hv, (q, eq))) = noted d in
      let (w', f, hw, (q', eq')) =
        ask_refused case cb ud dst a path reply l.address v hv q (owner_eq v hv q eq) proxy hp err
          he in
      (w', e ∙ f, hw, (q', eq' ∙ ap (λ dev. given_up (proxied proxy path reply dev)) eq))

  connect_locked_no_proxy :
      l.device.state ≡ disconnected
      → reply.proxy ≡ none
      → (w' : World) × (connect_locked case cb ud dst a path reply w
          ≡ some (dbus_failure reply.proxy_error, w'))
        × WellFormed case w'
        × ((q : Place l.address w') × (q.device ≡ requested cb ud l.device))
  connect_locked_no_proxy d np =
      let (v, e, (hv, (q, eq))) = noted d in
      (
        emit (connect_callback cb a (some dst) none (dbus_failure reply.proxy_error) ud) v,
        e ∙ ask_none case cb ud dst a path reply l.address v hv q (owner_eq v hv q eq) np,
        hv,
        (q, eq),
      )

  listed-Ends : Ends case (connect_locked case cb ud dst a path reply w)
  listed-Ends = elim (DeviceState-discrete l.device.state disconnected) [
    | no n ↦
        (busy, emit (connect_callback cb a (some dst) none busy ud) w, connect_locked-busy n, h)
    | yes d ↦ elim (Option-cases reply.proxy) [
      | inl np ↦
          let (w', e, hw, _) = connect_locked_no_proxy d np in
          (dbus_failure reply.proxy_error, w', e, hw)
      | inr (proxy, hp) ↦ elim (Option-cases reply.connect_error) [
        | inl ne ↦
            let (w', e, hw, _) = connect_locked_accepted proxy d hp ne in (success, w', e, hw)
        | inr (err, he) ↦
            let (w', e, hw, _) = connect_locked_refused proxy err d hp he in
            (connect_error_code err, w', e, hw)
      ]
    ]
  ]

-- Where D-Bus gives no proxy of the device, the call fails, and the device stays CONNECTING: the next
-- call for it, whatever D-Bus would answer then, is refused as busy.
pub connect_locked_stuck :
    (case : AsciiCase) (cb ud : ℕ) (dst : Text) (a : ℕ) (path : Text) (reply later : ConnectReply)
    (w : World)
    → WellFormed case w
    → elem a w.adapter_list ≡ true
    → (l : Listed case a path w) → l.device.state ≡ disconnected
    → reply.proxy ≡ none
    → (w' : World) × (connect_locked case cb ud dst a path reply w
        ≡ some (dbus_failure reply.proxy_error, w'))
      × (connect_locked case cb ud dst a path later w'
          ≡ some (busy, emit (connect_callback cb a (some dst) none busy ud) w'))
connect_locked_stuck case cb ud dst a path reply later w h ma l d np =
    let (w', e, hw, (q, eq)) = connect_locked_no_proxy case cb ud dst a path reply w h ma l d np in
    let own = owner_eq case cb ud dst a path reply w h ma l w' hw q eq in
    let here : Listed case a path w' = record {
      owner = q.adapter;
      address = l.address;
      device = q.device;
      owner_stored = subst (λ b. w'.adapters b ≡ some q.adapter) own q.adapter_stored;
      listed = q.listed;
      stored = q.stored;
      matches = rw eq l.matches;
    } in
    let state : q.device.state ≡ connecting = ap (λ (x : Device). x.state) eq in
    (
      w',
      e,
      connect_locked-busy case cb ud dst a path later w' hw
          (subst (λ b. elem b w'.adapter_list ≡ true) own q.owner_listed) here (λ x. cc),
    )

-- Under the mutex `gattlib_connect` never faults and keeps the world well-formed, for every
-- adapter address, device path and reply of D-Bus.
pub connect_locked-Ends :
    (case : AsciiCase) (cb ud : ℕ) (dst : Text) (a : ℕ) (path : Text) (reply : ConnectReply)
    (w : World)
    → WellFormed case w
    → Ends case (connect_locked case cb ud dst a path reply w)
unfolding connect_locked adapter_is_valid
connect_locked-Ends case cb ud dst a path reply w h = elim (Bool-cases (elem a w.adapter_list)) [
  | inr gone ↦
      (adapter_close, emit (connect_callback cb a (some dst) none adapter_close ud) w, rw gone, h)
  | inl ma ↦ elim (listed_cases case a path w h ma) [
    | inr l ↦ listed-Ends case cb ud dst a path reply w h ma l
    | inl u ↦ (
      invalid_parameter,
      emit (connect_callback cb a (some dst) none invalid_parameter ud) w,
      rw (ma, get_device-Unlisted case a path w h ma u),
      h,
    )
  ]
]
