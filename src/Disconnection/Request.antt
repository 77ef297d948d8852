-- ===== src/Disconnection/Request.antt =====
-- `gattlib_disconnect`.
use gattlibcpp.Base.{
  ℕ, ◌≡◌, ◌≢◌, refl, ◌∙◌, ap, subst, inl, inr, true, false, none, some, List, [], ◌∷◌, Option-cases,
}
use gattlibcpp.Glib.{AsciiCase}
use gattlibcpp.World.{
  connected, disconnecting, DeviceState, Device, World, write_device, emit, device_disconnect,
}
use gattlibcpp.World.Codes.{success, busy}
use gattlibcpp.Device.{set_state, is_connected}
use gattlibcpp.Device.Invariant.{WellFormed}
use gattlibcpp.Validity.{connection_is_connected}
use gattlibcpp.Validity.Place.{Place, connected-Place, connected_cases}
use gattlibcpp.Handler.Register.{write_place-WellFormed}
use gattlibcpp.Connection.Safe.{
  Same, Same-refl, Same-WellFormed, Same-Place, Place-write, set_state-Place,
}
use gattlibcpp.Disconnection.{
  Wakeup, woken, timed_out, disconnect_request, wait_disconnection, disconnect,
}

abbrev asked : Device → World → World
asked dev w = elim dev.connection.backend.device [
  | some proxy ↦ emit (device_disconnect proxy) w
  | none ↦ w
]

asked-Same : (dev : Device) (w : World) → Same w (asked dev w)
asked-Same dev w = elim (Option-cases dev.connection.backend.device) [
  | inl e ↦ rw e (Same-refl w)
  | inr (proxy, e) ↦ rw e (Same-refl w)
]

abbrev pub leaving : Device → Device
leaving dev = record dev { state = disconnecting }

is_connected_ne : (s : DeviceState) → s ≢ connected → is_connected s ≡ false
is_connected_ne connected n = absurd (n refl)
is_connected_ne _ n = refl

module _ (case : AsciiCase) (w : World) (h : WellFormed case w) (c : ℕ) (p : Place c w) where
  -- A connected device is asked to disconnect and is DISCONNECTING from then on.
  pub disconnect_request_lem :
      p.device.state ≡ connected
      → (w' : World) × (disconnect_request case (some c) w ≡ some (success, w'))
        × WellFormed case w'
        × ((q : Place c w') × (q.device ≡ leaving p.device))
  unfolding disconnect_request
  disconnect_request_lem s =
      let v = asked p.device w in
      let same = asked-Same p.device w in
      let hv = Same-WellFormed case w v same h in
      let (pv, ev) = Same-Place c w v same p in
      let set =
        subst
          (λ (d : Device).
            set_state case none d.adapter d.device_id disconnecting v
            ≡ some (success, write_device c (leaving d) v))
          ev (set_state-Place case v hv c pv none disconnecting (λ x. cc)) in
      let answer : connection_is_connected c w ≡ some true =
        connected-Place case w h c p ∙ ap (λ t. some (is_connected t)) s in
      (
        write_device c (leaving p.device) v,
        rw (answer, p.stored, set),
        write_place-WellFormed case v hv c pv (leaving p.device) (rw ev) (rw ev) (λ x. cc) (rw ev),
        (Place-write c v (leaving p.device) pv, refl),
      )

  -- Any other listed device is refused, and nothing changes.
  pub disconnect_request-busy :
      p.device.state ≢ connected → disconnect_request case (some c) w ≡ some (busy, w)
  unfolding disconnect_request
  disconnect_request-busy n =
      let answer : connection_is_connected c w ≡ some false =
        connected-Place case w h c p ∙ ap some (is_connected_ne p.device.state n) in
      rw (answer, p.stored)

wait_at_once :
    (c : ℕ) (wakeups : List Wakeup) (w : World)
    → connection_is_connected c w ≡ some false
    → wait_disconnection c wakeups w ≡ some (some success, w)
unfolding wait_disconnection
wait_at_once c [] w e = rw e
wait_at_once c (timed_out w1 ∷ more) w e = rw e
wait_at_once c (woken w1 ∷ more) w e = rw e

-- The request itself takes a connected device out of the state that the wait is about: the device
-- is DISCONNECTING when the mutex is given back. Where the other threads leave it so until the first
-- test of the wait (in a well-formed world), `gattlib_disconnect` answers success at that test,
-- without the disconnection that it should wait for, and whatever would have woken it afterwards.
pub disconnect_at_once :
    (case : AsciiCase) (w v : World) (c : ℕ) (others : World → World) (wakeups : List Wakeup)
    → WellFormed case w
    → (p : Place c w) → p.device.state ≡ connected
    → ((w' : World) → disconnect_request case (some c) w ≡ some (success, w') → others w' ≡ v)
    → WellFormed case v
    → (q : Place c v) → q.device.state ≡ disconnecting
    → (w' : World) × (disconnect_request case (some c) w ≡ some (success, w'))
      × ((r : Place c w') × (r.device.state ≡ disconnecting))
      × (disconnect case (some c) true others wakeups w ≡ some (some success, v))
unfolding disconnect
disconnect_at_once case w v c others wakeups h p s left hv q state =
    let (w', e, hw, (r, er)) = disconnect_request_lem case w h c p s in
    let here : others w' ≡ v = left w' e in
    let away : connection_is_connected c v ≡ some false =
      connected-Place case v hv c q ∙ ap (λ t. some (is_connected t)) state in
    (w', e, (r, ap (λ (d : Device). d.state) er), rw (e, here) (wait_at_once c wakeups v away))

-- A connection whose device was freed is read all the same, for the log message: the call faults.
pub disconnect_request_stale :
    (case : AsciiCase) (w : World) (c : ℕ)
    → WellFormed case w
    → w.devices c ≡ none
    → disconnect_request case (some c) w ≡ none
unfolding disconnect_request
disconnect_request_stale case w c h gone = elim (connected_cases case w h c) [
  | inl e ↦ rw (e, gone)
  | inr (p, _, _) ↦ let e = p.stored in cc
]
