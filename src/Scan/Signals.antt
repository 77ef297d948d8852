-- ===== src/Scan/Signals.antt =====
-- The devices that D-Bus reports during a scan (dbus/gattlib_adapter.c,
-- common/gattlib_callback_discovered_device.c): the objects stay well-formed.
use gattlibcpp.Base.{
  ℕ, Bool, true, false, ◌&&◌, Option, none, some, ◌==◌, ◌>>=◌, Holds, Holds-bind, Holds-read,
  Holds-if, Holds-option, subst, sym, if◌then◌else◌,
}
use gattlibcpp.Glib.{AsciiCase}
use gattlibcpp.World.{
  Text, DeviceState, not_found, disconnected, Handler, Task, World, object_unref, emit,
  thread_start,
}
use gattlibcpp.World.Codes.{success}
use gattlibcpp.Device.{adapter_is_valid, get_state, set_state, is_not_found}
use gattlibcpp.Device.Invariant.{WellFormed}
use gattlibcpp.Device.SetState.{Fresh}
use gattlibcpp.Device.Outcome.{set_state-Ends}
use gattlibcpp.Connection.Safe.{Same, Same-refl, Same-WellFormed}
use gattlibcpp.Handler.{has_valid_handler, dispatch_to_thread}
use gattlibcpp.Scan.Found.{
  DeviceProxy, discovered_args, on_discovered_device, report_device, on_added_device,
  refresh_device, with_manager, on_properties_changed, on_object_removed,
}

started-Same :
    (started : Bool) (t : Task) (a : ℕ) (w : World)
    → Same w (if started then emit (thread_start t a) w else w)
started-Same true t a w = Same-refl w
started-Same false t a w = Same-refl w

dispatch_to_thread-Same :
    (h : Handler) (task : Option Task) (a : ℕ) (started : Bool) (w : World)
    → Holds (Same w) (dispatch_to_thread h task a started w)
unfolding dispatch_to_thread
dispatch_to_thread-Same h task a started w =
    Holds-if (Same w) (has_valid_handler (some h)) _ (some w)
      (λ e. Holds-read (Same w) task _ (λ t f. started-Same started t a w)) (λ e. Same-refl w)

on_discovered_device-Same :
    (a : ℕ) (proxy : DeviceProxy) (started : Bool) (w : World)
    → Holds (Same w) (on_discovered_device a proxy started w)
unfolding on_discovered_device
on_discovered_device-Same a proxy started w =
    Holds-if (Same w) (adapter_is_valid a w) _ (some w)
      (λ e. Holds-read (Same w) (w.adapters a) _ (λ ad f.
        dispatch_to_thread-Same ad.discovered_device_callback (discovered_args proxy) a started w))
      (λ e. Same-refl w)

module _ (case : AsciiCase) (fresh : Option ℕ) (started : Bool) (w : World) (h : WellFormed case w)
    (free : Fresh fresh w) (a : ℕ) (path : Text) where
  abbrev Fine : ℕ × World → Type 0
  Fine r = WellFormed case r.1

  set_state-Fine : (s : DeviceState) → Holds Fine (set_state case fresh a path s w)
  set_state-Fine s =
      let (n, v, e, k) = set_state-Ends case fresh a path s w h free in subst (Holds Fine) (sym e) k

  report_device-WellFormed :
      (proxy : DeviceProxy)
      → Holds (WellFormed case) (report_device case fresh started a path proxy w)
  report_device-WellFormed proxy =
      Holds-bind Fine (WellFormed case) (set_state case fresh a path disconnected w) _
        (set_state-Fine disconnected)
        (λ (code, w1) k.
          Holds-if (WellFormed case) (code == success) (on_discovered_device a proxy started w1)
            (some w1)
            (λ e.
              kept w1 k (on_discovered_device a proxy started w1)
                (on_discovered_device-Same a proxy started w1))
            (λ e. k))
    where
      kept :
          (w1 : World)
          → WellFormed case w1
          → (r : Option World) → Holds (Same w1) r
          → Holds (WellFormed case) r
      kept w1 k none s = tt
      kept w1 k (some w2) s = Same-WellFormed case w1 w2 s k

  -- A device is reported, and the proxy that was made of it is given back.
  reported-WellFormed :
      (proxy : DeviceProxy)
      → Holds (WellFormed case) (do
        w1 ← report_device case fresh started a path proxy w
        some (emit (object_unref proxy.object) w1))
  reported-WellFormed proxy =
      Holds-bind (WellFormed case) (WellFormed case)
        (report_device case fresh started a path proxy w) _ (report_device-WellFormed proxy)
        (λ w1 k. k)

  pub on_added_device-WellFormed :
      (proxy : Option DeviceProxy)
      → Holds (WellFormed case) (on_added_device case fresh started a path proxy w)
  unfolding on_added_device
  on_added_device-WellFormed none = h
  on_added_device-WellFormed (some proxy) =
      Holds-option (WellFormed case) proxy.address _ _ h (λ address.
        Holds-if (WellFormed case) (adapter_is_valid a w) _ _ (λ e. reported-WellFormed proxy)
          (λ e. h))

  refresh_device-WellFormed :
      (seen : Bool) (proxy : DeviceProxy)
      → Holds (WellFormed case) (refresh_device case fresh started a path seen proxy w)
  refresh_device-WellFormed seen proxy =
      Holds-read (WellFormed case) (get_state case a path w) _ (λ old e.
        Holds-bind (WellFormed case) (WellFormed case)
          (if is_not_found old && seen
            then report_device case fresh started a path proxy w
            else some w)
          _
          (Holds-if (WellFormed case) (is_not_found old && seen)
            (report_device case fresh started a path proxy w) (some w)
            (λ f. report_device-WellFormed proxy) (λ f. h))
          (λ w1 k. k))

  with_manager-WellFormed :
      (is_device seen : Bool) (proxy : Option DeviceProxy) (m : Option ℕ)
      → Holds (WellFormed case) (with_manager case fresh started a path is_device seen proxy m w)
  with_manager-WellFormed is_device seen proxy none = h
  with_manager-WellFormed false seen proxy (some m) = h
  with_manager-WellFormed true seen none (some m) = h
  with_manager-WellFormed true seen (some proxy) (some m) = refresh_device-WellFormed seen proxy

  pub on_properties_changed-WellFormed :
      (is_device seen : Bool) (proxy : Option DeviceProxy)
      → Holds
          (WellFormed case)
          (on_properties_changed case fresh started a path is_device seen proxy w)
  unfolding on_properties_changed
  on_properties_changed-WellFormed is_device seen proxy =
      Holds-if (WellFormed case) (adapter_is_valid a w) _ (some w)
        (λ e.
          Holds-read (WellFormed case) (w.adapters a) _
            (λ ad f. with_manager-WellFormed is_device seen proxy ad.device_manager))
        (λ e. h)

  pub on_object_removed-WellFormed :
      Holds (WellFormed case) (on_object_removed case fresh started a path w)
  unfolding on_object_removed
  on_object_removed-WellFormed =
      Holds-bind Fine (WellFormed case) (set_state case fresh a path not_found w) _
        (set_state-Fine not_found) (λ r k. k)
