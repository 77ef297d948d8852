-- ===== src/System/Invariant.antt =====
-- The worlds that the steps of the library reach.
use gattlibcpp.Base.{ℕ, ◌≡◌, ap, sym, ◌∙◌, Option, some, Holds, Holds-result}
use mathlib.Core.Option.{some-injective}
use gattlibcpp.Glib.{AsciiCase}
use gattlibcpp.World.{World}
use gattlibcpp.Device.Invariant.{WellFormed}
use gattlibcpp.Device.Outcome.{set_state-Ends}
use gattlibcpp.Adapter.Open.{adapter_reopen-WellFormed, register_adapter-WellFormed}
use gattlibcpp.Handler.Register.{
  register_notification-Ends, register_indication-Ends, register_on_disconnect-Ends,
}
use gattlibcpp.Connection.Safe.{Same, Same-WellFormed}
use gattlibcpp.Connection.Connect.{connect_locked-Ends}
use gattlibcpp.Scan.Safe.{
  scan_enable_with_filter-Stays, scan_disable-Stays, stop_scan_on_timeout_lem,
}
use gattlibcpp.Scan.Thread.{
  scan_enable_non_blocking-WellFormed, scan_loop_begin-WellFormed, scan_loop_end-WellFormed,
  scan_enable_end-WellFormed,
}
use gattlibcpp.Scan.Signals.{
  on_added_device-WellFormed, on_properties_changed-WellFormed, on_object_removed-WellFormed,
}
use gattlibcpp.Characteristic.Access.{Buffer}
use gattlibcpp.Characteristic.Safe.{Kept, get_device_manager-Kept}
use gattlibcpp.Characteristic.Calls.{read_char_by_uuid-WellFormed, write_by_uuid-WellFormed}
use gattlibcpp.Notification.Safe.{
  on_property_change-Same, on_indication-Same, on_battery_change-Same,
  notification_device_thread-Same, notification_start-WellFormed, indication_start-WellFormed,
  notification_stop-WellFormed,
}
use gattlibcpp.Disconnection.{on_disconnected_device}
use gattlibcpp.System.{
  Step, device_state, connecting_call, connect_timeout, services_resolved_signal,
  disconnected_signal, disconnecting_call, notification_call, indication_call, on_disconnect_call,
  scan_call, scan_timeout, scan_stop, reopen_call, register_call, unref_call, device_ref_thread,
  device_unref_thread, adapter_ref_thread, scan_non_blocking_call, scan_thread_begin,
  scan_thread_end, scan_call_end, added_signal, changed_signal, removed_signal,
  notification_start_call, indication_start_call, notification_stop_call, value_signal,
  indication_signal, battery_signal, notification_thread, read_call, write_call, manager_call,
  elsewhere, Reach, here, later,
}
use gattlibcpp.System.Cases.{
  of_pair, of_world, of_Ends, stop_connect_lem, services_lem, disconnected_lem, request-WellFormed,
  unref-WellFormed, device_ref-WellFormed, device_unref-WellFormed, adapter_ref-WellFormed,
}

module _ (case : AsciiCase) where
  abbrev Fine : ℕ × World → Type 0
  Fine r = WellFormed case r.1

  same_objects :
      (w w' : World)
      → WellFormed case w
      → (r : Option World) → Holds (Same w) r
      → r ≡ some w'
      → WellFormed case w'
  same_objects w w' h r s e = Same-WellFormed case w w' (Holds-result (Same w) r w' s e) h

  -- Every step keeps the world well-formed.
  Step-WellFormed : {w w' : World} → Step case w w' → WellFormed case w → WellFormed case w'
  Step-WellFormed {w} {w'} (device_state fresh a id new code free e) h =
      of_Ends case code w' (set_state-Ends case fresh a id new w h free) e
  Step-WellFormed {w} {w'} (connecting_call cb ud dst a path reply code e) h =
      of_Ends case code w' (connect_locked-Ends case cb ud dst a path reply w h) e
  Step-WellFormed {w} {w'} (connect_timeout c e) h =
      let (v, f, k) = stop_connect_lem case w h c in of_world case v w' f k e
  Step-WellFormed {w} {w'} (services_resolved_signal c manager objects started e) h =
      let (v, f, k) = services_lem case w h c manager objects started in of_world case v w' f k e
  Step-WellFormed {w} {w'} (disconnected_signal c e) h =
      Holds-result (WellFormed case) (on_disconnected_device case c w) w'
        (disconnected_lem case w h c) e
  Step-WellFormed {w} {w'} (disconnecting_call c code e) h = request-WellFormed case w h c code w' e
  Step-WellFormed {w} {w'} (notification_call c handler ud reply code given e) h =
      of_Ends case code w' (register_notification-Ends case c handler ud reply w h given) e
  Step-WellFormed {w} {w'} (indication_call c handler ud reply code e) h =
      of_Ends case code w' (register_indication-Ends case c handler ud reply w h) e
  Step-WellFormed {w} {w'} (on_disconnect_call c handler ud code e) h =
      of_Ends case code w' (register_on_disconnect-Ends case c handler ud w h) e
  Step-WellFormed {w} {w'} (scan_call a q reply code e) h =
      let (n, v, f, k, l) = scan_enable_with_filter-Stays case a q reply w h in
      of_pair case code v w' n f k e
  Step-WellFormed {w} {w'} (scan_timeout a e) h =
      let (v, f, k) = stop_scan_on_timeout_lem case a w h in of_world case v w' f k e
  Step-WellFormed {w} {w'} (scan_stop a reply code e) h =
      let (n, v, f, k, l) = scan_disable-Stays case a reply w h in of_pair case code v w' n f k e
  Step-WellFormed {w} {w'} (reopen_call name found room e) h =
      let (n, v, f, k) = adapter_reopen-WellFormed case w h name room in
      let same : v ≡ w' =
        ap (λ (p : Option ℕ × World). p.1) (some-injective (n, v) (found, w') (sym f ∙ e)) in
      rw (← same) k
  Step-WellFormed {w} {w'} (register_call name proxy memory code a fresh e) h =
      let same = ap (λ (p : ℕ × Option ℕ × World). p.2) e in
      rw (← same) (register_adapter-WellFormed case w h name proxy memory fresh)
  Step-WellFormed {w} {w'} (unref_call a ad code m s e) h =
      unref-WellFormed case w h a code ad w' m s e
  Step-WellFormed {w} {w'} (device_ref_thread c code p room e) h =
      device_ref-WellFormed case w h c code p w' room e
  Step-WellFormed {w} {w'} (device_unref_thread c code p more e) h =
      device_unref-WellFormed case w h c code p w' more e
  Step-WellFormed {w} {w'} (adapter_ref_thread a ad code m s room e) h =
      adapter_ref-WellFormed case w h a code ad w' m s room e
  Step-WellFormed {w} {w'} (scan_non_blocking_call a q reply code e) h =
      Holds-result Fine _ (code, w') (scan_enable_non_blocking-WellFormed case a w h q reply) e
  Step-WellFormed {w} {w'} (scan_thread_begin a id e) h =
      Holds-result (WellFormed case) _ w' (scan_loop_begin-WellFormed case a w h id) e
  Step-WellFormed {w} {w'} (scan_thread_end a reply e) h =
      Holds-result (WellFormed case) _ w' (scan_loop_end-WellFormed case a w h reply) e
  Step-WellFormed {w} {w'} (scan_call_end a code e) h =
      Holds-result Fine _ (code, w') (scan_enable_end-WellFormed case a w h) e
  Step-WellFormed {w} {w'} (added_signal fresh started a path proxy free e) h =
      Holds-result (WellFormed case) _ w'
        (on_added_device-WellFormed case fresh started w h free a path proxy) e
  Step-WellFormed {w} {w'} (changed_signal fresh started a path is_device seen proxy free e) h =
      Holds-result (WellFormed case) _ w'
        (on_properties_changed-WellFormed case fresh started w h free a path is_device seen proxy) e
  Step-WellFormed {w} {w'} (removed_signal fresh started a path free e) h =
      Holds-result (WellFormed case) _ w'
        (on_object_removed-WellFormed case fresh started w h free a path) e
  Step-WellFormed {w} {w'} (notification_start_call c uuid bus reply code e) h =
      Holds-result Fine _ (code, w') (notification_start-WellFormed case w h c uuid bus reply) e
  Step-WellFormed {w} {w'} (indication_start_call c uuid bus reply code e) h =
      Holds-result Fine _ (code, w') (indication_start-WellFormed case w h c uuid bus reply) e
  Step-WellFormed {w} {w'} (notification_stop_call c uuid error code e) h =
      Holds-result Fine _ (code, w') (notification_stop-WellFormed case w h c uuid error) e
  Step-WellFormed {w} {w'} (value_signal parse c text value e) h =
      same_objects w w' h _ (on_property_change-Same parse c text value w) e
  Step-WellFormed {w} {w'} (indication_signal parse c text value e) h =
      same_objects w w' h _ (on_indication-Same parse c text value w) e
  Step-WellFormed {w} {w'} (battery_signal c value e) h =
      same_objects w w' h _ (on_battery_change-Same c value w) e
  Step-WellFormed {w} {w'} (notification_thread of_indication c uuid bytes e) h =
      same_objects w w' h _ (notification_device_thread-Same of_indication c uuid bytes w) e
  Step-WellFormed {w} {w'} (read_call c uuid bus reply code buffer e) h =
      Holds-result (λ (r : ℕ × Buffer × World). WellFormed case r.2) _ (code, buffer, w')
        (read_char_by_uuid-WellFormed case w h c uuid bus reply) e
  Step-WellFormed {w} {w'} (write_call options c uuid bytes bus error code e) h =
      Holds-result Fine _ (code, w')
        (write_by_uuid-WellFormed case w h c uuid bus options bytes error) e
  Step-WellFormed {w} {w'} (manager_call a reply m listed e) h =
      (Holds-result (Kept case w) _ (m, w') (get_device_manager-Kept case w h a reply listed) e).0
  Step-WellFormed {w} {w'} (elsewhere same) h = Same-WellFormed case w w' same h

  -- Whatever steps of the application's calls, the signals of D-Bus, the timeouts and the threads come,
  -- and in whatever order, a well-formed world stays well-formed: every open adapter and every device
  -- that one lists is in memory and referenced, each device points back to its adapter and has a state,
  -- and no two devices of an adapter have the same id. New memory is not in use, counters have room for
  -- one more reference where one is taken, GLib hands out a pool whenever it reports no error, and a
  -- callback's thread gives a device back while another reference is there.
  pub Reach-WellFormed : {w w' : World} → Reach case w w' → WellFormed case w → WellFormed case w'
  Reach-WellFormed here h = h
  Reach-WellFormed (later r s) h = Step-WellFormed s (Reach-WellFormed r h)
