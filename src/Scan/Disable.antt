-- ===== src/Scan/Disable.antt =====
-- The end of a scan and of an adapter, dbus/gattlib_adapter.c: `gattlib_adapter_scan_disable`, the
-- end of the scan thread, the end of the blocking call, and `gattlib_adapter_close`.
use gattlibcpp.Base.{ℕ, Bool, ◌&&◌, Option, none, some, List, [], ◌∷◌, ◌==◌, if◌then◌else◌, ◌>>=◌}
use gattlibcpp.DbusError.{GError}
use gattlibcpp.World.{
  BleScan, Adapter, World, stop_discovery, signal_disconnect, thread_ref, thread_unref, thread_join,
  emit, write_adapter,
}
use gattlibcpp.World.Codes.{success, no_adapter, adapter_close, busy}
use gattlibcpp.Device.{adapter_is_valid, devices_are_disconnected}
use gattlibcpp.Adapter.{adapter_unref, unref_thread}
use gattlibcpp.Validity.{adapter_is_scanning}
use gattlibcpp.Scan.{
  ScanRequest, ScanReply, stop_refused, end_scan, with_scan, scan_loop_begin,
  scan_enable_with_filter,
}

-- What D-Bus answers: is a discovery running, and did the request to stop it fail?
pub record StopReply : Type 0 where
  pub discovering : Bool
  pub stop_error : Option GError

-- The request to stop, for an adapter with a proxy.
abbrev pub stop_scan : ℕ → ℕ → StopReply → World → Option (ℕ × World)
stop_scan a proxy reply w =
    if stop_refused reply.stop_error
    then some (success, emit (stop_discovery proxy) w)
    else end_scan a (emit (stop_discovery proxy) w)

abbrev pub disable_with_proxy : ℕ → Adapter → StopReply → Option ℕ → World → Option (ℕ × World)
disable_with_proxy a ad reply none w = some (no_adapter, w)
disable_with_proxy a ad reply (some proxy) w =
    if reply.discovering && ad.ble_scan.is_scanning
    then stop_scan a proxy reply w
    else some (success, w)

-- `gattlib_adapter_scan_disable`
unfoldable pub scan_disable : ℕ → StopReply → World → Option (ℕ × World)
unfolding adapter_is_valid
scan_disable a reply w =
    if adapter_is_valid a w
    then (do ad ← w.adapters a; disable_with_proxy a ad reply ad.adapter_proxy w)
    else some (adapter_close, w)

-- The three signals of the scan; without a manager GLib refuses the calls.
abbrev pub drop_signals : Option ℕ → BleScan → World → World
drop_signals none s w = w
drop_signals (some m) s w = emit (signal_disconnect m s.changed_signal_id) (
    emit (signal_disconnect m s.removed_signal_id) (emit (signal_disconnect m s.added_signal_id) w))

-- `_ble_scan_loop_thread` after its wait.
unfoldable pub scan_loop_end : ℕ → StopReply → World → Option World
unfolding adapter_is_valid scan_disable
scan_loop_end a reply w =
    if adapter_is_valid a w
    then (do
      ad ← w.adapters a
      (_, w1) ← scan_disable a reply (drop_signals ad.device_manager ad.ble_scan w)
      some w1)
    else some w

-- `_wait_scan_loop_stop_scanning` over the worlds that wake it; `none` inside is a loop that still
-- waits when they are used up.
unfoldable pub wait_scan : ℕ → List World → World → Option (Option World)
wait_scan a [] w = do scanning ← adapter_is_scanning a w; some (if scanning then none else some w)
wait_scan a (w1 ∷ more) w = do
  scanning ← adapter_is_scanning a w
  if scanning then wait_scan a more w1 else some (some w)

abbrev pub end_after_wait : ℕ → StopReply → Option World → Option (Option World)
end_after_wait a reply none = some none
end_after_wait a reply (some w) = do w1 ← scan_loop_end a reply w; some (some w1)

-- `_ble_scan_loop_thread`: the adapter may be gone when the thread starts.
unfoldable pub ble_scan_loop_thread : ℕ → ℕ → StopReply → List World → World → Option (Option World)
unfolding adapter_is_valid scan_loop_begin scan_loop_end wait_scan
ble_scan_loop_thread a timeout_id reply wakeups w =
    if adapter_is_valid a w
    then (do
      w1 ← scan_loop_begin a timeout_id w
      waited ← wait_scan a wakeups w1
      end_after_wait a reply waited)
    else some (some w)

-- `gattlib_adapter_scan_enable_with_filter` after its wait.
unfoldable pub scan_enable_end : ℕ → World → Option (ℕ × World)
unfolding adapter_is_valid
scan_enable_end a w =
    if adapter_is_valid a w
    then (do
      ad ← w.adapters a
      some (
        success,
        write_adapter a (with_scan (record ad.ble_scan { scan_loop_thread = none }) ad)
            (unref_thread ad.ble_scan.scan_loop_thread w),
      ))
    else some (adapter_close, w)

abbrev pub enabled_after_wait : ℕ → Option World → Option (Option (ℕ × World))
enabled_after_wait a none = some none
enabled_after_wait a (some w) = do r ← scan_enable_end a w; some (some r)

-- `gattlib_adapter_scan_enable_with_filter`
unfoldable pub scan_enable :
    ℕ → ScanRequest → ScanReply → List World → World → Option (Option (ℕ × World))
unfolding scan_enable_with_filter wait_scan scan_enable_end
scan_enable a q reply wakeups w = do
  (code, w1) ← scan_enable_with_filter a q reply w
  if code == success
      then (do waited ← wait_scan a wakeups w1; enabled_after_wait a waited)
      else some (some (code, w1))

-- The part of `gattlib_adapter_close` for an adapter whose devices are all disconnected. While it
-- waits for the scan thread the mutex is free, and `others` is what other threads do. The adapter's
-- thread handle is referenced before the wait, read again and joined after it; `g_thread_ref` and
-- `g_thread_join` take a thread, so NULL is a fault.
abbrev pub close_scanning : ℕ → StopReply → (World → World) → World → Option World
close_scanning a reply others w = do
  (_, w1) ← scan_disable a reply w
  ad1 ← w1.adapters a
  thread ← ad1.ble_scan.scan_loop_thread
  let w2 = others (emit (thread_ref thread) w1)
  ad2 ← w2.adapters a
  joined ← ad2.ble_scan.scan_loop_thread
  (_, w3) ← adapter_unref a (emit (thread_unref thread) (emit (thread_join joined) w2))
  some w3

abbrev pub close_idle : ℕ → Adapter → StopReply → (World → World) → World → Option World
close_idle a ad reply others w =
    if ad.ble_scan.is_scanning
    then close_scanning a reply others w
    else do (_, w1) ← adapter_unref a w; some w1

abbrev pub close_result : Option World → Option (ℕ × World)
close_result none = none
close_result (some w) = some (success, w)

-- `gattlib_adapter_close`
unfoldable pub adapter_close_call : ℕ → StopReply → (World → World) → World → Option (ℕ × World)
unfolding adapter_is_valid scan_disable adapter_unref
adapter_close_call a reply others w =
    if adapter_is_valid a w
    then (do
      ad ← w.adapters a
      idle ← devices_are_disconnected ad.devices w
      if idle then close_result (close_idle a ad reply others w) else some (busy, w))
    else some (adapter_close, w)
