-- ===== src/Scan.antt =====
-- Scanning, dbus/gattlib_adapter.c and common/gattlib_callback_discovered_device.c: the discovery
-- filter, the scan thread and its ends, and the devices that D-Bus reports. Each critical section
-- is one step.
pub mod Disable
pub mod Enable
pub mod Stop
pub mod Close
pub mod Safe
pub mod Thread
pub mod Signals
pub mod Found
use Prim.Native.Nat.{bit_and}
use gattlibcpp.Base.{
  ℕ, ◌≡◌, Bool, true, false, not, ◌&&◌, ◌||◌, Option, none, some, List, [], ◌∷◌, map, ◌==◌, ltb,
  if◌then◌else◌, ◌>>=◌,
}
use gattlibcpp.Glib.{AsciiCase}
use gattlibcpp.DbusError.{GError, dbus_error, dbus_failure}
use gattlibcpp.World.{
  Text, not_found, disconnected, DeviceState, Uuid, Handler, BleScan, empty_scan, Adapter, World,
  set_discovery_filter, start_discovery, stop_discovery, signal_connect, signal_disconnect,
  source_remove, thread_start, thread_unref, scan_task, on_added, on_removed,
  on_interface_properties, broadcast, emit, write_adapter,
}
use gattlibcpp.World.Codes.{success, invalid_parameter, no_adapter, adapter_close, error_internal}
use gattlibcpp.Uuid.{uuid_to_string}
use gattlibcpp.Device.{adapter_is_valid, get_state, set_state, is_not_found}
use gattlibcpp.Validity.{adapter_is_scanning}
use gattlibcpp.Handler.{handler_free, has_valid_handler, dispatch_to_thread}
use gattlibcpp.Adapter.{get_device_manager, adapter_ref, adapter_unref}

abbrev pub with_scan : BleScan → Adapter → Adapter
with_scan s ad = record ad { ble_scan = s }

-- GATTLIB_DISCOVER_FILTER_USE_UUID and GATTLIB_DISCOVER_FILTER_USE_RSSI
abbrev pub uses_uuid : ℕ → Bool
uses_uuid filters = not (bit_and filters 1 == 0)

abbrev pub uses_rssi : ℕ → Bool
uses_rssi filters = not (bit_and filters 2 == 0)

-- `char uuid_str[MAX_LEN_UUID_STR + 1]`
abbrev pub uuid_str_size : ℕ
uuid_str_size = 38

-- The "UUIDs" entry of the filter: none if it is not asked for.
abbrev pub uuid_filter : ℕ → List Uuid → Option (List Text)
uuid_filter filters uuids =
    if uses_uuid filters then some (map (λ u. (uuid_to_string u uuid_str_size).1) uuids) else none

abbrev pub rssi_filter : ℕ → ℕ → Option ℕ
rssi_filter filters threshold = if uses_rssi filters then some threshold else none

-- What D-Bus and GLib answer while a scan starts.
pub record ScanReply : Type 0 where
  pub filter_error : Option GError
  pub manager : Option ℕ
  pub manager_error : Option GError
  pub added_id : ℕ
  pub removed_id : ℕ
  pub changed_id : ℕ
  pub start_error : Option GError
  pub thread : Option ℕ

-- What the application asks for.
pub record ScanRequest : Type 0 where
  pub uuid_list : Option (List Uuid)
  pub rssi_threshold : ℕ
  pub enabled_filters : ℕ
  pub callback : Option ℕ
  pub timeout : ℕ
  pub user_data : ℕ

abbrev pub started_scan : ScanRequest → ScanReply → Adapter → Adapter
started_scan q reply ad = record ad {
  ble_scan = record empty_scan {
    enabled_filters = q.enabled_filters;
    ble_scan_timeout = q.timeout;
    added_signal_id = reply.added_id;
    removed_signal_id = reply.removed_id;
    changed_signal_id = reply.changed_id;
  };
  discovered_device_callback = record ad.discovered_device_callback {
    callback = q.callback;
    user_data = q.user_data;
  };
}

abbrev pub discovery_code : Option GError → ℕ
discovery_code none = success
discovery_code (some e) = dbus_error e

-- From the device manager on: the scan structure is cleared, the three signals are connected, the
-- discovery is started.
abbrev pub begin_discovery : ℕ → ScanRequest → ScanReply → ℕ → Option ℕ → World → Option (ℕ × World)
begin_discovery a q reply proxy none w = some (dbus_failure reply.manager_error, w)
begin_discovery a q reply proxy (some m) w = do
  ad ← w.adapters a
  some (
    discovery_code reply.start_error,
    emit (start_discovery proxy) (
        emit (signal_connect m on_interface_properties) (
          emit (signal_connect m on_removed)
            (emit (signal_connect m on_added) (write_adapter a (started_scan q reply ad) w)))),
  )

abbrev pub apply_filter :
    ℕ → ScanRequest → ScanReply → ℕ → List Uuid → Option GError → World → Option (ℕ × World)
apply_filter a q reply proxy uuids (some e) w = some (
  dbus_error e,
  emit
      (set_discovery_filter proxy (uuid_filter q.enabled_filters uuids)
        (rssi_filter q.enabled_filters q.rssi_threshold))
      w,
)
apply_filter a q reply proxy uuids none w = do
  (m, w1) ← get_device_manager a reply.manager (
      emit
        (set_discovery_filter proxy (uuid_filter q.enabled_filters uuids)
          (rssi_filter q.enabled_filters q.rssi_threshold))
        w)
  begin_discovery a q reply proxy m w1

abbrev pub check_uuids :
    ℕ → ScanRequest → ScanReply → ℕ → Bool → Option (List Uuid) → World → Option (ℕ × World)
check_uuids a q reply proxy true none w = some (invalid_parameter, w)
check_uuids a q reply proxy used (some uuids) w =
    apply_filter a q reply proxy uuids reply.filter_error w
check_uuids a q reply proxy false none w = apply_filter a q reply proxy [] reply.filter_error w

abbrev pub with_adapter_proxy : ℕ → ScanRequest → ScanReply → Option ℕ → World → Option (ℕ × World)
with_adapter_proxy a q reply none w = some (no_adapter, w)
with_adapter_proxy a q reply (some proxy) w =
    check_uuids a q reply proxy (uses_uuid q.enabled_filters) q.uuid_list w

-- `_gattlib_adapter_scan_enable_with_filter`
unfoldable pub scan_start : ℕ → ScanRequest → ScanReply → World → Option (ℕ × World)
unfolding get_device_manager
scan_start a q reply w = do ad ← w.adapters a; with_adapter_proxy a q reply ad.adapter_proxy w

-- The thread's handle is given back at once: `scan_loop_thread` is NULL in either case.
abbrev pub start_thread : ℕ → Option ℕ → World → ℕ × World
start_thread a (some t) w = (success, emit (thread_unref t) (emit (thread_start scan_task a) w))
start_thread a none w = (error_internal, w)

abbrev pub set_scanning : Bool → ℕ → World → Option World
set_scanning b a w = do
  ad ← w.adapters a
  some (write_adapter a (with_scan (record ad.ble_scan { is_scanning = b }) ad) w)

-- `gattlib_adapter_scan_enable_with_filter` up to its wait for the end of the scan.
unfoldable pub scan_enable_with_filter : ℕ → ScanRequest → ScanReply → World → Option (ℕ × World)
unfolding scan_start adapter_is_valid
scan_enable_with_filter a q reply w =
    if adapter_is_valid a w
    then (do
      (code, w1) ← scan_start a q reply w
      if code == success
          then (do w2 ← set_scanning true a w1; some (start_thread a reply.thread w2))
          else some (code, w1))
    else some (adapter_close, w)

-- `gattlib_adapter_scan_enable_with_filter_non_blocking`: the thread itself marks the scan.
unfoldable pub scan_enable_non_blocking : ℕ → ScanRequest → ScanReply → World → Option (ℕ × World)
unfolding scan_start adapter_is_valid
scan_enable_non_blocking a q reply w =
    if adapter_is_valid a w
    then (do
      (code, w1) ← scan_start a q reply w
      if code == success then some (start_thread a reply.thread w1) else some (code, w1))
    else some (adapter_close, w)

-- GATTLIB_SIGNAL_ADAPTER_STOP_SCANNING is set, and the waiting threads are woken.
abbrev pub signal_stop : World → World
signal_stop w = record w { stop_scanning_signal = true; effects = broadcast ∷ w.effects }

-- `_stop_scan_on_timeout`
unfoldable pub stop_scan_on_timeout : ℕ → World → Option World
unfolding adapter_is_valid
stop_scan_on_timeout a w =
    if adapter_is_valid a w
    then (do
      ad ← w.adapters a
      let s = ad.ble_scan
      if s.is_scanning
          then some (
              signal_stop (
                write_adapter a
                  (with_scan (record s { is_scanning = false; ble_scan_timeout_id = 0 }) ad) w))
          else some (write_adapter a (with_scan (record s { ble_scan_timeout_id = 0 }) ad) w))
    else some w

-- `_ble_scan_loop_thread` up to its wait; a timeout is armed only if one is wanted.
unfoldable pub scan_loop_begin : ℕ → ℕ → World → Option World
unfolding adapter_is_valid
scan_loop_begin a timeout_id w =
    if adapter_is_valid a w
    then (do
      ad ← w.adapters a
      let s = ad.ble_scan
      some (
          write_adapter a
            (with_scan
              (record s {
                is_scanning = true;
                ble_scan_timeout_id =
                    if ltb 0 s.ble_scan_timeout then timeout_id else s.ble_scan_timeout_id;
              })
              ad)
            w))
    else some w

-- Does D-Bus report that no discovery was started?
abbrev pub no_discovery_started : GError → Bool
no_discovery_started e = (e.domain == 238 || e.domain == 239) && e.code == 36

abbrev pub stop_refused : Option GError → Bool
stop_refused none = false
stop_refused (some e) = no_discovery_started e

-- The rest of `gattlib_adapter_scan_disable` once the discovery was asked to stop.
abbrev pub end_scan : ℕ → World → Option (ℕ × World)
end_scan a w = do
  ad ← w.adapters a
  let s = ad.ble_scan
  let (handler, w1) = handler_free ad.discovered_device_callback w
  let w2 = if s.is_scanning then signal_stop w1 else w1
  let w3 = if s.ble_scan_timeout_id == 0 then w2 else emit (source_remove s.ble_scan_timeout_id) w2
  some (
    success,
    write_adapter a
        (record ad {
          discovered_device_callback = handler;
          ble_scan = record s { is_scanning = false; ble_scan_timeout_id = 0 };
        })
        w3,
  )
