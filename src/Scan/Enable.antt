-- ===== src/Scan/Enable.antt =====
-- A scan that starts, `gattlib_adapter_scan_enable_with_filter` of dbus/gattlib_adapter.c, and what
-- `gattlib_adapter_close` does to it.
use gattlibcpp.Base.{
  ℕ, ◌≡◌, refl, ◌>>=◌, ◌∙◌, ap, Bool, true, false, Option, none, some, List, elem,
}
use gattlibcpp.World.{
  Uuid, Adapter, World, emit, write_adapter, start_discovery, signal_connect,
  on_interface_properties, on_removed, on_added, set_discovery_filter,
}
use gattlibcpp.World.Codes.{success, error_internal}
use gattlibcpp.Device.{adapter_is_valid}
use gattlibcpp.Connection.Safe.{update_self}
use gattlibcpp.Adapter.{get_device_manager}
use gattlibcpp.Scan.{
  ScanRequest, ScanReply, uses_uuid, uuid_filter, rssi_filter, started_scan, discovery_code,
  begin_discovery, check_uuids, apply_filter, with_adapter_proxy, scan_start, start_thread,
  set_scanning, scan_enable_with_filter,
}

-- The adapter after a start.
abbrev pub scanning : ScanRequest → ScanReply → Adapter → Adapter
scanning q reply ad = record (started_scan q reply ad) {
  ble_scan = record (started_scan q reply ad).ble_scan { is_scanning = true };
}

-- An adapter with a proxy and a manager, asked for a scan with a list of UUIDs that D-Bus takes.
pub record Startable (a : ℕ) (q : ScanRequest) (reply : ScanReply) (w : World) : Type 0 where
  pub adapter : Adapter
  pub listed : elem a w.adapter_list ≡ true
  pub stored : w.adapters a ≡ some adapter
  pub proxy : ℕ
  pub has_proxy : adapter.adapter_proxy ≡ some proxy
  pub manager : ℕ
  pub has_manager : adapter.device_manager ≡ some manager
  pub uuids : List Uuid
  pub has_uuids : q.uuid_list ≡ some uuids
  pub filter_taken : reply.filter_error ≡ none
  pub discovery_started : reply.start_error ≡ none

module _ (a : ℕ) (q : ScanRequest) (reply : ScanReply) (w : World) (s : Startable a q reply w) where
  abbrev begun : World → World
  begun v = emit (start_discovery s.proxy) (
      emit (signal_connect s.manager on_interface_properties) (
        emit (signal_connect s.manager on_removed) (
          emit (signal_connect s.manager on_added)
            (write_adapter a (started_scan q reply s.adapter) v))))

  abbrev filtered : World
  filtered =
      emit
        (set_discovery_filter s.proxy (uuid_filter q.enabled_filters s.uuids)
          (rssi_filter q.enabled_filters q.rssi_threshold))
        w

  manager_lem :
      (v : World)
      → v.adapters a ≡ some s.adapter
      → get_device_manager a reply.manager v ≡ some (some s.manager, v)
  unfolding get_device_manager
  manager_lem v e = rw (e, s.has_manager) refl

  begin_lem :
      (v : World)
      → v.adapters a ≡ some s.adapter
      → begin_discovery a q reply s.proxy (some s.manager) v ≡ some (success, begun v)
  begin_lem v e =
      let code : discovery_code reply.start_error ≡ success = rw s.discovery_started refl in
      let found : begin_discovery a q reply s.proxy (some s.manager) v
          ≡ some (discovery_code reply.start_error, begun v) =
        rw e refl in
      found ∙ ap (λ n. some (n, begun v)) code

  uuids_lem :
      (used : Bool)
      → check_uuids a q reply s.proxy used (some s.uuids) w
        ≡ apply_filter a q reply s.proxy s.uuids reply.filter_error w
  uuids_lem true = refl
  uuids_lem false = refl

  start_lem : scan_start a q reply w ≡ some (success, begun filtered)
  unfolding scan_start get_device_manager
  start_lem =
      let here : scan_start a q reply w ≡ with_adapter_proxy a q reply s.adapter.adapter_proxy w =
        rw s.stored refl in
      let managed : apply_filter a q reply s.proxy s.uuids none w
          ≡ begin_discovery a q reply s.proxy (some s.manager) filtered =
        ap run (manager_lem filtered s.stored) in
      here
      ∙ ap (λ o. with_adapter_proxy a q reply o w) s.has_proxy
      ∙ ap (λ l. check_uuids a q reply s.proxy (uses_uuid q.enabled_filters) l w) s.has_uuids
      ∙ uuids_lem (uses_uuid q.enabled_filters)
      ∙ ap (λ e. apply_filter a q reply s.proxy s.uuids e w) s.filter_taken
      ∙ managed
      ∙ begin_lem filtered s.stored
    where
      run : Option (Option ℕ × World) → Option (ℕ × World)
      run r = do (m, w1) ← r; begin_discovery a q reply s.proxy m w1

  -- The world in which the scan is marked.
  abbrev marked : World
  marked = write_adapter a (scanning q reply s.adapter) (begun filtered)

  mark_lem : set_scanning true a (begun filtered) ≡ some marked
  mark_lem =
      let here = update_self w.adapters a (some (started_scan q reply s.adapter)) in rw here refl

  started_lem : scan_enable_with_filter a q reply w ≡ some (start_thread a reply.thread marked)
  unfolding scan_enable_with_filter adapter_is_valid
  started_lem = rw (s.listed, start_lem) (ap run mark_lem)
    where
      run : Option World → Option (ℕ × World)
      run r = do w2 ← r; some (start_thread a reply.thread w2)

  -- Where the thread cannot be created the call answers GATTLIB_ERROR_INTERNAL, and the adapter stays
  -- marked as scanning: nothing ends that scan.
  pub scan_enable_without_thread :
      reply.thread ≡ none
      → (w' : World) × (scan_enable_with_filter a q reply w ≡ some (error_internal, w'))
        × (w'.adapters a ≡ some (scanning q reply s.adapter))
  scan_enable_without_thread th = (
    marked,
    started_lem ∙ ap (λ o. some (start_thread a o marked)) th,
    update_self (begun filtered).adapters a (some (scanning q reply s.adapter)),
  )
