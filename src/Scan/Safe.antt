-- ===== src/Scan/Safe.antt =====
-- The calls of dbus/gattlib_adapter.c that start and stop a scan end without a fault and keep the
-- objects well-formed, whatever D-Bus answers.
use gattlibcpp.Base.{
  ℕ, ◌≡◌, refl, ◌∙◌, ap, inl, inr, Bool, true, false, Option, none, some, List, [], elem, ◌==◌,
  ◌>>=◌, Bool-cases, Option-cases,
}
use gattlibcpp.Glib.{AsciiCase}
use gattlibcpp.DbusError.{GError, dbus_error, dbus_failure}
use gattlibcpp.World.{
  Uuid, Adapter, World, set_discovery_filter, stop_discovery, start_discovery, signal_connect,
  on_interface_properties, on_removed, on_added, thread_unref, thread_start, scan_task, emit,
  write_adapter,
}
use gattlibcpp.World.Codes.{success, invalid_parameter, no_adapter, adapter_close, error_internal}
use gattlibcpp.Device.{adapter_is_valid}
use gattlibcpp.Device.Invariant.{WellFormed, write_adapter-WellFormed}
use gattlibcpp.Adapter.{get_device_manager}
use gattlibcpp.Connection.Safe.{update_self}
use gattlibcpp.Scan.{
  ScanRequest, ScanReply, uses_uuid, uuid_filter, rssi_filter, started_scan, discovery_code,
  begin_discovery, apply_filter, check_uuids, with_adapter_proxy, scan_start, start_thread,
  set_scanning, scan_enable_with_filter, with_scan, signal_stop, stop_scan_on_timeout, stop_refused,
}
use gattlibcpp.Scan.Disable.{StopReply, scan_disable}
use gattlibcpp.Scan.Stop.{scan_disable_idle, scan_disable-Stopped}

-- An open adapter and its record.
pub record Open (a : ℕ) (w : World) : Type 0 where
  pub adapter : Adapter
  pub listed : elem a w.adapter_list ≡ true
  pub stored : w.adapters a ≡ some adapter

module _ (case : AsciiCase) (a : ℕ) where
  pub open_adapter : (w : World) → WellFormed case w → elem a w.adapter_list ≡ true → Open a w
  open_adapter w h m =
      let (ad, e) = h.adapter_stored a m in record { adapter = ad; listed = m; stored = e }

  -- An adapter may be overwritten where its devices and its reference counter stay.
  pub rewrite-WellFormed :
      (w : World) (new : Adapter)
      → WellFormed case w
      → (o : Open a w) → new.devices ≡ o.adapter.devices
      → new.reference_counter ≡ o.adapter.reference_counter
      → WellFormed case (write_adapter a new w)
  rewrite-WellFormed w new h o same counter =
      let ok = h.adapter_ok a o.adapter o.listed o.stored in
      write_adapter-WellFormed case w a o.adapter new h o.stored (λ d m. rw (← same) m)
        (record {
          held = rw counter ok.held;
          counter_fits = rw counter ok.counter_fits;
          distinct = rw same ok.distinct;
        })

  abbrev pub Open-write : (w : World) (new : Adapter) → Open a w → Open a (write_adapter a new w)
  Open-write w new o = record {
    adapter = new;
    listed = o.listed;
    stored = update_self w.adapters a (some new);
  }

  -- The call ends without a fault, in a well-formed world with the same adapters open.
  abbrev pub Stays : World → Option (ℕ × World) → Type 0
  Stays w r =
      (code : ℕ) × (w' : World) × (r ≡ some (code, w'))
      × WellFormed case w'
      × (w'.adapter_list ≡ w.adapter_list)

  module _ (q : ScanRequest) (reply : ScanReply) (proxy : ℕ) where
    begin_discovery-Stays :
        (m : Option ℕ) (w : World)
        → WellFormed case w
        → Open a w
        → Stays w (begin_discovery a q reply proxy m w)
    begin_discovery-Stays none w h o = (dbus_failure reply.manager_error, w, refl, h, refl)
    begin_discovery-Stays (some m) w h o = (
      discovery_code reply.start_error,
      emit (start_discovery proxy) (
          emit (signal_connect m on_interface_properties) (
            emit (signal_connect m on_removed) (
              emit (signal_connect m on_added)
                (write_adapter a (started_scan q reply o.adapter) w)))),
      rw o.stored refl,
      rewrite-WellFormed w (started_scan q reply o.adapter) h o refl refl,
      refl,
    )

    -- The manager is kept on the adapter; whether it was there or not, the discovery goes on.
    managed-Stays :
        (w : World)
        → WellFormed case w
        → Open a w
        → Stays w (do
          (m, w1) ← get_device_manager a reply.manager w
          begin_discovery a q reply proxy m w1)
    unfolding get_device_manager
    managed-Stays w h o = elim (Option-cases o.adapter.device_manager) [
      | inr (m, e) ↦
          let (code, w', f, h', l) = begin_discovery-Stays (some m) w h o in
          (code, w', manager_there m e ∙ f, h', l)
      | inl e ↦
          let new = record o.adapter { device_manager = reply.manager } in
          let (code, w', f, h', l) =
            begin_discovery-Stays reply.manager (write_adapter a new w)
              (rewrite-WellFormed w new h o refl refl) (Open-write w new o) in
          (code, w', manager_asked e ∙ f, h', l)
    ]
      where
        run : Option (Option ℕ × World) → Option (ℕ × World)
        run r = do (m', w1) ← r; begin_discovery a q reply proxy m' w1

        manager_there :
            (m : ℕ)
            → o.adapter.device_manager ≡ some m
            → (do
              (m', w1) ← get_device_manager a reply.manager w
              begin_discovery a q reply proxy m' w1)
              ≡ begin_discovery a q reply proxy (some m) w
        manager_there m e =
            let g : get_device_manager a reply.manager w ≡ some (some m, w) =
              rw (o.stored, e) refl in
            ap run g

        manager_asked :
            o.adapter.device_manager ≡ none
            → (do
              (m', w1) ← get_device_manager a reply.manager w
              begin_discovery a q reply proxy m' w1)
              ≡ begin_discovery a q reply proxy reply.manager
                  (write_adapter a (record o.adapter { device_manager = reply.manager }) w)
        manager_asked e =
            let g : get_device_manager a reply.manager w
                ≡ some (
                  reply.manager,
                  write_adapter a (record o.adapter { device_manager = reply.manager }) w,
                ) =
              rw (o.stored, e) refl in
            ap run g

    filtered-Stays :
        (uuids : List Uuid) (e : Option GError) (w : World)
        → WellFormed case w
        → Open a w
        → Stays w (apply_filter a q reply proxy uuids e w)
    filtered-Stays uuids (some e) w h o = (dbus_error e, _, refl, h, refl)
    filtered-Stays uuids none w h o =
        managed-Stays
          (emit
            (set_discovery_filter proxy (uuid_filter q.enabled_filters uuids)
              (rssi_filter q.enabled_filters q.rssi_threshold))
            w)
          h (record { adapter = o.adapter; listed = o.listed; stored = o.stored })

    checked-Stays :
        (used : Bool) (l : Option (List Uuid)) (w : World)
        → WellFormed case w
        → Open a w
        → Stays w (check_uuids a q reply proxy used l w)
    checked-Stays true none w h o = (invalid_parameter, w, refl, h, refl)
    checked-Stays true (some uuids) w h o = filtered-Stays uuids reply.filter_error w h o
    checked-Stays false (some uuids) w h o = filtered-Stays uuids reply.filter_error w h o
    checked-Stays false none w h o = filtered-Stays [] reply.filter_error w h o

  module _ (q : ScanRequest) (reply : ScanReply) where
    proxy-Stays :
        (proxy : Option ℕ) (w : World)
        → WellFormed case w
        → Open a w
        → Stays w (with_adapter_proxy a q reply proxy w)
    proxy-Stays none w h o = (no_adapter, w, refl, h, refl)
    proxy-Stays (some proxy) w h o =
        checked-Stays q reply proxy (uses_uuid q.enabled_filters) q.uuid_list w h o

    pub scan_start-Stays :
        (w : World) → WellFormed case w → Open a w → Stays w (scan_start a q reply w)
    unfolding scan_start
    scan_start-Stays w h o =
        let (code, w', e, h', l) = proxy-Stays o.adapter.adapter_proxy w h o in
        let here : scan_start a q reply w ≡ with_adapter_proxy a q reply o.adapter.adapter_proxy w =
          rw o.stored refl in
        (code, w', here ∙ e, h', l)

    thread-Stays :
        (t : Option ℕ) (w : World) → WellFormed case w → Stays w (some (start_thread a t w))
    thread-Stays none w h = (error_internal, w, refl, h, refl)
    thread-Stays (some t) w h =
        (success, emit (thread_unref t) (emit (thread_start scan_task a) w), refl, h, refl)

    -- Starting a scan never faults, on no adapter address: a stale one is refused.
    pub scan_enable_with_filter-Stays :
        (w : World) → WellFormed case w → Stays w (scan_enable_with_filter a q reply w)
    unfolding scan_enable_with_filter adapter_is_valid
    scan_enable_with_filter-Stays w h = elim (Bool-cases (elem a w.adapter_list)) [
      | inr gone ↦ (adapter_close, w, rw gone refl, h, refl)
      | inl m ↦
          let (code, w1, e, h1, l) = scan_start-Stays w h (open_adapter w h m) in
          elim (Bool-cases (code == success)) [
            | inr failed ↦ (code, w1, rw (m, e, failed) refl, h1, l)
            | inl started ↦
                let o = open_adapter w1 h1 (rw l m) in
                let new = with_scan (record o.adapter.ble_scan { is_scanning = true }) o.adapter in
                let w2 = write_adapter a new w1 in
                let (code2, w3, f, h3, l3) =
                  thread-Stays reply.thread w2 (rewrite-WellFormed w1 new h1 o refl refl) in
                let marked : set_scanning true a w1 ≡ some w2 = rw o.stored refl in
                (code2, w3, to_thread m e started marked ∙ f, h3, l3 ∙ l)
          ]
    ]
      where
        run : Option World → Option (ℕ × World)
        run r = do w2 ← r; some (start_thread a reply.thread w2)

        to_thread :
            {code : ℕ} {w1 w2 : World}
            → elem a w.adapter_list ≡ true
            → scan_start a q reply w ≡ some (code, w1)
            → (code == success) ≡ true
            → set_scanning true a w1 ≡ some w2
            → scan_enable_with_filter a q reply w ≡ some (start_thread a reply.thread w2)
        to_thread {code} {w1} m e started marked =
            let here : scan_enable_with_filter a q reply w
                ≡ (do w2 ← set_scanning true a w1; some (start_thread a reply.thread w2)) =
              rw (m, e, started) refl in
            here ∙ ap run marked

  running-Stays :
      (reply : StopReply) (w : World)
      → WellFormed case w
      → (o : Open a w) (proxy : ℕ) → o.adapter.adapter_proxy ≡ some proxy
      → o.adapter.ble_scan.is_scanning ≡ true
      → Stays w (scan_disable a reply w)
  unfolding scan_disable adapter_is_valid
  running-Stays reply w h o proxy e running = elim (Bool-cases reply.discovering) [
    | inr quiet ↦ (success, w, rw (o.listed, o.stored, e, quiet) refl, h, refl)
    | inl discovering ↦ elim (Bool-cases (stop_refused reply.stop_error)) [
      | inl refused ↦ (
        success,
        emit (stop_discovery proxy) w,
        rw (o.listed, o.stored, e, discovering, running, refused) refl,
        h,
        refl,
      )
      | inr taken ↦
          let (w', f, (handler, gone, adapters, list, devices, signalled, log), h') =
            scan_disable-Stopped case a reply w o.adapter h o.listed o.stored proxy e running
              discovering taken in
          (success, w', f, h', list)
    ]
  ]

  -- Stopping a scan never faults, on no adapter address and whatever D-Bus answers.
  pub scan_disable-Stays :
      (reply : StopReply) (w : World) → WellFormed case w → Stays w (scan_disable a reply w)
  unfolding scan_disable adapter_is_valid
  scan_disable-Stays reply w h = elim (Bool-cases (elem a w.adapter_list)) [
    | inr gone ↦ (adapter_close, w, rw gone refl, h, refl)
    | inl m ↦
        let o = open_adapter w h m in
        elim (Option-cases o.adapter.adapter_proxy) [
          | inl e ↦ (no_adapter, w, rw (m, o.stored, e) refl, h, refl)
          | inr (proxy, e) ↦ elim (Bool-cases o.adapter.ble_scan.is_scanning) [
            | inr idle ↦
                (success, w, scan_disable_idle a reply w o.adapter m o.stored proxy e idle, h, refl)
            | inl running ↦ running-Stays reply w h o proxy e running
          ]
        ]
  ]

  -- The timeout of a scan never faults.
  pub stop_scan_on_timeout_lem :
      (w : World)
      → WellFormed case w
      → (w' : World) × (stop_scan_on_timeout a w ≡ some w') × WellFormed case w'
  unfolding stop_scan_on_timeout adapter_is_valid
  stop_scan_on_timeout_lem w h = elim (Bool-cases (elem a w.adapter_list)) [
    | inr gone ↦ (w, rw gone refl, h)
    | inl m ↦
        let o = open_adapter w h m in
        elim (Bool-cases o.adapter.ble_scan.is_scanning) [
          | inl running ↦ (
            signal_stop (
                write_adapter a
                  (with_scan
                    (record o.adapter.ble_scan { is_scanning = false; ble_scan_timeout_id = 0 })
                    o.adapter)
                  w),
            rw (m, o.stored, running) refl,
            rewrite-WellFormed w _ h o refl refl,
          )
          | inr idle ↦ (
            write_adapter a
                (with_scan (record o.adapter.ble_scan { ble_scan_timeout_id = 0 }) o.adapter) w,
            rw (m, o.stored, idle) refl,
            rewrite-WellFormed w _ h o refl refl,
          )
        ]
  ]
