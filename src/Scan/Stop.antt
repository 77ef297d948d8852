-- ===== src/Scan/Stop.antt =====
-- The ends of a scan in dbus/gattlib_adapter.c: by `gattlib_adapter_scan_disable` and by the timeout.
use gattlibcpp.Base.{
  ℕ, suc, ◌≡◌, refl, ◌∙◌, ap, true, false, ◌&&◌, Option, none, some, List, [], ◌∷◌, ◌==◌,
  if◌then◌else◌, elem, Option-cases, Bool-cases, inl, inr, arith,
}
use gattlibcpp.Glib.{AsciiCase}
use gattlibcpp.Device.Invariant.{WellFormed, write_adapter-WellFormed}
use gattlibcpp.World.{
  Handler, BleScan, Adapter, Effect, stop_discovery, World, emit, write_adapter, update, pool_free,
  source_remove, broadcast,
}
use gattlibcpp.World.Codes.{success}
use gattlibcpp.Device.{adapter_is_valid}
use gattlibcpp.Handler.{has_valid_handler, handler_free}
use gattlibcpp.Connection.Safe.{update_self, Same, Same-refl, happened}
use gattlibcpp.Scan.{with_scan, signal_stop, stop_refused, stop_scan_on_timeout, end_scan}
use gattlibcpp.Scan.Disable.{
  StopReply, stop_scan, disable_with_proxy, scan_disable, scan_loop_end, drop_signals,
}

-- What freeing a handler reports: its pool, if it has one.
abbrev pub pool_reports : Handler → List Effect
pool_reports h = elim h.callback [
  | none ↦ []
  | some f ↦ elim h.thread_pool [ none ↦ [] | some pool ↦ pool_free pool ∷ [] ]
]

-- A handler that is freed has no callback, and the objects stay as they are.
handler_free_lem :
    (h : Handler) (w : World)
    → (h' : Handler) × (w' : World) × (handler_free h w ≡ (h', w'))
      × (h'.callback ≡ none)
      × Same w w'
      × (w'.effects ≡ happened (pool_reports h) w.effects)
unfolding handler_free has_valid_handler
handler_free_lem h w = elim (Option-cases h.callback) [
  | inl e ↦ (h, w, rw e refl, e, Same-refl w, rw e)
  | inr (f, e) ↦ elim (Option-cases h.thread_pool) [
    | inl t ↦ (record h { callback = none }, w, rw (e, t) refl, refl, Same-refl w, rw (e, t))
    | inr (pool, t) ↦ (
      record h { callback = none; thread_pool = none },
      emit (pool_free pool) w,
      rw (e, t) refl,
      refl,
      Same-refl w,
      rw (e, t),
    )
  ]
]

-- The adapter after the scan was stopped, with its freed handler.
abbrev pub ended : Handler → Adapter → Adapter
ended handler ad = record ad {
  discovered_device_callback = handler;
  ble_scan = record ad.ble_scan { is_scanning = false; ble_scan_timeout_id = 0 };
}

abbrev pub scan_timeout_reports : Adapter → List Effect
scan_timeout_reports ad =
    if ad.ble_scan.ble_scan_timeout_id == 0
    then []
    else source_remove ad.ble_scan.ble_scan_timeout_id ∷ []

-- What a stop leaves: the handler has no callback and its pool is freed, the waiting threads are
-- signalled, the timeout is removed from the main loop where there is one, and nothing else changes.
abbrev pub Stopped : ℕ → Adapter → World → World → Type 0
Stopped a ad w w' =
    (handler : Handler) × (handler.callback ≡ none)
    × (w'.adapters ≡ update w.adapters a (some (ended handler ad)))
    × (w'.adapter_list ≡ w.adapter_list)
    × (w'.devices ≡ w.devices)
    × (w'.stop_scanning_signal ≡ true)
    × (w'.effects
        ≡ happened (scan_timeout_reports ad)
            (broadcast ∷ happened (pool_reports ad.discovered_device_callback) w.effects))

abbrev drop_scan_timeout : ℕ → World → World
drop_scan_timeout id w = if id == 0 then w else emit (source_remove id) w

drop_scan_timeout_lem :
    (id : ℕ) (w : World)
    → Same w (drop_scan_timeout id w)
      × ((drop_scan_timeout id w).stop_scanning_signal ≡ w.stop_scanning_signal)
      × ((drop_scan_timeout id w).effects
          ≡ happened (if id == 0 then [] else source_remove id ∷ []) w.effects)
drop_scan_timeout_lem id w = elim (Bool-cases (id == 0)) [
  | inl e ↦ rw e (Same-refl w, refl, refl)
  | inr e ↦ rw e (Same-refl w, refl, refl)
]

pub end_scan_lem :
    (a : ℕ) (w : World) (ad : Adapter)
    → w.adapters a ≡ some ad
    → ad.ble_scan.is_scanning ≡ true
    → (w' : World) × (end_scan a w ≡ some (success, w')) × Stopped a ad w w'
end_scan_lem a w ad stored running =
    let (handler, w1, e, gone, same, freed) = handler_free_lem ad.discovered_device_callback w in
    let w2 = drop_scan_timeout ad.ble_scan.ble_scan_timeout_id (signal_stop w1) in
    let (kept, signalled, log) =
      drop_scan_timeout_lem ad.ble_scan.ble_scan_timeout_id (signal_stop w1) in
    (
      write_adapter a (ended handler ad) w2,
      rw (stored, e, running) refl,
      (
        handler,
        gone,
        ap (λ f. update f a (some (ended handler ad))) (kept.1 ∙ same.1),
        kept.0 ∙ same.0,
        kept.2 ∙ same.2,
        signalled,
        log ∙ ap (λ es. happened (scan_timeout_reports ad) (broadcast ∷ es)) freed,
      ),
    )

-- How often D-Bus was asked to stop a discovery.
abbrev pub stops : List Effect → ℕ
stops [] = 0
stops (stop_discovery p ∷ es) = suc (stops es)
stops (_ ∷ es) = stops es

stops-drop_signals :
    (m : Option ℕ) (s : BleScan) (w : World) → stops (drop_signals m s w).effects ≡ stops w.effects
stops-drop_signals none s w = refl
stops-drop_signals (some m) s w = refl

drop_signals-adapters :
    (m : Option ℕ) (s : BleScan) (w : World)
    → ((drop_signals m s w).adapters ≡ w.adapters)
      × ((drop_signals m s w).adapter_list ≡ w.adapter_list)
drop_signals-adapters none s w = (refl, refl)
drop_signals-adapters (some m) s w = (refl, refl)

module _ (a : ℕ) (reply : StopReply) (w : World) (ad : Adapter)
    (listed : elem a w.adapter_list ≡ true) (stored : w.adapters a ≡ some ad) where
  -- A scan that does not run is not stopped.
  pub scan_disable_idle :
      (proxy : ℕ)
      → ad.adapter_proxy ≡ some proxy
      → ad.ble_scan.is_scanning ≡ false
      → scan_disable a reply w ≡ some (success, w)
  unfolding scan_disable adapter_is_valid
  scan_disable_idle proxy hp idle = elim (Bool-cases reply.discovering) [
    | inl e ↦ rw (listed, stored, hp, e, idle) refl
    | inr e ↦ rw (listed, stored, hp, e) refl
  ]

  -- A scan that runs is stopped.
  pub scan_disable_running :
      (proxy : ℕ)
      → ad.adapter_proxy ≡ some proxy
      → ad.ble_scan.is_scanning ≡ true
      → reply.discovering ≡ true
      → stop_refused reply.stop_error ≡ false
      → scan_disable a reply w ≡ end_scan a (emit (stop_discovery proxy) w)
  unfolding scan_disable adapter_is_valid
  scan_disable_running proxy hp running discovering taken =
      let both : (reply.discovering && ad.ble_scan.is_scanning) ≡ true =
        ground (arith, running, discovering) in
      let stop : stop_scan a proxy reply w ≡ end_scan a (emit (stop_discovery proxy) w) =
        rw taken refl in
      let disable : disable_with_proxy a ad reply (some proxy) w ≡ stop_scan a proxy reply w =
        rw both refl in
      let here : scan_disable a reply w ≡ disable_with_proxy a ad reply ad.adapter_proxy w =
        rw (listed, stored) refl in
      here ∙ ap (λ o. disable_with_proxy a ad reply o w) hp ∙ disable ∙ stop

-- Whatever D-Bus answers, a stop succeeds and keeps the thread handle of the scan.
pub scan_disable_thread :
    (a : ℕ) (reply : StopReply) (w : World) (ad : Adapter)
    → elem a w.adapter_list ≡ true
    → w.adapters a ≡ some ad
    → (proxy : ℕ) → ad.adapter_proxy ≡ some proxy
    → ad.ble_scan.is_scanning ≡ true
    → (w' : World) × (ad' : Adapter) × (scan_disable a reply w ≡ some (success, w'))
      × (w'.adapters a ≡ some ad')
      × (ad'.ble_scan.scan_loop_thread ≡ ad.ble_scan.scan_loop_thread)
unfolding scan_disable adapter_is_valid
scan_disable_thread a reply w ad listed stored proxy hp running =
    elim (Bool-cases reply.discovering) [
      | inr quiet ↦ (w, ad, rw (listed, stored, hp, quiet) refl, stored, refl)
      | inl discovering ↦ elim (Bool-cases (stop_refused reply.stop_error)) [
        | inr taken ↦
            let (w', e, (handler, gone, adapters, list, devices, signalled, log)) =
              end_scan_lem a (emit (stop_discovery proxy) w) ad stored running in
            (
              w',
              ended handler ad,
              scan_disable_running a reply w ad listed stored proxy hp running discovering taken
                  ∙ e,
              rw adapters (update_self w.adapters a (some (ended handler ad))),
              refl,
            )
        | inl refused ↦ (
          emit (stop_discovery proxy) w,
          ad,
          rw (listed, stored, hp, discovering, running, refused) refl,
          stored,
          refl,
        )
      ]
    ]

-- A stop of a running scan, on an open adapter with a proxy and where D-Bus knows of the discovery and
-- takes the request, succeeds: D-Bus is asked to stop the discovery, then the pool of the
-- application's callback is freed, the waiting threads are signalled and the timeout is removed from
-- the main loop, where there is one; the scan does not run any more, the timeout's id is reset, the
-- application's callback is gone, and nothing else changes; the world stays well-formed.
pub scan_disable-Stopped :
    (case : AsciiCase) (a : ℕ) (reply : StopReply) (w : World) (ad : Adapter)
    → WellFormed case w
    → elem a w.adapter_list ≡ true
    → w.adapters a ≡ some ad
    → (proxy : ℕ) → ad.adapter_proxy ≡ some proxy
    → ad.ble_scan.is_scanning ≡ true
    → reply.discovering ≡ true
    → stop_refused reply.stop_error ≡ false
    → (w' : World) × (scan_disable a reply w ≡ some (success, w'))
      × Stopped a ad (emit (stop_discovery proxy) w) w'
      × WellFormed case w'
scan_disable-Stopped case a reply w ad h listed stored proxy hp running discovering taken =
    let (w', e, s) = end_scan_lem a (emit (stop_discovery proxy) w) ad stored running in
    let (handler, gone, adapters, list, devices, signalled, log) = s in
    let ok = h.adapter_ok a ad listed stored in
    let kept : WellFormed case (write_adapter a (ended handler ad) w) =
      write_adapter-WellFormed case w a ad (ended handler ad) h stored (λ d m. m)
        (record { held = ok.held; counter_fits = ok.counter_fits; distinct = ok.distinct }) in
    (
      w',
      scan_disable_running a reply w ad listed stored proxy hp running discovering taken ∙ e,
      s,
      rw (adapters, list, devices) kept,
    )

loop_end_idle :
    (a : ℕ) (reply : StopReply) (w : World) (ad : Adapter)
    → elem a w.adapter_list ≡ true
    → w.adapters a ≡ some ad
    → (proxy : ℕ) → ad.adapter_proxy ≡ some proxy
    → ad.ble_scan.is_scanning ≡ false
    → scan_loop_end a reply w ≡ some (drop_signals ad.device_manager ad.ble_scan w)
unfolding scan_loop_end adapter_is_valid
loop_end_idle a reply w ad listed stored proxy hp idle =
    let v = drop_signals ad.device_manager ad.ble_scan w in
    let (ea, el) = drop_signals-adapters ad.device_manager ad.ble_scan w in
    let e = scan_disable_idle a reply v ad (rw el listed) (rw ea stored) proxy hp idle in
    rw (listed, stored, e) refl

module _ (a : ℕ) (reply : StopReply) (w : World) (ad : Adapter)
    (listed : elem a w.adapter_list ≡ true) (stored : w.adapters a ≡ some ad) (proxy : ℕ)
    (has_proxy : ad.adapter_proxy ≡ some proxy) (running : ad.ble_scan.is_scanning ≡ true) where
  -- The adapter after the timeout.
  abbrev pub over : Adapter
  over = with_scan (record ad.ble_scan { is_scanning = false; ble_scan_timeout_id = 0 }) ad

  timed_out : stop_scan_on_timeout a w ≡ some (signal_stop (write_adapter a over w))
  unfolding stop_scan_on_timeout adapter_is_valid
  timed_out = rw (listed, stored, running) refl

  -- After the time of a scan is over, its thread ends without asking D-Bus to stop the discovery: the
  -- timeout has already marked the scan as ended, so that the call of `gattlib_adapter_scan_disable`
  -- takes it for one that does not run. The application's callback stays registered.
  pub timeout_keeps_discovery :
      (w1 w2 : World) × (stop_scan_on_timeout a w ≡ some w1)
      × (scan_loop_end a reply w1 ≡ some w2)
      × (stops w2.effects ≡ stops w.effects)
      × (w2.adapters a ≡ some over)
  timeout_keeps_discovery =
      let w1 = signal_stop (write_adapter a over w) in
      let here = update_self w.adapters a (some over) in
      let w2 = drop_signals over.device_manager over.ble_scan w1 in
      (
        w1,
        w2,
        timed_out,
        loop_end_idle a reply w1 over listed here proxy has_proxy refl,
        stops-drop_signals over.device_manager over.ble_scan w1,
        ap (λ (f : ℕ → Option Adapter). f a)
              (drop_signals-adapters over.device_manager over.ble_scan w1).0
            ∙ here,
      )
