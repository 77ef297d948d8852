-- ===== src/Scan/Thread.antt =====
-- The thread of a scan and the calls around it (dbus/gattlib_adapter.c) keep the objects well-formed.
use gattlibcpp.Base.{
  ℕ, ◌≡◌, refl, true, Option, none, some, elem, ◌==◌, Holds, Holds-bind, Holds-read, Holds-if,
  subst, sym,
}
use gattlibcpp.Glib.{AsciiCase}
use gattlibcpp.World.{BleScan, Adapter, World, write_adapter}
use gattlibcpp.World.Codes.{success, adapter_close}
use gattlibcpp.Device.{adapter_is_valid}
use gattlibcpp.Device.Invariant.{WellFormed}
use gattlibcpp.Connection.Safe.{Same, Same-refl, Same-WellFormed}
use gattlibcpp.Adapter.{unref_thread}
use gattlibcpp.Scan.{
  ScanRequest, ScanReply, with_scan, scan_start, start_thread, scan_enable_non_blocking,
  scan_loop_begin,
}
use gattlibcpp.Scan.Disable.{StopReply, drop_signals, scan_disable, scan_loop_end, scan_enable_end}
use gattlibcpp.Scan.Safe.{
  open_adapter, rewrite-WellFormed, Stays, scan_start-Stays, scan_disable-Stays,
}

drop_signals-Same : (m : Option ℕ) (s : BleScan) (w : World) → Same w (drop_signals m s w)
drop_signals-Same none s w = Same-refl w
drop_signals-Same (some m) s w = Same-refl w

unref_thread-Same : (t : Option ℕ) (w : World) → Same w (unref_thread t w)
unref_thread-Same none w = Same-refl w
unref_thread-Same (some t) w = Same-refl w

module _ (case : AsciiCase) (a : ℕ) where
  -- The world behind a result is well-formed.
  abbrev pub Fine {ℓ} : {A : Type ℓ} → A × World → Type 0
  Fine r = WellFormed case r.1

  Stays-Fine : (w : World) (r : Option (ℕ × World)) → Stays case a w r → Holds (Fine {A = ℕ}) r
  Stays-Fine w r (code, w', e, h, l) = subst (Holds (Fine {A = ℕ})) (sym e) h

  -- The scan of an open adapter is overwritten.
  scan-WellFormed :
      (w : World) (ad : Adapter) (s : BleScan)
      → WellFormed case w
      → elem a w.adapter_list ≡ true
      → w.adapters a ≡ some ad
      → WellFormed case (write_adapter a (with_scan s ad) w)
  scan-WellFormed w ad s h m e =
      rewrite-WellFormed case a w (with_scan s ad) h
        (record { adapter = ad; listed = m; stored = e }) refl refl

  module _ (w : World) (h : WellFormed case w) where
    pub scan_loop_begin-WellFormed :
        (timeout_id : ℕ) → Holds (WellFormed case) (scan_loop_begin a timeout_id w)
    unfolding scan_loop_begin adapter_is_valid
    scan_loop_begin-WellFormed timeout_id =
        Holds-if (WellFormed case) (elem a w.adapter_list) _ (some w)
          (λ m.
            Holds-read (WellFormed case) (w.adapters a) _ (λ ad e. scan-WellFormed w ad _ h m e))
          (λ gone. h)

    pub scan_loop_end-WellFormed :
        (reply : StopReply) → Holds (WellFormed case) (scan_loop_end a reply w)
    unfolding scan_loop_end adapter_is_valid
    scan_loop_end-WellFormed reply =
        Holds-if (WellFormed case) (elem a w.adapter_list) _ (some w)
          (λ m. Holds-read (WellFormed case) (w.adapters a) _ (λ ad e.
            let v = drop_signals ad.device_manager ad.ble_scan w in
            let hv =
              Same-WellFormed case w v (drop_signals-Same ad.device_manager ad.ble_scan w) h in
            Holds-bind (Fine {A = ℕ}) (WellFormed case) (scan_disable a reply v) _
              (Stays-Fine v (scan_disable a reply v) (scan_disable-Stays case a reply v hv))
              (λ r k. k)))
          (λ gone. h)

    pub scan_enable_end-WellFormed : Holds (Fine {A = ℕ}) (scan_enable_end a w)
    unfolding scan_enable_end adapter_is_valid
    scan_enable_end-WellFormed =
        Holds-if (Fine {A = ℕ}) (elem a w.adapter_list) _ (some (adapter_close, w))
          (λ m. Holds-read (Fine {A = ℕ}) (w.adapters a) _ (λ ad e.
            let t = ad.ble_scan.scan_loop_thread in
            let v = unref_thread t w in
            let new = with_scan (record ad.ble_scan { scan_loop_thread = none }) ad in
            Same-WellFormed case (write_adapter a new w) (write_adapter a new v)
              (let s = unref_thread-Same t w in (s.0, rw s.1 refl, s.2))
              (scan-WellFormed w ad _ h m e)))
          (λ gone. h)

    start_thread-Fine :
        (t : Option ℕ) (v : World) → WellFormed case v → Fine {A = ℕ} (start_thread a t v)
    start_thread-Fine none v k = k
    start_thread-Fine (some t) v k = k

    pub scan_enable_non_blocking-WellFormed :
        (q : ScanRequest) (reply : ScanReply)
        → Holds (Fine {A = ℕ}) (scan_enable_non_blocking a q reply w)
    unfolding scan_enable_non_blocking adapter_is_valid
    scan_enable_non_blocking-WellFormed q reply =
        Holds-if (Fine {A = ℕ}) (elem a w.adapter_list) _ (some (adapter_close, w))
          (λ m.
            Holds-bind (Fine {A = ℕ}) (Fine {A = ℕ}) (scan_start a q reply w) _
              (Stays-Fine w (scan_start a q reply w)
                (scan_start-Stays case a q reply w h (open_adapter case a w h m)))
              (λ (code, w1) k.
                Holds-if (Fine {A = ℕ}) (code == success) (some (start_thread a reply.thread w1))
                  (some (code, w1)) (λ e. start_thread-Fine reply.thread w1 k) (λ e. k)))
          (λ gone. h)
