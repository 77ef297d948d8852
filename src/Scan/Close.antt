-- ===== src/Scan/Close.antt =====
-- Closing an adapter that does not scan, `gattlib_adapter_close` of dbus/gattlib_adapter.c.
use gattlibcpp.Base.{
  ℕ, ◌≡◌, refl, ◌∙◌, ap, Bool, true, false, Option, none, some, ◌>>=◌, elem, remove,
}
use gattlibcpp.Glib.{AsciiCase}
use gattlibcpp.World.{Device, Adapter, World}
use gattlibcpp.World.Codes.{success, busy}
use gattlibcpp.Device.{adapter_is_valid, devices_are_disconnected, is_disconnected}
use gattlibcpp.Device.Find.{devices_are_disconnected_lem, devices_are_disconnected-Stored}
use gattlibcpp.Device.Invariant.{WellFormed}
use gattlibcpp.Adapter.{adapter_unref}
use gattlibcpp.Adapter.Unref.{adapter_unref_last, unref_last-devices, after_free}
use gattlibcpp.Scan.Disable.{StopReply, close_result, adapter_close_call}

module _ (case : AsciiCase) (w : World) (h : WellFormed case w) (a : ℕ) (ad : Adapter)
    (listed : elem a w.adapter_list ≡ true) (stored : w.adapters a ≡ some ad) (reply : StopReply)
    (others : World → World) where
  -- While one of its devices is not disconnected, an open adapter is busy: nothing happens.
  pub adapter_close_call-busy :
      (d : ℕ) (dev : Device)
      → elem d ad.devices ≡ true
      → w.devices d ≡ some dev
      → is_disconnected dev.state ≡ false
      → adapter_close_call a reply others w ≡ some (busy, w)
  unfolding adapter_close_call adapter_is_valid
  adapter_close_call-busy d dev m e away =
      let (b, f) =
        devices_are_disconnected-Stored ad.devices w (h.device_stored a ad listed stored) in
      let no' : devices_are_disconnected ad.devices w ≡ some false = by_answer b f in
      rw (listed, stored, no') refl
    where
      by_answer :
          (b : Bool)
          → devices_are_disconnected ad.devices w ≡ some b
          → devices_are_disconnected ad.devices w ≡ some false
      by_answer false f = f
      by_answer true f = let all = devices_are_disconnected_lem ad.devices w f d dev m e in cc

  abbrev run : Option (ℕ × World) → Option (ℕ × World)
  run r = close_result (do (n, w1) ← r; some w1)

  to_unref :
      devices_are_disconnected ad.devices w ≡ some true
      → ad.ble_scan.is_scanning ≡ false
      → adapter_close_call a reply others w ≡ run (adapter_unref a w)
  unfolding adapter_close_call adapter_is_valid
  to_unref all quiet = rw (listed, stored, all, quiet) refl

  -- Closing an open adapter that does not scan, whose devices are all disconnected and which has one
  -- reference, gives it back: it is on no list any more, each of its devices loses the adapter's
  -- reference, so that one without another reference is freed, and the world stays well-formed.
  pub adapter_close_last :
      devices_are_disconnected ad.devices w ≡ some true
      → ad.ble_scan.is_scanning ≡ false
      → ad.reference_counter ≡ 1
      → (w' : World) × (adapter_close_call a reply others w ≡ some (success, w'))
        × WellFormed case w'
        × (w'.adapters a ≡ none)
        × (w'.adapter_list ≡ remove a w.adapter_list)
        × ((d : ℕ) (dev : Device)
            → elem d ad.devices ≡ true
            → w.devices d ≡ some dev
            → w'.devices d ≡ after_free dev)
  adapter_close_last all quiet one =
      let (w', e, h', gone, l, given) = adapter_unref_last case w h a ad listed stored one in
      let (w1, e1, same) = given in
      (
        w',
        to_unref all quiet ∙ ap run e,
        h',
        gone,
        l,
        λ d dev m ed.
            ap (λ (f : ℕ → Option Device). f d) same
            ∙ unref_last-devices case w h a ad listed stored w1 e1
                (λ x v mx ex. devices_are_disconnected_lem ad.devices w all x v mx ex) d dev m ed,
      )
