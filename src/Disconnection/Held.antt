-- ===== src/Disconnection/Held.antt =====
-- A device that is disconnected and removed while a callback's thread holds a reference to it
-- (`_gattlib_connected_device_thread` of common/gattlib_callback_connected_device.c).
use gattlibcpp.Base.{
  ℕ, ◌+◌, ◌<◌, ◌≡◌, refl, ◌∙◌, ap, Bool, Option, if◌then◌else◌, true, false, none, some, remove,
  ltb, arith,
}
use gattlibcpp.Glib.{AsciiCase}
use gattlibcpp.World.{not_found, disconnected, Device, World, write_device, write_adapter}
use gattlibcpp.World.Codes.{success}
use gattlibcpp.Device.{uintptr_mod, incr, decr, device_ref, device_unref, set_state}
use gattlibcpp.Device.Invariant.{WellFormed, write_device-WellFormed}
use gattlibcpp.Device.SetState.{dropped}
use gattlibcpp.Device.Outcome.{set_state-drops, device_unref_lem}
use gattlibcpp.Validity.Place.{Place, Place-ok}
use gattlibcpp.Connection.Safe.{Place-write, update_self, listed_place}
use gattlibcpp.Disconnection.{on_disconnected_device}
use gattlibcpp.Disconnection.Free.{on_disconnected_device_lem, freed}

abbrev counted : ℕ → Device → Device
counted n dev = record dev { reference_counter = n }

-- What is at the device's address after the adapter's and the thread's references are given back.
abbrev given_device : Device → Option Device
given_device dev =
    if ltb 0 (decr dev.reference_counter)
    then some (counted (decr dev.reference_counter) (freed dev))
    else none

module _ (case : AsciiCase) (w : World) (h : WellFormed case w) (c : ℕ) (p : Place c w)
    (room : p.device.reference_counter + 1 < uintptr_mod)
    (live : p.device.connection.backend.objects_freed ≡ false) where
  abbrev held : World
  held = write_device c (counted (incr p.device.reference_counter) p.device) w

  held-WellFormed : WellFormed case held
  held-WellFormed =
      let ok = Place-ok case w h c p in
      write_device-WellFormed case w c p.device _ h p.stored refl refl ok.present (ground arith)
        (ground arith)

  -- In a well-formed world, where the counter has room for one more reference and the objects of the
  -- device's connection were not freed before: while a reference
  -- is held, a listed device that is disconnected and then removed from its adapter stays in memory,
  -- cleaned up and with the references that it had before; giving the reference back finds it there,
  -- and frees it where it is the last one.
  pub device_ref-device_unref :
      (w1 : World) × (w2 : World) × (w3 : World) × (w4 : World) × (device_ref c w
        ≡ some (success, w1))
      × (on_disconnected_device case c w1 ≡ some w2)
      × ((q : Place c w2) × (set_state case none q.owner q.device.device_id not_found w2
            ≡ some (success, w3)))
      × (w3.devices c ≡ some (freed p.device))
      × (device_unref c w3 ≡ some (success, w4))
      × (w4.devices c ≡ given_device p.device)
  unfolding device_ref
  device_ref-device_unref =
      let q1 = Place-write c w (counted (incr p.device.reference_counter) p.device) p in
      let (w2, e2, h2, signalled, log, (q, eq)) =
        on_disconnected_device_lem case held c held-WellFormed q1 live in
      let w3 = after w2 q in
      let state : q.device.state ≡ disconnected = ap (λ (d : Device). d.state) eq in
      let counter : q.device.reference_counter ≡ incr p.device.reference_counter =
        ap (λ (d : Device). d.reference_counter) eq in
      let more : ltb 0 (decr q.device.reference_counter) ≡ true =
        let ok = (Place-ok case w h c p).held in ground arith in
      let back : decr (incr p.device.reference_counter) ≡ p.device.reference_counter =
        ground arith in
      let e3 =
        set_state-drops case none q.owner q.device.device_id not_found w2 h2 q.owner_listed
          (listed_place case w2 h2 c q) refl state in
      let e3' = e3 ∙ ap (λ x. some (success, x)) (dropped_more w2 h2 q more) in
      let here : w3.devices c ≡ some (freed p.device) =
        update_self w2.devices c (some (counted (decr q.device.reference_counter) q.device))
        ∙ ap (λ (d : Device). some (counted (decr d.reference_counter) d)) eq
        ∙ ap (λ n. some (counted n (freed p.device))) back in
      let e4 = device_unref_lem c w3 (freed p.device) here in
      (
        held,
        w2,
        w3,
        _,
        rw p.stored refl,
        e2,
        (q, e3'),
        here,
        e4,
        given_back _ _ _ _ (update_self w3.devices c _) (update_self w3.devices c none),
      )
    where
      given_back :
          (b : Bool) (x y : World) (d : Device)
          → x.devices c ≡ some d
          → y.devices c ≡ none
          → (if b then x else y).devices c ≡ (if b then some d else none)
      given_back true x y d kept free = kept
      given_back false x y d kept free = free

      after : (v : World) → Place c v → World
      after v q =
          write_device c (counted (decr q.device.reference_counter) q.device)
            (write_adapter q.owner (record q.adapter { devices = remove c q.adapter.devices }) v)

      dropped_more :
          (v : World) (k : WellFormed case v) (q : Place c v)
          → ltb 0 (decr q.device.reference_counter) ≡ true
          → dropped case q.owner q.device.device_id v k q.owner_listed c q.device q.adapter
            ≡ after v q
      dropped_more v k q more = rw more refl
