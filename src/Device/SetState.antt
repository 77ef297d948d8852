-- ===== src/Device/SetState.antt =====
-- `gattlib_device_set_state` on each branch: it does not fault, and well-formedness is kept.
use gattlibcpp.Base.{
  ℕ, ◌≡◌, ◌≢◌, refl, inl, inr, true, false, Option, none, some, [], ◌∷◌, ◌++◌, ltb, if◌then◌else◌,
  elem, remove, elem-remove_of, Distinct-remove, Bool-cases, ==_iff, ==_refl, arith,
}
use gattlibcpp.Glib.{AsciiCase}
use gattlibcpp.World.{
  Text, DeviceState, not_found, connecting, connected, disconnecting, disconnected, Device, Adapter,
  World, update, write_device, write_adapter,
}
use gattlibcpp.Device.{is_not_found, decr, new_device}
use gattlibcpp.Device.Find.{Absent}
use gattlibcpp.Device.Invariant.{
  WellFormed, DeviceOk, AdapterOk, write_device-WellFormed, write_adapter-WellFormed,
  free_device-WellFormed, removed_away,
}
use gattlibcpp.Device.Append.{alloc_device-WellFormed, append_device-WellFormed}

-- The address that `calloc` returns, if any, is not in use.
abbrev pub Fresh : Option ℕ → World → Type 0
Fresh none w = Unit {0}
Fresh (some d) w = w.devices d ≡ none

-- The call ends without a fault, in a well-formed world.
abbrev pub Ends : AsciiCase → Option (ℕ × World) → Type 0
Ends case r = (code : ℕ) × (w : World) × (r ≡ some (code, w)) × WellFormed case w

pub is_not_found_iff : (s : DeviceState) → is_not_found s ≡ false → s ≢ not_found
is_not_found_iff not_found e = cc
is_not_found_iff connecting e = λ p. cc
is_not_found_iff connected e = λ p. cc
is_not_found_iff disconnecting e = λ p. cc
is_not_found_iff disconnected e = λ p. cc

module _ (case : AsciiCase) (a : ℕ) (id : Text) (w : World) (h : WellFormed case w)
    (ma : elem a w.adapter_list ≡ true) where
  -- The new device's world.
  abbrev pub added : ℕ → DeviceState → Adapter → World
  added d new ad =
      write_adapter a (record ad { devices = ad.devices ++ d ∷ [] })
        (write_device d (new_device case a id new) w)

  pub added-WellFormed :
      (d : ℕ) (new : DeviceState) (ad : Adapter)
      → w.devices d ≡ none
      → new ≢ not_found
      → w.adapters a ≡ some ad
      → Absent case ad.devices id w
      → WellFormed case (added d new ad)
  added-WellFormed d new ad fresh real ea absent =
      append_device-WellFormed case (write_device d (new_device case a id new) w) a ad d
        (new_device case a id new) (alloc_device-WellFormed case w d _ h fresh) ma ea
        (rw (==_refl d)) unlisted
        (record { owner = refl; present = real; held = omega arith; counter_fits = omega arith })
        (λ x dev mx ex.
          let (old, eo) = h.device_stored a ad ma ea x mx in
          ground (arith, absent x old mx, ==_iff x d))
    where
      unlisted : elem d ad.devices ≡ false
      unlisted = elim (Bool-cases (elem d ad.devices)) [
        | inl m ↦ let (old, eo) = h.device_stored a ad ma ea d m in cc
        | inr e ↦ e
      ]

  -- The world after a listed device was dropped.
  abbrev pub dropped : ℕ → Device → Adapter → World
  dropped d dev ad =
      let w' = write_adapter a (record ad { devices = remove d ad.devices }) w in
      if ltb 0 (decr dev.reference_counter)
      then write_device d (record dev { reference_counter = decr dev.reference_counter }) w'
      else record w' { devices = update w'.devices d none }

  pub dropped-WellFormed :
      (d : ℕ) (dev : Device) (ad : Adapter)
      → w.adapters a ≡ some ad
      → elem d ad.devices ≡ true
      → w.devices d ≡ some dev
      → WellFormed case (dropped d dev ad)
  dropped-WellFormed d dev ad ea md ed = elim (Bool-cases (ltb 0 (decr dev.reference_counter))) [
    | inl more ↦ rw more (
        write_device-WellFormed case w' d dev _ listed ed refl refl ok.present (ground arith)
          (ground (arith, ok.held, ok.counter_fits)))
    | inr last ↦
        rw last
          (free_device-WellFormed case w' d listed (removed_away case w a ad d dev h ma ea md ed))
  ]
    where
      ok : DeviceOk a dev
      ok = h.device_ok a ad d dev ma ea md ed

      w' : World
      w' = write_adapter a (record ad { devices = remove d ad.devices }) w

      before : AdapterOk ad
      before = h.adapter_ok a ad ma ea

      listed : WellFormed case w'
      listed =
          write_adapter-WellFormed case w a ad _ h ea (λ x m. elem-remove_of x d ad.devices m)
            (record {
              held = before.held;
              counter_fits = before.counter_fits;
              distinct = Distinct-remove d ad.devices before.distinct;
            })

  pub stored-WellFormed :
      (d : ℕ) (dev : Device) (ad : Adapter) (new : DeviceState)
      → w.adapters a ≡ some ad
      → elem d ad.devices ≡ true
      → w.devices d ≡ some dev
      → new ≢ not_found
      → WellFormed case (write_device d (record dev { state = new }) w)
  stored-WellFormed d dev ad new ea md ed real =
      let ok = h.device_ok a ad d dev ma ea md ed in
      write_device-WellFormed case w d dev _ h ed refl refl real ok.held ok.counter_fits
