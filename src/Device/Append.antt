-- ===== src/Device/Append.antt =====
-- A new device is put in memory and appended to its adapter's list: well-formedness is kept.
use gattlibcpp.Base.{
  ℕ, ◌≡◌, ◌⊎◌, refl, true, false, none, some, [], ◌∷◌, ◌++◌, ◌==◌, elem, elem-snoc, Distinct-snoc,
  ==_iff, Bool-cases, inl, inr, arith,
}
use gattlibcpp.Glib.{AsciiCase}
use gattlibcpp.World.{Device, Adapter, World, update, write_device, write_adapter}
use gattlibcpp.Device.Find.{Absent}
use gattlibcpp.Device.Invariant.{WellFormed, DeviceOk}

module _ (case : AsciiCase) where
  pub alloc_device-WellFormed :
      (w : World) (d : ℕ) (new : Device)
      → WellFormed case w
      → w.devices d ≡ none
      → WellFormed case (write_device d new w)
  alloc_device-WellFormed w d new h fresh = record {
    distinct = h.distinct;
    adapter_stored = h.adapter_stored;
    adapter_ok = h.adapter_ok;
    device_stored = λ a ad m ea x mx.
        let (dev, ex) = h.device_stored a ad m ea x mx in
        (dev, ground (arith, kept a ad x dev m ea mx ex));
    device_ok =
        λ a ad x dev m ea mx ex. h.device_ok a ad x dev m ea mx (back a ad x dev m ea mx ex);
    unique = λ a ad x dev y eev m ea mx ex my ey same.
        h.unique a ad x dev y eev m ea mx (back a ad x dev m ea mx ex) my
          (back a ad y eev m ea my ey) same;
  }
    where
      kept :
          (a : ℕ) (ad : Adapter) (x : ℕ) (dev : Device)
          → elem a w.adapter_list ≡ true
          → w.adapters a ≡ some ad
          → elem x ad.devices ≡ true
          → w.devices x ≡ some dev
          → (x == d) ≡ false
      kept a ad x dev m ea mx ex = ground (arith, ==_iff x d)

      back :
          (a : ℕ) (ad : Adapter) (x : ℕ) (dev : Device)
          → elem a w.adapter_list ≡ true
          → w.adapters a ≡ some ad
          → elem x ad.devices ≡ true
          → update w.devices d (some new) x ≡ some dev
          → w.devices x ≡ some dev
      back a ad x dev m ea mx ex =
          let (old, eo) = h.device_stored a ad m ea x mx in
          let apart = kept a ad x old m ea mx eo in ground arith

  module _ (w : World) (a : ℕ) (old : Adapter) (d : ℕ) (dev : Device) (h : WellFormed case w)
      (ma : elem a w.adapter_list ≡ true) (ea : w.adapters a ≡ some old)
      (ed : w.devices d ≡ some dev) (new_here : elem d old.devices ≡ false) (ok : DeviceOk a dev)
      (absent : Absent case old.devices dev.device_id w) where
    abbrev appended : Adapter
    appended = record old { devices = old.devices ++ d ∷ [] }

    -- A device on the longer list was on the list before, or is the new one on its own adapter.
    listed_cases :
        (x : ℕ) (ad : Adapter) (y : ℕ)
        → update w.adapters a (some appended) x ≡ some ad
        → elem y ad.devices ≡ true
        → ((prior : Adapter) × (w.adapters x ≡ some prior)
            × (elem y prior.devices ≡ true)
            × ((x ≡ a) → prior ≡ old))
          ⊎ ((x ≡ a) × (y ≡ d))
    listed_cases x ad y ex my = elim (Bool-cases (x == a)) [
      | inl hit ↦
          let e : appended ≡ ad = ground arith in
          elim (Bool-cases (elem y old.devices)) [
            | inl listed ↦ inl (old, ground arith, listed, λ _. refl)
            | inr not_listed ↦
                inr (ground arith, ground (arith, elem-snoc y d old.devices, ==_iff y d))
          ]
      | inr miss ↦ inl (ad, ground arith, my, λ e. ground (arith, ==_iff x a))
    ]

    -- The new device shares its id with none that the adapter lists.
    clash :
        (x : ℕ) (prior : Adapter) (y : ℕ) (yev : Device)
        → elem x w.adapter_list ≡ true
        → w.adapters x ≡ some prior
        → ((x ≡ a) → prior ≡ old)
        → x ≡ a
        → elem y prior.devices ≡ true
        → w.devices y ≡ some yev
        → case.same yev.device_id dev.device_id ≡ true
        → ⊥
    clash x prior y yev mx ex is_old xa my ey same =
        let miss = absent y yev (rw (← is_old xa) my) ey in cc

    pub append_device-WellFormed : WellFormed case (write_adapter a appended w)
    append_device-WellFormed = record {
      distinct = h.distinct;
      adapter_stored = λ x m. elim (Bool-cases (x == a)) [
        | inl hit ↦ (appended, rw hit)
        | inr miss ↦ rw miss (h.adapter_stored x m)
      ];
      adapter_ok = λ x ad m ex. elim (Bool-cases (x == a)) [
        | inl hit ↦
            let e : appended ≡ ad = ground arith in
            let before = h.adapter_ok a old ma ea in
            rw (← e) (record {
              held = before.held;
              counter_fits = before.counter_fits;
              distinct = Distinct-snoc d old.devices new_here before.distinct;
            })
        | inr miss ↦ h.adapter_ok x ad m (ground arith)
      ];
      device_stored = λ x ad m ex y my. elim (listed_cases x ad y ex my) [
        | inl (prior, ep, mp, _) ↦ h.device_stored x prior m ep y mp
        | inr (_, yd) ↦ (dev, rw yd ed)
      ];
      device_ok = λ x ad y yev m ex my ey. elim (listed_cases x ad y ex my) [
        | inl (prior, ep, mp, _) ↦ h.device_ok x prior y yev m ep mp ey
        | inr (xa, yd) ↦ let e : dev ≡ yev = ground arith in rw (xa, ← e) ok
      ];
      unique = λ x ad y yev z zev m ex my ey mz ez same. elim (listed_cases x ad y ex my) [
        | inl (prior, ep, mp, isp) ↦ elim (listed_cases x ad z ex mz) [
          | inl (prior', eq', mq, _) ↦
              let e : prior' ≡ prior = ground arith in
              h.unique x prior y yev z zev m ep mp ey (rw (← e) mq) ez same
          | inr (xa, zd) ↦
              let e : zev ≡ dev = ground arith in
              absurd (clash x prior y yev m ep isp xa mp ey (rw (← e) same))
        ]
        | inr (xa, yd) ↦ elim (listed_cases x ad z ex mz) [
          | inl (prior', eq', mq, isq) ↦
              let e : yev ≡ dev = ground arith in
              absurd (
                clash x prior' z zev m eq' isq xa mq ez
                  (case.same_sym dev.device_id zev.device_id (rw (← e) same)))
          | inr (_, zd) ↦ rw (yd, zd)
        ]
      ];
    }
