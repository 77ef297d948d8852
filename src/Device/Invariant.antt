-- ===== src/Device/Invariant.antt =====
-- The well-formedness of the objects: what holds of the adapters and the devices between two calls,
-- and the elementary writes that keep it.
use gattlibcpp.Base.{
  ℕ, ◌<◌, ◌≡◌, ◌≢◌, refl, true, false, Option, none, some, List, ◌==◌, elem, remove, Distinct,
  elem-remove_self, ==_iff, Bool-cases, inl, inr, arith,
}
use gattlibcpp.Glib.{AsciiCase}
use gattlibcpp.World.{not_found, Device, Adapter, World, update, write_device, write_adapter}
use gattlibcpp.Device.{uintptr_mod}

pub record DeviceOk (a : ℕ) (dev : Device) : Type 0 where
  pub owner : dev.adapter ≡ a
  pub present : dev.state ≢ not_found
  pub held : 0 < dev.reference_counter
  pub counter_fits : dev.reference_counter < uintptr_mod

pub record AdapterOk (ad : Adapter) : Type 0 where
  pub held : 0 < ad.reference_counter
  pub counter_fits : ad.reference_counter < uintptr_mod
  pub distinct : Distinct ad.devices

module _ (case : AsciiCase) where
  -- Every listed adapter is in memory and referenced, every device that it lists is in memory,
  -- points back to it, is referenced and has a real state; no two have the same id.
  pub record Sound (list : List ℕ) (adapters : ℕ → Option Adapter) (devices : ℕ → Option Device)
      : Type 0 where
    pub distinct : Distinct list
    pub adapter_stored : (a : ℕ) → elem a list ≡ true → (ad : Adapter) × (adapters a ≡ some ad)
    pub adapter_ok :
        (a : ℕ) (ad : Adapter) → elem a list ≡ true → adapters a ≡ some ad → AdapterOk ad
    pub device_stored :
        (a : ℕ) (ad : Adapter)
        → elem a list ≡ true
        → adapters a ≡ some ad
        → (d : ℕ) → elem d ad.devices ≡ true
        → (dev : Device) × (devices d ≡ some dev)
    pub device_ok :
        (a : ℕ) (ad : Adapter) (d : ℕ) (dev : Device)
        → elem a list ≡ true
        → adapters a ≡ some ad
        → elem d ad.devices ≡ true
        → devices d ≡ some dev
        → DeviceOk a dev
    pub unique :
        (a : ℕ) (ad : Adapter) (d : ℕ) (dev : Device) (e : ℕ) (eev : Device)
        → elem a list ≡ true
        → adapters a ≡ some ad
        → elem d ad.devices ≡ true
        → devices d ≡ some dev
        → elem e ad.devices ≡ true
        → devices e ≡ some eev
        → case.same dev.device_id eev.device_id ≡ true
        → d ≡ e

  -- The signals and the effects of a world do not matter to its soundness.
  abbrev pub WellFormed : World → Type 0
  WellFormed w = Sound w.adapter_list w.adapters w.devices

  -- What stood at an address before a device was overwritten.
  pub before_write :
      (w : World) (d : ℕ) (old new : Device) (x : ℕ) (dev : Device)
      → w.devices d ≡ some old
      → new.device_id ≡ old.device_id
      → update w.devices d (some new) x ≡ some dev
      → (prior : Device) × (w.devices x ≡ some prior) × (prior.device_id ≡ dev.device_id)
  before_write w d old new x dev e id ex = elim (Bool-cases (x == d)) [
    | inl hit ↦ (old, ground arith, ground arith)
    | inr miss ↦ (dev, ground arith, refl)
  ]

  -- A device may be overwritten by one of the same id and owner.
  pub write_device-WellFormed :
      (w : World) (d : ℕ) (old new : Device)
      → WellFormed w
      → w.devices d ≡ some old
      → new.device_id ≡ old.device_id
      → new.adapter ≡ old.adapter
      → new.state ≢ not_found
      → 0 < new.reference_counter
      → new.reference_counter < uintptr_mod
      → WellFormed (write_device d new w)
  write_device-WellFormed w d old new h e id own present held fits = record {
    distinct = h.distinct;
    adapter_stored = h.adapter_stored;
    adapter_ok = h.adapter_ok;
    device_stored = λ a ad m ea x mx. elim (Bool-cases (x == d)) [
      | inl hit ↦ (new, rw hit)
      | inr miss ↦ rw miss (h.device_stored a ad m ea x mx)
    ];
    device_ok = λ a ad x dev m ea mx ex. elim (Bool-cases (x == d)) [
      | inl hit ↦
          let x_is_d : x ≡ d = ground arith in
          let before = h.device_ok a ad x old m ea mx (rw x_is_d e) in ground (arith, before.owner)
      | inr miss ↦ h.device_ok a ad x dev m ea mx (ground arith)
    ];
    unique = λ a ad x dev y eev m ea mx ex my ey same.
        let p = before_write w d old new x dev e id ex in
        let q = before_write w d old new y eev e id ey in
        h.unique a ad x p.0 y q.0 m ea mx p.1 my q.1 (rw (p.2, q.2) same);
  }

  -- What stood at an address before an adapter was overwritten by one that lists no new device.
  listed_before :
      (w : World) (a : ℕ) (old new : Adapter) (x : ℕ) (ad : Adapter)
      → w.adapters a ≡ some old
      → ((d : ℕ) → elem d new.devices ≡ true → elem d old.devices ≡ true)
      → update w.adapters a (some new) x ≡ some ad
      → (prior : Adapter) × (w.adapters x ≡ some prior)
        × ((d : ℕ) → elem d ad.devices ≡ true → elem d prior.devices ≡ true)
  listed_before w a old new x ad e sub ex = elim (Bool-cases (x == a)) [
    | inl hit ↦
        let is_new : new ≡ ad = ground arith in (old, ground arith, λ d m. sub d (rw is_new m))
    | inr miss ↦ (ad, ground arith, λ d m. m)
  ]

  -- An adapter may be overwritten by one that lists no new device.
  pub write_adapter-WellFormed :
      (w : World) (a : ℕ) (old new : Adapter)
      → WellFormed w
      → w.adapters a ≡ some old
      → ((d : ℕ) → elem d new.devices ≡ true → elem d old.devices ≡ true)
      → AdapterOk new
      → WellFormed (write_adapter a new w)
  write_adapter-WellFormed w a old new h e sub ok = record {
    distinct = h.distinct;
    adapter_stored = λ x m. elim (Bool-cases (x == a)) [
      | inl hit ↦ (new, rw hit)
      | inr miss ↦ rw miss (h.adapter_stored x m)
    ];
    adapter_ok = λ x ad m ex. elim (Bool-cases (x == a)) [
      | inl hit ↦ let is_new : new ≡ ad = ground arith in rw (← is_new) ok
      | inr miss ↦ h.adapter_ok x ad m (ground arith)
    ];
    device_stored = λ x ad m ex d md.
        let p = listed_before w a old new x ad e sub ex in h.device_stored x p.0 m p.1 d (p.2 d md);
    device_ok = λ x ad d dev m ex md ed.
        let p = listed_before w a old new x ad e sub ex in
        h.device_ok x p.0 d dev m p.1 (p.2 d md) ed;
    unique = λ x ad d dev y eev m ex md ed my ey same.
        let p = listed_before w a old new x ad e sub ex in
        h.unique x p.0 d dev y eev m p.1 (p.2 d md) ed (p.2 y my) ey same;
  }

  -- A device that no listed adapter lists may be freed.
  pub free_device-WellFormed :
      (w : World) (d : ℕ)
      → WellFormed w
      → ((a : ℕ) (ad : Adapter)
          → elem a w.adapter_list ≡ true
          → w.adapters a ≡ some ad
          → elem d ad.devices ≡ false)
      → WellFormed (record w { devices = update w.devices d none })
  free_device-WellFormed w d h away = record {
    distinct = h.distinct;
    adapter_stored = h.adapter_stored;
    adapter_ok = h.adapter_ok;
    device_stored = λ a ad m ea x mx.
        let (dev, ex) = h.device_stored a ad m ea x mx in
        (dev, ground (arith, away a ad m ea, ==_iff x d));
    device_ok = λ a ad x dev m ea mx ex. h.device_ok a ad x dev m ea mx (ground arith);
    unique = λ a ad x dev y eev m ea mx ex my ey same.
        h.unique a ad x dev y eev m ea mx (ground arith) my (ground arith) same;
  }

  -- Once it is taken off its adapter's list, a device is on no list.
  pub removed_away :
      (w : World) (a : ℕ) (old : Adapter) (d : ℕ) (dev : Device)
      → WellFormed w
      → elem a w.adapter_list ≡ true
      → w.adapters a ≡ some old
      → elem d old.devices ≡ true
      → w.devices d ≡ some dev
      → (x : ℕ) (ad : Adapter) → elem x w.adapter_list ≡ true
      → update w.adapters a (some (record old { devices = remove d old.devices })) x ≡ some ad
      → elem d ad.devices ≡ false
  removed_away w a old d dev h ma ea md ed x ad mx ex = elim (Bool-cases (x == a)) [
    | inl hit ↦ ground (arith, elem-remove_self d old.devices (h.adapter_ok a old ma ea).distinct)
    | inr miss ↦
        let owner = (h.device_ok a old d dev ma ea md ed).owner in
        let other =
          λ (l : elem d ad.devices ≡ true). (h.device_ok x ad d dev mx (ground arith) l ed).owner in
        ground (arith, other, owner)
  ]
