-- ===== src/Validity/Place.antt =====
-- The answers of the validity tests in a well-formed world, and where a valid address stands.
use gattlibcpp.Base.{
  ℕ, ◌≡◌, refl, subst, ◌∙◌, ◌⊎◌, ◌↔◌, ap, inl, inr, true, false, Option, some, List, [], ◌∷◌, elem,
  Bool-cases, ==_iff, ==_refl, arith,
}
use gattlibcpp.Glib.{AsciiCase}
use gattlibcpp.World.{
  Device, Adapter, World, DeviceState, not_found, connecting, connected, disconnecting,
  disconnected,
}
use gattlibcpp.Device.{is_connected}
use gattlibcpp.Device.Invariant.{WellFormed, DeviceOk}
use gattlibcpp.Validity.{
  device_listed, connection_is_valid, connected_from, connection_is_connected,
}

-- An adapter in use lists the device.
pub record Slot (c : ℕ) (list : List ℕ) (adapters : ℕ → Option Adapter)
    (devices : ℕ → Option Device) : Type 0 where
  pub owner : ℕ
  pub adapter : Adapter
  pub device : Device
  pub owner_listed : elem owner list ≡ true
  pub adapter_stored : adapters owner ≡ some adapter
  pub listed : elem c adapter.devices ≡ true
  pub stored : devices c ≡ some device

abbrev pub Place : ℕ → World → Type 0
Place c w = Slot c w.adapter_list w.adapters w.devices

module _ (case : AsciiCase) (w : World) (h : WellFormed case w) where
  pub Place-ok : (c : ℕ) (p : Place c w) → DeviceOk p.owner p.device
  Place-ok c p =
      h.device_ok p.owner p.adapter c p.device p.owner_listed p.adapter_stored p.listed p.stored

  abbrev Within : List ℕ → Type 0
  Within al = (a : ℕ) → elem a al ≡ true → elem a w.adapter_list ≡ true

  Within-tail : (a : ℕ) (al : List ℕ) → Within (a ∷ al) → Within al
  Within-tail a al sub x m = sub x (ground arith)

  Within-head : (a : ℕ) (al : List ℕ) → Within (a ∷ al) → elem a w.adapter_list ≡ true
  Within-head a al sub = sub a (ground (arith, ==_refl a))

  -- Once found stays found.
  device_listed-true : (al : List ℕ) (d : ℕ) → Within al → device_listed al d true w ≡ some true
  unfolding device_listed
  device_listed-true [] d sub = refl
  device_listed-true (a ∷ al) d sub =
      let (ad, ea) = h.adapter_stored a (Within-head a al sub) in
      ground (arith, device_listed-true al d (Within-tail a al sub))

  listed_cases :
      (al : List ℕ) (d : ℕ)
      → Within al
      → (device_listed al d false w ≡ some false)
        ⊎ ((device_listed al d false w ≡ some true) × Place d w)
  unfolding device_listed
  listed_cases [] d sub = inl refl
  listed_cases (a ∷ al) d sub =
      let m = Within-head a al sub in
      let (ad, ea) = h.adapter_stored a m in
      elim (Bool-cases (elem d ad.devices)) [
        | inl here ↦
            let (dev, ed) = h.device_stored a ad m ea d here in
            inr (
              rw (ea, here) (device_listed-true al d (Within-tail a al sub)),
              record {
                owner = a;
                adapter = ad;
                device = dev;
                owner_listed = m;
                adapter_stored = ea;
                listed = here;
                stored = ed;
              },
            )
        | inr away ↦ elim (listed_cases al d (Within-tail a al sub)) [
          | inl e ↦ inl (rw (ea, away) e)
          | inr (e, p) ↦ inr (rw (ea, away) e, p)
        ]
      ]

  -- The test faults on no address, and an address that passes it stands on a list.
  pub valid_cases :
      (c : ℕ)
      → (connection_is_valid c w ≡ some false) ⊎ ((connection_is_valid c w ≡ some true) × Place c w)
  unfolding connection_is_valid
  valid_cases c = listed_cases w.adapter_list c (λ a m. m)

  device_listed-Place :
      (al : List ℕ) (c : ℕ) (p : Place c w)
      → Within al
      → elem p.owner al ≡ true
      → device_listed al c false w ≡ some true
  unfolding device_listed
  device_listed-Place [] c p sub m = cc
  device_listed-Place (a ∷ al) c p sub m =
      let (ad, ea) = h.adapter_stored a (Within-head a al sub) in
      elim (Bool-cases (elem c ad.devices)) [
        | inl here ↦ rw (ea, here) (device_listed-true al c (Within-tail a al sub))
        | inr away ↦
            let apart = λ (e : p.owner ≡ a).
              let stored : w.adapters a ≡ some p.adapter =
                subst (λ x. w.adapters x ≡ some p.adapter) e p.adapter_stored in
              let same : p.adapter ≡ ad = ground arith in
              let here : elem c ad.devices ≡ true =
                subst (λ (x : Adapter). elem c x.devices ≡ true) same p.listed in
              absurd {A = elem p.owner al ≡ true} (ground arith) in
            let later : elem p.owner al ≡ true = ground (arith, apart, ==_iff p.owner a) in
            rw (ea, away) (device_listed-Place al c p (Within-tail a al sub) later)
      ]

  -- An address in its place passes the test.
  pub valid-Place : (c : ℕ) → Place c w → connection_is_valid c w ≡ some true
  unfolding connection_is_valid
  valid-Place c p = device_listed-Place w.adapter_list c p (λ a m. m) p.owner_listed

  -- All adapters that list a device list the same one.
  connected_from-Place :
      (al : List ℕ) (c : ℕ) (p : Place c w)
      → Within al
      → connected_from al c (is_connected p.device.state) w ≡ some (is_connected p.device.state)
  unfolding connected_from
  connected_from-Place [] c p sub = refl
  connected_from-Place (a ∷ al) c p sub =
      let (ad, ea) = h.adapter_stored a (Within-head a al sub) in
      let ih = connected_from-Place al c p (Within-tail a al sub) in
      elim (Bool-cases (elem c ad.devices)) [
        | inl here ↦ rw (ea, here, p.stored) ih
        | inr away ↦ rw (ea, away) ih
      ]

  -- No adapter of the list lists the device.
  abbrev Nowhere : List ℕ → ℕ → Type 0
  Nowhere al c =
      (a : ℕ) (ad : Adapter) → elem a al ≡ true → w.adapters a ≡ some ad → elem c ad.devices ≡ false

  connected_from_cases :
      (al : List ℕ) (c : ℕ)
      → Within al
      → ((connected_from al c false w ≡ some false) × Nowhere al c)
        ⊎ ((p : Place c w) × (connected_from al c false w ≡ some (is_connected p.device.state)))
  unfolding connected_from
  connected_from_cases [] c sub = inl (refl, λ a ad m e. cc)
  connected_from_cases (a ∷ al) c sub =
      let m = Within-head a al sub in
      let (ad, ea) = h.adapter_stored a m in
      elim (Bool-cases (elem c ad.devices)) [
        | inl here ↦
            let (dev, ed) = h.device_stored a ad m ea c here in
            let p : Place c w = record {
              owner = a;
              adapter = ad;
              device = dev;
              owner_listed = m;
              adapter_stored = ea;
              listed = here;
              stored = ed;
            } in
            inr (p, rw (ea, here, ed) (connected_from-Place al c p (Within-tail a al sub)))
        | inr away ↦ elim (connected_from_cases al c (Within-tail a al sub)) [
          | inl (e, nowhere) ↦
              inl (rw (ea, away) e, λ x xd mx ex. ground (arith, nowhere x xd, ==_iff x a))
          | inr (p, e) ↦ inr (p, rw (ea, away) e)
        ]
      ]

  -- The answer for a device in its place is whether it is connected.
  pub connected-Place :
      (c : ℕ) (p : Place c w) → connection_is_connected c w ≡ some (is_connected p.device.state)
  unfolding connection_is_connected
  connected-Place c p = elim (connected_from_cases w.adapter_list c (λ a m. m)) [
    | inl (_, nowhere) ↦
        let away = nowhere p.owner p.adapter p.owner_listed p.adapter_stored in
        let here = p.listed in cc
    | inr (q, e) ↦
        let same : q.device ≡ p.device = ground (arith, q.stored, p.stored) in
        e ∙ ap (λ (v : Device). some (is_connected v.state)) same
  ]

  is_connected_eq : (s : DeviceState) → is_connected s ≡ true → s ≡ connected
  is_connected_eq connected e = refl
  is_connected_eq not_found e = cc
  is_connected_eq connecting e = cc
  is_connected_eq disconnecting e = cc
  is_connected_eq disconnected e = cc

  pub connected_cases :
      (c : ℕ)
      → (connection_is_connected c w ≡ some false)
        ⊎ ((p : Place c w) × (connection_is_connected c w ≡ some true)
            × (p.device.state ≡ connected))
  unfolding connection_is_connected
  connected_cases c = elim (connected_from_cases w.adapter_list c (λ a m. m)) [
    | inl (e, _) ↦ inl e
    | inr (p, e) ↦ elim (Bool-cases (is_connected p.device.state)) [
      | inl yes' ↦ inr (p, e ∙ ap some yes', is_connected_eq p.device.state yes')
      | inr no' ↦ inl (e ∙ ap some no')
    ]
  ]

-- In a well-formed world the connection test answers for any address, live or stale: it says
-- "connected" exactly if an open adapter lists a device at that address in the state CONNECTED.
pub connection_is_connected_iff :
    (case : AsciiCase) (w : World) (c : ℕ)
    → WellFormed case w
    → (connection_is_connected c w ≡ some true) ↔ ((p : Place c w) × (p.device.state ≡ connected))
connection_is_connected_iff case w c h = (
  λ e. elim (connected_cases case w h c) [ inl f ↦ ground arith | inr (p, _, s) ↦ (p, s) ],
  λ q. connected-Place case w h c q.0 ∙ ap (λ s. some (is_connected s)) q.1,
)
