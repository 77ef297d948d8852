-- ===== src/Device/RefineAdd.antt =====
-- The view after a device was added.
use gattlibcpp.Base.{
  ℕ, ◌≡◌, ◌≢◌, refl, ◌∙◌, ap, inl, inr, Bool, true, false, ◌&&◌, ◌||◌, none, some, elem, ◌==◌,
  ==_iff, ==_refl, Bool-cases, [], ◌∷◌, ◌++◌, elem-snoc, arith,
}
use gattlibcpp.Glib.{AsciiCase}
use gattlibcpp.World.{Text, DeviceState, not_found, Adapter, World}
use gattlibcpp.Device.{new_device}
use gattlibcpp.Device.Invariant.{WellFormed}
use gattlibcpp.Device.SetState.{added, added-WellFormed}
use gattlibcpp.Device.Lookup.{
  Listed, Unlisted, listed_cases, get_state-Listed, get_state-Unlisted, Unlisted-Absent,
}
use gattlibcpp.Device.Refine.{ViewUpdate, other_device}

module _ (case : AsciiCase) (a : ℕ) (id : Text) (w : World) (h : WellFormed case w)
    (ma : elem a w.adapter_list ≡ true) (d : ℕ) (new : DeviceState) (ad : Adapter)
    (fresh : w.devices d ≡ none) (ea : w.adapters a ≡ some ad) (u : Unlisted case a id w) where
  abbrev w' : World
  w' = added case a id w h ma d new ad

  abbrev grown : Adapter
  grown = record ad { devices = ad.devices ++ d ∷ [] }

  still_listed :
      (b : ℕ) (jd : Text) (k : Listed case b jd w)
      → (k' : Listed case b jd w') × (k'.device.state ≡ k.device.state)
  still_listed b jd k =
      let apart : (k.address == d) ≡ false = ground (arith, k.stored, ==_iff k.address d) in
      elim (Bool-cases (b == a)) [
        | inl ba ↦
            let e : k.owner ≡ ad = ground (arith, k.owner_stored) in
            let m : elem k.address ad.devices ≡ true = rw (← e) k.listed in
            (
              record {
                owner = grown;
                address = k.address;
                device = k.device;
                owner_stored = rw ba;
                listed = rw (elem-snoc k.address d ad.devices, m);
                stored = rw apart k.stored;
                matches = k.matches;
              },
              refl,
            )
        | inr ba ↦ (
          record {
            owner = k.owner;
            address = k.address;
            device = k.device;
            owner_stored = rw ba k.owner_stored;
            listed = k.listed;
            stored = rw apart k.stored;
            matches = k.matches;
          },
          refl,
        )
      ]

  now_listed :
      (b : ℕ) (jd : Text)
      → ((b == a) && case.same id jd) ≡ true
      → (k' : Listed case b jd w') × (k'.device.state ≡ new)
  now_listed b jd both = (
    record {
      owner = grown;
      address = d;
      device = new_device case a id new;
      owner_stored = ground arith;
      listed = rw (elem-snoc d d ad.devices, ==_refl d) (or_true (elem d ad.devices));
      stored = rw (==_refl d);
      matches = ground arith;
    },
    refl,
  )
    where
      or_true : (b : Bool) → (b || true) ≡ true
      or_true true = refl
      or_true false = refl

  still-Unlisted :
      (b : ℕ) (jd : Text)
      → elem b w.adapter_list ≡ true
      → Unlisted case b jd w
      → ((b == a) && case.same id jd) ≡ false
      → Unlisted case b jd w'
  still-Unlisted b jd mb (bd, eb, absent) other = elim (Bool-cases (b == a)) [
    | inl ba ↦
        let e : bd ≡ ad = ground arith in
        (
          grown,
          rw ba,
          λ x dev mx ex. elim (Bool-cases (x == d)) [
            | inl xd ↦
                let own : new_device case a id new ≡ dev = ground arith in rw (← own) (ground arith)
            | inr apart ↦
                absent x dev (rw e (ground (arith, elem-snoc x d ad.devices))) (ground arith)
          ],
        )
    | inr ba ↦ (
      bd,
      rw ba eb,
      λ x dev mx ex. elim (Bool-cases (x == d)) [
        | inl xd ↦
            let (prior, ep) = h.device_stored b bd mb eb x mx in
            let x_is_d : x ≡ d = ground arith in
            let gone : w.devices x ≡ none = rw x_is_d fresh in cc
        | inr apart ↦ absent x dev mx (ground arith)
      ],
    )
  ]

  pub added-ViewUpdate : new ≢ not_found → ViewUpdate case a id new w w'
  added-ViewUpdate real b jd mb =
      let h' =
        added-WellFormed case a id w h ma d new ad fresh real ea
          (Unlisted-Absent case a id w ad u ea) in
      elim (listed_cases case b jd w h mb) [
        | inr k ↦
            let (k', e) = still_listed b jd k in
            rw (other_device case a id w h ma u b jd k, get_state-Listed case b jd w h mb k)
              (get_state-Listed case b jd w' h' mb k' ∙ ap some e)
        | inl v ↦ elim (Bool-cases ((b == a) && case.same id jd)) [
          | inl both ↦
              let (k', e) = now_listed b jd both in
              rw both (get_state-Listed case b jd w' h' mb k' ∙ ap some e)
          | inr other ↦
              rw (other, get_state-Unlisted case b jd w h mb v)
                (get_state-Unlisted case b jd w' h' mb (still-Unlisted b jd mb v other))
        ]
      ]
