-- ===== src/Device/RefineDrop.antt =====
-- The view after a device was dropped.
use gattlibcpp.Base.{
  ℕ, ◌≡◌, refl, sym, ◌∙◌, ap, subst, inl, inr, true, false, some, ltb, elem, ◌==◌, ==_refl,
  Bool-cases, remove, elem-remove_ne, elem-remove_self, elem-remove_of, arith,
}
use gattlibcpp.Glib.{AsciiCase}
use gattlibcpp.World.{Text, not_found, Adapter, World, update}
use gattlibcpp.Device.{decr}
use gattlibcpp.Device.Invariant.{WellFormed}
use gattlibcpp.Device.SetState.{dropped, dropped-WellFormed}
use gattlibcpp.Device.Lookup.{Listed, Unlisted, listed_cases, get_state-Listed, get_state-Unlisted}
use gattlibcpp.Device.Refine.{ViewUpdate, same_device, other_id}

module _ (case : AsciiCase) (a : ℕ) (id : Text) (w : World) (h : WellFormed case w)
    (ma : elem a w.adapter_list ≡ true) (l : Listed case a id w) where
  abbrev w' : World
  w' = dropped case a id w h ma l.address l.device l.owner

  abbrev shrunk : Adapter
  shrunk = record l.owner { devices = remove l.address l.owner.devices }

  adapters_lem : (b : ℕ) → w'.adapters b ≡ update w.adapters a (some shrunk) b
  adapters_lem b = elim (Bool-cases (ltb 0 (decr l.device.reference_counter))) [
    | inl more ↦ rw more
    | inr last ↦ rw last
  ]

  devices_ne : (x : ℕ) → (x == l.address) ≡ false → w'.devices x ≡ w.devices x
  devices_ne x n = elim (Bool-cases (ltb 0 (decr l.device.reference_counter))) [
    | inl more ↦ rw (more, n)
    | inr last ↦ rw (last, n)
  ]

  still_listed :
      (b : ℕ) (jd : Text) (k : Listed case b jd w)
      → (k.address == l.address) ≡ false
      → (k' : Listed case b jd w') × (k'.device.state ≡ k.device.state)
  still_listed b jd k n = elim (Bool-cases (b == a)) [
    | inl ba ↦
        let e : k.owner ≡ l.owner = ground (arith, k.owner_stored, l.owner_stored) in
        let m : elem k.address l.owner.devices ≡ true = rw (← e) k.listed in
        (
          record {
            owner = shrunk;
            address = k.address;
            device = k.device;
            owner_stored = rw (adapters_lem b, ba);
            listed = elem-remove_ne k.address l.address l.owner.devices (λ p. ground arith) ∙ m;
            stored = devices_ne k.address n ∙ k.stored;
            matches = k.matches;
          },
          refl,
        )
    | inr ba ↦ (
      record {
        owner = k.owner;
        address = k.address;
        device = k.device;
        owner_stored = rw (adapters_lem b, ba) k.owner_stored;
        listed = k.listed;
        stored = devices_ne k.address n ∙ k.stored;
        matches = k.matches;
      },
      refl,
    )
  ]

  -- What the shortened list still holds was listed before, and is not the dropped device.
  on_shrunk :
      (x : ℕ)
      → elem x (remove l.address l.owner.devices) ≡ true
      → (elem x l.owner.devices ≡ true) × ((x == l.address) ≡ false)
  on_shrunk x m =
      let distinct = (h.adapter_ok a l.owner ma l.owner_stored).distinct in
      let gone = elem-remove_self l.address l.owner.devices distinct in
      (
        elem-remove_of x l.address l.owner.devices m,
        elim (Bool-cases (x == l.address)) [
          | inl e ↦
              let is_l : x ≡ l.address = ground arith in
              let m' : elem l.address (remove l.address l.owner.devices) ≡ true =
                subst (λ y. elem y (remove l.address l.owner.devices) ≡ true) is_l m in
              cc
          | inr n ↦ n
        ],
      )

  now-Unlisted : (b : ℕ) (jd : Text) → b ≡ a → case.same id jd ≡ true → Unlisted case b jd w'
  now-Unlisted b jd ba same = (
    shrunk,
    adapters_lem b ∙ rw (ba, ==_refl a),
    λ x dev mx ex.
        let (m, n) = on_shrunk x mx in
        elim (Bool-cases (case.same dev.device_id jd)) [
          | inl hit ↦
              let eo = sym (devices_ne x n) ∙ ex in
              let back = case.same_trans dev.device_id jd id hit (case.same_sym id jd same) in
              let e =
                h.unique a l.owner x dev l.address l.device ma l.owner_stored m eo l.listed l.stored
                  (case.same_trans dev.device_id id l.device.device_id back
                    (case.same_sym l.device.device_id id l.matches)) in
              ground arith
          | inr miss ↦ miss
        ],
  )

  still-Unlisted :
      (b : ℕ) (jd : Text)
      → elem b w.adapter_list ≡ true
      → Unlisted case b jd w
      → Unlisted case b jd w'
  still-Unlisted b jd mb (bd, eb, absent) = elim (Bool-cases (b == a)) [
    | inl ba ↦
        let e : bd ≡ l.owner = ground (arith, l.owner_stored) in
        (
          shrunk,
          rw (adapters_lem b, ba),
          λ x dev mx ex.
              let (m, n) = on_shrunk x mx in absent x dev (rw e m) (sym (devices_ne x n) ∙ ex),
        )
    | inr ba ↦ (
      bd,
      rw (adapters_lem b, ba) eb,
      λ x dev mx ex. elim (Bool-cases (x == l.address)) [
        | inl e ↦
            let is_l : x ≡ l.address = ground arith in
            let own =
              (h.device_ok a l.owner l.address l.device ma l.owner_stored l.listed
                l.stored).owner in
            let own' =
              (h.device_ok b bd l.address l.device mb eb (rw (← is_l) mx) l.stored).owner in
            ground (arith, own, own')
        | inr n ↦ absent x dev mx (sym (devices_ne x n) ∙ ex)
      ],
    )
  ]

  pub dropped-ViewUpdate : ViewUpdate case a id not_found w w'
  dropped-ViewUpdate b jd mb =
      let h' =
        dropped-WellFormed case a id w h ma l.address l.device l.owner l.owner_stored l.listed
          l.stored in
      elim (listed_cases case b jd w h mb) [
        | inl v ↦
            rw (other_id case a id w h ma l b jd v, get_state-Unlisted case b jd w h mb v)
              (get_state-Unlisted case b jd w' h' (list_kept ∙ mb) (still-Unlisted b jd mb v))
        | inr k ↦ elim (Bool-cases (k.address == l.address)) [
          | inl hit ↦
              let both = same_device case a id w h ma l b jd k mb ∙ hit in
              rw both (
                get_state-Unlisted case b jd w' h' (list_kept ∙ mb)
                  (now-Unlisted b jd (ground arith) (ground arith)))
          | inr n ↦
              let (k', e) = still_listed b jd k n in
              rw (same_device case a id w h ma l b jd k mb, n, get_state-Listed case b jd w h mb k)
                (get_state-Listed case b jd w' h' (list_kept ∙ mb) k' ∙ ap some e)
        ]
      ]
    where
      list_kept : elem b w'.adapter_list ≡ elem b w.adapter_list
      list_kept = elim (Bool-cases (ltb 0 (decr l.device.reference_counter))) [
        | inl more ↦ rw more
        | inr last ↦ rw last
      ]
