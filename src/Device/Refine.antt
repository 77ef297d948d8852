-- ===== src/Device/Refine.antt =====
-- The abstract view of an adapter: each id has a state. `gattlib_device_set_state` refines an
-- update of that view.
use gattlibcpp.Base.{
  ℕ, ◌≡◌, ◌≢◌, refl, sym, ◌∙◌, ap, subst, inl, inr, Bool, true, false, ◌&&◌, Option, none, some,
  elem, if◌then◌else◌, ◌==◌, ==_refl, Bool-cases, arith,
}
use gattlibcpp.Glib.{AsciiCase}
use gattlibcpp.World.{Text, DeviceState, not_found, disconnected, Device, World, write_device}
use gattlibcpp.World.Codes.{success, out_of_memory, unexpected}
use gattlibcpp.Device.{get_state}
use gattlibcpp.Device.Invariant.{WellFormed, before_write}
use gattlibcpp.Device.SetState.{stored-WellFormed}
use gattlibcpp.Device.Lookup.{
  Listed, Unlisted, listed_cases, get_state-Listed, get_state-Unlisted, Unlisted-Absent,
}

-- What a request for state `new` answers and leaves, from the state `old`; `memory` tells whether
-- there is memory for one more device.
abbrev pub spec : Bool → DeviceState → DeviceState → ℕ × DeviceState
spec memory not_found not_found = (success, not_found)
spec true not_found new = (success, new)
spec false not_found new = (out_of_memory, not_found)
spec memory disconnected not_found = (success, not_found)
spec memory old not_found = (unexpected, old)
spec memory old new = (success, new)

abbrev pub has_memory : Option ℕ → Bool
has_memory none = false
has_memory (some d) = true

if_some :
    (b : Bool) (s t : DeviceState)
    → ◌≡◌ {A = Option DeviceState} (some (if b then s else t)) (if b then some s else some t)
if_some true s t = refl
if_some false s t = refl

module _ (case : AsciiCase) where
  -- The view of `w'` is that of `w`, except that the id (up to ASCII case) of adapter `a` has `s`.
  abbrev pub ViewUpdate : ℕ → Text → DeviceState → World → World → Type 0
  ViewUpdate a id s w w' =
      (b : ℕ) (jd : Text)
      → elem b w.adapter_list ≡ true
      → get_state case b jd w'
        ≡ (if (b == a) && case.same id jd then some s else get_state case b jd w)

  module _ (a : ℕ) (id : Text) (w : World) (h : WellFormed case w)
      (ma : elem a w.adapter_list ≡ true) where
    address_eq :
        (l : Listed case a id w) (b : ℕ) (jd : Text) (k : Listed case b jd w)
        → b ≡ a
        → case.same id jd ≡ true
        → l.address ≡ k.address
    address_eq l b jd k ba same =
        let owners : k.owner ≡ l.owner = ground (arith, l.owner_stored, k.owner_stored) in
        let back = case.same_sym k.device.device_id jd k.matches in
        h.unique a l.owner l.address l.device k.address k.device ma l.owner_stored l.listed l.stored
          (rw (← owners) k.listed) k.stored
          (case.same_trans l.device.device_id id k.device.device_id l.matches
            (case.same_trans id jd k.device.device_id same back))

    address_eq_of :
        (l : Listed case a id w) (b : ℕ) (jd : Text) (k : Listed case b jd w)
        → elem b w.adapter_list ≡ true
        → l.address ≡ k.address
        → (b ≡ a) × (case.same id jd ≡ true)
    address_eq_of l b jd k mb e =
        let devices : l.device ≡ k.device = ground (arith, l.stored, k.stored) in
        let ok = h.device_ok a l.owner l.address l.device ma l.owner_stored l.listed l.stored in
        let ok' = h.device_ok b k.owner k.address k.device mb k.owner_stored k.listed k.stored in
        (
          ground (arith, ok.owner, ok'.owner),
          case.same_trans id l.device.device_id jd (case.same_sym l.device.device_id id l.matches)
              (rw devices k.matches),
        )

    -- Two listed devices are one exactly if the adapters are equal and the ids compare equal.
    pub same_device :
        (l : Listed case a id w) (b : ℕ) (jd : Text) (k : Listed case b jd w)
        → elem b w.adapter_list ≡ true
        → ((b == a) && case.same id jd) ≡ (k.address == l.address)
    same_device l b jd k mb = elim (Bool-cases (k.address == l.address)) [
      | inl e ↦
          let (ba, same) = address_eq_of l b jd k mb (ground arith) in rw (e, ba, ==_refl a, same)
      | inr n ↦ elim (Bool-cases ((b == a) && case.same id jd)) [
        | inl both ↦ let e = address_eq l b jd k (ground arith) (ground arith) in ground (arith, e)
        | inr not_both ↦ rw (n, not_both)
      ]
    ]

    -- The adapter of an absent id does not list a device of a matching id.
    pub other_device :
        Unlisted case a id w
        → (b : ℕ) (jd : Text) → Listed case b jd w
        → ((b == a) && case.same id jd) ≡ false
    other_device u b jd k = elim (Bool-cases ((b == a) && case.same id jd)) [
      | inl both ↦
          let ba : b ≡ a = ground arith in
          let same : case.same id jd ≡ true = ground arith in
          let absent = Unlisted-Absent case a id w k.owner u (rw (← ba) k.owner_stored) in
          let miss = absent k.address k.device k.listed k.stored in
          let hit = case.same_trans k.device.device_id jd id k.matches (case.same_sym id jd same) in
          cc
      | inr e ↦ e
    ]

    -- An id that its adapter does not list does not match one that it lists.
    pub other_id :
        Listed case a id w
        → (b : ℕ) (jd : Text) → Unlisted case b jd w
        → ((b == a) && case.same id jd) ≡ false
    other_id l b jd u = elim (Bool-cases ((b == a) && case.same id jd)) [
      | inl both ↦
          let ba : b ≡ a = ground arith in
          let same : case.same id jd ≡ true = ground arith in
          let absent = Unlisted-Absent case b jd w l.owner u (rw ba l.owner_stored) in
          let miss = absent l.address l.device l.listed l.stored in
          let hit = case.same_trans l.device.device_id id jd l.matches same in cc
      | inr e ↦ e
    ]

    -- Storing a state leaves the other entries of the view as they are.
    stored-Unlisted :
        (l : Listed case a id w) (new : DeviceState) (b : ℕ) (jd : Text)
        → Unlisted case b jd w
        → Unlisted case b jd (write_device l.address (record l.device { state = new }) w)
    stored-Unlisted l new b jd (ad, eb, absent) = (
      ad,
      eb,
      λ x dev m ex.
          let (prior, ep, ids) =
            before_write case w l.address l.device (record l.device { state = new }) x dev l.stored
              refl ex in
          rw (← ids) (absent x prior m ep),
    )

    stored_listed :
        (l : Listed case a id w) (new : DeviceState) (b : ℕ) (jd : Text) (k : Listed case b jd w)
        → (k' : Listed case b jd (write_device l.address (record l.device { state = new }) w))
          × (k'.device.state ≡ (if k.address == l.address then new else k.device.state))
    stored_listed l new b jd k = elim (Bool-cases (k.address == l.address)) [
      | inl hit ↦
          let ids : l.device ≡ k.device = ground (arith, l.stored, k.stored) in
          (
            record {
              owner = k.owner;
              address = k.address;
              device = record l.device { state = new };
              owner_stored = k.owner_stored;
              listed = k.listed;
              stored = rw hit;
              matches = subst (λ (v : Device). case.same v.device_id jd ≡ true) (sym ids) k.matches;
            },
            rw hit,
          )
      | inr miss ↦ (
        record {
          owner = k.owner;
          address = k.address;
          device = k.device;
          owner_stored = k.owner_stored;
          listed = k.listed;
          stored = rw miss k.stored;
          matches = k.matches;
        },
        rw miss,
      )
    ]

    pub stored-ViewUpdate :
        (l : Listed case a id w) (new : DeviceState)
        → new ≢ not_found
        → ViewUpdate a id new w (write_device l.address (record l.device { state = new }) w)
    stored-ViewUpdate l new real b jd mb =
        let w' = write_device l.address (record l.device { state = new }) w in
        let h' =
          stored-WellFormed case a id w h ma l.address l.device l.owner new l.owner_stored l.listed
            l.stored real in
        elim (listed_cases case b jd w h mb) [
          | inl u ↦
              rw (other_id l b jd u, get_state-Unlisted case b jd w h mb u)
                (get_state-Unlisted case b jd w' h' mb (stored-Unlisted l new b jd u))
          | inr k ↦
              let (k', e) = stored_listed l new b jd k in
              rw (same_device l b jd k mb, get_state-Listed case b jd w h mb k)
                (get_state-Listed case b jd w' h' mb k' ∙ ap some e ∙ if_some _ new k.device.state)
        ]
