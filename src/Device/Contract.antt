-- ===== src/Device/Contract.antt =====
-- `gattlib_device_set_state` refines the update of a map from ids to states.
use gattlibcpp.Base.{
  ℕ, ◌≡◌, ◌≢◌, refl, sym, ◌∙◌, ap, subst, inl, inr, Bool, true, false, ◌&&◌, Option, some, elem,
  if◌then◌else◌, ◌==◌, Bool-cases, arith,
}
use mathlib.Core.Path.{ap₂}
use gattlibcpp.Glib.{AsciiCase}
use gattlibcpp.World.{Text, DeviceState, not_found, connecting, disconnected, Device, World}
use gattlibcpp.World.Codes.{success, out_of_memory, unexpected}
use gattlibcpp.Device.{get_state, set_state}
use gattlibcpp.Device.Invariant.{WellFormed}
use gattlibcpp.Device.SetState.{Fresh, added-WellFormed, dropped-WellFormed, stored-WellFormed}
use gattlibcpp.Device.Lookup.{
  Listed, Unlisted, listed_cases, get_state-Listed, get_state-Unlisted, Unlisted-Absent,
}
use gattlibcpp.Device.Outcome.{
  Outcome, nothing_to_set, no_memory, adds, refuses, drops, stores, set_state-Outcome,
}
use gattlibcpp.Device.Refine.{
  ViewUpdate, spec, has_memory, same_device, other_device, other_id, stored-ViewUpdate,
}
use gattlibcpp.Device.RefineAdd.{added-ViewUpdate}
use gattlibcpp.Device.RefineDrop.{dropped-ViewUpdate}

spec_absent : (memory : Bool) → spec memory not_found not_found ≡ (success, not_found)
spec_absent true = refl
spec_absent false = refl

spec_no_memory :
    (new : DeviceState) → new ≢ not_found → spec false not_found new ≡ (out_of_memory, not_found)
spec_no_memory not_found n = absurd (n refl)
spec_no_memory _ n = refl

spec_adds : (new : DeviceState) → new ≢ not_found → spec true not_found new ≡ (success, new)
spec_adds not_found n = absurd (n refl)
spec_adds _ n = refl

spec_drops : (memory : Bool) → spec memory disconnected not_found ≡ (success, not_found)
spec_drops true = refl
spec_drops false = refl

spec_refuses :
    (memory : Bool) (old : DeviceState)
    → old ≢ not_found
    → old ≢ disconnected
    → spec memory old not_found ≡ (unexpected, old)
spec_refuses memory not_found n m = absurd (n refl)
spec_refuses memory disconnected n m = absurd (m refl)
spec_refuses true _ n m = refl
spec_refuses false _ n m = refl

spec_stores :
    (memory : Bool) (old new : DeviceState)
    → old ≢ not_found
    → new ≢ not_found
    → spec memory old new ≡ (success, new)
spec_stores memory not_found new n m = absurd (n refl)
spec_stores memory old not_found n m = absurd (m refl)
spec_stores true connecting connecting n m = refl
spec_stores true _ _ n m = refl
spec_stores false connecting connecting n m = refl
spec_stores false _ _ n m = refl

module _ (case : AsciiCase) (fresh : Option ℕ) (a : ℕ) (id : Text) (new : DeviceState) (w : World)
    (h : WellFormed case w) (ma : elem a w.adapter_list ≡ true) where
  -- The call answers `code` and leaves the view with state `s` at the id.
  abbrev pub Answers : Option (ℕ × World) → ℕ × DeviceState → Type 0
  Answers r (code, s) =
      (w' : World) × (r ≡ some (code, w')) × WellFormed case w' × ViewUpdate case a id s w w'

  Unlisted-kept : Unlisted case a id w → ViewUpdate case a id not_found w w
  Unlisted-kept u b jd mb = elim (listed_cases case b jd w h mb) [
    | inl v ↦ rw (get_state-Unlisted case b jd w h mb v) (either ((b == a) && case.same id jd))
    | inr k ↦ rw (other_device case a id w h ma u b jd k)
  ]
    where
      either :
          (b : Bool)
          → ◌≡◌ {A = Option DeviceState}
              (some not_found)
              (if b then some not_found else some not_found)
      either true = refl
      either false = refl

  listed_kept : (l : Listed case a id w) → ViewUpdate case a id l.device.state w w
  listed_kept l b jd mb = elim (listed_cases case b jd w h mb) [
    | inl v ↦ rw (other_id case a id w h ma l b jd v)
    | inr k ↦ elim (Bool-cases (k.address == l.address)) [
      | inl hit ↦
          let e : k.device ≡ l.device = ground (arith, k.stored, l.stored) in
          rw (same_device case a id w h ma l b jd k mb, hit, get_state-Listed case b jd w h mb k)
            (ap (λ (v : Device). some v.state) e)
      | inr n ↦ rw (same_device case a id w h ma l b jd k mb, n)
    ]
  ]

  old_absent :
      (old : DeviceState)
      → get_state case a id w ≡ some old
      → Unlisted case a id w
      → old ≡ not_found
  old_absent old e u = let f = get_state-Unlisted case a id w h ma u in ground arith

  old_listed :
      (old : DeviceState)
      → get_state case a id w ≡ some old
      → (l : Listed case a id w) → old ≡ l.device.state
  old_listed old e l = let f = get_state-Listed case a id w h ma l in ground arith

  spec_at :
      {old old' new' : DeviceState}
      → old ≡ old'
      → new ≡ new'
      → spec (has_memory fresh) old new ≡ spec (has_memory fresh) old' new'
  spec_at e f = ap₂ (λ o n. spec (has_memory fresh) o n) e f

  answers_lem :
      (old : DeviceState)
      → Fresh fresh w
      → get_state case a id w ≡ some old
      → (r : Option (ℕ × World)) → Outcome case fresh a id new w h ma r
      → Answers r (spec (has_memory fresh) old new)
  answers_lem old free e r (nothing_to_set u n er) =
      let eq : spec (has_memory fresh) old new ≡ (success, not_found) =
        spec_at old_is n ∙ spec_absent (has_memory fresh) in
      subst (Answers r) (sym eq) (w, er, h, Unlisted-kept u)
    where
      old_is : old ≡ not_found
      old_is = old_absent old e u
  answers_lem old free e r (no_memory u n ef er) =
      let eq : spec (has_memory fresh) old new ≡ (out_of_memory, not_found) =
        ap₂ (λ m o. spec m o new) (ap has_memory ef) (old_absent old e u) ∙ spec_no_memory new n in
      subst (Answers r) (sym eq) (w, er, h, Unlisted-kept u)
  answers_lem old free e r (adds u d ad n ef ea er) =
      let eq : spec (has_memory fresh) old new ≡ (success, new) =
        ap₂ (λ m o. spec m o new) (ap has_memory ef) (old_absent old e u) ∙ spec_adds new n in
      let free' = subst (λ o. Fresh o w) ef free in
      subst (Answers r) (sym eq) (
        _,
        er,
        added-WellFormed case a id w h ma d new ad free' n ea (Unlisted-Absent case a id w ad u ea),
        added-ViewUpdate case a id w h ma d new ad free' ea u n,
      )
  answers_lem old free e r (refuses l n s er) =
      let ok = h.device_ok a l.owner l.address l.device ma l.owner_stored l.listed l.stored in
      let eq : spec (has_memory fresh) old new ≡ (unexpected, l.device.state) =
        spec_at (old_listed old e l) n
        ∙ spec_refuses (has_memory fresh) l.device.state ok.present s in
      subst (Answers r) (sym eq) (w, er, h, listed_kept l)
  answers_lem old free e r (drops l n s er) =
      let eq : spec (has_memory fresh) old new ≡ (success, not_found) =
        spec_at (old_listed old e l ∙ s) n ∙ spec_drops (has_memory fresh) in
      subst (Answers r) (sym eq) (
        _,
        er,
        dropped-WellFormed case a id w h ma l.address l.device l.owner l.owner_stored l.listed
            l.stored,
        dropped-ViewUpdate case a id w h ma l,
      )
  answers_lem old free e r (stores l n er) =
      let ok = h.device_ok a l.owner l.address l.device ma l.owner_stored l.listed l.stored in
      let eq : spec (has_memory fresh) old new ≡ (success, new) =
        spec_at (old_listed old e l) refl
        ∙ spec_stores (has_memory fresh) l.device.state new ok.present n in
      subst (Answers r) (sym eq) (
        _,
        er,
        stored-WellFormed case a id w h ma l.address l.device l.owner new l.owner_stored l.listed
            l.stored n,
        stored-ViewUpdate case a id w h ma l new n,
      )

-- On a valid adapter of a well-formed world, and with memory that is not in use, a call answers
-- the code and leaves the state that `spec` gives for the id's old state; the world stays
-- well-formed, the state of every id of every adapter that is not the one asked for is as before.
pub set_state-refines :
    (case : AsciiCase) (fresh : Option ℕ) (a : ℕ) (id : Text) (old new : DeviceState) (w : World)
    → WellFormed case w
    → Fresh fresh w
    → elem a w.adapter_list ≡ true
    → get_state case a id w ≡ some old
    → let (code, s) = spec (has_memory fresh) old new in
      (w' : World) × (set_state case fresh a id new w ≡ some (code, w'))
      × WellFormed case w'
      × ViewUpdate case a id s w w'
set_state-refines case fresh a id old new w h free ma e =
    answers_lem case fresh a id new w h ma old free e _
      (set_state-Outcome case fresh a id new w h ma)
