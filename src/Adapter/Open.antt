-- ===== src/Adapter/Open.antt =====
-- Opening an adapter, `gattlib_adapter_open` of dbus/gattlib_adapter.c: for the first time, and again.
use gattlibcpp.Base.{
  ℕ, ◌+◌, ◌<◌, ◌≤◌, ◌≡◌, refl, sym, ◌∙◌, ap, ◌⊎◌, inl, inr, true, false, Option, none, some, List,
  [], ◌∷◌, ◌++◌, ◌==◌, elem, elem-snoc, Distinct-snoc, Bool-cases, ==_refl, ==_iff, arith,
}
use mathlib.Core.Option.{some-injective}
use gattlibcpp.Glib.{AsciiCase}
use gattlibcpp.World.{Text, Adapter, World, update, write_adapter}
use gattlibcpp.World.Codes.{success}
use gattlibcpp.Device.{uintptr_mod, incr, decr}
use gattlibcpp.Device.Invariant.{WellFormed, AdapterOk, write_adapter-WellFormed}
use gattlibcpp.Validity.{tolower, stricmp_eq, find_adapter, adapter_from_id}
use gattlibcpp.Connection.Safe.{update_self}
use gattlibcpp.Adapter.{
  OpenReply, adapter_path, new_adapter, register_adapter, name_or_default, adapter_ref,
  adapter_unref, adapter_reopen, adapter_open,
}
use gattlibcpp.Adapter.Unref.{adapter_unref_counts}

-- An adapter in the list with the identifier that is looked for.
record Known (l : List ℕ) (id : Text) (w : World) : Type 0 where
  address : ℕ
  adapter : Adapter
  found : find_adapter l id w ≡ some (some address)
  listed : elem address l ≡ true
  stored : w.adapters address ≡ some adapter
  matches : stricmp_eq adapter.id id ≡ true

-- No adapter in the list has the identifier.
abbrev Unknown : List ℕ → Text → World → Type 0
Unknown l id w =
    (find_adapter l id w ≡ some none)
    × ((x : ℕ) (xd : Adapter)
        → elem x l ≡ true
        → w.adapters x ≡ some xd
        → stricmp_eq xd.id id ≡ false)

-- The search never faults on adapters that are in memory.
find_adapter_cases :
    (l : List ℕ) (id : Text) (w : World)
    → ((a : ℕ) → elem a l ≡ true → (ad : Adapter) × (w.adapters a ≡ some ad))
    → Unknown l id w ⊎ Known l id w
unfolding find_adapter
find_adapter_cases [] id w h = inl (refl, λ x xd m e. cc)
find_adapter_cases (a ∷ l) id w h =
    let (ad, e) = h a (ground (arith, ==_refl a)) in
    let rest = find_adapter_cases l id w (λ x m. h x (ground arith)) in
    elim (Bool-cases (stricmp_eq ad.id id)) [
      | inl hit ↦ inr (record {
        address = a;
        adapter = ad;
        found = rw (e, hit) refl;
        listed = ground (arith, ==_refl a);
        stored = e;
        matches = hit;
      })
      | inr miss ↦ elim rest [
        | inl (f, others) ↦ inl (
          rw (e, miss) f,
          λ x xd m ex. elim (Bool-cases (x == a)) [
            | inr n ↦ others x xd (ground arith) ex
            | inl y ↦
                let at : x ≡ a = ground (arith, ==_iff x a) in
                let same = some-injective ad xd (sym e ∙ ap w.adapters (sym at) ∙ ex) in
                ap (λ (v : Adapter). stricmp_eq v.id id) (sym same) ∙ miss
          ],
        )
        | inr k ↦ inr (record {
          address = k.address;
          adapter = k.adapter;
          found = rw (e, miss) k.found;
          listed = ground (arith, k.listed);
          stored = k.stored;
          matches = k.matches;
        })
      ]
    ]

-- The same letter, in either case, or the same other byte.
abbrev pub Letter : ℕ → ℕ → Type 0
Letter a b = (a ≡ b) ⊎ (((65 ≤ a) × (a ≤ 90) × (b ≡ a + 32)) ⊎ ((65 ≤ b) × (b ≤ 90) × (a ≡ b + 32)))

-- The same text but for the case of its letters, as the ASCII table says it.
abbrev pub CaseVariant : Text → Text → Type 0
CaseVariant [] [] = Unit {0}
CaseVariant (a ∷ al) (b ∷ bl) = Letter a b × CaseVariant al bl
CaseVariant _ _ = ⊥

-- The bytes of a C string, without its end.
abbrev pub CString : Text → Type 0
CString [] = Unit {0}
CString (a ∷ al) = (0 < a) × CString al

Letter-tolower : (a b : ℕ) → Letter a b → tolower a ≡ tolower b
Letter-tolower a b h = ground arith

tolower-Letter : (a b : ℕ) → tolower a ≡ tolower b → Letter a b
tolower-Letter a b e = ground arith

CaseVariant-stricmp_eq : (a b : Text) → CaseVariant a b → stricmp_eq a b ≡ true
unfolding stricmp_eq
CaseVariant-stricmp_eq [] [] h = refl
CaseVariant-stricmp_eq (a ∷ al) (b ∷ bl) h =
    let same = Letter-tolower a b h.0 in let rest = CaseVariant-stricmp_eq al bl h.1 in ground arith
CaseVariant-stricmp_eq [] (b ∷ bl) h = absurd h
CaseVariant-stricmp_eq (a ∷ al) [] h = absurd h

stricmp_eq-CaseVariant :
    (a b : Text) → CString a → CString b → stricmp_eq a b ≡ true → CaseVariant a b
unfolding stricmp_eq
stricmp_eq-CaseVariant [] [] p q e = tt
stricmp_eq-CaseVariant [] (b ∷ bl) p q e = ground arith
stricmp_eq-CaseVariant (a ∷ al) [] p q e = ground arith
stricmp_eq-CaseVariant (a ∷ al) (b ∷ bl) p q e =
    let same : tolower a ≡ tolower b = ground arith in
    (tolower-Letter a b same, stricmp_eq-CaseVariant al bl p.1 q.1 (ground arith))

-- No reference counter of an open adapter is about to overflow.
abbrev pub Countable : World → Type 0
Countable w =
    (a : ℕ) (ad : Adapter)
    → elem a w.adapter_list ≡ true
    → w.adapters a ≡ some ad
    → ad.reference_counter + 1 < uintptr_mod

-- The memory that the opening may get is not in use.
abbrev pub FreshMemory : World → Option ℕ → Type 0
FreshMemory w memory = (m : ℕ) → memory ≡ some m → w.adapters m ≡ none

module _ (case : AsciiCase) (w : World) (h : WellFormed case w) where
  -- A new adapter is put at the end of the list, without devices.
  pub append_adapter-WellFormed :
      (a : ℕ) (name : Text) (proxy : ℕ)
      → w.adapters a ≡ none
      → WellFormed case (record w {
        adapter_list = w.adapter_list ++ a ∷ [];
        adapters = update w.adapters a (some (new_adapter name proxy));
      })
  append_adapter-WellFormed a name proxy fresh = record {
    distinct = Distinct-snoc a w.adapter_list unlisted h.distinct;
    adapter_stored = λ x m. elim (Bool-cases (x == a)) [
      | inl hit ↦ (new_adapter name proxy, rw hit refl)
      | inr miss ↦
          let (ad, e) = h.adapter_stored x (ground (arith, elem-snoc x a w.adapter_list)) in
          (ad, rw miss e)
    ];
    adapter_ok = λ x ad m e. elim (Bool-cases (x == a)) [
      | inl hit ↦ let is_new : new_adapter name proxy ≡ ad = ground arith in rw (← is_new) new_ok
      | inr miss ↦ h.adapter_ok x ad (ground (arith, elem-snoc x a w.adapter_list)) (ground arith)
    ];
    device_stored =
        λ x ad m e d md. let (mx, ex) = older x ad d m e md in h.device_stored x ad mx ex d md;
    device_ok = λ x ad d dev m e md ed.
        let (mx, ex) = older x ad d m e md in h.device_ok x ad d dev mx ex md ed;
    unique = λ x ad d dev y eev m e md ed my ey same.
        let (mx, ex) = older x ad d m e md in h.unique x ad d dev y eev mx ex md ed my ey same;
  }
    where
      unlisted : elem a w.adapter_list ≡ false
      unlisted = elim (Bool-cases (elem a w.adapter_list)) [
        | inl m ↦ let (ad, e) = h.adapter_stored a m in cc
        | inr e ↦ e
      ]

      new_ok : AdapterOk (new_adapter name proxy)
      new_ok = record { held = omega arith; counter_fits = omega arith; distinct = tt }

      older :
          (x : ℕ) (ad : Adapter) (d : ℕ)
          → elem x (w.adapter_list ++ a ∷ []) ≡ true
          → update w.adapters a (some (new_adapter name proxy)) x ≡ some ad
          → elem d ad.devices ≡ true
          → (elem x w.adapter_list ≡ true) × (w.adapters x ≡ some ad)
      older x ad d m e md = elim (Bool-cases (x == a)) [
        | inr miss ↦ (ground (arith, elem-snoc x a w.adapter_list), ground arith)
        | inl hit ↦
            let is_new : new_adapter name proxy ≡ ad = ground arith in
            let none_listed : false ≡ true = ap (λ (v : Adapter). elem d v.devices) is_new ∙ md in
            cc
      ]

  counted :
      (a : ℕ) (ad : Adapter)
      → elem a w.adapter_list ≡ true
      → w.adapters a ≡ some ad
      → ad.reference_counter + 1 < uintptr_mod
      → WellFormed case
          (write_adapter a (record ad { reference_counter = incr ad.reference_counter }) w)
  counted a ad m e small =
      let ok = h.adapter_ok a ad m e in
      write_adapter-WellFormed case w a ad _ h e (λ d md. md)
        (record { held = ground arith; counter_fits = ground arith; distinct = ok.distinct })

  -- The first critical section never faults and keeps the world well-formed, where no reference counter
  -- is about to overflow.
  pub adapter_reopen-WellFormed :
      (name : Text)
      → Countable w
      → (found : Option ℕ) × (w' : World) × (adapter_reopen name w ≡ some (found, w'))
        × WellFormed case w'
  unfolding adapter_reopen adapter_ref adapter_from_id
  adapter_reopen-WellFormed name room =
      elim (find_adapter_cases w.adapter_list (adapter_path name) w h.adapter_stored) [
        | inl (e, others) ↦ (none, w, rw e refl, h)
        | inr k ↦ (
          some k.address,
          write_adapter k.address
              (record k.adapter { reference_counter = incr k.adapter.reference_counter }) w,
          rw (k.found, k.stored) refl,
          counted k.address k.adapter k.listed k.stored
              (room k.address k.adapter k.listed k.stored),
        )
      ]

  -- The second one keeps the world well-formed, where the memory that the call gets is not in use.
  pub register_adapter-WellFormed :
      (name : Text) (proxy : ℕ) (memory : Option ℕ)
      → FreshMemory w memory
      → WellFormed case (register_adapter name proxy memory w).2
  register_adapter-WellFormed name proxy none fresh = h
  register_adapter-WellFormed name proxy (some a) fresh =
      append_adapter-WellFormed a name proxy (fresh a refl)

  -- An adapter that is open already is found again, whatever the case of its name: where an adapter on
  -- the list has the object path of the name but for the case of its letters, the call answers such an
  -- adapter, which gets one more reference; D-Bus is not asked, and giving the reference back restores
  -- it as it was. The world is well-formed, its paths and the name are C strings, and no reference
  -- counter is about to overflow.
  pub open_again :
      (name : Option Text) (reply : OpenReply) (x : ℕ) (xd : Adapter)
      → Countable w
      → ((a : ℕ) (ad : Adapter)
          → elem a w.adapter_list ≡ true
          → w.adapters a ≡ some ad
          → CString ad.id)
      → CString (adapter_path (name_or_default name))
      → elem x w.adapter_list ≡ true
      → w.adapters x ≡ some xd
      → CaseVariant xd.id (adapter_path (name_or_default name))
      → (a : ℕ) × (ad : Adapter) × (w1 : World) × (w2 : World) × (elem a w.adapter_list ≡ true)
        × (w.adapters a ≡ some ad)
        × CaseVariant ad.id (adapter_path (name_or_default name))
        × (adapter_open name true reply w ≡ some (success, some a, w1))
        × (w1.effects ≡ w.effects)
        × WellFormed case w1
        × (w1.adapters a ≡ some (record ad { reference_counter = ad.reference_counter + 1 }))
        × (adapter_unref a w1 ≡ some (success, w2))
        × (w2.adapters a ≡ some ad)
  unfolding adapter_open adapter_reopen adapter_ref adapter_from_id
  open_again name reply x xd room strings path listed stored variant =
      elim (find_adapter_cases w.adapter_list (adapter_path (name_or_default name)) w
        h.adapter_stored) [
          | inl (e, others) ↦
              let hit =
                CaseVariant-stricmp_eq xd.id (adapter_path (name_or_default name)) variant in
              let miss = others x xd listed stored in cc
          | inr k ↦ again k
        ]
    where
      again :
          (k : Known w.adapter_list (adapter_path (name_or_default name)) w)
          → (a : ℕ) × (ad : Adapter) × (w1 : World) × (w2 : World) × (elem a w.adapter_list ≡ true)
            × (w.adapters a ≡ some ad)
            × CaseVariant ad.id (adapter_path (name_or_default name))
            × (adapter_open name true reply w ≡ some (success, some a, w1))
            × (w1.effects ≡ w.effects)
            × WellFormed case w1
            × (w1.adapters a ≡ some (record ad { reference_counter = ad.reference_counter + 1 }))
            × (adapter_unref a w1 ≡ some (success, w2))
            × (w2.adapters a ≡ some ad)
      again k =
          let small = room k.address k.adapter k.listed k.stored in
          let more = record k.adapter { reference_counter = incr k.adapter.reference_counter } in
          let w1 = write_adapter k.address more w in
          let h1 = counted k.address k.adapter k.listed k.stored small in
          let ok = h.adapter_ok k.address k.adapter k.listed k.stored in
          let held = ok.held in
          let here = update_self w.adapters k.address (some more) in
          let up : incr k.adapter.reference_counter ≡ k.adapter.reference_counter + 1 =
            ground arith in
          let (w2, e, h2, back, l) =
            adapter_unref_counts case w1 h1 k.address more k.listed here (ground arith) in
          let same : decr (incr k.adapter.reference_counter) ≡ k.adapter.reference_counter =
            ground arith in
          (
            k.address,
            k.adapter,
            w1,
            w2,
            k.listed,
            k.stored,
            stricmp_eq-CaseVariant k.adapter.id (adapter_path (name_or_default name))
                (strings k.address k.adapter k.listed k.stored) path k.matches,
            rw (k.found, k.stored) refl,
            refl,
            h1,
            here ∙ ap (λ n. some (record k.adapter { reference_counter = n })) up,
            e,
            back ∙ ap (λ n. some (record k.adapter { reference_counter = n })) same,
          )
