-- ===== src/Adapter/Unref.antt =====
-- The references to an adapter, `gattlib_adapter_ref` and `gattlib_adapter_unref` of
-- dbus/gattlib_adapter.c: what the last one frees.
use gattlibcpp.Base.{
  ℕ, ◌<◌, ◌≡◌, refl, sym, ◌∙◌, ap, subst, inl, inr, true, false, Option, none, some, List, [], ◌∷◌,
  ◌==◌, if◌then◌else◌, ltb, ◌>>=◌, elem, remove, elem-remove_of, elem-remove_self, Distinct,
  Distinct-remove, Bool-cases, ==_iff, ==_refl, arith,
}
use mathlib.Core.Option.{some-injective}
use gattlibcpp.Glib.{AsciiCase}
use gattlibcpp.World.{Device, Adapter, World, update, write_device, write_adapter}
use gattlibcpp.World.Codes.{success}
use gattlibcpp.Device.{decr, is_disconnected, device_unref, devices_free}
use gattlibcpp.Device.Find.{Stored, Stored-head, Stored-tail}
use gattlibcpp.Device.Invariant.{WellFormed, free_device-WellFormed, write_adapter-WellFormed}
use gattlibcpp.Connection.Safe.{update_self}
use gattlibcpp.Adapter.{adapter_unref, unref_thread, unref_object}

module _ (case : AsciiCase) where
  -- The devices of the adapters of a list.
  abbrev Among : List ℕ → World → Type 0
  Among l w = WellFormed case (record w { adapter_list = l })

  -- No adapter of the list lists one of the devices.
  abbrev Away : List ℕ → List ℕ → World → Type 0
  Away ds l w =
      (d a : ℕ) (ad : Adapter)
      → elem d ds ≡ true
      → elem a l ≡ true
      → w.adapters a ≡ some ad
      → elem d ad.devices ≡ false

  -- A device that no adapter of the list lists may be overwritten.
  write_away :
      (w : World) (l : List ℕ) (d : ℕ) (new : Device)
      → Among l w
      → ((a : ℕ) (ad : Adapter)
          → elem a l ≡ true
          → w.adapters a ≡ some ad
          → elem d ad.devices ≡ false)
      → Among l (write_device d new w)
  write_away w l d new h away = record {
    distinct = h.distinct;
    adapter_stored = h.adapter_stored;
    adapter_ok = h.adapter_ok;
    device_stored = λ a ad m ea x mx.
        let (dev, ex) = h.device_stored a ad m ea x mx in
        (dev, ground (arith, away a ad m ea, ==_iff x d));
    device_ok = λ a ad x dev m ea mx ex.
        let far = away a ad m ea in
        h.device_ok a ad x dev m ea mx (ground (arith, far, ==_iff x d));
    unique = λ a ad x dev y eev m ea mx ex my ey same.
        let far = away a ad m ea in
        h.unique a ad x dev y eev m ea mx (ground (arith, far, ==_iff x d)) my
          (ground (arith, far, ==_iff y d)) same;
  }

  -- What is left after some devices were freed.
  abbrev Freed : List ℕ → List ℕ → World → Option World → Type 0
  Freed ds l w r =
      (w' : World) × (r ≡ some w')
      × (w'.adapter_list ≡ w.adapter_list)
      × (w'.adapters ≡ w.adapters)
      × Among l w'

  -- One device: it is freed, one reference less, or left in memory.
  free_one :
      (l : List ℕ) (d : ℕ) (ds : List ℕ) (dev : Device) (w : World)
      → Among l w
      → Away (d ∷ ds) l w
      → Stored (d ∷ ds) w
      → elem d ds ≡ false
      → w.devices d ≡ some dev
      → (w' : World) × (devices_free (d ∷ ds) w ≡ devices_free ds w')
        × (w'.adapter_list ≡ w.adapter_list)
        × (w'.adapters ≡ w.adapters)
        × Among l w'
        × Stored ds w'
  unfolding devices_free device_unref
  free_one l d ds dev w h away stored new e =
      let far = λ (a : ℕ) (ad : Adapter) (m : elem a l ≡ true) (ea : w.adapters a ≡ some ad).
        away d a ad (ground (arith, ==_refl d)) m ea in
      elim (Bool-cases (is_disconnected dev.state)) [
        | inr busy ↦ (w, rw (e, busy) refl, refl, refl, h, Stored-tail d ds w stored)
        | inl idle ↦ elim (Bool-cases (ltb 0 (decr dev.reference_counter))) [
          | inl held ↦ (
            write_device d (record dev { reference_counter = decr dev.reference_counter }) w,
            rw (e, idle, held) refl,
            refl,
            refl,
            write_away w l d _ h far,
            λ x m. let (v, ev) = stored x (ground arith) in (v, ground (arith, ==_iff x d)),
          )
          | inr last ↦ (
            record w { devices = update w.devices d none },
            rw (e, idle, last) refl,
            refl,
            refl,
            free_device-WellFormed case (record w { adapter_list = l }) d h far,
            λ x m. let (v, ev) = stored x (ground arith) in (v, ground (arith, ==_iff x d)),
          )
        ]
      ]

  devices_free_lem :
      (l ds : List ℕ) (w : World)
      → Among l w
      → Away ds l w
      → Stored ds w
      → Distinct ds
      → Freed ds l w (devices_free ds w)
  unfolding devices_free
  devices_free_lem l [] w h away stored distinct = (w, refl, refl, refl, h)
  devices_free_lem l (d ∷ ds) w h away stored distinct =
      let (dev, e) = Stored-head d ds w stored in
      let (w1, e1, l1, a1, h1, s1) = free_one l d ds dev w h away stored distinct.0 e in
      let away1 : Away ds l w1 = λ x a ad mx ma ea. away x a ad (ground arith) ma (rw (← a1) ea) in
      let (w2, e2, l2, a2, h2) = devices_free_lem l ds w1 h1 away1 s1 distinct.1 in
      (w2, e1 ∙ e2, l2 ∙ l1, a2 ∙ a1, h2)

  -- An adapter is taken off the list.
  without-WellFormed : (a : ℕ) (w : World) → WellFormed case w → Among (remove a w.adapter_list) w
  without-WellFormed a w h = record {
    distinct = Distinct-remove a w.adapter_list h.distinct;
    adapter_stored = λ x m. h.adapter_stored x (elem-remove_of x a w.adapter_list m);
    adapter_ok = λ x ad m. h.adapter_ok x ad (elem-remove_of x a w.adapter_list m);
    device_stored = λ x ad m. h.device_stored x ad (elem-remove_of x a w.adapter_list m);
    device_ok = λ x ad d dev m. h.device_ok x ad d dev (elem-remove_of x a w.adapter_list m);
    unique = λ x ad d dev y eev m. h.unique x ad d dev y eev (elem-remove_of x a w.adapter_list m);
  }

  -- The memory of an adapter that is on no list is given back.
  forget-WellFormed :
      (a : ℕ) (l : List ℕ) (w : World)
      → elem a l ≡ false
      → Among l w
      → WellFormed case (record w { adapter_list = l; adapters = update w.adapters a none })
  forget-WellFormed a l w gone h = record {
    distinct = h.distinct;
    adapter_stored = λ x m. let (ad, e) = h.adapter_stored x m in (ad, ground (arith, ==_iff x a));
    adapter_ok = λ x ad m e. h.adapter_ok x ad m (ground (arith, ==_iff x a));
    device_stored = λ x ad m e. h.device_stored x ad m (ground (arith, ==_iff x a));
    device_ok = λ x ad d dev m e. h.device_ok x ad d dev m (ground (arith, ==_iff x a));
    unique = λ x ad d dev y eev m e. h.unique x ad d dev y eev m (ground (arith, ==_iff x a));
  }

  -- The devices of an adapter are on no other list.
  own-Away :
      (a : ℕ) (ad : Adapter) (w : World)
      → WellFormed case w
      → elem a w.adapter_list ≡ true
      → w.adapters a ≡ some ad
      → Away ad.devices (remove a w.adapter_list) w
  own-Away a ad w h m e d x xd md mx ex = elim (Bool-cases (elem d xd.devices)) [
    | inr away ↦ away
    | inl here ↦
        let (dev, ed) = h.device_stored a ad m e d md in
        let mx' = elem-remove_of x a w.adapter_list mx in
        let mine = (h.device_ok a ad d dev m e md ed).owner in
        let theirs = (h.device_ok x xd d dev mx' ex here ed).owner in
        let gone = elem-remove_self a w.adapter_list h.distinct in
        let same : a ≡ x = sym mine ∙ theirs in
        let there : elem a (remove a w.adapter_list) ≡ true =
          subst (λ y. elem y (remove a w.adapter_list) ≡ true) (sym same) mx in
        cc
  ]

-- What is at the address of a disconnected device after its adapter gave its reference back.
abbrev pub after_free : Device → Option Device
after_free dev =
    if ltb 0 (decr dev.reference_counter)
    then some (record dev { reference_counter = decr dev.reference_counter })
    else none

abbrev pub AllIdle : List ℕ → World → Type 0
AllIdle ds w =
    (d : ℕ) (dev : Device)
    → elem d ds ≡ true
    → w.devices d ≡ some dev
    → is_disconnected dev.state ≡ true

-- Each of the disconnected devices loses one reference, and the other devices stay.
abbrev GivenBack : List ℕ → World → World → Type 0
GivenBack ds w w' =
    ((x : ℕ) → elem x ds ≡ false → w'.devices x ≡ w.devices x)
    × ((d : ℕ) (dev : Device)
        → elem d ds ≡ true
        → w.devices d ≡ some dev
        → w'.devices d ≡ after_free dev)

give_one :
    (d : ℕ) (ds : List ℕ) (dev : Device) (w : World)
    → w.devices d ≡ some dev
    → is_disconnected dev.state ≡ true
    → (w' : World) × (devices_free (d ∷ ds) w ≡ devices_free ds w')
      × (w'.devices ≡ update w.devices d (after_free dev))
unfolding devices_free device_unref
give_one d ds dev w e idle = elim (Bool-cases (ltb 0 (decr dev.reference_counter))) [
  | inl held ↦ (
    write_device d (record dev { reference_counter = decr dev.reference_counter }) w,
    rw (e, idle, held) refl,
    rw held refl,
  )
  | inr last ↦
      (record w { devices = update w.devices d none }, rw (e, idle, last) refl, rw last refl)
]

update_other :
    (f : ℕ → Option Device) (d x : ℕ) (v : Option Device) → (x == d) ≡ false → update f d v x ≡ f x
update_other f d x v e = rw e refl

pub devices_free-GivenBack :
    (ds : List ℕ) (w : World)
    → Stored ds w
    → Distinct ds
    → AllIdle ds w
    → (w' : World) × (devices_free ds w ≡ some w') × GivenBack ds w w'
unfolding devices_free
devices_free-GivenBack [] w stored distinct idle = (w, refl, (λ x m. refl, λ d dev m e. cc))
devices_free-GivenBack (d ∷ ds) w stored distinct idle =
    let (dev, e) = Stored-head d ds w stored in
    let (w1, e1, u1) = give_one d ds dev w e (idle d dev (ground (arith, ==_refl d)) e) in
    let away : (x : ℕ) → elem x ds ≡ true → (x == d) ≡ false =
      λ x m. let new = distinct.0 in ground (arith, ==_iff x d) in
    let same : (x : ℕ) → (x == d) ≡ false → w1.devices x ≡ w.devices x = λ x n.
      ap (λ (f : ℕ → Option Device). f x) u1 ∙ update_other w.devices d x (after_free dev) n in
    let stored1 : Stored ds w1 =
      λ x m. let (v, ev) = stored x (ground arith) in (v, same x (away x m) ∙ ev) in
    let idle1 : AllIdle ds w1 =
      λ x v m ev. idle x v (ground arith) (sym (same x (away x m)) ∙ ev) in
    let (w2, e2, (rest, each)) = devices_free-GivenBack ds w1 stored1 distinct.1 idle1 in
    let here : w1.devices d ≡ after_free dev =
      ap (λ (f : ℕ → Option Device). f d) u1 ∙ update_self w.devices d (after_free dev) in
    (
      w2,
      e1 ∙ e2,
      (
        λ x m. rest x (ground arith) ∙ same x (ground arith),
        λ x v m ev. elim (Bool-cases (x == d)) [
          | inr n ↦ each x v (ground arith) (same x n ∙ ev)
          | inl y ↦
              let at : x ≡ d = ground (arith, ==_iff x d) in
              let now = ap w2.devices at ∙ rest d distinct.0 ∙ here in
              let was = sym ev ∙ ap w.devices at ∙ e in
              now ∙ sym (ap after_free (some-injective v dev was))
        ],
      ),
    )

unref_thread-objects :
    (t : Option ℕ) (w : World)
    → ((unref_thread t w).adapter_list ≡ w.adapter_list)
      × ((unref_thread t w).adapters ≡ w.adapters)
      × ((unref_thread t w).devices ≡ w.devices)
unref_thread-objects none w = (refl, refl, refl)
unref_thread-objects (some t) w = (refl, refl, refl)

unref_object-objects :
    (o : Option ℕ) (w : World)
    → ((unref_object o w).adapter_list ≡ w.adapter_list)
      × ((unref_object o w).adapters ≡ w.adapters)
      × ((unref_object o w).devices ≡ w.devices)
unref_object-objects none w = (refl, refl, refl)
unref_object-objects (some o) w = (refl, refl, refl)

module _ (case : AsciiCase) (w : World) (h : WellFormed case w) (a : ℕ) (ad : Adapter)
    (listed : elem a w.adapter_list ≡ true) (stored : w.adapters a ≡ some ad) where
  -- The world in which the thread and the D-Bus objects of the adapter were given back.
  abbrev pub released : World
  released =
      unref_object ad.adapter_proxy
        (unref_object ad.device_manager (unref_thread ad.ble_scan.scan_loop_thread w))

  released-objects :
      (released.adapter_list ≡ w.adapter_list)
      × (released.adapters ≡ w.adapters)
      × (released.devices ≡ w.devices)
  released-objects =
      let w1 = unref_thread ad.ble_scan.scan_loop_thread w in
      let w2 = unref_object ad.device_manager w1 in
      let s1 = unref_thread-objects ad.ble_scan.scan_loop_thread w in
      let s2 = unref_object-objects ad.device_manager w1 in
      let s3 = unref_object-objects ad.adapter_proxy w2 in
      (s3.0 ∙ s2.0 ∙ s1.0, s3.1 ∙ s2.1 ∙ s1.1, s3.2 ∙ s2.2 ∙ s1.2)

  -- Giving back a reference that is not the last one only counts down.
  pub adapter_unref_counts :
      1 < ad.reference_counter
      → (w' : World) × (adapter_unref a w ≡ some (success, w'))
        × WellFormed case w'
        × (w'.adapters a ≡ some (record ad { reference_counter = decr ad.reference_counter }))
        × (w'.adapter_list ≡ w.adapter_list)
  unfolding adapter_unref
  adapter_unref_counts more =
      let ok = h.adapter_ok a ad listed stored in
      let fits = ok.counter_fits in
      let held : ltb 0 (decr ad.reference_counter) ≡ true = ground arith in
      (
        write_adapter a (record ad { reference_counter = decr ad.reference_counter }) w,
        rw (stored, held) refl,
        write_adapter-WellFormed case w a ad _ h stored (λ d m. m)
            (record { held = ground arith; counter_fits = ground arith; distinct = ok.distinct }),
        update_self w.adapters a _,
        refl,
      )

  -- The last reference closes the adapter: it is on no list any more, its memory and its devices'
  -- are given back, and what is left is well-formed.
  pub adapter_unref_last :
      ad.reference_counter ≡ 1
      → (w' : World) × (adapter_unref a w ≡ some (success, w'))
        × WellFormed case w'
        × (w'.adapters a ≡ none)
        × (w'.adapter_list ≡ remove a w.adapter_list)
        × ((w1 : World) × (devices_free ad.devices released ≡ some w1) × (w'.devices ≡ w1.devices))
  unfolding adapter_unref
  adapter_unref_last one =
      let held : ltb 0 (decr ad.reference_counter) ≡ false = ground arith in
      let (l, s, d) = released-objects in
      let rest = without-WellFormed case a w h in
      let before : Among case (remove a w.adapter_list) released = rw (s, d) rest in
      let away : Away case ad.devices (remove a w.adapter_list) released =
        λ x y yd mx my ey. own-Away case a ad w h listed stored x y yd mx my (rw (← s) ey) in
      let known : Stored ad.devices released =
        λ x m. let (dev, ed) = h.device_stored a ad listed stored x m in (dev, rw d ed) in
      let (w1, e, l1, a1, h1) =
        devices_free_lem case (remove a w.adapter_list) ad.devices released before away known
          (h.adapter_ok a ad listed stored).distinct in
      let list : remove a w1.adapter_list ≡ remove a w.adapter_list = ap (remove a) (l1 ∙ l) in
      (
        record w1 { adapter_list = remove a w1.adapter_list; adapters = update w1.adapters a none },
        closed held e,
        rw list (
            forget-WellFormed case a (remove a w.adapter_list) w1
              (elem-remove_self a w.adapter_list h.distinct) h1),
        update_self w1.adapters a none,
        list,
        (w1, e, refl),
      )
    where
      closed :
          {w1 : World}
          → ltb 0 (decr ad.reference_counter) ≡ false
          → devices_free ad.devices released ≡ some w1
          → adapter_unref a w
            ≡ some (
              success,
              record w1 {
                adapter_list = remove a w1.adapter_list;
                adapters = update w1.adapters a none;
              },
            )
      closed held e =
          let here : adapter_unref a w ≡ (do
            w' ← devices_free ad.devices released
            some (
              success,
              record w' {
                adapter_list = remove a w'.adapter_list;
                adapters = update w'.adapters a none;
              },
            )) =
            rw (stored, held) refl in
          here ∙ rw e refl

  -- The devices after the last reference.
  pub unref_last-devices :
      (w1 : World)
      → devices_free ad.devices released ≡ some w1
      → AllIdle ad.devices w
      → (d : ℕ) (dev : Device) → elem d ad.devices ≡ true
      → w.devices d ≡ some dev
      → w1.devices d ≡ after_free dev
  unref_last-devices w1 e idle d dev m ed =
      let (l, s, same) = released-objects in
      let known : Stored ad.devices released =
        λ x mx. let (v, ev) = h.device_stored a ad listed stored x mx in (v, rw same ev) in
      let idle1 : AllIdle ad.devices released = λ x v mx ex. idle x v mx (rw (← same) ex) in
      let (w2, e2, (rest, each)) =
        devices_free-GivenBack ad.devices released known (h.adapter_ok a ad listed stored).distinct
          idle1 in
      let one : w2 ≡ w1 = some-injective w2 w1 (sym e2 ∙ e) in
      ap (λ (v : World). v.devices d) (sym one) ∙ each d dev m (rw same ed)
