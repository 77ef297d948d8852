-- ===== src/System/Cases.antt =====
-- Single steps of the library, from a well-formed world.
use gattlibcpp.Base.{
  ℕ, ◌+◌, ◌<◌, ◌≡◌, refl, sym, ◌∙◌, ap, inl, inr, Bool, true, Option, none, some, List, ◌==◌, elem,
  Bool-cases, Option-cases, ltb, arith, Holds,
}
use mathlib.Core.Option.{some-injective}
use gattlibcpp.Glib.{AsciiCase}
use gattlibcpp.World.{Adapter, World, write_device, write_adapter}
use gattlibcpp.World.Codes.{success, busy}
use gattlibcpp.Device.Invariant.{WellFormed, write_device-WellFormed, write_adapter-WellFormed}
use gattlibcpp.Device.{uintptr_mod, incr, decr, device_ref, device_unref}
use gattlibcpp.Device.SetState.{Ends}
use gattlibcpp.Validity.Place.{Place, Place-ok, valid_cases, connected_cases}
use gattlibcpp.Adapter.{adapter_ref, adapter_unref}
use gattlibcpp.Adapter.Unref.{adapter_unref_counts, adapter_unref_last}
use gattlibcpp.Handler.Register.{write_place-WellFormed}
use gattlibcpp.Connection.{with_backend, stop_connect, on_device_connect}
use gattlibcpp.Connection.Connected.{on_device_connect_lem}
use gattlibcpp.Disconnection.{on_disconnected_device, disconnect_request}
use gattlibcpp.Disconnection.Free.{on_disconnected_device_lem, on_disconnected_device_cases}
use gattlibcpp.Disconnection.Request.{disconnect_request_lem}

module _ (case : AsciiCase) where
  -- A call that ends in a well-formed world, and what it was seen to give.
  pub of_pair :
      {r : Option (ℕ × World)} (code : ℕ) (w w' : World) (n : ℕ)
      → r ≡ some (n, w)
      → WellFormed case w
      → r ≡ some (code, w')
      → WellFormed case w'
  of_pair code w w' n e h f =
      let same : w ≡ w' =
        ap (λ (p : ℕ × World). p.1) (some-injective (n, w) (code, w') (sym e ∙ f)) in
      rw (← same) h

  pub of_world :
      {r : Option World} (w w' : World)
      → r ≡ some w
      → WellFormed case w
      → r ≡ some w'
      → WellFormed case w'
  of_world w w' e h f = let same : w ≡ w' = some-injective w w' (sym e ∙ f) in rw (← same) h

  pub of_Ends :
      {r : Option (ℕ × World)} (code : ℕ) (w' : World)
      → Ends case r
      → r ≡ some (code, w')
      → WellFormed case w'
  of_Ends code w' ends f = let (n, w, e, h) = ends in of_pair code w w' n e h f

  module _ (w : World) (h : WellFormed case w) where
    -- The timeout of a connection is forgotten, on no connection address with a fault.
    pub stop_connect_lem :
        (c : ℕ) → (w' : World) × (stop_connect c w ≡ some w') × WellFormed case w'
    unfolding stop_connect
    stop_connect_lem c = elim (valid_cases case w h c) [
      | inl e ↦ (w, rw e refl, h)
      | inr (e, p) ↦
          let new =
            with_backend (record p.device.connection.backend { connection_timeout_id = 0 })
              p.device in
          (
            write_device c new w,
            rw (e, p.stored) refl,
            write_place-WellFormed case w h c p new refl refl (Place-ok case w h c p).present refl,
          )
    ]

    pub services_lem :
        (c manager : ℕ) (objects : List ℕ) (started : Bool)
        → (w' : World) × (on_device_connect case c (some manager) objects started w ≡ some w')
          × WellFormed case w'
    unfolding on_device_connect
    services_lem c manager objects started = elim (valid_cases case w h c) [
      | inl e ↦ (w, rw e refl, h)
      | inr (e, p) ↦
          let (w', f, h', place, log) =
            on_device_connect_lem case w h c p manager objects started in
          (w', f, h')
    ]

    pub disconnected_lem : (c : ℕ) → Holds (WellFormed case) (on_disconnected_device case c w)
    disconnected_lem c = elim (on_disconnected_device_cases case w c h) [
      | inl e ↦ rw e h
      | inr (inl e) ↦ rw e tt
      | inr (inr (p, live)) ↦
          let (w', f, h', signalled, log, place) = on_disconnected_device_lem case w c h p live in
          rw f h'
    ]

    pub request-WellFormed :
        (c code : ℕ) (w' : World)
        → disconnect_request case (some c) w ≡ some (code, w')
        → WellFormed case w'
    unfolding disconnect_request
    request-WellFormed c code w' f = elim (connected_cases case w h c) [
      | inr (p, e, s) ↦
          let (w1, g, h1, place) = disconnect_request_lem case w h c p s in
          of_pair code w1 w' success g h1 f
      | inl e ↦ elim (Option-cases (w.devices c)) [
        | inl gone ↦ let g : disconnect_request case (some c) w ≡ none = rw (e, gone) refl in cc
        | inr (dev, there) ↦ of_pair code w w' busy (rw (e, there) refl) h f
      ]
    ]

    pub unref-WellFormed :
        (a code : ℕ) (ad : Adapter) (w' : World)
        → elem a w.adapter_list ≡ true
        → w.adapters a ≡ some ad
        → adapter_unref a w ≡ some (code, w')
        → WellFormed case w'
    unref-WellFormed a code ad w' m e f =
        let held = (h.adapter_ok a ad m e).held in
        elim (Bool-cases (ad.reference_counter == 1)) [
          | inl one ↦
              let (w1, g, h1, gone, l, freed) =
                adapter_unref_last case w h a ad m e (ground arith) in
              of_pair code w1 w' success g h1 f
          | inr more ↦
              let (w1, g, h1, there, l) = adapter_unref_counts case w h a ad m e (ground arith) in
              of_pair code w1 w' success g h1 f
        ]

    abbrev recounted : (c : ℕ) → Place c w → ℕ → World
    recounted c p n = write_device c (record p.device { reference_counter = n }) w

    recounted-WellFormed :
        (c : ℕ) (p : Place c w) (n : ℕ)
        → 0 < n
        → n < uintptr_mod
        → WellFormed case (recounted c p n)
    recounted-WellFormed c p n held fits =
        write_device-WellFormed case w c p.device _ h p.stored refl refl
          (Place-ok case w h c p).present held fits

    pub device_ref-WellFormed :
        (c code : ℕ) (p : Place c w) (w' : World)
        → p.device.reference_counter + 1 < uintptr_mod
        → device_ref c w ≡ some (code, w')
        → WellFormed case w'
    unfolding device_ref
    device_ref-WellFormed c code p w' room e =
        of_pair code (recounted c p (incr p.device.reference_counter)) w' success (rw p.stored refl)
          (recounted-WellFormed c p (incr p.device.reference_counter) (ground arith) (ground arith))
          e

    pub device_unref-WellFormed :
        (c code : ℕ) (p : Place c w) (w' : World)
        → 1 < p.device.reference_counter
        → device_unref c w ≡ some (code, w')
        → WellFormed case w'
    unfolding device_unref
    device_unref-WellFormed c code p w' more e =
        let fits = (Place-ok case w h c p).counter_fits in
        let left : ltb 0 (decr p.device.reference_counter) ≡ true = ground arith in
        of_pair code (recounted c p (decr p.device.reference_counter)) w' success
          (rw (p.stored, left) refl)
          (recounted-WellFormed c p (decr p.device.reference_counter) (ground arith) (ground arith))
          e

    pub adapter_ref-WellFormed :
        (a code : ℕ) (ad : Adapter) (w' : World)
        → elem a w.adapter_list ≡ true
        → w.adapters a ≡ some ad
        → ad.reference_counter + 1 < uintptr_mod
        → adapter_ref a w ≡ some (code, w')
        → WellFormed case w'
    unfolding adapter_ref
    adapter_ref-WellFormed a code ad w' m e room f =
        let ok = h.adapter_ok a ad m e in
        of_pair code
          (write_adapter a (record ad { reference_counter = incr ad.reference_counter }) w) w'
          success (rw e refl)
          (write_adapter-WellFormed case w a ad _ h e (λ d l. l)
            (record { held = ground arith; counter_fits = ground arith; distinct = ok.distinct }))
          f
