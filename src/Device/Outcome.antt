-- ===== src/Device/Outcome.antt =====
-- The six ways in which `gattlib_device_set_state` can end on a valid adapter.
use gattlibcpp.Base.{
  ℕ, ◌≡◌, ◌≢◌, refl, subst, inl, inr, true, false, Option, none, some, ltb, elem, if◌then◌else◌,
  Bool-cases, [], ◌∷◌, ◌++◌, remove,
}
use gattlibcpp.Glib.{AsciiCase}
use gattlibcpp.World.{
  Text, DeviceState, DeviceState-discrete, not_found, connecting, connected, disconnecting,
  disconnected, Device, Adapter, World, update, write_device, write_adapter,
}
use gattlibcpp.World.Codes.{success, out_of_memory, unexpected, adapter_close}
use gattlibcpp.Device.{
  is_not_found, decr, new_device, device_unref, add_device, remove_by_state, remove_device,
  store_state, set_state, adapter_is_valid,
}
use gattlibcpp.Device.Invariant.{WellFormed}
use gattlibcpp.Device.SetState.{
  Fresh, Ends, added, dropped, added-WellFormed, dropped-WellFormed, stored-WellFormed,
}
use gattlibcpp.Device.Lookup.{
  Listed, Unlisted, listed_cases, get_device-Listed, get_state-Listed, get_state-Unlisted,
  Unlisted-Absent,
}

is_not_found_ne : (s : DeviceState) → s ≢ not_found → is_not_found s ≡ false
is_not_found_ne not_found n = absurd (n refl)
is_not_found_ne _ n = refl

add_device-none :
    (case : AsciiCase) (a : ℕ) (id : Text) (new : DeviceState) (w : World)
    → new ≢ not_found
    → add_device case none a id new w ≡ some (out_of_memory, w)
unfolding add_device
add_device-none case a id not_found w n = absurd (n refl)
add_device-none case a id _ w n = refl

add_device-some :
    (case : AsciiCase) (d a : ℕ) (id : Text) (new : DeviceState) (w : World) (ad : Adapter)
    → new ≢ not_found
    → w.adapters a ≡ some ad
    → add_device case (some d) a id new w
      ≡ some (
        success,
        write_adapter a
            (record ad { devices = ad.devices ++ d ∷ [] })
            (write_device d (new_device case a id new) w),
      )
unfolding add_device
add_device-some case d a id not_found w ad n e = absurd (n refl)
add_device-some case d a id _ w ad n e = rw e

add_device-not_found :
    (case : AsciiCase) (fresh : Option ℕ) (a : ℕ) (id : Text) (w : World)
    → add_device case fresh a id not_found w ≡ some (success, w)
unfolding add_device
add_device-not_found case none a id w = refl
add_device-not_found case (some d) a id w = refl

remove_by_state-ne :
    (case : AsciiCase) (s : DeviceState) (a d : ℕ) (w : World)
    → s ≢ disconnected
    → remove_by_state case s a d w ≡ some (unexpected, w)
unfolding remove_by_state
remove_by_state-ne case disconnected a d w n = absurd (n refl)
remove_by_state-ne case _ a d w n = refl

pub device_unref_lem :
    (d : ℕ) (w : World) (dev : Device)
    → w.devices d ≡ some dev
    → device_unref d w
      ≡ some (
        success,
        if ltb 0 (decr dev.reference_counter)
            then write_device d (record dev { reference_counter = decr dev.reference_counter }) w
            else record w { devices = update w.devices d none },
      )
unfolding device_unref
device_unref_lem d w dev e = elim (Bool-cases (ltb 0 (decr dev.reference_counter))) [
  | inl more ↦ rw (e, more)
  | inr last ↦ rw (e, last)
]

remove_by_state-eq :
    (case : AsciiCase) (s : DeviceState) (a d : ℕ) (w : World) (dev : Device) (ad : Adapter)
    → s ≡ disconnected
    → w.devices d ≡ some dev
    → w.adapters a ≡ some ad
    → remove_by_state case s a d w
      ≡ some (
        success,
        let w' = write_adapter a (record ad { devices = remove d ad.devices }) w in
            if ltb 0 (decr dev.reference_counter)
            then write_device d (record dev { reference_counter = decr dev.reference_counter }) w'
            else record w' { devices = update w'.devices d none },
      )
unfolding remove_by_state
remove_by_state-eq case disconnected a d w dev ad e ed ea = rw ea (
    rw
      (device_unref_lem d (write_adapter a (record ad { devices = remove d ad.devices }) w) dev ed))
remove_by_state-eq case not_found a d w dev ad e ed ea = cc
remove_by_state-eq case connecting a d w dev ad e ed ea = cc
remove_by_state-eq case connected a d w dev ad e ed ea = cc
remove_by_state-eq case disconnecting a d w dev ad e ed ea = cc

module _ (case : AsciiCase) (fresh : Option ℕ) (a : ℕ) (id : Text) (new : DeviceState) (w : World)
    (h : WellFormed case w) (ma : elem a w.adapter_list ≡ true) where
  pub data Outcome (r : Option (ℕ × World)) : Type 0 where
    nothing_to_set : Unlisted case a id w → new ≡ not_found → r ≡ some (success, w) → Outcome r
    no_memory :
        Unlisted case a id w
        → new ≢ not_found
        → fresh ≡ none
        → r ≡ some (out_of_memory, w)
        → Outcome r
    adds :
        Unlisted case a id w
        → (d : ℕ) (ad : Adapter) → new ≢ not_found
        → fresh ≡ some d
        → w.adapters a ≡ some ad
        → r ≡ some (success, added case a id w h ma d new ad)
        → Outcome r
    refuses :
        (l : Listed case a id w)
        → new ≡ not_found
        → l.device.state ≢ disconnected
        → r ≡ some (unexpected, w)
        → Outcome r
    drops :
        (l : Listed case a id w)
        → new ≡ not_found
        → l.device.state ≡ disconnected
        → r ≡ some (success, dropped case a id w h ma l.address l.device l.owner)
        → Outcome r
    stores :
        (l : Listed case a id w)
        → new ≢ not_found
        → r ≡ some (success, write_device l.address (record l.device { state = new }) w)
        → Outcome r

  set_state-Unlisted :
      Unlisted case a id w → set_state case fresh a id new w ≡ add_device case fresh a id new w
  unfolding set_state
  set_state-Unlisted u = rw (ma, get_state-Unlisted case a id w h ma u)

  set_state-Listed :
      (l : Listed case a id w)
      → set_state case fresh a id new w ≡ (
          if is_not_found new
          then remove_device case (some l.address) a w
          else store_state case (some l.address) new w)
  unfolding set_state
  set_state-Listed l =
      let ok = h.device_ok a l.owner l.address l.device ma l.owner_stored l.listed l.stored in
      rw (
        ma,
        get_state-Listed case a id w h ma l,
        get_device-Listed case a id w h ma l,
        is_not_found_ne l.device.state ok.present,
      )

  pub set_state-drops :
      (l : Listed case a id w)
      → new ≡ not_found
      → l.device.state ≡ disconnected
      → set_state case fresh a id new w
        ≡ some (success, dropped case a id w h ma l.address l.device l.owner)
  unfolding remove_device
  set_state-drops l e d =
      rw (set_state-Listed l, e, l.stored)
        (remove_by_state-eq case l.device.state a l.address w l.device l.owner d l.stored
          l.owner_stored)

  removal-Outcome :
      (l : Listed case a id w) → new ≡ not_found → Outcome (set_state case fresh a id new w)
  unfolding remove_device
  removal-Outcome l e = elim (DeviceState-discrete l.device.state disconnected) [
    | yes d ↦ drops l e d (set_state-drops l e d)
    | no n ↦ refuses l e n (
        rw (set_state-Listed l, e, l.stored)
          (remove_by_state-ne case l.device.state a l.address w n))
  ]

  addition-Outcome :
      Unlisted case a id w
      → new ≢ not_found
      → (o : Option ℕ) → fresh ≡ o
      → Outcome (set_state case fresh a id new w)
  addition-Outcome u n none e =
      no_memory u n e (rw (set_state-Unlisted u, e) (add_device-none case a id new w n))
  addition-Outcome u n (some d) e =
      let (ad, ea) = h.adapter_stored a ma in
      adds u d ad n e ea (rw (set_state-Unlisted u, e) (add_device-some case d a id new w ad n ea))

  pub set_state-stores :
      (l : Listed case a id w)
      → new ≢ not_found
      → set_state case fresh a id new w
        ≡ some (success, write_device l.address (record l.device { state = new }) w)
  unfolding store_state
  set_state-stores l n = rw (set_state-Listed l, is_not_found_ne new n, l.stored)

  store-Outcome :
      (l : Listed case a id w) → new ≢ not_found → Outcome (set_state case fresh a id new w)
  store-Outcome l n = stores l n (set_state-stores l n)

  pub set_state-Outcome : Outcome (set_state case fresh a id new w)
  set_state-Outcome = elim (DeviceState-discrete new not_found) [
    | yes e ↦ elim (listed_cases case a id w h ma) [
      | inl u ↦
          nothing_to_set u e (rw (set_state-Unlisted u, e) (add_device-not_found case fresh a id w))
      | inr l ↦ removal-Outcome l e
    ]
    | no n ↦ elim (listed_cases case a id w h ma) [
      | inl u ↦ addition-Outcome u n fresh refl
      | inr l ↦ store-Outcome l n
    ]
  ]

Outcome-Ends :
    (case : AsciiCase) (fresh : Option ℕ) (a : ℕ) (id : Text) (new : DeviceState) (w : World)
    (h : WellFormed case w) (ma : elem a w.adapter_list ≡ true)
    → Fresh fresh w
    → (r : Option (ℕ × World)) → Outcome case fresh a id new w h ma r
    → Ends case r
Outcome-Ends case fresh a id new w h ma free r (nothing_to_set u n e) = (success, w, e, h)
Outcome-Ends case fresh a id new w h ma free r (no_memory u n ef e) = (out_of_memory, w, e, h)
Outcome-Ends case fresh a id new w h ma free r (adds u d ad n ef ea e) = (
  success,
  _,
  e,
  added-WellFormed case a id w h ma d new ad (subst (λ o. Fresh o w) ef free) n ea
      (Unlisted-Absent case a id w ad u ea),
)
Outcome-Ends case fresh a id new w h ma free r (refuses l n s e) = (unexpected, w, e, h)
Outcome-Ends case fresh a id new w h ma free r (drops l n s e) = (
  success,
  _,
  e,
  dropped-WellFormed case a id w h ma l.address l.device l.owner l.owner_stored l.listed l.stored,
)
Outcome-Ends case fresh a id new w h ma free r (stores l n e) = (
  success,
  _,
  e,
  stored-WellFormed case a id w h ma l.address l.device l.owner new l.owner_stored l.listed l.stored
      n,
)

-- In a well-formed world, and with memory that is not in use, `gattlib_device_set_state` never
-- touches a freed or unset object, and it leaves the world well-formed, on every branch.
pub set_state-Ends :
    (case : AsciiCase) (fresh : Option ℕ) (a : ℕ) (id : Text) (new : DeviceState) (w : World)
    → WellFormed case w
    → Fresh fresh w
    → Ends case (set_state case fresh a id new w)
unfolding set_state
set_state-Ends case fresh a id new w h free = elim (Bool-cases (adapter_is_valid a w)) [
  | inl valid ↦
      Outcome-Ends case fresh a id new w h valid free _
        (set_state-Outcome case fresh a id new w h valid)
  | inr gone ↦ (adapter_close, w, rw gone, h)
]
