-- ===== src/Device/Lookup.antt =====
-- The state that `gattlib_device_get_state` answers in a well-formed world.
use gattlibcpp.Base.{ℕ, ◌≡◌, ◌⊎◌, inl, inr, true, none, some, elem, arith}
use gattlibcpp.Glib.{AsciiCase}
use gattlibcpp.World.{Text, not_found, Device, Adapter, World}
use gattlibcpp.Device.{get_device, get_state}
use gattlibcpp.Device.Find.{Absent, find_device_cases}
use gattlibcpp.Device.Invariant.{WellFormed}

module _ (case : AsciiCase) where
  -- The adapter lists a device with this id.
  pub record Listed (a : ℕ) (id : Text) (w : World) : Type 0 where
    pub owner : Adapter
    pub address : ℕ
    pub device : Device
    pub owner_stored : w.adapters a ≡ some owner
    pub listed : elem address owner.devices ≡ true
    pub stored : w.devices address ≡ some device
    pub matches : case.same device.device_id id ≡ true

  abbrev pub Unlisted : ℕ → Text → World → Type 0
  Unlisted a id w = (ad : Adapter) × (w.adapters a ≡ some ad) × Absent case ad.devices id w

  pub get_device-Listed :
      (a : ℕ) (id : Text) (w : World)
      → WellFormed case w
      → elem a w.adapter_list ≡ true
      → (l : Listed a id w) → get_device case a id w ≡ some (some l.address)
  unfolding get_device
  get_device-Listed a id w h ma l =
      elim (find_device_cases case l.owner.devices id w
        (h.device_stored a l.owner ma l.owner_stored)) [
          | inl (_, absent) ↦
              let miss = absent l.address l.device l.listed l.stored in let hit = l.matches in cc
          | inr f ↦
              let same =
                case.same_trans f.device.device_id id l.device.device_id f.matches
                  (case.same_sym l.device.device_id id l.matches) in
              let e =
                h.unique a l.owner f.address f.device l.address l.device ma l.owner_stored f.listed
                  f.stored l.listed l.stored same in
              rw (l.owner_stored, f.found, e)
        ]

  pub get_device-Unlisted :
      (a : ℕ) (id : Text) (w : World)
      → WellFormed case w
      → elem a w.adapter_list ≡ true
      → Unlisted a id w
      → get_device case a id w ≡ some none
  unfolding get_device
  get_device-Unlisted a id w h ma (ad, ea, absent) =
      elim (find_device_cases case ad.devices id w (h.device_stored a ad ma ea)) [
        | inl (e, _) ↦ rw (ea, e)
        | inr f ↦
            let miss = absent f.address f.device f.listed f.stored in let hit = f.matches in cc
      ]

  pub listed_cases :
      (a : ℕ) (id : Text) (w : World)
      → WellFormed case w
      → elem a w.adapter_list ≡ true
      → Unlisted a id w ⊎ Listed a id w
  listed_cases a id w h ma =
      let (ad, ea) = h.adapter_stored a ma in
      elim (find_device_cases case ad.devices id w (h.device_stored a ad ma ea)) [
        | inl (_, absent) ↦ inl (ad, ea, absent)
        | inr f ↦ inr (record {
          owner = ad;
          address = f.address;
          device = f.device;
          owner_stored = ea;
          listed = f.listed;
          stored = f.stored;
          matches = f.matches;
        })
      ]

  pub get_state-Listed :
      (a : ℕ) (id : Text) (w : World)
      → WellFormed case w
      → elem a w.adapter_list ≡ true
      → (l : Listed a id w) → get_state case a id w ≡ some l.device.state
  unfolding get_state
  get_state-Listed a id w h ma l = rw (get_device-Listed a id w h ma l, l.stored)

  pub get_state-Unlisted :
      (a : ℕ) (id : Text) (w : World)
      → WellFormed case w
      → elem a w.adapter_list ≡ true
      → Unlisted a id w
      → get_state case a id w ≡ some not_found
  unfolding get_state
  get_state-Unlisted a id w h ma u = rw (get_device-Unlisted a id w h ma u)

  pub Unlisted-Absent :
      (a : ℕ) (id : Text) (w : World) (ad : Adapter)
      → Unlisted a id w
      → w.adapters a ≡ some ad
      → Absent case ad.devices id w
  Unlisted-Absent a id w ad (other, eo, absent) ea =
      let e : other ≡ ad = ground arith in rw (← e) absent
