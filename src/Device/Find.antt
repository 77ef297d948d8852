-- ===== src/Device/Find.antt =====
-- What the search for a device by its id finds (`_find_device_with_device_id`).
use gattlibcpp.Base.{
  ℕ, ◌≡◌, refl, ◌⊎◌, inl, inr, Bool, true, false, if◌then◌else◌, none, some, List, [], ◌∷◌, elem,
  Bool-cases, ==_refl, ==_iff, arith,
}
use gattlibcpp.Glib.{AsciiCase}
use gattlibcpp.World.{Text, Device, World}
use gattlibcpp.Device.{find_device, devices_are_disconnected, is_disconnected}

-- Every listed device is in memory.
abbrev pub Stored : List ℕ → World → Type 0
Stored ds w = (d : ℕ) → elem d ds ≡ true → (dev : Device) × (w.devices d ≡ some dev)

pub Stored-head :
    (d : ℕ) (ds : List ℕ) (w : World)
    → Stored (d ∷ ds) w
    → (dev : Device) × (w.devices d ≡ some dev)
Stored-head d ds w h = h d (ground (arith, ==_refl d))

pub Stored-tail : (d : ℕ) (ds : List ℕ) (w : World) → Stored (d ∷ ds) w → Stored ds w
Stored-tail d ds w h e m = h e (ground arith)

module _ (case : AsciiCase) where
  -- No listed device has the id.
  abbrev pub Absent : List ℕ → Text → World → Type 0
  Absent ds id w =
      (d : ℕ) (dev : Device)
      → elem d ds ≡ true
      → w.devices d ≡ some dev
      → case.same dev.device_id id ≡ false

  pub record Found (ds : List ℕ) (id : Text) (w : World) : Type 0 where
    pub address : ℕ
    pub device : Device
    pub found : find_device case ds id w ≡ some (some address)
    pub listed : elem address ds ≡ true
    pub stored : w.devices address ≡ some device
    pub matches : case.same device.device_id id ≡ true

  find_hit :
      (d : ℕ) (ds : List ℕ) (id : Text) (w : World) (dev : Device)
      → w.devices d ≡ some dev
      → case.same dev.device_id id ≡ true
      → Found (d ∷ ds) id w
  unfolding find_device
  find_hit d ds id w dev e hit = record {
    address = d;
    device = dev;
    found = rw (e, hit);
    listed = ground (arith, ==_refl d);
    stored = e;
    matches = hit;
  }

  find_miss :
      (d : ℕ) (ds : List ℕ) (id : Text) (w : World) (dev : Device)
      → w.devices d ≡ some dev
      → case.same dev.device_id id ≡ false
      → ((find_device case ds id w ≡ some none) × Absent ds id w) ⊎ Found ds id w
      → ((find_device case (d ∷ ds) id w ≡ some none) × Absent (d ∷ ds) id w) ⊎ Found (d ∷ ds) id w
  unfolding find_device
  find_miss d ds id w dev e miss (inl (none_found, absent)) =
      inl (rw (e, miss) none_found, λ x xd m ex. ground (arith, absent x xd, ==_iff x d))
  find_miss d ds id w dev e miss (inr f) = inr (record {
    address = f.address;
    device = f.device;
    found = rw (e, miss) f.found;
    listed = ground (arith, f.listed);
    stored = f.stored;
    matches = f.matches;
  })

  -- The search never faults on listed devices: it finds none that matches, or one that does.
  pub find_device_cases :
      (ds : List ℕ) (id : Text) (w : World)
      → Stored ds w
      → ((find_device case ds id w ≡ some none) × Absent ds id w) ⊎ Found ds id w
  unfolding find_device
  find_device_cases [] id w h = inl (refl, λ d dev m e. cc)
  find_device_cases (d ∷ ds) id w h =
      let rest = find_device_cases ds id w (Stored-tail d ds w h) in
      let (dev, e) = Stored-head d ds w h in
      elim (Bool-cases (case.same dev.device_id id)) [
        | inl hit ↦ inr (find_hit d ds id w dev e hit)
        | inr miss ↦ find_miss d ds id w dev e miss rest
      ]

-- The loop over the devices answers for all of them.
pub devices_are_disconnected_lem :
    (ds : List ℕ) (w : World)
    → devices_are_disconnected ds w ≡ some true
    → (d : ℕ) (dev : Device) → elem d ds ≡ true
    → w.devices d ≡ some dev
    → is_disconnected dev.state ≡ true
unfolding devices_are_disconnected
devices_are_disconnected_lem [] w h d dev m e = cc
devices_are_disconnected_lem (x ∷ ds) w h d dev m e =
    let rest = λ (p : devices_are_disconnected ds w ≡ some true) (m' : elem d ds ≡ true).
      devices_are_disconnected_lem ds w p d dev m' e in
    ground (arith, rest, ==_iff d x)

-- The answer depends on the devices only.
pub devices_are_disconnected_same :
    (ds : List ℕ) (w w' : World)
    → w'.devices ≡ w.devices
    → devices_are_disconnected ds w' ≡ devices_are_disconnected ds w
unfolding devices_are_disconnected
devices_are_disconnected_same [] w w' e = refl
devices_are_disconnected_same (d ∷ ds) w w' e = rw (devices_are_disconnected_same ds w w' e, e) refl

-- Over devices in memory the loop ends without a fault.
pub devices_are_disconnected-Stored :
    (ds : List ℕ) (w : World) → Stored ds w → (b : Bool) × (devices_are_disconnected ds w ≡ some b)
unfolding devices_are_disconnected
devices_are_disconnected-Stored [] w h = (true, refl)
devices_are_disconnected-Stored (d ∷ ds) w h =
    let (dev, e) = Stored-head d ds w h in
    let (b, f) = devices_are_disconnected-Stored ds w (Stored-tail d ds w h) in
    (if is_disconnected dev.state then b else false, rw (e, f) refl)
