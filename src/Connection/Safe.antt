-- ===== src/Connection/Safe.antt =====
-- A device in its place can be rewritten and given a state; the place stays.
use gattlibcpp.Base.{
  ℕ, ◌≡◌, ◌≢◌, refl, sym, ◌∙◌, subst, Option, none, some, List, [], ◌∷◌, ◌==◌, if◌then◌else◌,
  ==_refl,
}
use gattlibcpp.Glib.{AsciiCase}
use gattlibcpp.World.{
  DeviceState, not_found, Device, ConnectionBackend, Effect, source_remove, World, update,
  write_device,
}
use gattlibcpp.World.Codes.{success}
use gattlibcpp.Device.{set_state}
use gattlibcpp.Device.Invariant.{WellFormed}
use gattlibcpp.Device.Lookup.{Listed}
use gattlibcpp.Device.Outcome.{set_state-stores}
use gattlibcpp.Validity.Place.{Place, Place-ok}
use gattlibcpp.Handler.Register.{write_place-WellFormed}

pub update_self {ℓ} : {A : Type ℓ} (f : ℕ → Option A) (c : ℕ) (v : Option A) → update f c v c ≡ v
update_self f c v = rw (==_refl c)

abbrev pub Place-write :
    (c : ℕ) (w : World) (new : Device) → Place c w → Place c (write_device c new w)
Place-write c w new p = record {
  owner = p.owner;
  adapter = p.adapter;
  device = new;
  owner_listed = p.owner_listed;
  adapter_stored = p.adapter_stored;
  listed = p.listed;
  stored = update_self w.devices c (some new);
}

module _ (case : AsciiCase) (w : World) (h : WellFormed case w) (c : ℕ) (p : Place c w) where
  abbrev pub listed_place : Listed case p.owner p.device.device_id w
  listed_place = record {
    owner = p.adapter;
    address = c;
    device = p.device;
    owner_stored = p.adapter_stored;
    listed = p.listed;
    stored = p.stored;
    matches = case.same_refl p.device.device_id;
  }

  -- A state is stored on the device itself, when its own adapter and id are named.
  pub set_state-Place :
      (fresh : Option ℕ) (new : DeviceState)
      → new ≢ not_found
      → set_state case fresh p.device.adapter p.device.device_id new w
        ≡ some (success, write_device c (record p.device { state = new }) w)
  set_state-Place fresh new real =
      subst
        (λ b.
          set_state case fresh b p.device.device_id new w
          ≡ some (success, write_device c (record p.device { state = new }) w))
        (sym (Place-ok case w h c p).owner)
        (set_state-stores case fresh p.owner p.device.device_id new w h p.owner_listed listed_place
          real)

-- The log after what is reported, the first report first.
abbrev pub happened : List Effect → List Effect → List Effect
happened [] log = log
happened (e ∷ es) log = happened es (e ∷ log)

abbrev pub timeout_reports : ConnectionBackend → List Effect
timeout_reports b =
    if b.connection_timeout_id == 0 then [] else source_remove b.connection_timeout_id ∷ []

-- Two worlds with the same objects; their effects and signals may differ.
abbrev pub Same : World → World → Type 0
Same w w' =
    (w'.adapter_list ≡ w.adapter_list) × (w'.adapters ≡ w.adapters) × (w'.devices ≡ w.devices)

pub Same-refl : (w : World) → Same w w
Same-refl w = (refl, refl, refl)

pub Same-trans : (u v w : World) → Same u v → Same v w → Same u w
Same-trans u v w s t = (t.0 ∙ s.0, t.1 ∙ s.1, t.2 ∙ s.2)

pub Same-WellFormed :
    (case : AsciiCase) (w w' : World) → Same w w' → WellFormed case w → WellFormed case w'
Same-WellFormed case w w' s h = rw (s.0, s.1, s.2) h

pub Same-Place :
    (c : ℕ) (w w' : World) → Same w w' → (p : Place c w) → (q : Place c w') × (q.device ≡ p.device)
Same-Place c w w' s p = (
  record {
    owner = p.owner;
    adapter = p.adapter;
    device = p.device;
    owner_listed = rw s.0 p.owner_listed;
    adapter_stored = rw s.1 p.adapter_stored;
    listed = p.listed;
    stored = rw s.2 p.stored;
  },
  refl,
)

module _ (case : AsciiCase) (w : World) (h : WellFormed case w) (c : ℕ) (p : Place c w) where
  -- A rewritten device gets a state; the world stays well-formed and the device in its place.
  pub rewrite_and_set :
      (v : World) (new : Device) (s : DeviceState)
      → Same w v
      → new.device_id ≡ p.device.device_id
      → new.adapter ≡ p.device.adapter
      → new.reference_counter ≡ p.device.reference_counter
      → new.state ≢ not_found
      → s ≢ not_found
      → (w' : World) × (set_state case none new.adapter new.device_id s (write_device c new v)
          ≡ some (success, w'))
        × WellFormed case w'
        × ((q : Place c w') × (q.device ≡ record new { state = s }))
        × (w'.effects ≡ v.effects)
  rewrite_and_set v new s same id own counter present real =
      let hv = Same-WellFormed case w v same h in
      let (pv, ev) = Same-Place c w v same p in
      let u = write_device c new v in
      let pu = Place-write c v new pv in
      let hu =
        write_place-WellFormed case v hv c pv new (rw ev id) (rw ev own) present (rw ev counter) in
      (
        write_device c (record new { state = s }) u,
        set_state-Place case u hu c pu none s real,
        write_place-WellFormed case u hu c pu (record new { state = s }) refl refl real refl,
        (Place-write c u (record new { state = s }) pu, refl),
        refl,
      )
