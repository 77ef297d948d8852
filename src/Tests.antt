-- ===== src/Tests.antt =====
-- Sample objects, and the theorems of the library at concrete inputs.
pub mod Examples
pub mod Discoveries
pub mod Scans
pub mod Adverts
pub mod Loops
pub mod Pythons
pub mod Legacies
pub mod Lives
use gattlibcpp.Base.{
  ℕ, zero, ◌<◌, ◌≡◌, ◌≢◌, refl, sym, ◌∙◌, ap, subst, Bool, true, false, Option, none, some, List,
  [], ◌∷◌, map, if◌then◌else◌, ◌==◌, elem, Bool-cases, inl, inr, ==_iff, arith,
}
use mathlib.Core.Option.{some-injective}
use gattlibcpp.Glib.{AsciiCase}
use gattlibcpp.World.{
  Text, codes, DeviceState, not_found, connecting, connected, disconnecting, disconnected, Device,
  Adapter, World, empty_connection, empty_handler, empty_scan,
}
use gattlibcpp.Uuid.{same_bytes}
use gattlibcpp.Uuid.Expand.{same_bytes_iff}
use gattlibcpp.Device.{uintptr_mod}
use gattlibcpp.Device.Invariant.{WellFormed, DeviceOk, AdapterOk}
use gattlibcpp.Validity.{tolower}
use gattlibcpp.Validity.Place.{Place}

abbrev lowered : Text → Text
lowered s = map tolower s

-- A comparison without regard to ASCII case, as `g_ascii_strcasecmp` is documented.
abbrev pub ascii : AsciiCase
ascii = record {
  same = λ s t. same_bytes (lowered s) (lowered t);
  same_refl = λ s. (same_bytes_iff (lowered s) (lowered s)).1 refl;
  same_sym = λ s t e.
      (same_bytes_iff (lowered t) (lowered s)).1
        (sym ((same_bytes_iff (lowered s) (lowered t)).0 e));
  same_trans = λ s t u e f.
      (same_bytes_iff (lowered s) (lowered u)).1 (
        (same_bytes_iff (lowered s) (lowered t)).0 e
        ∙ (same_bytes_iff (lowered t) (lowered u)).0 f);
}

abbrev pub sample_id : Text
sample_id = codes "/org/bluez/hci0/dev_01"

-- The device 5 of the adapter 1.
abbrev pub sample_device : DeviceState → Device
sample_device s = record {
  adapter = 1;
  device_id = sample_id;
  reference_counter = 1;
  state = s;
  connection = empty_connection;
}

abbrev pub sample_adapter : Adapter
sample_adapter = record {
  id = codes "/org/bluez/hci0";
  name = codes "hci0";
  reference_counter = 1;
  devices = 5 ∷ [];
  device_manager = some 7;
  adapter_proxy = some 8;
  ble_scan = empty_scan;
  discovered_device_callback = empty_handler;
}

abbrev pub sample : DeviceState → World
sample s = record {
  adapter_list = 1 ∷ [];
  adapters = λ a. if a == 1 then some sample_adapter else none;
  devices = λ d. if d == 5 then some (sample_device s) else none;
  disconnection_signal = false;
  stop_scanning_signal = false;
  effects = [];
}

one_of : (x y : ℕ) → elem x (y ∷ []) ≡ true → x ≡ y
one_of x y m = ground (arith, ==_iff x y)

sample_adapter_ok : AdapterOk sample_adapter
sample_adapter_ok = record { held = omega arith; counter_fits = omega arith; distinct = (refl, tt) }

pub adapter_at :
    (s : DeviceState) (a : ℕ) (ad : Adapter)
    → elem a (1 ∷ []) ≡ true
    → (sample s).adapters a ≡ some ad
    → sample_adapter ≡ ad
adapter_at s a ad m e =
    some-injective sample_adapter ad (ap (sample s).adapters (sym (one_of a 1 m)) ∙ e)

device_at :
    (s : DeviceState) (d : ℕ) (dev : Device)
    → elem d (5 ∷ []) ≡ true
    → (sample s).devices d ≡ some dev
    → sample_device s ≡ dev
device_at s d dev m e =
    some-injective (sample_device s) dev (ap (sample s).devices (sym (one_of d 5 m)) ∙ e)

-- Where an adapter of the sample lists a device, it lists the device 5.
listed_at :
    (s : DeviceState) (a : ℕ) (ad : Adapter) (d : ℕ)
    → elem a (1 ∷ []) ≡ true
    → (sample s).adapters a ≡ some ad
    → elem d ad.devices ≡ true
    → d ≡ 5
listed_at s a ad d m e md =
    one_of d 5 (ap (λ (x : Adapter). elem d x.devices) (adapter_at s a ad m e) ∙ md)

sample_device_ok : (s : DeviceState) → s ≢ not_found → DeviceOk 1 (sample_device s)
sample_device_ok s n = record {
  owner = refl;
  present = n;
  held = omega arith;
  counter_fits = omega arith;
}

pub sample-WellFormed : (s : DeviceState) → s ≢ not_found → WellFormed ascii (sample s)
sample-WellFormed s n = record {
  distinct = (refl, tt);
  adapter_stored = λ a m. (sample_adapter, rw (one_of a 1 m) refl);
  adapter_ok = λ a ad m e. subst AdapterOk (adapter_at s a ad m e) sample_adapter_ok;
  device_stored =
      λ a ad m e d md. (sample_device s, ap (sample s).devices (listed_at s a ad d m e md));
  device_ok = λ a ad d dev m e md ed.
      let here = listed_at s a ad d m e md in
      let is_one = one_of a 1 m in
      let same = device_at s d dev (rw here refl) ed in
      subst (λ x. DeviceOk x dev) (sym is_one) (subst (DeviceOk 1) same (sample_device_ok s n));
  unique = λ a ad d dev x eev m e md ed mx ex same.
      listed_at s a ad d m e md ∙ sym (listed_at s a ad x m e mx);
}

abbrev pub sample_place : (s : DeviceState) → Place 5 (sample s)
sample_place s = record {
  owner = 1;
  adapter = sample_adapter;
  device = sample_device s;
  owner_listed = refl;
  adapter_stored = refl;
  listed = refl;
  stored = refl;
}
