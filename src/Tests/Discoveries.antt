-- ===== src/Tests/Discoveries.antt =====
-- The theorems on the discovery and on the signal strength, applied to sample objects.
use gattlibcpp.Base.{
  ℕ, ◌+◌, ◌-◌, ◌*◌, ◌≡◌, refl, sym, ap, ◌∙◌, inl, inr, true, false, ◌&&◌, ◌||◌, Option, none, some,
  List, [], ◌∷◌, ◌==◌, ltb, leb, if◌then◌else◌, length, Bool-cases, arith,
}
use mathlib.Core.Option.{some-injective}
use gattlibcpp.World.{Text, codes, connected, Device, World, write_device}
use gattlibcpp.World.Codes.{success}
use gattlibcpp.Uuid.{same_bytes, parsed, bt_uuid16}
use gattlibcpp.Device.Invariant.{WellFormed}
use gattlibcpp.Validity.Place.{Place}
use gattlibcpp.Handler.Register.{write_place-WellFormed}
use gattlibcpp.Connection.{with_backend}
use gattlibcpp.Connection.Safe.{Place-write}
use gattlibcpp.Characteristic.{Bus}
use gattlibcpp.Discovery.{PrimaryService, ServiceProxy, ServiceBus, array_of, discover_primary}
use gattlibcpp.Discovery.Handles.{Regular, Ordered, discover_primary-Ordered}
use gattlibcpp.Discovery.Characteristics.{
  GattCharacteristic, FlaggedProxy, Opened, opened, failed_open, last_handle, discover_char_range,
}
use gattlibcpp.Discovery.Range.{Complete, Fits, wanted, discover_char_range-Fits}
use gattlibcpp.Tests.{ascii, sample, sample_id, sample_device, sample-WellFormed, sample_place}

abbrev linked_device : Device
linked_device =
    with_backend
      (record (sample_device connected).connection.backend {
        device = some 12;
        device_object_path = some sample_id;
        dbus_objects = 20 ∷ 21 ∷ 22 ∷ [];
      })
      (sample_device connected)

-- The device 5 is connected, with a service, a characteristic and a battery.
abbrev pub linked : World
linked = write_device 5 linked_device (sample connected)

linked-WellFormed : WellFormed ascii linked
linked-WellFormed =
    write_place-WellFormed ascii (sample connected) (sample-WellFormed connected (λ e. cc)) 5
      (sample_place connected) linked_device refl refl (λ e. cc) refl

abbrev linked_place : Place 5 linked
linked_place = Place-write 5 (sample connected) linked_device (sample_place connected)

-- `sscanf("%x")` of lower-case digits: the number of the digits in front, none where there is none.
hex_digits : Text → ℕ → ℕ
hex_digits [] n = n
hex_digits (d ∷ ds) n =
    let rest = hex_digits ds in
    if leb 48 d && ltb d 58
    then rest (n * 16 + (d - 48))
    else if leb 97 d && ltb d 103
    then rest (n * 16 + (d - 87))
    else n

abbrev hex_value : Text → Option ℕ
unfolding hex_digits
hex_value [] = none
hex_value (d ∷ ds) =
    if (leb 48 d && ltb d 58) || (leb 97 d && ltb d 103) then some (hex_digits (d ∷ ds) 0) else none

-- The service 20, its characteristic 21, the battery 22; the others are the adapter.
abbrev path_of : ℕ → Text
path_of o =
    if o == 20
    then codes "/org/bluez/hci0/dev_01_02/service0024"
    else if o == 21
    then codes "/org/bluez/hci0/dev_01_02/service0024/char0025"
    else codes "/org/bluez/hci0"

abbrev sample_bus : Bus
sample_bus = record {
  manager = some 7;
  is_characteristic = λ o. o == 21;
  characteristic = λ o. none;
  is_battery = λ o. o == 22;
  battery = λ o. none;
  path = path_of;
  parse = λ t. parsed (bt_uuid16 6159);
  scan_hex = hex_value;
}

abbrev sample_service : ServiceProxy
sample_service = record {
  object = 30;
  device = some sample_id;
  primary = true;
  uuid = some (codes "0000180f-0000-1000-8000-00805f9b34fb");
}

abbrev sample_services : ServiceBus
sample_services = record {
  is_service = λ o. o == 20;
  service = λ o. some sample_service;
  uuid_count = some 2;
  manager_error = none;
  memory = true;
}

sample-Regular : Regular sample_bus sample_services
unfolding hex_value
sample-Regular = record {
  long_path = λ o e. elim (Bool-cases (o == 20)) [
    | inl f ↦ rw f refl
    | inr f ↦ elim (Bool-cases (o == 21)) [
      | inl g ↦ rw (f, g) refl
      | inr g ↦ let h : false ≡ true = ground (arith, e) in cc
    ]
  ];
  short_handle = λ o h e s. elim (Bool-cases (o == 20)) [
    | inl f ↦ let v : some 36 ≡ some h = rw (← s, f) refl in ground (arith, v)
    | inr f ↦ elim (Bool-cases (o == 21)) [
      | inl g ↦ let v : some 37 ≡ some h = rw (← s, f, g) refl in ground (arith, v)
      | inr g ↦ let k : false ≡ true = ground (arith, e) in cc
    ]
  ];
  has_uuid = λ o p is e f.
      let same = some-injective sample_service p e in
      let g : sample_service.uuid ≡ none = ap (λ (x : ServiceProxy). x.uuid) same ∙ f in cc;
}

discover_primary-Ordered_example :
    (found : List PrimaryService) × (w' : World) × (discover_primary
        (some 5)
        sample_bus
        sample_services
        linked
      ≡ some (success, array_of found, w'))
    × Ordered found
    × (length found ≡ 1)
unfolding same_bytes
discover_primary-Ordered_example =
    discover_primary-Ordered ascii linked linked-WellFormed 5 linked_place sample_bus
      sample_services 12 refl sample_id refl 7 refl 2 refl refl refl sample-Regular (omega arith)

abbrev sample_characteristic : FlaggedProxy
sample_characteristic = record {
  object = 31;
  service = some (path_of 20);
  flags = some (codes "read" ∷ codes "notify" ∷ []);
  uuid = some (codes "00002a19-0000-1000-8000-00805f9b34fb");
}

-- Only the object of the characteristic can be opened as one.
abbrev sample_open : ℕ → Opened
sample_open o = if o == 21 then opened sample_characteristic else failed_open true

opens_sample :
    (p : FlaggedProxy) → opened sample_characteristic ≡ opened p → sample_characteristic ≡ p
opens_sample p e = ap opened_one e
  where
    opened_one : Opened → FlaggedProxy
    opened_one (opened x) = x
    opened_one (failed_open b) = sample_characteristic

opens_at :
    (o : ℕ) (p : FlaggedProxy)
    → (o == 21) ≡ true
    → sample_open o ≡ opened p
    → opened sample_characteristic ≡ opened p
opens_at o p is e =
    let one : sample_open o ≡ opened sample_characteristic = rw is refl in sym one ∙ e

sample-Complete : Complete sample_bus sample_services sample_open
unfolding hex_value
sample-Complete = record {
  opens = λ o is. (sample_characteristic, rw is refl);
  has_service = λ o p is e f.
      let s = opens_sample p (opens_at o p is e) in
      let g : sample_characteristic.service ≡ none = ap (λ (x : FlaggedProxy). x.service) s ∙ f in
      cc;
  has_flags = λ o p is e f.
      let s = opens_sample p (opens_at o p is e) in
      let g : sample_characteristic.flags ≡ none = ap (λ (x : FlaggedProxy). x.flags) s ∙ f in cc;
  has_uuid = λ o p is e f.
      let s = opens_sample p (opens_at o p is e) in
      let g : sample_characteristic.uuid ≡ none = ap (λ (x : FlaggedProxy). x.uuid) s ∙ f in cc;
  has_handle = λ o is e.
      let at : o ≡ 21 = ground arith in
      let v : some 37 ≡ none = ap (last_handle sample_bus) (sym at) ∙ e in cc;
  has_device = λ o p is e f.
      let same = some-injective sample_service p e in
      let g : sample_service.device ≡ none = ap (λ (x : ServiceProxy). x.device) same ∙ f in cc;
}

discover_char_range-Fits_example :
    (found : List GattCharacteristic) × (w' : World) × (discover_char_range 5 10 300 sample_bus
        sample_services sample_open linked
      ≡ some (success, array_of found, w'))
    × Fits
        (wanted ascii linked linked-WellFormed 5 linked_place sample_bus sample_services sample_open
          sample-Complete sample_id refl 7 refl refl refl 10 300)
        found
discover_char_range-Fits_example =
    discover_char_range-Fits ascii linked linked-WellFormed 5 linked_place sample_bus
      sample_services sample_open sample-Complete sample_id refl 7 refl refl refl 10 300
      (omega arith)
