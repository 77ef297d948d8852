-- ===== src/Tests/Adverts.antt =====
-- The theorems on the advertised data and on the streams, applied to sample devices.
use gattlibcpp.Base.{ℕ, ◌≡◌, refl, true, none, some, Option, List, [], ◌∷◌, ◌==◌, if◌then◌else◌}
use gattlibcpp.World.{Text, codes, uuid16, connected}
use gattlibcpp.World.Codes.{success}
use gattlibcpp.Uuid.{same_bytes, parsed, string_to_uuid, bt_uuid_to_uuid, bt_uuid16, uuid_cmp}
use gattlibcpp.Validity.{connection_is_connected, connected_from}
use gattlibcpp.Adapter.{get_device_manager}
use gattlibcpp.Characteristic.{
  type_gatt, search_uuid, characteristic_from_path, get_characteristic_from_uuid,
}
use gattlibcpp.Stream.{StreamReply}
use gattlibcpp.Tests.Discoveries.{linked}
use gattlibcpp.Tests.Lives.{search_bus}
use gattlibcpp.Advertisement.{AdvertisementBus, Advertised, get_advertisement_data_from_device}
use gattlibcpp.Advertisement.Bytes.{
  Granted, get_advertisement_data_from_device-blank, get_advertisement_data_from_device-services,
}
use gattlibcpp.ObjectPath.{get_device_path_from_mac_with_adapter}
use gattlibcpp.Rssi.{RssiBus}
use gattlibcpp.Eddystone.Told.{Found}
use gattlibcpp.Tests.{sample, sample_adapter}

abbrev sample_services : List (Text × Option (List ℕ))
sample_services = (codes "180f", some (7 ∷ 8 ∷ [])) ∷ (codes "1810", none) ∷ []

-- The device 12 sends manufacturer data, the others service data.
abbrev sample_bus : AdvertisementBus
sample_bus = record {
  manufacturer_data = λ d. if d == 12 then some ((76, 1 ∷ 2 ∷ 3 ∷ []) ∷ []) else none;
  service_data = λ d. if d == 12 then none else some sample_services;
  uuids = λ d. none;
  parse = λ s. parsed (bt_uuid16 0x180F);
  get_y = λ v p m. if p == 0 then some m else none;
  manufacturer_memory = true;
  manufacturer_bytes = λ i. true;
  service_memory = true;
  service_bytes = λ i. true;
}

sample-Granted : Granted sample_bus
sample-Granted = record {
  skips_null = λ v m. refl;
  manufacturer_memory = refl;
  manufacturer_bytes = λ i. refl;
  service_memory = refl;
  service_bytes = λ i. refl;
}

get_advertisement_data_from_device-blank_example :
    (out : Advertised) × (get_advertisement_data_from_device sample_bus true 12
      ≡ some (success, out))
    × (out.manufacturer_data_count ≡ some 1)
    × (out.manufacturer_data
        ≡ some (
            some
              (record { manufacturer_id = 76; data' = some (0 ∷ 0 ∷ 0 ∷ []); data_size = 3 } ∷ [])))
get_advertisement_data_from_device-blank_example =
    get_advertisement_data_from_device-blank sample_bus sample-Granted 12
      ((76, 1 ∷ 2 ∷ 3 ∷ []) ∷ []) refl

get_advertisement_data_from_device-services_example :
    get_advertisement_data_from_device sample_bus true 13
    ≡ some (
      success,
      record {
        advertisement_data = some (
            some (
              record { uuid = uuid16 0x180F; data' = some (7 ∷ 8 ∷ []); data_length = 2 }
              ∷ record { uuid = uuid16 0x180F; data' = none; data_length = 0 }
              ∷ []));
        advertisement_data_count = some 2;
        manufacturer_data = some none;
        manufacturer_data_count = some 0;
      },
    )
unfolding string_to_uuid bt_uuid_to_uuid
get_advertisement_data_from_device-services_example =
    get_advertisement_data_from_device-services sample_bus sample-Granted 13 sample_services refl
      refl

abbrev stream_reply : StreamReply
stream_reply = record {
  acquire_error = λ p. none;
  fd_error = λ p. none;
  fd = λ p. 17;
  mtu = λ p. 185;
}

found : get_characteristic_from_uuid 5 (uuid16 9) search_bus linked ≡ some (type_gatt 31, linked)
unfolding get_characteristic_from_uuid connection_is_connected connected_from get_device_manager
    search_uuid characteristic_from_path uuid_cmp string_to_uuid bt_uuid_to_uuid same_bytes
found = refl

abbrev known_bus : RssiBus
known_bus = record {
  adapter_path = λ p. codes "/org/bluez/hci0";
  open_device = λ path. some 13;
  open_error = λ path. none;
  rssi = λ p. 0;
}

found_path :
    get_device_path_from_mac_with_adapter (codes "/org/bluez/hci0") (codes "01:02") 200
    ≡ some (codes "/org/bluez/hci0/dev_01_02")
unfolding get_device_path_from_mac_with_adapter
found_path = refl

abbrev known : Found 1 (codes "01:02") known_bus (sample connected)
known = record {
  adapter = sample_adapter;
  listed = refl;
  stored = refl;
  proxy = 8;
  has_proxy = refl;
  path = codes "/org/bluez/hci0/dev_01_02";
  has_path = found_path;
  no_error = refl;
  device = 13;
  opened = refl;
}
