-- ===== src/Eddystone/Told.antt =====
-- What an Eddystone scan tells the application (common/gattlib_eddystone.c).
use gattlibcpp.Base.{ℕ, ◌≡◌, true, Option, none, some, List, map, length, elem}
use gattlibcpp.World.{Text, Adapter, World}
use gattlibcpp.ObjectPath.{get_device_path_from_mac_with_adapter, object_path_size_max}
use gattlibcpp.Rssi.{RssiBus}
use gattlibcpp.Advertisement.{AdvertisementBus, Advertised}
use gattlibcpp.Advertisement.Bytes.{entry}

-- An open adapter with a proxy, over which D-Bus gives a proxy of the device with an address.
pub record Found (a : ℕ) (addr : Text) (bus : RssiBus) (w : World) : Type 0 where
  pub adapter : Adapter
  pub listed : elem a w.adapter_list ≡ true
  pub stored : w.adapters a ≡ some adapter
  pub proxy : ℕ
  pub has_proxy : adapter.adapter_proxy ≡ some proxy
  pub path : Text
  pub has_path :
      get_device_path_from_mac_with_adapter (bus.adapter_path proxy) addr object_path_size_max
      ≡ some path
  pub no_error : bus.open_error path ≡ none
  pub device : ℕ
  pub opened : bus.open_device path ≡ some device

abbrev pub services_only : AdvertisementBus → List (Text × Option (List ℕ)) → Advertised
services_only bus ss = record {
  advertisement_data = some (some (map (entry bus) ss));
  advertisement_data_count = some (length ss);
  manufacturer_data = some none;
  manufacturer_data_count = some 0;
}
