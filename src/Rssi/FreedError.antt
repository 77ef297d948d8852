-- ===== src/Rssi/FreedError.antt =====
-- An error of D-Bus in `get_bluez_device_from_mac` of dbus/gattlib.c.
use gattlibcpp.Base.{ℕ, ◌≡◌, refl, true, none, some, elem}
use gattlibcpp.DbusError.{GError}
use gattlibcpp.World.{Text, Adapter, World}
use gattlibcpp.ObjectPath.{get_device_path_from_mac_with_adapter, object_path_size_max}
use gattlibcpp.Device.{adapter_is_valid}
use gattlibcpp.Rssi.{RssiBus, get_bluez_device_from_mac, get_rssi_from_mac}

-- On an open adapter with a proxy, a D-Bus error while the device's proxy is made faults the call for
-- the signal strength by MAC address: the error is read after it was freed.
pub get_rssi_from_mac-stale :
    (a : ℕ) (mac path : Text) (bus : RssiBus) (w : World) (ad : Adapter) (proxy : ℕ) (e : GError)
    → elem a w.adapter_list ≡ true
    → w.adapters a ≡ some ad
    → ad.adapter_proxy ≡ some proxy
    → get_device_path_from_mac_with_adapter (bus.adapter_path proxy) mac object_path_size_max
      ≡ some path
    → bus.open_error path ≡ some e
    → get_rssi_from_mac a (some mac) true bus w ≡ none
unfolding get_rssi_from_mac get_bluez_device_from_mac adapter_is_valid
get_rssi_from_mac-stale a mac path bus w ad proxy e ma ea ep hp he = rw (ma, ea, ep, hp, he) refl
