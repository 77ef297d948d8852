-- ===== src/Rssi.antt =====
-- The signal strength of a device, by its connection and by its MAC address: `gattlib_get_rssi`,
-- `gattlib_get_rssi_from_mac` and `get_bluez_device_from_mac` of dbus/gattlib.c.
pub mod FreedError
use gattlibcpp.Base.{ℕ, ◌≡◌, Bool, true, false, Option, none, some, ◌==◌, if◌then◌else◌, ◌>>=◌}
use gattlibcpp.DbusError.{GError}
use gattlibcpp.World.{Text, World, object_unref, emit}
use gattlibcpp.World.Codes.{
  success, invalid_parameter, no_adapter, adapter_close, device_disconnected,
}
use gattlibcpp.ObjectPath.{get_device_path_from_mac_with_adapter, object_path_size_max}
use gattlibcpp.Device.{adapter_is_valid}
use gattlibcpp.Validity.{connection_is_valid}

-- What D-Bus answers: the path of an adapter's proxy, the proxy at a device's path or an error, and
-- the signal strength that a device's proxy tells, as a 16-bit pattern.
pub record RssiBus : Type 0 where
  pub adapter_path : ℕ → Text
  pub open_device : Text → Option ℕ
  pub open_error : Text → Option GError
  pub rssi : ℕ → ℕ

-- The error is freed before its code is computed, which is a fault.
abbrev pub opened_device : RssiBus → Text → Option GError → World → Option (ℕ × Option ℕ × World)
opened_device bus path none w = some (success, bus.open_device path, w)
opened_device bus path (some e) w = none

abbrev pub device_of_proxy : RssiBus → Text → Option ℕ → World → Option (ℕ × Option ℕ × World)
device_of_proxy bus mac none w = some (no_adapter, none, w)
device_of_proxy bus mac (some proxy) w = do
  path ← get_device_path_from_mac_with_adapter (bus.adapter_path proxy) mac object_path_size_max
  opened_device bus path (bus.open_error path) w

-- `get_bluez_device_from_mac`: the code, and the proxy where the code is GATTLIB_SUCCESS.
unfoldable pub get_bluez_device_from_mac :
    ℕ → Text → RssiBus → World → Option (ℕ × Option ℕ × World)
unfolding adapter_is_valid
get_bluez_device_from_mac a mac bus w =
    if adapter_is_valid a w
    then (do ad ← w.adapters a; device_of_proxy bus mac ad.adapter_proxy w)
    else some (adapter_close, none, w)

-- The proxy is read and given back; NULL is a fault.
abbrev pub read_rssi : RssiBus → ℕ → Option ℕ → World → Option (ℕ × Option ℕ × World)
read_rssi bus code proxy w =
    if code == success
    then (do p ← proxy; some (success, some (bus.rssi p), emit (object_unref p) w))
    else some (code, none, w)

-- `gattlib_get_rssi_from_mac`: the code, and what is written to `*rssi`, if anything. `wanted` is
-- false if the caller passes NULL for it.
unfoldable pub get_rssi_from_mac :
    ℕ → Option Text → Bool → RssiBus → World → Option (ℕ × Option ℕ × World)
unfolding get_bluez_device_from_mac
get_rssi_from_mac a mac false bus w = some (invalid_parameter, none, w)
get_rssi_from_mac a none true bus w = some (invalid_parameter, none, w)
get_rssi_from_mac a (some mac) true bus w = do
  (code, proxy, w1) ← get_bluez_device_from_mac a mac bus w
  read_rssi bus code proxy w1

-- `gattlib_get_rssi`; the reference to the proxy is taken and given back.
unfoldable pub get_rssi : Option ℕ → Bool → RssiBus → World → Option (ℕ × Option ℕ × World)
get_rssi connection false bus w = some (invalid_parameter, none, w)
get_rssi none true bus w = some (invalid_parameter, none, w)
get_rssi (some c) true bus w = do
  valid ← connection_is_valid c w
  if valid
      then (do
        dev ← w.devices c
        proxy ← dev.connection.backend.device
        some (success, some (bus.rssi proxy), emit (object_unref proxy) w))
      else some (device_disconnected, none, w)
