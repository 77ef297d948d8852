-- ===== src/Eddystone.antt =====
-- The scan for Eddystone devices, common/gattlib_eddystone.c.
pub mod Told
use Prim.Native.Nat.{bit_and, bit_or}
use gattlibcpp.Base.{
  ℕ, Bool, true, false, Option, none, some, List, [], ◌∷◌, ◌==◌, if◌then◌else◌, ◌>>=◌,
}
use gattlibcpp.World.{Text, codes, Uuid, World}
use gattlibcpp.World.Codes.{success, error_internal}
use gattlibcpp.Uuid.{Parsed, string_to_uuid}
use gattlibcpp.Scan.{ScanRequest, ScanReply}
use gattlibcpp.Scan.Disable.{scan_enable}
use gattlibcpp.Rssi.{RssiBus}
use gattlibcpp.Advertisement.{AdvertisementBus, Advertised, get_advertisement_data_from_mac}

-- `struct on_eddystone_discovered_device_arg`, a variable of `gattlib_adapter_scan_eddystone`.
pub record EddystoneArg : Type 0 where
  pub discovered_device_cb : ℕ
  pub user_data : ℕ

-- A call of the application's callback, with what was written to the variables for the data.
pub record Report : Type 0 where
  pub callback : ℕ
  pub adapter : ℕ
  pub addr : Text
  pub name : Option Text
  pub advertised : Advertised
  pub user_data : ℕ

-- The call of the application's callback. The argument is a variable of the call that scans, which
-- returns after the scan.
abbrev pub report : ℕ → Text → Option Text → EddystoneArg → Advertised → Report
report a addr name arg out = record {
  callback = arg.discovered_device_cb;
  adapter = a;
  addr = addr;
  name = name;
  advertised = out;
  user_data = arg.user_data;
}

-- `on_eddystone_discovered_device`; the arrays are freed after the call.
unfoldable pub on_eddystone_discovered_device :
    ℕ
    → Text
    → Option Text
    → EddystoneArg
    → AdvertisementBus
    → RssiBus
    → World
    → Option (Option Report × World)
unfolding get_advertisement_data_from_mac
on_eddystone_discovered_device a addr name arg bus rssi_bus w = do
  (code, out, w1) ← get_advertisement_data_from_mac a addr true bus rssi_bus w
  some (if code == success then some (report a addr name arg out) else none, w1)

-- EDDYSTONE_SERVICE_UUID
abbrev pub eddystone_service_uuid : Text
eddystone_service_uuid = codes "0000FEAA-0000-1000-8000-00805F9B34FB"

-- GATTLIB_DISCOVER_FILTER_USE_UUID, and GATTLIB_DISCOVER_FILTER_USE_RSSI if
-- GATTLIB_EDDYSTONE_LIMIT_RSSI is asked for.
abbrev pub eddystone_filters : ℕ → ℕ
eddystone_filters types = if bit_and types 16 == 0 then 1 else bit_or 1 2

abbrev pub scan_parsed :
    ℕ
    → ℕ
    → ℕ
    → ℕ
    → ℕ
    → ℕ
    → ScanReply
    → List World
    → ℕ × Option Uuid
    → World
    → Option (Option (ℕ × World))
scan_parsed a rssi types handler timeout frame reply wakeups (code, none) w =
    some (some (error_internal, w))
scan_parsed a rssi types handler timeout frame reply wakeups (code, some uuid) w =
    if code == 0
    then scan_enable a
        (record {
          uuid_list = some (uuid ∷ []);
          rssi_threshold = rssi;
          enabled_filters = eddystone_filters types;
          callback = some handler;
          timeout = timeout;
          user_data = frame;
        })
        reply wakeups w
    else some (some (error_internal, w))

-- `gattlib_adapter_scan_eddystone`. `handler` is `on_eddystone_discovered_device`, `frame` the address of
-- its argument. The call ends with the scan: `none` inside is a call that still waits when the worlds
-- that wake it are used up.
unfoldable pub adapter_scan_eddystone :
    (Text → Parsed)
    → ℕ
    → ℕ
    → ℕ
    → ℕ
    → ℕ
    → ℕ
    → ScanReply
    → List World
    → World
    → Option (Option (ℕ × World))
unfolding string_to_uuid scan_enable
adapter_scan_eddystone parse a rssi types handler timeout frame reply wakeups w =
    scan_parsed a rssi types handler timeout frame reply wakeups
      (string_to_uuid parse eddystone_service_uuid) w
