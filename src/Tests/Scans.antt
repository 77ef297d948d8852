-- ===== src/Tests/Scans.antt =====
-- The theorems on the scan, applied to sample objects.
use gattlibcpp.Base.{◌≡◌, refl, true, none, some, []}
use gattlibcpp.World.{disconnected, Adapter, World, write_adapter, emit, stop_discovery}
use gattlibcpp.World.Codes.{success}
use gattlibcpp.Device.Invariant.{WellFormed, write_adapter-WellFormed}
use gattlibcpp.Scan.{ScanRequest, ScanReply, with_scan, stop_scan_on_timeout}
use gattlibcpp.Scan.Disable.{StopReply, scan_disable, scan_loop_end}
use gattlibcpp.Scan.Enable.{Startable}
use gattlibcpp.Scan.Stop.{Stopped, stops, over, timeout_keeps_discovery, scan_disable-Stopped}
use gattlibcpp.Tests.{ascii, sample, sample_adapter, sample-WellFormed}

abbrev stop_reply : StopReply
stop_reply = record { discovering = true; stop_error = none }

abbrev scanning_adapter : Adapter
scanning_adapter = with_scan (record sample_adapter.ble_scan { is_scanning = true }) sample_adapter

abbrev scanning_world : World
scanning_world = write_adapter 1 scanning_adapter (sample disconnected)

scanning-WellFormed : WellFormed ascii scanning_world
scanning-WellFormed =
    let h = sample-WellFormed disconnected (λ e. cc) in
    let ok = h.adapter_ok 1 sample_adapter refl refl in
    write_adapter-WellFormed ascii (sample disconnected) 1 sample_adapter scanning_adapter h refl
      (λ d m. m) (record { held = ok.held; counter_fits = ok.counter_fits; distinct = ok.distinct })

scan_disable-Stopped_example :
    (w' : World) × (scan_disable 1 stop_reply scanning_world ≡ some (success, w'))
    × Stopped 1 scanning_adapter (emit (stop_discovery 8) scanning_world) w'
    × WellFormed ascii w'
scan_disable-Stopped_example =
    scan_disable-Stopped ascii 1 stop_reply scanning_world scanning_adapter scanning-WellFormed refl
      refl 8 refl refl refl refl

timeout_keeps_discovery_example :
    (w1 w2 : World) × (stop_scan_on_timeout 1 scanning_world ≡ some w1)
    × (scan_loop_end 1 stop_reply w1 ≡ some w2)
    × (stops w2.effects ≡ stops scanning_world.effects)
    × (w2.adapters 1
        ≡ some (over 1 stop_reply scanning_world scanning_adapter refl refl 8 refl refl))
timeout_keeps_discovery_example =
    timeout_keeps_discovery 1 stop_reply scanning_world scanning_adapter refl refl 8 refl refl

abbrev request : ScanRequest
request = record {
  uuid_list = some [];
  rssi_threshold = 0;
  enabled_filters = 0;
  callback = some 3;
  timeout = 10;
  user_data = 9;
}

abbrev started : ScanReply
started = record {
  filter_error = none;
  manager = none;
  manager_error = none;
  added_id = 1;
  removed_id = 2;
  changed_id = 3;
  start_error = none;
  thread = some 40;
}

abbrev startable :
    (reply : ScanReply)
    → reply.filter_error ≡ none
    → reply.start_error ≡ none
    → Startable 1 request reply (sample disconnected)
startable reply f s = record {
  adapter = sample_adapter;
  listed = refl;
  stored = refl;
  proxy = 8;
  has_proxy = refl;
  manager = 7;
  has_manager = refl;
  uuids = [];
  has_uuids = refl;
  filter_taken = f;
  discovery_started = s;
}
