-- ===== src/Tests/Examples.antt =====
-- The theorems of the library, applied to the sample objects.
use gattlibcpp.Base.{List, ◌≡◌, ◌↔◌, refl, true, none, some, [], ◌∷◌, arith}
use gattlibcpp.DbusError.{GError, dbus_failure}
use gattlibcpp.World.{
  Text, codes, DeviceState, connecting, connected, disconnecting, disconnected, uuid16, uuid32,
  World, emit, connect_callback,
}
use gattlibcpp.World.Codes.{success, busy}
use gattlibcpp.ObjectPath.{get_device_path_from_mac, object_path_size_max}
use gattlibcpp.ObjectPath.Injective.{get_device_path_from_mac_injective}
use gattlibcpp.Uuid.{uuid_cmp, uuid_to_uuid128, same_bytes}
use gattlibcpp.Uuid.Expand.{uuid_cmp_iff, uuid_cmp-bluetooth_base, bluetooth_base}
use gattlibcpp.Device.{
  get_state, get_device, find_device, set_state, devices_are_disconnected, is_disconnected,
}
use gattlibcpp.Device.Find.{devices_are_disconnected_lem}
use gattlibcpp.Device.Invariant.{WellFormed}
use gattlibcpp.Device.SetState.{Ends}
use gattlibcpp.Device.Lookup.{Listed}
use gattlibcpp.Device.Outcome.{set_state-Ends}
use gattlibcpp.Device.Refine.{ViewUpdate}
use gattlibcpp.Device.Contract.{set_state-refines}
use gattlibcpp.Validity.{connection_is_connected}
use gattlibcpp.Validity.Place.{Place, connection_is_connected_iff}
use gattlibcpp.Adapter.{OpenReply}
use gattlibcpp.Connection.{ConnectReply, connect_locked, connect_error_code}
use gattlibcpp.Connection.Connect.{
  connect_locked-Ends, connect_locked-busy, connect_locked_stuck, connect_locked_accepted,
  connect_locked_refused, requested, proxied, with_timeout, given_up,
}
use gattlibcpp.Disconnection.{
  Wakeup, woken, timed_out, disconnect_request, disconnect, wait_disconnection,
}
use gattlibcpp.Disconnection.Request.{disconnect_request_lem, disconnect_at_once, leaving}
use gattlibcpp.Disconnection.Wait.{Told, wait_disconnection-Told}
use gattlibcpp.Tests.{
  ascii, sample, sample_id, sample_device, sample_adapter, sample-WellFormed, sample_place,
}

abbrev sample_mac : Text
sample_mac = codes "DE:79:A2:A1:E9:FA"

sample_state : get_state ascii 1 sample_id (sample disconnected) ≡ some disconnected
unfolding get_state get_device find_device same_bytes
sample_state = refl

set_state-refines_example :
    (w' : World) × (set_state ascii none 1 sample_id connecting (sample disconnected)
      ≡ some (success, w'))
    × WellFormed ascii w'
    × ViewUpdate ascii 1 sample_id connecting (sample disconnected) w'
set_state-refines_example =
    set_state-refines ascii none 1 sample_id disconnected connecting (sample disconnected)
      (sample-WellFormed disconnected (λ e. cc)) tt refl sample_state

set_state-Ends_example :
    Ends ascii (set_state ascii (some 6) 1 (codes "/other") disconnected (sample connected))
set_state-Ends_example =
    set_state-Ends ascii (some 6) 1 (codes "/other") disconnected (sample connected)
      (sample-WellFormed connected (λ e. cc)) refl

connection_is_connected_iff_example :
    (connection_is_connected 5 (sample connected) ≡ some true)
    ↔ ((p : Place 5 (sample connected)) × (p.device.state ≡ connected))
connection_is_connected_iff_example =
    connection_is_connected_iff ascii (sample connected) 5 (sample-WellFormed connected (λ e. cc))

devices_are_disconnected_example : is_disconnected disconnected ≡ true
unfolding devices_are_disconnected
devices_are_disconnected_example =
    devices_are_disconnected_lem (5 ∷ []) (sample disconnected) refl 5 (sample_device disconnected)
      refl refl

abbrev open_reply : OpenReply
open_reply = record { proxy = some 8; error = none; memory = some 2; meanwhile = λ w. w }

abbrev connect_reply : ConnectReply
connect_reply = record {
  open_reply = open_reply;
  proxy = some 12;
  proxy_error = none;
  signal_id = 4;
  connect_error = none;
  timeout_id = 6;
}

connect_locked-Ends_example :
    Ends ascii (connect_locked ascii 3 9 sample_mac 1 sample_id connect_reply (sample disconnected))
connect_locked-Ends_example =
    connect_locked-Ends ascii 3 9 sample_mac 1 sample_id connect_reply (sample disconnected)
      (sample-WellFormed disconnected (λ e. cc))

abbrev sample_listed : (s : DeviceState) → Listed ascii 1 sample_id (sample s)
sample_listed s = record {
  owner = sample_adapter;
  address = 5;
  device = sample_device s;
  owner_stored = refl;
  listed = refl;
  stored = refl;
  matches = ascii.same_refl sample_id;
}

connect_locked-busy_example :
    connect_locked ascii 3 9 sample_mac 1 sample_id connect_reply (sample connected)
    ≡ some (busy, emit (connect_callback 3 1 (some sample_mac) none busy 9) (sample connected))
connect_locked-busy_example =
    connect_locked-busy ascii 3 9 sample_mac 1 sample_id connect_reply (sample connected)
      (sample-WellFormed connected (λ e. cc)) refl (sample_listed connected) (λ e. cc)

disconnect_request_example :
    (w' : World) × (disconnect_request ascii (some 5) (sample connected) ≡ some (success, w'))
    × WellFormed ascii w'
    × ((q : Place 5 w') × (q.device ≡ leaving (sample_device connected)))
disconnect_request_example =
    disconnect_request_lem ascii (sample connected) (sample-WellFormed connected (λ e. cc)) 5
      (sample_place connected) refl

disconnect_at_once_example :
    (w' : World) × (disconnect_request ascii (some 5) (sample connected) ≡ some (success, w'))
    × ((r : Place 5 w') × (r.device.state ≡ disconnecting))
    × (disconnect ascii (some 5) true (λ v. sample disconnecting) [] (sample connected)
        ≡ some (some success, sample disconnecting))
disconnect_at_once_example =
    disconnect_at_once ascii (sample connected) (sample disconnecting) 5 (λ v. sample disconnecting)
      [] (sample-WellFormed connected (λ e. cc)) (sample_place connected) refl (λ v e. refl)
      (sample-WellFormed disconnecting (λ e. cc)) (sample_place disconnecting) refl

abbrev sample_wakeups : List Wakeup
sample_wakeups = woken (sample connected) ∷ timed_out (sample disconnected) ∷ []

wait_disconnection-Told_example :
    Told 5 sample_wakeups
      (sample connected)
      (wait_disconnection 5 sample_wakeups (sample connected))
wait_disconnection-Told_example = wait_disconnection-Told 5 sample_wakeups (sample connected)

uuid_cmp_iff_example :
    (uuid_cmp (uuid16 6169) (uuid32 9) ≡ 0)
    ↔ (uuid_to_uuid128 (uuid16 6169) ≡ uuid_to_uuid128 (uuid32 9))
uuid_cmp_iff_example = uuid_cmp_iff (uuid16 6169) (uuid32 9) (omega arith) (omega arith)

abbrev sample_path : Text
sample_path = codes "/org/bluez/hci0/dev_DE_79_A2_A1_E9_FA"

path_of_sample : get_device_path_from_mac none sample_mac object_path_size_max ≡ some sample_path
unfolding get_device_path_from_mac
path_of_sample = refl

get_device_path_from_mac_injective_example : sample_mac ≡ sample_mac
get_device_path_from_mac_injective_example =
    get_device_path_from_mac_injective none sample_mac sample_mac sample_path refl refl
      (omega arith) (omega arith) path_of_sample path_of_sample

abbrev no_proxy_reply : ConnectReply
no_proxy_reply = record connect_reply { proxy = none }

connect_locked_stuck_example :
    (w' : World) × (connect_locked ascii 3 9 sample_mac 1 sample_id no_proxy_reply
        (sample disconnected)
      ≡ some (dbus_failure none, w'))
    × (connect_locked ascii 3 9 sample_mac 1 sample_id connect_reply w'
        ≡ some (busy, emit (connect_callback 3 1 (some sample_mac) none busy 9) w'))
connect_locked_stuck_example =
    connect_locked_stuck ascii 3 9 sample_mac 1 sample_id no_proxy_reply connect_reply
      (sample disconnected) (sample-WellFormed disconnected (λ e. cc)) refl
      (sample_listed disconnected) refl refl

connect_locked_accepted_example :
    (w' : World) × (connect_locked ascii 3 9 sample_mac 1 sample_id connect_reply
        (sample disconnected)
      ≡ some (success, w'))
    × WellFormed ascii w'
    × ((q : Place 5 w') × (q.device
          ≡ with_timeout 6
              (proxied 12 sample_id connect_reply (requested 3 9 (sample_device disconnected)))))
connect_locked_accepted_example =
    connect_locked_accepted ascii 3 9 sample_mac 1 sample_id connect_reply (sample disconnected)
      (sample-WellFormed disconnected (λ e. cc)) refl (sample_listed disconnected) 12 refl refl refl

abbrev sample_error : GError
sample_error = record { domain = 238; code = 36; message = codes "failed" }

abbrev refused_reply : ConnectReply
refused_reply = record connect_reply { connect_error = some sample_error }

connect_locked_refused_example :
    (w' : World) × (connect_locked ascii 3 9 sample_mac 1 sample_id refused_reply
        (sample disconnected)
      ≡ some (connect_error_code sample_error, w'))
    × WellFormed ascii w'
    × ((q : Place 5 w') × (q.device
          ≡ given_up
              (proxied 12 sample_id refused_reply (requested 3 9 (sample_device disconnected)))))
connect_locked_refused_example =
    connect_locked_refused ascii 3 9 sample_mac 1 sample_id refused_reply (sample disconnected)
      (sample-WellFormed disconnected (λ e. cc)) refl (sample_listed disconnected) 12 sample_error
      refl refl refl

-- A world in which the device's memory was freed.
abbrev stale : World
stale = record (sample connected) { adapter_list = []; devices = λ d. none }

stale-WellFormed : WellFormed ascii stale
stale-WellFormed = record {
  distinct = tt;
  adapter_stored = λ a m. cc;
  adapter_ok = λ a ad m e. cc;
  device_stored = λ a ad m e d md. cc;
  device_ok = λ a ad d dev m e md ed. cc;
  unique = λ a ad d dev x eev m e md ed mx ex same. cc;
}

uuid_cmp-bluetooth_base_example :
    (uuid_cmp (uuid16 6159) (bluetooth_base 6159) ≡ 2)
    × (uuid_cmp (bluetooth_base 6159) (uuid16 6159) ≡ 2)
uuid_cmp-bluetooth_base_example = uuid_cmp-bluetooth_base 6159
