-- ===== src/Tests/Lives.antt =====
-- The theorems on the life of adapters, connections and notifications, and on the whole system,
-- applied to sample objects.
use mathlib.Core.Option.{some-injective}
use gattlibcpp.Base.{
  ℕ, ◌+◌, ◌<◌, elem, subst, ◌≡◌, ◌∙◌, ap, if◌then◌else◌, Option, refl, true, false, none, some, [],
  ◌∷◌, ◌==◌, remove, arith,
}
use gattlibcpp.World.{
  Text, Device, Adapter, broadcast, object_unref, source_remove, codes, uuid16, not_found,
  connected, disconnected, disconnecting, World, write_device, write_adapter, on_value_notification,
  stop_notify, signal_disconnect, start_notify, signal_connect,
}
use gattlibcpp.World.Codes.{success, invalid_parameter}
use gattlibcpp.Device.{
  devices_are_disconnected, set_state, adapter_is_valid, get_state, get_device, find_device,
  uintptr_mod, store_state, device_ref, device_unref,
}
use gattlibcpp.Device.Invariant.{WellFormed}
use gattlibcpp.Validity.{
  connection_is_valid, connection_is_connected, connected_from, device_listed,
}
use gattlibcpp.Validity.Place.{Place}
use gattlibcpp.Uuid.{same_bytes, parsed, failed, string_to_uuid, bt_uuid_to_uuid, bt_uuid16}
use gattlibcpp.Adapter.{OpenReply, adapter_open, adapter_unref}
use gattlibcpp.Adapter.Unref.{after_free}
use gattlibcpp.Adapter.Open.{Countable, CString, CaseVariant, open_again}
use gattlibcpp.Handler.{register_indication}
use gattlibcpp.Connection.{stop_connect, on_device_connect}
use gattlibcpp.Connection.{with_backend}
use gattlibcpp.Connection.Safe.{Place-write}
use gattlibcpp.Handler.Register.{write_place-WellFormed}
use gattlibcpp.Connection.Connected.{known, on_device_connect_lem}
use gattlibcpp.Disconnection.{disconnect_request, on_disconnected_device}
use gattlibcpp.Disconnection.Free.{
  freed, on_disconnected_device_lem, on_disconnected_device-on_disconnected_device,
}
use gattlibcpp.Disconnection.Held.{device_ref-device_unref}
use gattlibcpp.Characteristic.{type_none, type_gatt, CharacteristicProxy, Bus, search_uuid}
use gattlibcpp.Characteristic.Search.{first_match, Parses, search_uuid-first_match}
use gattlibcpp.Notification.{
  StartReply, connect_found, notify_code, notification_stop, stop_code, on_indication,
}
use gattlibcpp.Notification.RoundTrip.{start_then_stop}
use gattlibcpp.Notification.Pools.{given, register_indication-on_indication}
use gattlibcpp.Scan.Disable.{StopReply, adapter_close_call}
use gattlibcpp.Scan.Close.{adapter_close_last}
use gattlibcpp.Scan.{with_scan, scan_loop_begin}
use gattlibcpp.System.{
  here, later, disconnecting_call, connect_timeout, scan_thread_begin, notification_stop_call,
}
use gattlibcpp.System.Invariant.{Reach-WellFormed}
use gattlibcpp.Tests.{
  ascii, sample, sample_id, sample_device, sample_adapter, sample-WellFormed, sample_place,
  adapter_at,
}

abbrev stop_reply : StopReply
stop_reply = record { discovering = false; stop_error = none }

adapter_close_last_example :
    (w' : World) × (adapter_close_call 1 stop_reply (λ w. w) (sample disconnected)
      ≡ some (success, w'))
    × WellFormed ascii w'
    × (w'.adapters 1 ≡ none)
    × (w'.adapter_list ≡ remove 1 (1 ∷ []))
    × ((d : ℕ) (dev : Device)
        → elem d (5 ∷ []) ≡ true
        → (sample disconnected).devices d ≡ some dev
        → w'.devices d ≡ after_free dev)
unfolding devices_are_disconnected
adapter_close_last_example =
    adapter_close_last ascii (sample disconnected) (sample-WellFormed disconnected (λ e. cc)) 1
      sample_adapter refl refl stop_reply (λ w. w) refl refl refl

abbrev no_reply : OpenReply
no_reply = record { proxy = none; error = none; memory = none; meanwhile = λ w. w }

sample-Countable : Countable (sample connected)
sample-Countable a ad m e =
    let same = adapter_at connected a ad m e in
    let small : sample_adapter.reference_counter + 1 < uintptr_mod = omega arith in
    subst (λ (v : Adapter). v.reference_counter + 1 < uintptr_mod) same small

sample_strings :
    (a : ℕ) (ad : Adapter)
    → elem a (1 ∷ []) ≡ true
    → (sample connected).adapters a ≡ some ad
    → CString ad.id
sample_strings a ad m e =
    let same = adapter_at connected a ad m e in
    subst (λ (v : Adapter). CString v.id) same (ground arith)

-- The adapter "hci0" is open, and is opened again as "HCI0".
open_again_example :
    (a : ℕ) × (ad : Adapter) × (w1 : World) × (w2 : World) × (elem a (1 ∷ []) ≡ true)
    × ((sample connected).adapters a ≡ some ad)
    × CaseVariant ad.id (codes "/org/bluez/HCI0")
    × (adapter_open (some (codes "HCI0")) true no_reply (sample connected)
        ≡ some (success, some a, w1))
    × (w1.effects ≡ [])
    × WellFormed ascii w1
    × (w1.adapters a ≡ some (record ad { reference_counter = ad.reference_counter + 1 }))
    × (adapter_unref a w1 ≡ some (success, w2))
    × (w2.adapters a ≡ some ad)
open_again_example =
    open_again ascii (sample connected) (sample-WellFormed connected (λ e. cc))
      (some (codes "HCI0")) no_reply 1 sample_adapter sample-Countable sample_strings (ground arith)
      refl refl (ground arith)

abbrev served_device : Device
served_device =
    with_backend
      (record (sample_device connected).connection.backend {
        device = some 12;
        property_change_id = 3;
        connection_timeout_id = 4;
        dbus_objects = 20 ∷ [];
      })
      (sample_device connected)

abbrev served : World
served = write_device 5 served_device (sample connected)

served-WellFormed : WellFormed ascii served
served-WellFormed =
    write_place-WellFormed ascii (sample connected) (sample-WellFormed connected (λ e. cc)) 5
      (sample_place connected) served_device refl refl (λ e. cc) refl

abbrev served_place : Place 5 served
served_place = Place-write 5 (sample connected) served_device (sample_place connected)

on_disconnected_device_example :
    (w' : World) × (on_disconnected_device ascii 5 served ≡ some w')
    × WellFormed ascii w'
    × (w'.disconnection_signal ≡ true)
    × (w'.effects ≡ broadcast ∷ object_unref 20 ∷ source_remove 4 ∷ signal_disconnect 12 3 ∷ [])
    × ((q : Place 5 w') × (q.device ≡ freed served_device))
on_disconnected_device_example =
    on_disconnected_device_lem ascii served 5 served-WellFormed served_place refl

on_device_connect_example :
    (w' : World) × (on_device_connect ascii 5 (some 7) (20 ∷ 21 ∷ []) true served ≡ some w')
    × WellFormed ascii w'
    × ((q : Place 5 w') × (q.device ≡ known (20 ∷ 21 ∷ []) served_device))
    × (w'.effects ≡ source_remove 4 ∷ [])
on_device_connect_example =
    on_device_connect_lem ascii served served-WellFormed 5 served_place 7 (20 ∷ 21 ∷ []) true

on_disconnected_device-on_disconnected_device_example :
    (w' : World) × (on_disconnected_device ascii 5 served ≡ some w')
    × (on_disconnected_device ascii 5 w' ≡ none)
on_disconnected_device-on_disconnected_device_example =
    on_disconnected_device-on_disconnected_device ascii served 5 served-WellFormed served_place refl
      20 [] refl

abbrev start_reply : StartReply
start_reply = record { signal_id = 4; memory = true; error = none }

start_then_stop_example :
    (w1 : World) × (w2 : World) × (connect_found on_value_notification 5
        (uuid16 9)
        start_reply
        (type_gatt 31)
        (sample connected)
      ≡ some (notify_code none, w1))
    × (notification_stop 5 (uuid16 9) none w1 ≡ some (stop_code none, w2))
    × (w2.effects
        ≡ stop_notify 31
          ∷ signal_disconnect 31 4
          ∷ start_notify 31
          ∷ signal_connect 31 on_value_notification
          ∷ [])
    × ((q : Place 5 w2) × (q.device.connection.backend.notified_characteristics ≡ []))
start_then_stop_example =
    start_then_stop ascii (sample connected) (sample-WellFormed connected (λ e. cc)) 5
      (sample_place connected) refl on_value_notification (uuid16 9) 31 start_reply none
      (omega arith) tt refl refl

register_indication-on_indication_example :
    (w' : World) × (register_indication (some 5) (some 3) 9 (given 11) (sample connected)
      ≡ some (success, w'))
    × (on_indication (λ t. parsed (bt_uuid16 9)) 5 (codes "0x0009") (some (1 ∷ [])) w' ≡ none)
unfolding string_to_uuid bt_uuid_to_uuid
register_indication-on_indication_example =
    register_indication-on_indication ascii (sample connected)
      (sample-WellFormed connected (λ e. cc)) 5 (sample_place connected) 3 9 11
      (λ t. parsed (bt_uuid16 9)) (codes "0x0009") (uuid16 9) (1 ∷ []) refl refl

abbrev pub search_bus : Bus
search_bus = record {
  manager = some 7;
  is_characteristic = λ o. o == 21;
  characteristic =
      λ o. some (record { object = 31; uuid = some (codes "0x0009"); device = some sample_id });
  is_battery = λ o. o == 22;
  battery = λ o. none;
  path = λ o. codes "/service0024";
  parse = λ t. if same_bytes t (codes "0x0009") then parsed (bt_uuid16 9) else failed 22;
  scan_hex = λ t. some 36;
}

search-Parses : Parses search_bus (20 ∷ 21 ∷ [])
unfolding string_to_uuid bt_uuid_to_uuid same_bytes
search-Parses o p m is e text f g =
    let same : codes "0x0009" ≡ text =
      some-injective (codes "0x0009") text
        (ap (λ (x : Option CharacteristicProxy). uuid_text x) e ∙ f) in
    let bad = ap (λ x. (string_to_uuid search_bus.parse x).1) same ∙ g in cc
  where
    uuid_text : Option CharacteristicProxy → Option Text
    uuid_text none = none
    uuid_text (some x) = x.uuid

search_uuid-first_match_example :
    (w' : World) × (search_uuid search_bus
        (some sample_id)
        (uuid16 9)
        false
        (20 ∷ 21 ∷ [])
        type_none
        (sample connected)
      ≡ some (first_match search_bus sample_id (uuid16 9) false (20 ∷ 21 ∷ []) type_none, w'))
unfolding string_to_uuid
search_uuid-first_match_example =
    search_uuid-first_match search_bus sample_id (uuid16 9) false (20 ∷ 21 ∷ []) type_none
      (sample connected) search-Parses

abbrev leaving_world : World
leaving_world =
    write_device 5 (record (sample_device connected) { state = disconnecting }) (sample connected)

requested : disconnect_request ascii (some 5) (sample connected) ≡ some (success, leaving_world)
unfolding disconnect_request connection_is_connected connected_from set_state adapter_is_valid
    get_state get_device find_device store_state same_bytes
requested = refl

abbrev forgotten_world : World
forgotten_world =
    write_device 5 (record (sample_device connected) { state = disconnecting }) leaving_world

timed : stop_connect 5 leaving_world ≡ some forgotten_world
unfolding stop_connect connection_is_valid device_listed
timed = refl

abbrev scanned_world : World
scanned_world =
    write_adapter 1
      (with_scan (record sample_adapter.ble_scan { is_scanning = true }) sample_adapter)
      forgotten_world

scan_begun : scan_loop_begin 1 9 forgotten_world ≡ some scanned_world
unfolding scan_loop_begin adapter_is_valid
scan_begun = refl

-- A notification is stopped on a device that is no longer connected.
stopped :
    notification_stop 5 (uuid16 0x2A37) none scanned_world ≡ some (invalid_parameter, scanned_world)
unfolding notification_stop connection_is_connected connected_from
stopped = refl

Reach-WellFormed_example : WellFormed ascii scanned_world
Reach-WellFormed_example =
    Reach-WellFormed ascii
      (later
        (later
          (later (later here (disconnecting_call 5 success requested)) (connect_timeout 5 timed))
          (scan_thread_begin 1 9 scan_begun))
        (notification_stop_call 5 (uuid16 0x2A37) none invalid_parameter stopped))
      (sample-WellFormed connected (λ e. cc))

device_ref-device_unref_example :
    (w1 : World) × (w2 : World) × (w3 : World) × (w4 : World) × (device_ref 5 (sample connected)
      ≡ some (success, w1))
    × (on_disconnected_device ascii 5 w1 ≡ some w2)
    × ((q : Place 5 w2) × (set_state ascii none q.owner q.device.device_id not_found w2
          ≡ some (success, w3)))
    × (w3.devices 5 ≡ some (freed (sample_device connected)))
    × (device_unref 5 w3 ≡ some (success, w4))
    × (w4.devices 5 ≡ none)
device_ref-device_unref_example =
    device_ref-device_unref ascii (sample connected) (sample-WellFormed connected (λ e. cc)) 5
      (sample_place connected) (omega arith) refl
