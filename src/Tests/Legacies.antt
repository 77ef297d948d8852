-- ===== src/Tests/Legacies.antt =====
-- The theorems on the back end over the BlueZ library, applied to sample reports and connections.
use gattlibcpp.Base.{
  ℕ, zero, suc, ◌+◌, ◌-◌, ◌^◌, ◌≡◌, refl, true, false, Option, none, some, List, [], ◌∷◌, ◌++◌,
  ◌==◌, if◌then◌else◌, map, length, arith,
}
use gattlibcpp.World.{Text, codes, uuid16}
use gattlibcpp.World.Codes.{success}
use gattlibcpp.Uuid.{uuid_cmp}
use gattlibcpp.Discovery.Characteristics.{GattCharacteristic}
use gattlibcpp.Legacy.Name.{parse_name}
use gattlibcpp.Legacy.Name.Fields.{Field, encode, parse_name-encode}
use gattlibcpp.Legacy.Name.Bounds.{parse_name_total, parse_name_overrun}
use gattlibcpp.Legacy.Scan.{
  HciReply, Sockets, poll_ended, set_filter, restore_filter, set_scan_parameters, set_scan_enable,
  adapter_scan_enable,
}
use gattlibcpp.Legacy.Scan.Reports.{
  Sent, Item, sent, other, quiet, answer_of, adapter_scan_enable_lem,
}
use gattlibcpp.Legacy.Access.{Writes, notification_start_legacy, notification_stop_legacy}
use gattlibcpp.Legacy.Access.Handles.{answered, notification_start_legacy-notification_stop_legacy}
use gattlibcpp.Legacy.Connect.{
  Legacy, ConnectAnswers, le_public, sec_low, initialize_connection, disconnect_legacy,
}
use gattlibcpp.Legacy.Connect.Thread.{Attempt, attempts, attempts-disconnect_legacy}

abbrev flags : Field
flags = record { kind = 1; payload = 6 ∷ [] }

abbrev named : Field
named = record { kind = 9; payload = codes "Ab" }

parse_name-encode_example :
    parse_name true ((encode (flags ∷ named ∷ []) ++ 0 ∷ 0 ∷ []) ++ 200 ∷ []) 9
    ≡ some (some (codes "Ab"))
parse_name-encode_example = parse_name-encode (flags ∷ named ∷ []) (0 ∷ 0 ∷ []) (200 ∷ []) refl

parse_name_total_example : (r : Option Text) × (parse_name true (3 ∷ 9 ∷ 65 ∷ 66 ∷ []) 3 ≡ some r)
parse_name_total_example = parse_name_total true (3 ∷ 9 ∷ 65 ∷ 66 ∷ []) 3 (omega arith)

parse_name_overrun_example :
    parse_name true (encode (flags ∷ []) ++ 3 ∷ 9 ∷ (codes "Ab" ++ 7 ∷ [])) 6
    ≡ some (some (codes "Ab"))
parse_name_overrun_example =
    parse_name_overrun (flags ∷ []) 9 (codes "Ab") (7 ∷ []) refl refl (λ e. cc, (λ e. cc, tt))

abbrev zeros : ℕ → List ℕ
zeros zero = []
zeros (suc n) = 0 ∷ zeros n

abbrev hci_reply : HciReply
hci_reply = record {
  parameters_set = true;
  scan_enabled = true;
  filter_read = true;
  filter_set = true;
  ba2str = λ address. address;
  room = true;
  unset_buffer = zeros 260;
}

abbrev sockets : Sockets
sockets = record { descriptors = λ a. if a == 1 then some 5 else none; calls = [] }

abbrev response : Sent
response = record {
  packet_type = 4;
  event = 0x3E;
  plen = 18;
  reports = 1;
  address_type = 0;
  a0 = 1;
  a1 = 2;
  a2 = 3;
  a3 = 4;
  a4 = 5;
  a5 = 6;
  fields = flags ∷ named ∷ [];
  rssi = 200;
}

abbrev items : List Item
items = quiet ∷ sent response ∷ other 4 14 4 1 (0 ∷ []) ∷ sent response ∷ []

adapter_scan_enable_example :
    adapter_scan_enable 1 hci_reply (map answer_of items ++ poll_ended ∷ []) sockets
    ≡ some (
      some success,
      (1 ∷ 2 ∷ 3 ∷ 4 ∷ 5 ∷ 6 ∷ [], some (codes "Ab"))
          ∷ (1 ∷ 2 ∷ 3 ∷ 4 ∷ 5 ∷ 6 ∷ [], some (codes "Ab"))
          ∷ [],
      record sockets {
        calls =
            restore_filter 5 ∷ set_filter 5 ∷ set_scan_enable 5 true ∷ set_scan_parameters 5 ∷ [];
      },
    )
adapter_scan_enable_example =
    adapter_scan_enable_lem 1 5 hci_reply items sockets refl
      (record {
        parameters_set = refl;
        scan_enabled = refl;
        filter_read = refl;
        filter_set = refl;
        room = refl;
        buffer = refl;
      })
      (tt, (omega arith, (λ e. cc, (omega arith, tt))))

abbrev level : GattCharacteristic
level = record { handle = 3; properties = 2; value_handle = 4; uuid = uuid16 0x2A19 }

abbrev rate : GattCharacteristic
rate = record { handle = 6; properties = 16; value_handle = 7; uuid = uuid16 0x2A37 }

notification_start_legacy-notification_stop_legacy_example :
    (ws' : Writes) × (notification_start_legacy (level ∷ rate ∷ []) (uuid16 0x2A37) (answered 0) []
      ≡ (some 0, ws'))
    × (notification_stop_legacy (level ∷ rate ∷ []) (uuid16 0x2A37) (answered 3) ws'
        ≡ (some 0, (8, 0 ∷ 0 ∷ []) ∷ (8, 1 ∷ 0 ∷ []) ∷ []))
unfolding uuid_cmp
notification_start_legacy-notification_stop_legacy_example =
    notification_start_legacy-notification_stop_legacy (level ∷ []) [] rate (λ e. cc, λ e. cc, tt)
      (omega arith) 0 3 [] (omega arith)

abbrev answers : ConnectAnswers
answers = record {
  thread_created = true;
  str2ba = λ dst. true;
  context_memory = true;
  connection_memory = some 5;
  io_taken = true;
}

abbrev first_try : Attempt
first_try = record {
  answers = answers;
  thread = refl;
  dst = some (codes "01:02");
  dest_type = le_public;
  sec_level = sec_low;
  psm = 0;
  mtu = 0;
}

abbrev fresh : Legacy
fresh = record {
  thread_ref = 0;
  threads_started = 0;
  loops_quit = 0;
  connections = λ c. false;
  io_calls = [];
}

attempts-disconnect_legacy_example :
    ((attempts (first_try ∷ first_try ∷ []) fresh).threads_started
      ≡ length (first_try ∷ first_try ∷ []) + 0)
    × ((m : Legacy) × (disconnect_legacy 5 (attempts (first_try ∷ first_try ∷ []) fresh)
          ≡ some (success, m))
        × (m.thread_ref ≡ 2 ^ 32 - 1)
        × (m.loops_quit ≡ 0))
unfolding initialize_connection
attempts-disconnect_legacy_example =
    attempts-disconnect_legacy (first_try ∷ first_try ∷ []) fresh 5 refl refl
