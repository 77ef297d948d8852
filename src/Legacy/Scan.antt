-- ===== src/Legacy/Scan.antt =====
-- Adapters and scans on a socket of the Bluetooth controller: bluez/gattlib_adapter.c.
pub mod Reports
use gattlibcpp.Base.{
  ℕ, ◌+◌, ◌≡◌, Bool, true, false, Option, none, some, List, [], ◌∷◌, ◌++◌, ◌==◌, if◌then◌else◌,
  ◌>>=◌, take, drop,
}
use gattlibcpp.World.{Text, update}
use gattlibcpp.World.Codes.{
  success, invalid_parameter, not_found_code, out_of_memory, not_supported, device_error,
}
use gattlibcpp.Legacy.Name.{byte, parse_name}

-- What the code asks of the controller.
pub data HciCall : Type 0 where
  set_filter restore_filter set_scan_parameters : ℕ → HciCall
  set_scan_enable : ℕ → Bool → HciCall
  close_dev : ℕ → HciCall

-- An adapter is an `int` at an address, here as a 32-bit pattern. The newest call is the first one.
pub record Sockets : Type 0 where
  pub descriptors : ℕ → Option ℕ
  pub calls : List HciCall

abbrev pub call : HciCall → Sockets → Sockets
call c s = record s { calls = c ∷ s.calls }

-- -1 as a 32-bit pattern
abbrev pub no_descriptor : ℕ
no_descriptor = 0xffff_ffff

-- What `hci_devid` or `hci_get_route`, `malloc` and `hci_open_dev` give.
pub record SocketReply : Type 0 where
  pub dev_id : Option ℕ
  pub memory : Option ℕ
  pub descriptor : Option ℕ

abbrev pub open_at : ℕ → Option ℕ → Sockets → ℕ × Option ℕ × Sockets
open_at a (some fd) s =
    (success, some a, record s { descriptors = update s.descriptors a (some fd) })
open_at a none s =
    (device_error, some a, record s { descriptors = update s.descriptors a (some no_descriptor) })

abbrev pub open_id : SocketReply → Option ℕ → Sockets → ℕ × Option ℕ × Sockets
open_id reply none s = (out_of_memory, none, s)
open_id reply (some a) s = open_at a reply.descriptor s

-- `gattlib_adapter_open`: the code, and what is written to `*adapter`. `wanted` is false if the caller
-- passes NULL for it.
unfoldable pub adapter_open_socket : Bool → SocketReply → Sockets → ℕ × Option ℕ × Sockets
adapter_open_socket false reply s = (invalid_parameter, none, s)
adapter_open_socket true reply s = elim reply.dev_id [
  | none ↦ (not_found_code, none, s)
  | some id ↦ open_id reply reply.memory s
]

-- What one round of the loop gets of `poll` and `read`: nothing more, an event without input, an error
-- of `read`, or the bytes of a packet.
pub data Answer : Type 0 where
  poll_ended no_input read_error : Answer
  packet : List ℕ → Answer

-- `read` into the buffer: the bytes behind the packet stay as they were.
abbrev pub read_into : List ℕ → List ℕ → List ℕ
read_into bytes [] = []
read_into [] (o ∷ old) = o ∷ old
read_into (b ∷ bytes) (o ∷ old) = b ∷ read_into bytes old

-- What the application's callback is told, if anything. The report begins behind the header of the
-- event and the number of reports: its type, the type of the address, the address, a length, the data.
abbrev pub scan_report : (List ℕ → Text) → Bool → List ℕ → Option (Option (Text × Option Text))
scan_report ba2str room buffer = do
  subevent ← byte buffer 3
  if subevent == 2
      then (do
        event ← byte buffer 5
        if event == 4
            then (do
              size ← byte buffer 13
              name ← parse_name room (drop 14 buffer) size
              some (some (ba2str (take 6 (drop 7 buffer)), name)))
            else some none)
      else some none

abbrev pub add_report {ℓ} : {A : Type ℓ} → Option A → List A → List A
add_report none rs = rs
add_report (some r) rs = r ∷ rs

-- The loop of `ble_scan`: whether it has ended, and what the callback is told.
unfoldable pub scan_loop :
    (List ℕ → Text) → Bool → List Answer → List ℕ → Option (Bool × List (Text × Option Text))
unfolding parse_name
scan_loop ba2str room [] buffer = some (false, [])
scan_loop ba2str room (poll_ended ∷ answers) buffer = some (true, [])
scan_loop ba2str room (read_error ∷ answers) buffer = some (true, [])
scan_loop ba2str room (no_input ∷ answers) buffer = scan_loop ba2str room answers buffer
scan_loop ba2str room (packet bytes ∷ answers) buffer = do
  told ← scan_report ba2str room (read_into bytes buffer)
  (ended, rest) ← scan_loop ba2str room answers (read_into bytes buffer)
  some (ended, add_report told rest)

-- What the controller answers while a scan is started, and what the buffer holds before the first packet.
pub record HciReply : Type 0 where
  pub parameters_set : Bool
  pub scan_enabled : Bool
  pub filter_read : Bool
  pub filter_set : Bool
  pub ba2str : List ℕ → Text
  pub room : Bool
  pub unset_buffer : List ℕ

-- The code of a call that has ended, none while it goes on, and what the callback was told.
abbrev pub Scanned : Type 0
Scanned = Option ℕ × List (Text × Option Text) × Sockets

abbrev pub scan_ended : ℕ → Bool → List (Text × Option Text) → Sockets → Scanned
scan_ended fd true told s = (some success, told, call (restore_filter fd) s)
scan_ended fd false told s = (none, told, s)

-- `ble_scan`
unfoldable pub ble_scan : ℕ → HciReply → List Answer → Sockets → Option Scanned
unfolding scan_loop
ble_scan fd reply answers s =
    if reply.filter_read
    then (if reply.filter_set
        then (do
          (ended, told) ← scan_loop reply.ba2str reply.room answers reply.unset_buffer
          some (scan_ended fd ended told (call (set_filter fd) s)))
        else some (some 1, [], call (set_filter fd) s))
    else some (some 1, [], s)

-- The code of a scan that was begun.
abbrev pub scan_code : Scanned → Scanned
scan_code (none, told, s) = (none, told, s)
scan_code (some code, told, s) = (some (if code == 0 then success else 1), told, s)

-- `gattlib_adapter_scan_enable`
unfoldable pub adapter_scan_enable : ℕ → HciReply → List Answer → Sockets → Option Scanned
unfolding ble_scan
adapter_scan_enable a reply answers s = do
  fd ← s.descriptors a
  let s1 = call (set_scan_parameters fd) s
  if reply.parameters_set
      then (if reply.scan_enabled
          then (do
            scanned ← ble_scan fd reply answers (call (set_scan_enable fd true) s1)
            some (scan_code scanned))
          else some (some 1, [], call (set_scan_enable fd true) s1))
      else some (some 1, [], s1)

-- `gattlib_adapter_scan_disable`; `result` is what the controller answers.
unfoldable pub adapter_scan_disable : ℕ → ℕ → Sockets → Option (ℕ × Sockets)
adapter_scan_disable a result s = do
  fd ← s.descriptors a
  some (if fd == no_descriptor then (1, s) else (result, call (set_scan_enable fd false) s))

-- `gattlib_adapter_close`
unfoldable pub adapter_close_socket : ℕ → Sockets → Option (ℕ × Sockets)
adapter_close_socket a s = do
  fd ← s.descriptors a
  some (success, record (call (close_dev fd) s) { descriptors = update s.descriptors a none })

-- `gattlib_adapter_scan_enable_with_filter`
unfoldable pub adapter_scan_with_filter : Sockets → ℕ × Sockets
adapter_scan_with_filter s = (not_supported, s)
