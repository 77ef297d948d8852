-- ===== src/Legacy/Access.antt =====
-- Handles, reads, writes and notifications of the back end over the BlueZ library: bluez/gattlib_read_write.c,
-- and `get_uuid_from_handle`, `get_handle_from_uuid` and `events_handler` of bluez/gattlib_connect.c.
pub mod Handles
pub mod Replies
use gattlibcpp.Base.{
  ℕ, suc, ◌+◌, ◌*◌, ◌%◌, ◌^◌, ◌≡◌, Bool, true, false, Option, none, some, List, [], ◌∷◌, ◌==◌,
  if◌then◌else◌, ◌>>=◌, map, drop,
}
use gattlibcpp.World.{Uuid, uuid16, uuid32, uuid128, unspec, Device, World}
use gattlibcpp.World.Codes.{success, not_found_code, out_of_memory, not_supported}
use gattlibcpp.Uuid.{BtUuid, bt_uuid16, bt_uuid32, bt_uuid128, bt_unspec, uuid_cmp, minus_one}
use gattlibcpp.Handler.{has_valid_handler}
use gattlibcpp.Notification.{on_gatt_notification}
use gattlibcpp.Discovery.Characteristics.{GattCharacteristic}
use gattlibcpp.Legacy.Name.{byte}

-- `get_uuid_from_handle`, over the characteristics of the connection's context: the code, and the UUID.
unfoldable pub get_uuid_from_handle : List GattCharacteristic → ℕ → ℕ × Option Uuid
get_uuid_from_handle [] handle = (not_found_code, none)
get_uuid_from_handle (c ∷ cs) handle =
    if c.value_handle == handle then (success, some c.uuid) else get_uuid_from_handle cs handle

-- `get_handle_from_uuid`
unfoldable pub get_handle_from_uuid : List GattCharacteristic → Uuid → ℕ × Option ℕ
get_handle_from_uuid [] uuid = (not_found_code, none)
get_handle_from_uuid (c ∷ cs) uuid =
    if uuid_cmp c.uuid uuid == 0
    then (success, some c.value_handle)
    else get_handle_from_uuid cs uuid

-- `uuid_to_bt_uuid`
unfoldable pub uuid_to_bt_uuid : Uuid → BtUuid
uuid_to_bt_uuid (uuid16 v) = bt_uuid16 v
uuid_to_bt_uuid (uuid32 v) = bt_uuid32 v
uuid_to_bt_uuid (uuid128 bytes) = bt_uuid128 bytes
uuid_to_bt_uuid (unspec t) = bt_unspec 0

-- What BlueZ does with a request: whether it takes it, and the status that the device answered, none
-- while there is no answer.
pub record WriteReply : Type 0 where
  pub taken : Bool
  pub status : Option ℕ

-- The writes that BlueZ took, the newest first, by handle and bytes.
abbrev pub Writes : Type 0
Writes = List (ℕ × List ℕ)

-- `gattlib_write_result_cb` does not look at the status.
abbrev pub write_completed : Option ℕ → Option ℕ
write_completed none = none
write_completed (some status) = some 0

-- `gattlib_write_char_by_handle`: the code, none while it waits.
unfoldable pub write_char_by_handle_legacy : ℕ → List ℕ → WriteReply → Writes → Option ℕ × Writes
write_char_by_handle_legacy handle buffer reply ws =
    if reply.taken then (write_completed reply.status, (handle, buffer) ∷ ws) else (some 1, ws)

abbrev pub write_found_legacy :
    ℕ → List ℕ → WriteReply → ℕ × Option ℕ → ℕ → Writes → Option ℕ × Writes
write_found_legacy offset buffer reply (code, none) failure ws = (some failure, ws)
write_found_legacy offset buffer reply (code, some handle) failure ws =
    write_char_by_handle_legacy ((handle + offset) % 2 ^ 16) buffer reply ws

-- `gattlib_write_char_by_uuid`
unfoldable pub write_char_by_uuid_legacy :
    List GattCharacteristic → Uuid → List ℕ → WriteReply → Writes → Option ℕ × Writes
unfolding write_char_by_handle_legacy
write_char_by_uuid_legacy cs uuid buffer reply ws =
    let found = get_handle_from_uuid cs uuid in write_found_legacy 0 buffer reply found found.0 ws

-- `gattlib_write_without_response_char_by_uuid` and `.._by_handle`
abbrev pub write_without_response_legacy : ℕ
write_without_response_legacy = not_supported

-- `gattlib_notification_start`: 0x0001 to the attribute behind the value, in the order of the host.
unfoldable pub notification_start_legacy :
    List GattCharacteristic → Uuid → WriteReply → Writes → Option ℕ × Writes
unfolding write_char_by_handle_legacy
notification_start_legacy cs uuid reply ws =
    write_found_legacy 1 (1 ∷ 0 ∷ []) reply (get_handle_from_uuid cs uuid) minus_one ws

-- `gattlib_notification_stop`
unfoldable pub notification_stop_legacy :
    List GattCharacteristic → Uuid → WriteReply → Writes → Option ℕ × Writes
unfolding write_char_by_handle_legacy
notification_stop_legacy cs uuid reply ws =
    write_found_legacy 1 (0 ∷ 0 ∷ []) reply (get_handle_from_uuid cs uuid) minus_one ws

-- The answer to a read by UUID: a status, and the entries that BlueZ decodes from it, each with the two
-- bytes of its handle first; none where it decodes nothing.
pub record ReadAnswer : Type 0 where
  pub status : ℕ
  pub entries : Option (List (List ℕ))

-- The loop of `gattlib_result_read_uuid_cb` without a callback: each value takes the place of the one
-- before; without memory the loop ends.
unfoldable pub copy_values : (ℕ → Bool) → List (List ℕ) → ℕ → Option (List ℕ) → Option (List ℕ)
copy_values memory [] i buffer = buffer
copy_values memory (e ∷ es) i buffer =
    let rest = copy_values memory es (i + 1) (some (drop 2 e)) in if memory i then rest else buffer

abbrev pub read_entries : (ℕ → Bool) → Option (List (List ℕ)) → Option (List ℕ)
read_entries memory none = none
read_entries memory (some es) = copy_values memory es 0 none

-- `gattlib_result_read_uuid_cb` for a call that waits: what is written to the caller's buffer.
abbrev pub read_result : (ℕ → Bool) → ReadAnswer → Option (List ℕ)
read_result memory answer = if answer.status == 0 then read_entries memory answer.entries else none

-- `gattlib_read_char_by_uuid`: the code, none while it waits, and what is written to the buffer. `room` is
-- the memory for the call's own record.
unfoldable pub read_char : Bool → (ℕ → Bool) → Option ReadAnswer → Option ℕ × Option (List ℕ)
unfolding copy_values
read_char false memory answer = (some out_of_memory, none)
read_char true memory none = (none, none)
read_char true memory (some answer) = (some success, read_result memory answer)

-- The values that the callback of an asynchronous read is called with.
abbrev pub called_with : ReadAnswer → List (List ℕ)
called_with answer =
    if answer.status == 0
    then (elim answer.entries [ none ↦ [] | some es ↦ map (λ e. drop 2 e) es ])
    else []

-- `gattlib_read_char_by_uuid_async`, with whether BlueZ takes the request and its later answer: the code,
-- and the calls of the callback.
unfoldable pub read_char_async : Bool → Bool → Option ReadAnswer → ℕ × List (List ℕ)
read_char_async false taken answer = (out_of_memory, [])
read_char_async true false answer = (not_found_code, [])
read_char_async true true none = (success, [])
read_char_async true true (some answer) = (success, called_with answer)

-- `get_le16`
abbrev pub get_le16 : List ℕ → ℕ → Option ℕ
get_le16 pdu i = do low ← byte pdu i; high ← byte pdu (i + 1); some (low + high * 2 ^ 8)

-- `gattlib_on_gatt_notification` is given the address `frame` of the parameter that holds the
-- connection's address.
abbrev pub notify : ℕ → Bool → Uuid → List ℕ → World → Option World
notify frame false uuid bytes w = some w
notify frame true uuid bytes w = on_gatt_notification frame uuid bytes w

-- ATT_OP_HANDLE_NOTIFY and ATT_OP_HANDLE_IND. A confirmation is sent for what is no notification.
abbrev pub handle_event : Device → ℕ → ℕ → Uuid → List ℕ → World → Option (Bool × World)
handle_event dev frame op uuid bytes w =
    if op == 0x1B
    then (do
      w1 ← notify frame (has_valid_handler (some dev.connection.notification)) uuid bytes w
      some (false, w1))
    else if op == 0x1D
    then (do
      w1 ← notify frame (has_valid_handler (some dev.connection.indication)) uuid bytes w
      some (true, w1))
    else some (false, w)

abbrev pub event_found : Device → ℕ → ℕ → Option Uuid → List ℕ → World → Option (Bool × World)
event_found dev frame op none bytes w = some (false, w)
event_found dev frame op (some uuid) bytes w = handle_event dev frame op uuid bytes w

-- `events_handler`: whether a confirmation is sent. A PDU of fewer than three bytes is read behind its
-- end, which is a fault.
unfoldable pub events_handler :
    ℕ → ℕ → List GattCharacteristic → List ℕ → World → Option (Bool × World)
unfolding on_gatt_notification has_valid_handler
events_handler c frame cs pdu w = do
  dev ← w.devices c
  op ← byte pdu 0
  handle ← get_le16 pdu 1
  event_found dev frame op (get_uuid_from_handle cs handle).1 (drop 3 pdu) w
