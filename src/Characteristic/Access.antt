-- ===== src/Characteristic/Access.antt =====
-- Reading and writing a characteristic, dbus/gattlib_char.c, once it was found.
use Prim.Native.Nat.{bit_and}
use gattlibcpp.Base.{
  ℕ, Bool, true, false, ◌&&◌, Option, none, some, List, [], ◌∷◌, ◌==◌, if◌then◌else◌, ◌>>=◌,
}
use gattlibcpp.DbusError.{GError, dbus_error}
use gattlibcpp.World.{Uuid, World, read_value, write_value, read_callback, object_unref, emit}
use gattlibcpp.World.Codes.{
  success, not_found_code, out_of_memory, not_supported, device_not_connected,
}
use gattlibcpp.Characteristic.{
  DbusCharacteristic, type_none, type_gatt, type_battery_level, Bus, get_characteristic_from_uuid,
  get_characteristic_from_handle,
}

-- What a read gets: an error, the value that D-Bus gave (NULL if it is not an array), the battery's
-- percentage, and whether there was memory for the copy.
pub record ReadReply : Type 0 where
  pub error : Option GError
  pub value : Option (List ℕ)
  pub percentage : ℕ
  pub memory : Bool

-- The caller's `*buffer` and `*buffer_len`: both left as they were, a length of 0 beside a buffer
-- left as it was, a NULL buffer beside a length left as it was, or the copied bytes.
pub data Buffer : Type 0 where
  untouched : Buffer
  empty_buffer : Buffer
  null_buffer : Buffer
  filled : List ℕ → Buffer

abbrev pub copied : Bool → Option (List ℕ) → ℕ × Buffer
copied memory none = (success, empty_buffer)
copied true (some bytes) = (success, filled bytes)
copied false (some bytes) = (out_of_memory, null_buffer)

-- `read_gatt_characteristic`
unfoldable pub read_gatt_characteristic : ReadReply → ℕ × Buffer
read_gatt_characteristic reply = elim reply.error [
  | some e ↦ (dbus_error e, untouched)
  | none ↦ copied reply.memory reply.value
]

-- `read_battery_level`; the test for memory looks at the wrong pointer, so without memory the copy
-- is a fault.
abbrev pub read_battery_level : ℕ → ReadReply → World → Option (ℕ × Buffer × World)
read_battery_level b reply w =
    if reply.memory
    then some (success, filled (reply.percentage ∷ []), emit (object_unref b) w)
    else none

abbrev pub read_found : ReadReply → DbusCharacteristic → World → Option (ℕ × Buffer × World)
read_found reply type_none w = some (not_found_code, untouched, w)
read_found reply (type_battery_level b) w = read_battery_level b reply w
read_found reply (type_gatt g) w =
    let (code, buffer) = read_gatt_characteristic reply in
    some (code, buffer, emit (object_unref g) (emit (read_value g) w))

-- `gattlib_read_char_by_uuid`
unfoldable pub read_char_by_uuid : ℕ → Uuid → Bus → ReadReply → World → Option (ℕ × Buffer × World)
unfolding read_gatt_characteristic
read_char_by_uuid c uuid bus reply w = do
  (found, w1) ← get_characteristic_from_uuid c uuid bus w
  read_found reply found w1

abbrev pub tell_value : ℕ → Option (List ℕ) → World → World
tell_value cb none w = w
tell_value cb (some bytes) w = emit (read_callback cb bytes) w

-- The proxy is given back only if the read succeeded.
abbrev pub async_value : ℕ → ℕ → ReadReply → World → ℕ × World
async_value cb g reply w = elim reply.error [
  | some e ↦ (dbus_error e, w)
  | none ↦ (success, emit (object_unref g) (tell_value cb reply.value w))
]

abbrev pub read_async_found : ℕ → ReadReply → DbusCharacteristic → World → ℕ × World
read_async_found cb reply type_none w = (not_found_code, w)
read_async_found cb reply (type_battery_level b) w =
    (success, emit (read_callback cb (reply.percentage ∷ [])) w)
read_async_found cb reply (type_gatt g) w = async_value cb g reply (emit (read_value g) w)

-- `gattlib_read_char_by_uuid_async`
unfoldable pub read_char_by_uuid_async : ℕ → Uuid → ℕ → Bus → ReadReply → World → Option (ℕ × World)
read_char_by_uuid_async c uuid cb bus reply w = do
  (found, w1) ← get_characteristic_from_uuid c uuid bus w
  some (read_async_found cb reply found w1)

-- The code that `write_char` gives for what D-Bus answered.
unfoldable pub write_code : Option GError → ℕ
write_code none = success
write_code (some e) = if e.domain == 238 && e.code == 36 then device_not_connected else dbus_error e

-- BLUEZ_GATT_WRITE_VALUE_TYPE_WRITE_WITH_RESPONSE and .._WRITE_WITHOUT_RESPONSE
abbrev pub write_with_response : ℕ
write_with_response = 1

abbrev pub write_without_response : ℕ
write_without_response = 2

-- Is the write sent as a command, by the options under BLUEZ_GATT_WRITE_VALUE_TYPE_MASK?
abbrev pub is_command : ℕ → Bool
is_command options = bit_and options 7 == write_without_response

-- `write_char`
unfoldable pub write_char : ℕ → List ℕ → ℕ → Option GError → World → ℕ × World
unfolding write_code
write_char g bytes options error w =
    (write_code error, emit (write_value g bytes (is_command options)) w)

-- The caller gives the proxy back.
abbrev pub write_and_unref : ℕ → List ℕ → ℕ → Option GError → World → ℕ × World
write_and_unref g bytes options error w =
    let (code, w1) = write_char g bytes options error w in (code, emit (object_unref g) w1)

abbrev pub write_found : List ℕ → ℕ → Option GError → DbusCharacteristic → World → ℕ × World
write_found bytes options error type_none w = (not_found_code, w)
write_found bytes options error (type_battery_level b) w = (not_supported, w)
write_found bytes options error (type_gatt g) w = write_and_unref g bytes options error w

-- The two calls by UUID differ in the options.
abbrev pub write_by_uuid : ℕ → ℕ → Uuid → List ℕ → Bus → Option GError → World → Option (ℕ × World)
write_by_uuid options c uuid bytes bus error w = do
  (found, w1) ← get_characteristic_from_uuid c uuid bus w
  some (write_found bytes options error found w1)

-- `gattlib_write_char_by_uuid`
unfoldable pub write_char_by_uuid :
    ℕ → Uuid → List ℕ → Bus → Option GError → World → Option (ℕ × World)
unfolding write_char
write_char_by_uuid c uuid bytes bus error w =
    write_by_uuid write_with_response c uuid bytes bus error w

-- `gattlib_write_without_response_char_by_uuid`
unfoldable pub write_without_response_char_by_uuid :
    ℕ → Uuid → List ℕ → Bus → Option GError → World → Option (ℕ × World)
unfolding write_char
write_without_response_char_by_uuid c uuid bytes bus error w =
    write_by_uuid write_without_response c uuid bytes bus error w

-- The two calls by handle; the search by handle never finds a battery.
abbrev pub write_by_handle :
    ℕ → ℕ → ℕ → List ℕ → Bus → ℕ → Option GError → World → Option (ℕ × World)
write_by_handle options c handle bytes bus unset error w = do
  (found, w1) ← get_characteristic_from_handle c handle bus unset w
  some (write_found bytes options error found w1)

-- `gattlib_write_char_by_handle`
unfoldable pub write_char_by_handle :
    ℕ → ℕ → List ℕ → Bus → ℕ → Option GError → World → Option (ℕ × World)
unfolding write_char
write_char_by_handle c handle bytes bus unset error w =
    write_by_handle write_with_response c handle bytes bus unset error w

-- `gattlib_write_without_response_char_by_handle`
unfoldable pub write_without_response_char_by_handle :
    ℕ → ℕ → List ℕ → Bus → ℕ → Option GError → World → Option (ℕ × World)
unfolding write_char
write_without_response_char_by_handle c handle bytes bus unset error w =
    write_by_handle write_without_response c handle bytes bus unset error w
