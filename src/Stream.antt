-- ===== src/Stream.antt =====
-- The streams of writes to a characteristic, dbus/gattlib_stream.c as built for BlueZ 5.48 or later.
use Prim.Native.Nat.{bit_or}
use gattlibcpp.Base.{ℕ, Option, none, some, List, ◌>>=◌}
use gattlibcpp.DbusError.{GError, dbus_error}
use gattlibcpp.World.{Uuid, World, acquire_write, write_file, close_file, emit}
use gattlibcpp.World.Codes.{success, error_unix}
use gattlibcpp.Characteristic.{
  DbusCharacteristic, type_none, type_gatt, type_battery_level, Bus, get_characteristic_from_uuid,
}

-- What D-Bus answers to `AcquireWrite` on a proxy, an error or a file descriptor and the size of a packet,
-- and whether the descriptor could be taken from the answer.
pub record StreamReply : Type 0 where
  pub acquire_error : ℕ → Option GError
  pub fd_error : ℕ → Option GError
  pub fd : ℕ → ℕ
  pub mtu : ℕ → ℕ

abbrev pub acquired : StreamReply → ℕ → Option GError → ℕ × Option ℕ × Option ℕ
acquired reply proxy none = (success, some (reply.fd proxy), some (reply.mtu proxy))
acquired reply proxy (some e) = (dbus_error e, none, some (reply.mtu proxy))

abbrev pub acquire : StreamReply → ℕ → Option GError → ℕ × Option ℕ × Option ℕ
acquire reply proxy none = acquired reply proxy (reply.fd_error proxy)
acquire reply proxy (some e) = (dbus_error e, none, none)

-- The proxy is used whatever was found; without one, D-Bus is not called and no error is set, so the
-- answer is read from variables that were never written, which is a fault.
abbrev pub open_found :
    StreamReply → DbusCharacteristic → World → Option (ℕ × Option ℕ × Option ℕ × World)
open_found reply type_none w = none
open_found reply (type_gatt proxy) w =
    let (code, stream, mtu) = acquire reply proxy (reply.acquire_error proxy) in
    some (code, stream, mtu, emit (acquire_write proxy) w)
open_found reply (type_battery_level proxy) w =
    let (code, stream, mtu) = acquire reply proxy (reply.acquire_error proxy) in
    some (code, stream, mtu, emit (acquire_write proxy) w)

-- `gattlib_write_char_by_uuid_stream_open`: the code, and what is written to `*stream` and to `*mtu`.
unfoldable pub write_char_by_uuid_stream_open :
    ℕ → Uuid → Bus → StreamReply → World → Option (ℕ × Option ℕ × Option ℕ × World)
write_char_by_uuid_stream_open c uuid bus reply w = do
  (found, w1) ← get_characteristic_from_uuid c uuid bus w
  open_found reply found w1

-- What `write` answers: how many bytes it took, or its error number.
pub data Written : Type 0 where
  wrote : ℕ → Written
  write_error : ℕ → Written

abbrev pub written_code : Written → ℕ
written_code (wrote n) = success
written_code (write_error n) = bit_or error_unix n

-- `gattlib_write_char_stream_write`
unfoldable pub write_char_stream_write : ℕ → List ℕ → Written → World → ℕ × World
write_char_stream_write stream buffer reply w =
    (written_code reply, emit (write_file stream buffer) w)

-- `gattlib_write_char_stream_close`
unfoldable pub write_char_stream_close : ℕ → World → ℕ × World
write_char_stream_close stream w = (success, emit (close_file stream) w)
