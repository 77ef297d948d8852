-- ===== src/Characteristic/Calls.antt =====
-- The calls of dbus/gattlib_char.c that read and write a characteristic by its UUID keep the objects
-- well-formed.
use gattlibcpp.Base.{ℕ, Option, none, List, Holds, Holds-bind, Holds-if}
use gattlibcpp.DbusError.{GError}
use gattlibcpp.Glib.{AsciiCase}
use gattlibcpp.World.{Uuid, World}
use gattlibcpp.Device.Invariant.{WellFormed}
use gattlibcpp.Characteristic.{
  DbusCharacteristic, type_none, type_gatt, type_battery_level, Bus, get_characteristic_from_uuid,
}
use gattlibcpp.Characteristic.Access.{
  ReadReply, Buffer, read_found, read_char_by_uuid, write_char, write_found, write_by_uuid,
}
use gattlibcpp.Characteristic.Safe.{Kept, get_characteristic_from_uuid-Kept}

module _ (case : AsciiCase) where
  abbrev ReadFine : ℕ × Buffer × World → Type 0
  ReadFine r = WellFormed case r.2

  abbrev WriteFine : ℕ × World → Type 0
  WriteFine r = WellFormed case r.1

  read_found-WellFormed :
      (reply : ReadReply) (found : DbusCharacteristic) (w : World)
      → WellFormed case w
      → Holds ReadFine (read_found reply found w)
  read_found-WellFormed reply type_none w h = h
  read_found-WellFormed reply (type_battery_level b) w h =
      Holds-if ReadFine reply.memory _ none (λ e. h) (λ e. tt)
  read_found-WellFormed reply (type_gatt g) w h = h

  write_found-WellFormed :
      (bytes : List ℕ) (options : ℕ) (error : Option GError) (found : DbusCharacteristic)
      (w : World)
      → WellFormed case w
      → WriteFine (write_found bytes options error found w)
  unfolding write_char
  write_found-WellFormed bytes options error type_none w h = h
  write_found-WellFormed bytes options error (type_battery_level b) w h = h
  write_found-WellFormed bytes options error (type_gatt g) w h = h

  module _ (w : World) (h : WellFormed case w) (c : ℕ) (uuid : Uuid) (bus : Bus) where
    pub read_char_by_uuid-WellFormed :
        (reply : ReadReply) → Holds ReadFine (read_char_by_uuid c uuid bus reply w)
    unfolding read_char_by_uuid
    read_char_by_uuid-WellFormed reply =
        Holds-bind (Kept case w) ReadFine (get_characteristic_from_uuid c uuid bus w) _
          (get_characteristic_from_uuid-Kept case w h c uuid bus)
          (λ (found, w1) (h1, e). read_found-WellFormed reply found w1 h1)

    pub write_by_uuid-WellFormed :
        (options : ℕ) (bytes : List ℕ) (error : Option GError)
        → Holds WriteFine (write_by_uuid options c uuid bytes bus error w)
    write_by_uuid-WellFormed options bytes error =
        Holds-bind (Kept case w) WriteFine (get_characteristic_from_uuid c uuid bus w) _
          (get_characteristic_from_uuid-Kept case w h c uuid bus)
          (λ (found, w1) (h1, e). write_found-WellFormed bytes options error found w1 h1)
