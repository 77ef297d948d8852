-- ===== src/ObjectPath.antt =====
-- `get_device_path_from_mac` and `get_device_path_from_mac_with_adapter` of dbus/gattlib.c: the
-- D-Bus path of a device from its MAC address. `none` is undefined behaviour: `strlen` runs on the
-- 21-byte buffer before its last byte is set, so an address of 20 bytes or more is not ended.
pub mod Injective
use gattlibcpp.Base.{
  ℕ, suc, ◌+◌, ◌≡◌, Bool, true, false, Option, none, some, List, [], ◌∷◌, ◌++◌, map, ◌==◌, ltb,
  if◌then◌else◌, length, take, ◌>>=◌, ◌-◌,
}
use gattlibcpp.World.{Text, codes}

-- The loop that replaces ':' by '_'.
unfoldable pub colons_to_underscores : Text → Text
colons_to_underscores [] = []
colons_to_underscores (c ∷ s) = (if c == b':' then b'_' else c) ∷ colons_to_underscores s

-- `strncpy` into the buffer, then the loop over `strlen` of it.
unfoldable pub device_address_str : Text → Option Text
unfolding colons_to_underscores
device_address_str mac = if ltb (length mac) 20 then some (colons_to_underscores mac) else none

-- `snprintf` into a buffer of `size` bytes keeps one of them for the NUL.
abbrev pub snprintf : ℕ → Text → Text
snprintf size s = take (size - 1) s

abbrev pub object_path_size_max : ℕ
object_path_size_max = 200

abbrev pub adapter_or_default : Option Text → Text
adapter_or_default (some name) = name
adapter_or_default none = codes "hci0"

unfoldable pub get_device_path_from_mac : Option Text → Text → ℕ → Option Text
unfolding device_address_str
get_device_path_from_mac adapter_name mac size = do
  address ← device_address_str mac
  some (
      snprintf size
        (codes "/org/bluez/" ++ (adapter_or_default adapter_name ++ (codes "/dev_" ++ address))))

-- `adapter_path` is the D-Bus path of the adapter's proxy.
unfoldable pub get_device_path_from_mac_with_adapter : Text → Text → ℕ → Option Text
unfolding device_address_str
get_device_path_from_mac_with_adapter adapter_path mac size = do
  address ← device_address_str mac
  some (snprintf size (adapter_path ++ (codes "/dev_" ++ address)))
