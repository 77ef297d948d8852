-- ===== src/Validity.antt =====
-- common/gattlib_common_adapter.c: which addresses stand for live adapters, devices and
-- connections. A caller may hold any address; the lists decide. (`gattlib_adapter_is_valid` is
-- `adapter_is_valid` of Device.antt.)
pub mod Place
use gattlibcpp.Base.{
  ℕ, suc, zero, ◌≡◌, refl, Bool, true, false, Option, none, some, List, [], ◌∷◌, ◌==◌, ◌&&◌, ◌||◌,
  ltb, leb, if◌then◌else◌, ◌>>=◌, ◌+◌, elem,
}
use gattlibcpp.World.{Text, Device, Adapter, BleScan, World}
use gattlibcpp.Device.{is_connected, adapter_is_valid}

-- `tolower` of the C locale.
abbrev pub tolower : ℕ → ℕ
tolower c = if leb 65 c && leb c 90 then c + 32 else c

-- `stricmp(a, b) == 0`: the loop compares the lowered bytes up to the NUL that ends both. A text
-- that ends first is compared by its NUL.
unfoldable pub stricmp_eq : Text → Text → Bool
stricmp_eq [] [] = true
stricmp_eq [] (b ∷ bl) = tolower b == 0
stricmp_eq (a ∷ al) [] = tolower a == 0
stricmp_eq (a ∷ al) (b ∷ bl) =
    if tolower a == tolower b then (if a == 0 then true else stricmp_eq al bl) else false

-- `g_slist_find_custom(m_adapter_list, adapter_id, _is_adapter_id)`
unfoldable pub find_adapter : List ℕ → Text → World → Option (Option ℕ)
find_adapter [] id w = some none
find_adapter (a ∷ al) id w = do
  ad ← w.adapters a
  if stricmp_eq ad.id id then some (some a) else find_adapter al id w

unfoldable pub adapter_from_id : Text → World → Option (Option ℕ)
unfolding find_adapter
adapter_from_id id w = find_adapter w.adapter_list id w

unfoldable pub adapter_is_scanning : ℕ → World → Option Bool
unfolding adapter_is_valid
adapter_is_scanning a w =
    if adapter_is_valid a w
    then (do ad ← w.adapters a; some ad.ble_scan.is_scanning)
    else some false

-- The loops over the adapters of `gattlib_device_is_valid` and `gattlib_connection_is_valid`: both
-- look for an address on the device lists, since a connection is a field of its device.
unfoldable pub device_listed : List ℕ → ℕ → Bool → World → Option Bool
device_listed [] d found w = some found
device_listed (a ∷ al) d found w = do
  ad ← w.adapters a
  device_listed al d (if elem d ad.devices then true else found) w

unfoldable pub device_is_valid : ℕ → World → Option Bool
unfolding device_listed
device_is_valid d w = device_listed w.adapter_list d false w

unfoldable pub connection_is_valid : ℕ → World → Option Bool
unfolding device_listed
connection_is_valid c w = device_listed w.adapter_list c false w

-- Each adapter that lists the device sets the answer anew.
abbrev pub connected_at : Adapter → ℕ → Bool → World → Option Bool
connected_at ad c answer w =
    if elem c ad.devices then (do dev ← w.devices c; some (is_connected dev.state)) else some answer

unfoldable pub connected_from : List ℕ → ℕ → Bool → World → Option Bool
connected_from [] c answer w = some answer
connected_from (a ∷ al) c answer w = do
  ad ← w.adapters a
  answer' ← connected_at ad c answer w
  connected_from al c answer' w

unfoldable pub connection_is_connected : ℕ → World → Option Bool
unfolding connected_from
connection_is_connected c w = connected_from w.adapter_list c false w
