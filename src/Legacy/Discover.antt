-- ===== src/Legacy/Discover.antt =====
-- The discovery of services, characteristics and descriptors over the BlueZ library:
-- bluez/gattlib_discover.c. A UUID that cannot be parsed stays as `malloc` left it.
use gattlibcpp.Base.{ℕ, Bool, Option, none, some, List, map, ◌==◌, if◌then◌else◌, length}
use gattlibcpp.World.{Text, Uuid}
use gattlibcpp.World.Codes.{success, error_bluez, not_supported}
use gattlibcpp.Uuid.{Parsed, string_to_uuid}

-- `struct gatt_primary`, `struct gatt_char` and `struct gatt_desc` of BlueZ.
pub record GattPrimary : Type 0 where
  pub uuid : Text
  pub start : ℕ
  pub end' : ℕ

pub record GattChar : Type 0 where
  pub uuid : Text
  pub handle : ℕ
  pub properties : ℕ
  pub value_handle : ℕ

pub record GattDesc : Type 0 where
  pub uuid : Text
  pub handle : ℕ
  pub uuid16 : ℕ

-- The entries of the arrays that the application gets; the UUID is none where it was not set.
pub record ServiceEntry : Type 0 where
  pub attr_handle_start : ℕ
  pub attr_handle_end : ℕ
  pub uuid : Option Uuid

pub record CharacteristicEntry : Type 0 where
  pub handle : ℕ
  pub properties : ℕ
  pub value_handle : ℕ
  pub uuid : Option Uuid

pub record DescriptorEntry : Type 0 where
  pub handle : ℕ
  pub uuid16 : ℕ
  pub uuid : Option Uuid

-- What BlueZ does with a request: whether it takes it, the status and the list that it calls back with,
-- none while it has not, and whether there is memory for the array.
pub record DiscoverReply {ℓ} (A : Type ℓ) : Type ℓ where
  pub taken : Bool
  pub answer : Option (ℕ × List A)
  pub memory : Bool

-- The code, none while the call waits, and what is written to the caller's variables, if anything: the
-- array, NULL is none, and its length.
abbrev pub Discovered {ℓ} : Type ℓ → Type ℓ
Discovered A = Option ℕ × Option (Option (List A) × ℕ)

-- What the callback leaves: nothing for an error; without memory NULL beside the length of the list.
abbrev pub listed {ℓ κ} :
    {A : Type ℓ} {B : Type κ} → (A → B) → Bool → ℕ → List A → Option (List B) × ℕ
listed entry memory status items =
    if status == 0
    then (if memory then (some (map entry items), length items) else (none, length items))
    else (none, 0)

-- A request, and the wait for its callback.
abbrev pub discover {ℓ κ} : {A : Type ℓ} {B : Type κ} → (A → B) → DiscoverReply A → Discovered B
discover entry reply =
    if reply.taken
    then (elim reply.answer [
      | none ↦ (none, none)
      | some (status, items) ↦ (some success, some (listed entry reply.memory status items))
    ])
    else (some error_bluez, none)

-- `primary_all_cb`, `characteristic_cb` and `char_desc_cb` for an element of the list.
abbrev pub service_entry : (Text → Parsed) → GattPrimary → ServiceEntry
service_entry parse prim = record {
  attr_handle_start = prim.start;
  attr_handle_end = prim.end';
  uuid = (string_to_uuid parse prim.uuid).1;
}

abbrev pub characteristic_entry : (Text → Parsed) → GattChar → CharacteristicEntry
characteristic_entry parse chars = record {
  handle = chars.handle;
  properties = chars.properties;
  value_handle = chars.value_handle;
  uuid = (string_to_uuid parse chars.uuid).1;
}

abbrev pub descriptor_entry : (Text → Parsed) → GattDesc → DescriptorEntry
descriptor_entry parse desc = record {
  handle = desc.handle;
  uuid16 = desc.uuid16;
  uuid = (string_to_uuid parse desc.uuid).1;
}

-- `gattlib_discover_primary`
unfoldable pub discover_primary_legacy :
    (Text → Parsed) → DiscoverReply GattPrimary → Discovered ServiceEntry
unfolding string_to_uuid
discover_primary_legacy parse reply = discover (service_entry parse) reply

-- `gattlib_discover_char_range`; BlueZ searches the range.
unfoldable pub discover_char_range_legacy :
    (Text → Parsed) → (ℕ → ℕ → DiscoverReply GattChar) → ℕ → ℕ → Discovered CharacteristicEntry
unfolding string_to_uuid
discover_char_range_legacy parse bluez start end' =
    discover (characteristic_entry parse) (bluez start end')

-- `gattlib_discover_char`
unfoldable pub discover_char_legacy :
    (Text → Parsed) → (ℕ → ℕ → DiscoverReply GattChar) → Discovered CharacteristicEntry
unfolding discover_char_range_legacy
discover_char_legacy parse bluez = discover_char_range_legacy parse bluez 0x0001 0xffff

-- `gattlib_discover_desc_range`
unfoldable pub discover_desc_range_legacy :
    (Text → Parsed) → (ℕ → ℕ → DiscoverReply GattDesc) → ℕ → ℕ → Discovered DescriptorEntry
unfolding string_to_uuid
discover_desc_range_legacy parse bluez start end' =
    discover (descriptor_entry parse) (bluez start end')

-- `gattlib_discover_desc`
unfoldable pub discover_desc_legacy :
    (Text → Parsed) → (ℕ → ℕ → DiscoverReply GattDesc) → Discovered DescriptorEntry
unfolding discover_desc_range_legacy
discover_desc_legacy parse bluez = discover_desc_range_legacy parse bluez 0x0001 0xffff

-- `gattlib_get_advertisement_data` and `gattlib_get_advertisement_data_from_mac`
abbrev pub advertisement_data_legacy : ℕ
advertisement_data_legacy = not_supported
