-- ===== src/Advertisement.antt =====
-- The data that a device advertises: dbus/gattlib_advertisement.c.
pub mod Bytes
use gattlibcpp.Base.{
  ℕ, zero, suc, ◌+◌, Bool, true, false, Option, none, some, List, [], ◌∷◌, ◌==◌, if◌then◌else◌,
  ◌>>=◌, length,
}
use gattlibcpp.World.{Text, Uuid, unspec, World, object_unref, emit}
use gattlibcpp.World.Codes.{success, invalid_parameter, out_of_memory, device_disconnected}
use gattlibcpp.Uuid.{Parsed, string_to_uuid}
use gattlibcpp.Validity.{connection_is_valid}
use gattlibcpp.Rssi.{RssiBus, get_bluez_device_from_mac}

-- `gattlib_advertisement_data_t`; NULL data is `none`.
pub record AdvertisementData : Type 0 where
  pub uuid : Uuid
  pub data' : Option (List ℕ)
  pub data_length : ℕ

-- `gattlib_manufacturer_data_t`
pub record ManufacturerData : Type 0 where
  pub manufacturer_id : ℕ
  pub data' : Option (List ℕ)
  pub data_size : ℕ

-- What a device's proxy has: its dictionaries of manufacturer data and of service data, where the bytes
-- of a service are NULL if it has none, and its UUIDs; each may be NULL. `get_y v p m` is
-- `g_variant_get(v, "y", p)` over the memory `m`, and none is a fault. The other fields tell whether an
-- allocation, of an array or of the bytes of its i-th entry, succeeds.
pub record AdvertisementBus : Type 0 where
  pub manufacturer_data : ℕ → Option (List (ℕ × List ℕ))
  pub service_data : ℕ → Option (List (Text × Option (List ℕ)))
  pub uuids : ℕ → Option (List Text)
  pub parse : Text → Parsed
  pub get_y : ℕ → ℕ → List ℕ → Option (List ℕ)
  pub manufacturer_memory : Bool
  pub manufacturer_bytes : ℕ → Bool
  pub service_memory : Bool
  pub service_bytes : ℕ → Bool

-- What is written to the caller's four variables: nothing, or NULL, or an array. Of an array that was
-- left half written, the entries that were written.
pub record Advertised : Type 0 where
  pub advertisement_data : Option (Option (List AdvertisementData))
  pub advertisement_data_count : Option ℕ
  pub manufacturer_data : Option (Option (List ManufacturerData))
  pub manufacturer_data_count : Option ℕ

abbrev pub unwritten : Advertised
unwritten = record {
  advertisement_data = none;
  advertisement_data_count = none;
  manufacturer_data = none;
  manufacturer_data_count = none;
}

-- `calloc` of as many bytes as there are values.
abbrev pub calloc : List ℕ → List ℕ
calloc [] = []
calloc (v ∷ vs) = 0 ∷ calloc vs

-- Reading behind the end of the memory is a fault.
abbrev pub byte_at : List ℕ → ℕ → Option ℕ
byte_at [] i = none
byte_at (b ∷ bs) zero = some b
byte_at (b ∷ bs) (suc i) = byte_at bs i

-- The loop over the bytes of a manufacturer: the byte in memory, not its address, is the pointer that
-- the value is to be stored at.
unfoldable pub copy_bytes :
    (ℕ → ℕ → List ℕ → Option (List ℕ)) → List ℕ → ℕ → List ℕ → Option (List ℕ)
copy_bytes get_y [] index data' = some data'
copy_bytes get_y (v ∷ vs) index data' = do
  pointer ← byte_at data' index
  next ← get_y v pointer data'
  copy_bytes get_y vs (index + 1) next

-- The loop over the manufacturers.
unfoldable pub copy_manufacturers :
    AdvertisementBus → List (ℕ × List ℕ) → ℕ → Option (ℕ × List ManufacturerData)
unfolding copy_bytes
copy_manufacturers bus [] i = some (success, [])
copy_manufacturers bus ((id, values) ∷ rest) i =
    let others = copy_manufacturers bus rest (i + 1) in
    if bus.manufacturer_bytes i
    then (do
      bytes ← copy_bytes bus.get_y values 0 (calloc values)
      (code, entries) ← others
      some (
        code,
        record { manufacturer_id = id; data' = some bytes; data_size = length values } ∷ entries,
      ))
    else some (
      out_of_memory,
      record { manufacturer_id = id; data' = none; data_size = length values } ∷ [],
    )

-- The UUID of a service; one that cannot be parsed stays as `calloc` left it.
abbrev pub service_uuid : AdvertisementBus → Text → Uuid
service_uuid bus key = elim (string_to_uuid bus.parse key).1 [ some uuid ↦ uuid | none ↦ unspec 0 ]

-- The loop over the services.
unfoldable pub copy_services :
    AdvertisementBus → List (Text × Option (List ℕ)) → ℕ → ℕ × List AdvertisementData
unfolding string_to_uuid
copy_services bus [] i = (success, [])
copy_services bus ((key, none) ∷ rest) i =
    let (code, entries) = copy_services bus rest (i + 1) in
    (code, record { uuid = service_uuid bus key; data' = none; data_length = 0 } ∷ entries)
copy_services bus ((key, some bytes) ∷ rest) i =
    let (code, entries) = copy_services bus rest (i + 1) in
    if bus.service_bytes i
    then (
      code,
      record { uuid = service_uuid bus key; data' = some bytes; data_length = length bytes }
          ∷ entries,
    )
    else (out_of_memory, record { uuid = service_uuid bus key; data' = none; data_length = 0 } ∷ [])

-- A UUID that was parsed, as a single entry without data.
abbrev pub single_entry : AdvertisementBus → Option Uuid → ℕ × Option (List AdvertisementData) × ℕ
single_entry bus none = (success, none, 0)
single_entry bus (some uuid) =
    if bus.service_memory
    then (success, some (record { uuid = uuid; data' = none; data_length = 0 } ∷ []), 1)
    else (out_of_memory, none, 0)

-- The first UUID of the device, where there is no service data.
abbrev pub first_uuid :
    AdvertisementBus → Option (List Text) → ℕ × Option (List AdvertisementData) × ℕ
first_uuid bus none = (success, none, 0)
first_uuid bus (some []) = (success, none, 0)
first_uuid bus (some ([] ∷ rest)) = (success, none, 0)
first_uuid bus (some ((c ∷ cs) ∷ rest)) = single_entry bus (string_to_uuid bus.parse (c ∷ cs)).1

abbrev pub filled_services : Advertised → ℕ × List AdvertisementData → ℕ × Advertised
filled_services counted (code, entries) =
    if code == success
    then (success, record counted { advertisement_data = some (some entries) })
    else (code, counted)

-- The services, with what was written before.
abbrev pub advertised_services :
    AdvertisementBus → ℕ → Option (List (Text × Option (List ℕ))) → Advertised → ℕ × Advertised
advertised_services bus device none out =
    let (code, entries, count) = first_uuid bus (bus.uuids device) in
    (code, record out { advertisement_data = some entries; advertisement_data_count = some count })
advertised_services bus device (some services) out =
    let counted = record out { advertisement_data_count = some (length services) } in
    if bus.service_memory
    then filled_services counted (copy_services bus services 0)
    else (out_of_memory, counted)

abbrev pub none_made : Advertised
none_made = record unwritten { manufacturer_data = some none; manufacturer_data_count = some 0 }

-- The manufacturers; without a dictionary there are none.
abbrev pub advertised_manufacturers :
    AdvertisementBus → Option (List (ℕ × List ℕ)) → Option (ℕ × Advertised)
advertised_manufacturers bus none = some (success, none_made)
advertised_manufacturers bus (some manufacturers) =
    let counted = record none_made { manufacturer_data_count = some (length manufacturers) } in
    if bus.manufacturer_memory
    then (do
      (code, entries) ← copy_manufacturers bus manufacturers 0
      some (code, record counted { manufacturer_data = some (some entries) }))
    else some (out_of_memory, counted)

-- `get_advertisement_data_from_device`: the code, and what is written; none is a fault. `wanted` is
-- false if the caller passes NULL for the services.
unfoldable pub get_advertisement_data_from_device :
    AdvertisementBus → Bool → ℕ → Option (ℕ × Advertised)
unfolding copy_manufacturers copy_services string_to_uuid
get_advertisement_data_from_device bus false device = some (invalid_parameter, unwritten)
get_advertisement_data_from_device bus true device = do
  (code, out) ← advertised_manufacturers bus (bus.manufacturer_data device)
  some (
      if code == success
      then advertised_services bus device (bus.service_data device) out
      else (code, out))

-- `gattlib_get_advertisement_data`; the reference to the proxy is taken and given back, and a device
-- without a proxy is a fault.
unfoldable pub get_advertisement_data :
    Option ℕ → Bool → AdvertisementBus → World → Option (ℕ × Advertised × World)
unfolding get_advertisement_data_from_device connection_is_valid
get_advertisement_data none wanted bus w = some (invalid_parameter, unwritten, w)
get_advertisement_data (some c) wanted bus w = do
  valid ← connection_is_valid c w
  if valid
      then (do
        dev ← w.devices c
        proxy ← dev.connection.backend.device
        (code, out) ← get_advertisement_data_from_device bus wanted proxy
        some (code, out, emit (object_unref proxy) w))
      else some (device_disconnected, unwritten, w)

abbrev pub read_advertised :
    AdvertisementBus → Bool → ℕ → Option ℕ → World → Option (ℕ × Advertised × World)
read_advertised bus wanted code proxy w =
    if code == success
    then (do
      p ← proxy
      (answer, out) ← get_advertisement_data_from_device bus wanted p
      some (answer, out, emit (object_unref p) w))
    else some (code, unwritten, w)

-- `gattlib_get_advertisement_data_from_mac`
unfoldable pub get_advertisement_data_from_mac :
    ℕ → Text → Bool → AdvertisementBus → RssiBus → World → Option (ℕ × Advertised × World)
unfolding get_bluez_device_from_mac get_advertisement_data_from_device
get_advertisement_data_from_mac a mac wanted bus rssi_bus w = do
  (code, proxy, w1) ← get_bluez_device_from_mac a mac rssi_bus w
  read_advertised bus wanted code proxy w1
