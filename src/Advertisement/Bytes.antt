-- ===== src/Advertisement/Bytes.antt =====
-- What an application gets of the advertised data (dbus/gattlib_advertisement.c).
use gattlibcpp.Base.{
  ℕ, zero, suc, ◌+◌, ◌≤◌, ◌<◌, ◌≡◌, refl, Bool, true, Option, none, some, List, [], ◌∷◌, map,
  length, arith,
}
use gattlibcpp.World.{Text, Uuid, World}
use gattlibcpp.World.Codes.{success}
use gattlibcpp.Glib.{AsciiCase}
use gattlibcpp.Device.Invariant.{WellFormed}
use gattlibcpp.Validity.Place.{Place, valid-Place}
use gattlibcpp.Uuid.{string_to_uuid}
use gattlibcpp.Advertisement.{
  AdvertisementBus, AdvertisementData, ManufacturerData, Advertised, calloc, byte_at, copy_bytes,
  copy_manufacturers, service_uuid, copy_services, none_made, single_entry, first_uuid,
  advertised_services, advertised_manufacturers, get_advertisement_data_from_device,
  get_advertisement_data,
}

-- A manufacturer's entry with zeros for its bytes.
abbrev pub blank : ℕ × List ℕ → ManufacturerData
blank (id, values) = record {
  manufacturer_id = id;
  data' = some (calloc values);
  data_size = length values;
}

abbrev bytes_length : Option (List ℕ) → ℕ
bytes_length none = 0
bytes_length (some bytes) = length bytes

-- A service's entry with its bytes.
abbrev pub entry : AdvertisementBus → Text × Option (List ℕ) → AdvertisementData
entry bus (key, bytes) = record {
  uuid = service_uuid bus key;
  data' = bytes;
  data_length = bytes_length bytes;
}

-- GLib does not store a value at a NULL pointer, and there is memory for everything.
pub record Granted (bus : AdvertisementBus) : Type 0 where
  pub skips_null : (v : ℕ) (m : List ℕ) → bus.get_y v 0 m ≡ some m
  pub manufacturer_memory : bus.manufacturer_memory ≡ true
  pub manufacturer_bytes : (i : ℕ) → bus.manufacturer_bytes i ≡ true
  pub service_memory : bus.service_memory ≡ true
  pub service_bytes : (i : ℕ) → bus.service_bytes i ≡ true

byte_at-calloc : (vs : List ℕ) (i : ℕ) → i < length vs → byte_at (calloc vs) i ≡ some 0
byte_at-calloc [] i h = ground arith
byte_at-calloc (v ∷ vs) zero h = refl
byte_at-calloc (v ∷ vs) (suc i) h = byte_at-calloc vs i (omega arith)

module _ (bus : AdvertisementBus) (ok : Granted bus) where
  copy_bytes-calloc :
      (vs ws : List ℕ) (i : ℕ)
      → i + length vs ≤ length ws
      → copy_bytes bus.get_y vs i (calloc ws) ≡ some (calloc ws)
  unfolding copy_bytes
  copy_bytes-calloc [] ws i h = refl
  copy_bytes-calloc (v ∷ vs) ws i h =
      rw (byte_at-calloc ws i (omega arith), ok.skips_null v (calloc ws))
        (copy_bytes-calloc vs ws (i + 1) (omega arith))

  copy_manufacturers_lem :
      (ms : List (ℕ × List ℕ)) (i : ℕ) → copy_manufacturers bus ms i ≡ some (success, map blank ms)
  unfolding copy_manufacturers
  copy_manufacturers_lem [] i = refl
  copy_manufacturers_lem ((id, values) ∷ ms) i =
      rw
        (
          ok.manufacturer_bytes i,
          copy_bytes-calloc values values 0 (omega arith),
          copy_manufacturers_lem ms (i + 1),
        )
        refl

  copy_services_lem :
      (ss : List (Text × Option (List ℕ))) (i : ℕ)
      → copy_services bus ss i ≡ (success, map (entry bus) ss)
  unfolding copy_services
  copy_services_lem [] i = refl
  copy_services_lem ((key, none) ∷ ss) i = rw (copy_services_lem ss (i + 1)) refl
  copy_services_lem ((key, some bytes) ∷ ss) i =
      rw (ok.service_bytes i, copy_services_lem ss (i + 1)) refl

  single_entry_lem :
      (o : Option Uuid)
      → (entries : Option (List AdvertisementData)) × (count : ℕ) × (single_entry bus o
          ≡ (success, entries, count))
  single_entry_lem none = (_, _, refl)
  single_entry_lem (some uuid) = (
    some (record { uuid = uuid; data' = none; data_length = 0 } ∷ []),
    1,
    rw ok.service_memory refl,
  )

  first_uuid_lem :
      (o : Option (List Text))
      → (entries : Option (List AdvertisementData)) × (count : ℕ) × (first_uuid bus o
          ≡ (success, entries, count))
  first_uuid_lem none = (_, _, refl)
  first_uuid_lem (some []) = (_, _, refl)
  first_uuid_lem (some ([] ∷ rest)) = (_, _, refl)
  first_uuid_lem (some ((c ∷ cs) ∷ rest)) = single_entry_lem (string_to_uuid bus.parse (c ∷ cs)).1

  -- The services leave what was written of the manufacturers.
  advertised_services_lem :
      (d : ℕ) (o : Option (List (Text × Option (List ℕ)))) (out : Advertised)
      → (next : Advertised) × (advertised_services bus d o out ≡ (success, next))
        × (next.manufacturer_data ≡ out.manufacturer_data)
        × (next.manufacturer_data_count ≡ out.manufacturer_data_count)
  advertised_services_lem d none out =
      let (entries, count, f) = first_uuid_lem (bus.uuids d) in
      (
        record out { advertisement_data = some entries; advertisement_data_count = some count },
        rw f refl,
        refl,
        refl,
      )
  advertised_services_lem d (some ss) out = (
    record out {
      advertisement_data = some (some (map (entry bus) ss));
      advertisement_data_count = some (length ss);
    },
    rw (copy_services_lem ss 0, ok.service_memory) refl,
    refl,
    refl,
  )

  advertised_manufacturers_lem :
      (ms : List (ℕ × List ℕ))
      → advertised_manufacturers bus (some ms)
        ≡ some (
          success,
          record none_made {
            manufacturer_data_count = some (length ms);
            manufacturer_data = some (some (map blank ms));
          },
        )
  advertised_manufacturers_lem ms = rw (copy_manufacturers_lem ms 0, ok.manufacturer_memory) refl

-- Where GLib skips a NULL pointer and there is memory, reading the advertised data of a device that
-- has manufacturer data succeeds and reports each manufacturer with the right identifier and size, in
-- order, but all of its bytes are 0, whatever was sent.
pub get_advertisement_data_from_device-blank :
    (bus : AdvertisementBus) (ok : Granted bus) (d : ℕ) (ms : List (ℕ × List ℕ))
    → bus.manufacturer_data d ≡ some ms
    → (out : Advertised) × (get_advertisement_data_from_device bus true d ≡ some (success, out))
      × (out.manufacturer_data_count ≡ some (length ms))
      × (out.manufacturer_data ≡ some (some (map blank ms)))
unfolding get_advertisement_data_from_device
get_advertisement_data_from_device-blank bus ok d ms e =
    let (out, f, same, count) =
      advertised_services_lem bus ok d (bus.service_data d) (record none_made {
        manufacturer_data_count = some (length ms);
        manufacturer_data = some (some (map blank ms));
      }) in
    (out, rw (e, advertised_manufacturers_lem bus ok ms, f) refl, count, same)

-- Under the same conditions, a device without manufacturer data and with service data: every service
-- is reported, in order, with its bytes and their number, and with its UUID or, if that cannot be
-- parsed, an unset one.
pub get_advertisement_data_from_device-services :
    (bus : AdvertisementBus) (ok : Granted bus) (d : ℕ) (ss : List (Text × Option (List ℕ)))
    → bus.manufacturer_data d ≡ none
    → bus.service_data d ≡ some ss
    → get_advertisement_data_from_device bus true d
      ≡ some (
        success,
        record {
          advertisement_data = some (some (map (entry bus) ss));
          advertisement_data_count = some (length ss);
          manufacturer_data = some none;
          manufacturer_data_count = some 0;
        },
      )
unfolding get_advertisement_data_from_device
get_advertisement_data_from_device-services bus ok d ss e f =
    rw (e, f, copy_services_lem bus ok ss 0, ok.service_memory) refl

-- In a well-formed world, a listed device that has no proxy passes the test of
-- gattlib_get_advertisement_data all the same, and the call faults.
pub get_advertisement_data_unconnected :
    (case : AsciiCase) (w : World) (h : WellFormed case w) (c : ℕ) (p : Place c w) (wanted : Bool)
    (bus : AdvertisementBus)
    → p.device.connection.backend.device ≡ none
    → get_advertisement_data (some c) wanted bus w ≡ none
unfolding get_advertisement_data
get_advertisement_data_unconnected case w h c p wanted bus e =
    rw (valid-Place case w h c p, p.stored, e) refl
