-- ===== src/Legacy/Access/Handles.antt =====
-- Handles and UUIDs of a connection, and the writes that go by them (bluez/gattlib_connect.c and
-- bluez/gattlib_read_write.c).
use gattlibcpp.Base.{
  ℕ, ◌+◌, ◌%◌, ◌^◌, ◌<◌, ◌≡◌, ◌≢◌, refl, true, false, some, List, [], ◌∷◌, ◌++◌, ◌==◌, arith,
}
use gattlibcpp.World.Codes.{success}
use gattlibcpp.Uuid.{uuid_cmp}
use gattlibcpp.Uuid.Expand.{InRange, uuid_cmp_iff}
use gattlibcpp.Discovery.Characteristics.{GattCharacteristic}
use gattlibcpp.Legacy.Access.{
  get_uuid_from_handle, get_handle_from_uuid, WriteReply, Writes, write_char_by_handle_legacy,
  notification_start_legacy, notification_stop_legacy,
}

-- None of the characteristics has the handle or the UUID of another one.
abbrev pub Apart : GattCharacteristic → List GattCharacteristic → Type 0
Apart c [] = Unit {0}
Apart c (d ∷ ds) = (d.value_handle ≢ c.value_handle) × (uuid_cmp d.uuid c.uuid ≢ 0) × Apart c ds

-- A write that BlueZ takes and the device answers.
abbrev pub answered : ℕ → WriteReply
answered status = record { taken = true; status = some status }

module _ (before after : List GattCharacteristic) (c : GattCharacteristic) (apart : Apart c before)
    (range : InRange c.uuid) where
  uuid_cmp_self : uuid_cmp c.uuid c.uuid ≡ 0
  uuid_cmp_self = (uuid_cmp_iff c.uuid c.uuid range range).1 refl

  uuid_lem :
      (ds : List GattCharacteristic)
      → Apart c ds
      → get_uuid_from_handle (ds ++ c ∷ after) c.value_handle ≡ (success, some c.uuid)
  unfolding get_uuid_from_handle
  uuid_lem [] h =
      let same : (c.value_handle == c.value_handle) ≡ true = ground arith in rw same refl
  uuid_lem (d ∷ ds) (n, m, h) =
      let differ : (d.value_handle == c.value_handle) ≡ false = ground arith in
      rw differ (uuid_lem ds h)

  handle_lem :
      (ds : List GattCharacteristic)
      → Apart c ds
      → get_handle_from_uuid (ds ++ c ∷ after) c.uuid ≡ (success, some c.value_handle)
  unfolding get_handle_from_uuid
  handle_lem [] h =
      let same : (uuid_cmp c.uuid c.uuid == 0) ≡ true = ground (arith, uuid_cmp_self) in
      rw same refl
  handle_lem (d ∷ ds) (n, m, h) =
      let differ : (uuid_cmp d.uuid c.uuid == 0) ≡ false = ground arith in
      rw differ (handle_lem ds h)

  -- A characteristic whose handle and UUID no earlier one has: its handle gives its UUID, and its UUID
  -- gives its handle.
  pub get_uuid_from_handle-get_handle_from_uuid :
      (get_uuid_from_handle (before ++ c ∷ after) c.value_handle ≡ (success, some c.uuid))
      × (get_handle_from_uuid (before ++ c ∷ after) c.uuid ≡ (success, some c.value_handle))
  get_uuid_from_handle-get_handle_from_uuid = (uuid_lem before apart, handle_lem before apart)

  -- For such a characteristic, whose handle is not the last one, a start of its notifications and a stop
  -- write 1 and then 0, in two bytes, to the attribute behind its value, and both answer success, whatever
  -- status the device answers.
  pub notification_start_legacy-notification_stop_legacy :
      (status status' : ℕ) (ws : Writes)
      → c.value_handle + 1 < 2 ^ 16
      → (ws' : Writes) × (notification_start_legacy
            (before ++ c ∷ after)
            c.uuid
            (answered status)
            ws
          ≡ (some 0, ws'))
        × (notification_stop_legacy (before ++ c ∷ after) c.uuid (answered status') ws'
            ≡ (some 0, (c.value_handle + 1, 0 ∷ 0 ∷ []) ∷ (c.value_handle + 1, 1 ∷ 0 ∷ []) ∷ ws))
  unfolding notification_start_legacy notification_stop_legacy write_char_by_handle_legacy
  notification_start_legacy-notification_stop_legacy status status' ws small =
      let found = handle_lem before apart in
      let next : (c.value_handle + 1) % 2 ^ 16 ≡ c.value_handle + 1 = omega arith in
      ((c.value_handle + 1, 1 ∷ 0 ∷ []) ∷ ws, rw (found, next) refl, rw (found, next) refl)
