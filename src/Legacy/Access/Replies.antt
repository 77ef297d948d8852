-- ===== src/Legacy/Access/Replies.antt =====
-- What a device's answers and events come to (bluez/gattlib_read_write.c and bluez/gattlib_connect.c).
use gattlibcpp.Base.{
  ℕ, ◌+◌, ◌*◌, ◌^◌, ◌≡◌, refl, ap, Bool, true, Option, none, some, List, [], ◌∷◌, ◌==◌,
  if◌then◌else◌, drop, inl, inr, Bool-cases, Option-cases,
}
use gattlibcpp.World.{Uuid, Device, World}
use gattlibcpp.World.Codes.{success}
use gattlibcpp.Handler.{has_valid_handler}
use gattlibcpp.Notification.{on_gatt_notification}
use gattlibcpp.Discovery.Characteristics.{GattCharacteristic}
use gattlibcpp.Legacy.Access.{
  ReadAnswer, copy_values, read_char, get_uuid_from_handle, events_handler,
}

-- The value of the last entry, or an earlier one.
abbrev last_value : Option (List ℕ) → List (List ℕ) → Option (List ℕ)
last_value value [] = value
last_value value (e ∷ es) = last_value (some (drop 2 e)) es

-- The value of the last entry of an answer without an error.
abbrev pub value_of : ReadAnswer → Option (List ℕ)
value_of answer =
    if answer.status == 0
    then (elim answer.entries [ none ↦ none | some es ↦ last_value none es ])
    else none

copy_values_lem :
    (memory : ℕ → Bool) (ok : (i : ℕ) → memory i ≡ true) (es : List (List ℕ)) (i : ℕ)
    (value : Option (List ℕ))
    → copy_values memory es i value ≡ last_value value es
unfolding copy_values
copy_values_lem memory ok [] i value = refl
copy_values_lem memory ok (e ∷ es) i value =
    rw (ok i) (copy_values_lem memory ok es (i + 1) (some (drop 2 e)))

-- Where there is memory, a read by UUID that the device answers always answers success: with the value of
-- the last entry, or with nothing written to the buffer if the status is an error, if BlueZ decodes
-- nothing, or if there is no entry.
pub read_char_lem :
    (memory : ℕ → Bool) (ok : (i : ℕ) → memory i ≡ true) (answer : ReadAnswer)
    → read_char true memory (some answer) ≡ (some success, value_of answer)
unfolding read_char
read_char_lem memory ok answer = elim (Bool-cases (answer.status == 0)) [
  | inr failed ↦ rw failed refl
  | inl fine ↦ elim (Option-cases answer.entries) [
    | inl e ↦ rw (fine, e) refl
    | inr (es, e) ↦ rw (fine, e) (ap (λ v. (some success, v)) (copy_values_lem memory ok es 0 none))
  ]
]

-- A notification of a known handle, on a connection with a handler for notifications, faults, and so does
-- an indication on one with a handler for indications, where the address of the parameter that holds the
-- connection is no connection's address.
pub events_handler_faults :
    (c frame : ℕ) (cs : List GattCharacteristic) (low high : ℕ) (bytes : List ℕ) (w : World)
    (dev : Device) (uuid : Uuid)
    → w.devices c ≡ some dev
    → w.devices frame ≡ none
    → get_uuid_from_handle cs (low + high * 2 ^ 8) ≡ (success, some uuid)
    → has_valid_handler (some dev.connection.notification) ≡ true
    → has_valid_handler (some dev.connection.indication) ≡ true
    → (events_handler c frame cs (0x1B ∷ low ∷ high ∷ bytes) w ≡ none)
      × (events_handler c frame cs (0x1D ∷ low ∷ high ∷ bytes) w ≡ none)
unfolding events_handler on_gatt_notification
events_handler_faults c frame cs low high bytes w dev uuid e gone found notified indicated =
    (rw (e, found, notified, gone) refl, rw (e, found, indicated, gone) refl)
