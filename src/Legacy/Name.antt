-- ===== src/Legacy/Name.antt =====
-- The name of a device in an advertising report: `parse_name` of bluez/gattlib_adapter.c.
pub mod Fields
pub mod Bounds
use gattlibcpp.Base.{
  ℕ, zero, suc, ◌+◌, ◌-◌, Bool, true, false, ◌||◌, Option, none, some, List, [], ◌∷◌, ◌==◌, ltb,
  if◌then◌else◌, ◌>>=◌, drop,
}
use gattlibcpp.World.{Text}

-- A byte of the memory from a pointer on; behind its end is a fault.
abbrev pub byte : List ℕ → ℕ → Option ℕ
byte [] i = none
byte (b ∷ bs) zero = some b
byte (b ∷ bs) (suc i) = byte bs i

-- The bytes that `strndup(s, n)` copies: up to a NUL, and `n` at most.
unfoldable pub copied_until : ℕ → List ℕ → Option Text
copied_until zero s = some []
copied_until (suc n) [] = none
copied_until (suc n) (c ∷ s) =
    let rest = copied_until n s in if c == 0 then some [] else do text ← rest; some (c ∷ text)

-- `strndup`; NULL where there is no memory.
abbrev pub strndup : Bool → ℕ → List ℕ → Option (Option Text)
strndup room n s = do text ← copied_until n s; some (if room then some text else none)

-- EIR_NAME_SHORT and EIR_NAME_COMPLETE
abbrev pub is_name : ℕ → Bool
is_name kind = (kind == 8) || (kind == 9)

abbrev pub name_of : Bool → List ℕ → ℕ → ℕ → Option (Option Text)
name_of room data' size name_len =
    if ltb size name_len then some none else strndup room name_len (drop 2 data')

-- The loop over the fields from `data` on, where `offset` bytes were passed; each field takes two bytes
-- at least, so `size` rounds are enough.
unfoldable pub parse_from : ℕ → Bool → List ℕ → ℕ → ℕ → Option (Option Text)
unfolding copied_until
parse_from zero room data' size offset = none
parse_from (suc fuel) room data' size offset =
    if ltb offset size
    then (do
      field_len ← byte data' 0
      let rest = parse_from fuel room (drop (suc field_len) data') size (offset + suc field_len)
      if (field_len == 0) || ltb size (offset + field_len) then some none else do
        kind ← byte data' 1
        if is_name kind then name_of room data' size (field_len - 1) else rest)
    else some none

-- `parse_name`: a fault, NULL or the name.
unfoldable pub parse_name : Bool → List ℕ → ℕ → Option (Option Text)
unfolding parse_from
parse_name room data' size = parse_from (suc size) room data' size 0
