-- ===== src/Legacy/Name/Fields.antt =====
-- What `parse_name` finds in a report that is made of fields (bluez/gattlib_adapter.c).
use gattlibcpp.Base.{
  ℕ, zero, suc, ◌+◌, ◌-◌, ◌≤◌, ◌<◌, ◌≡◌, refl, ap, ◌∙◌, true, false, Option, none, some, List, [],
  ◌∷◌, ◌++◌, ◌==◌, ◌>>=◌, ltb, if◌then◌else◌, length, length-append, drop, Bool-cases, inl, inr,
  arith,
}
use mathlib.Core.List.{append_assoc}
use gattlibcpp.World.{Text}
use gattlibcpp.Legacy.Name.{copied_until, is_name, parse_from, parse_name}

-- A field of a report, by its kind and its bytes.
pub record Field : Type 0 where
  pub kind : ℕ
  pub payload : List ℕ

abbrev pub encode : List Field → List ℕ
encode [] = []
encode (f ∷ fs) = suc (length f.payload) ∷ f.kind ∷ (f.payload ++ encode fs)

-- The bytes before the first NUL.
abbrev pub until_nul : List ℕ → Text
until_nul [] = []
until_nul (c ∷ cs) = if c == 0 then [] else c ∷ until_nul cs

-- The name in the first field that has one.
abbrev pub first_name : List Field → Option Text
first_name [] = none
first_name (f ∷ fs) = if is_name f.kind then some (until_nul f.payload) else first_name fs

copied_until-append : (p after : List ℕ) → copied_until (length p) (p ++ after) ≡ some (until_nul p)
unfolding copied_until
copied_until-append [] after = refl
copied_until-append (c ∷ p) after = elim (Bool-cases (c == 0)) [
  | inl nul ↦ rw nul refl
  | inr more ↦ rw (copied_until-append p after, more) refl
]

pub drop-append : (p after : List ℕ) → drop (length p) (p ++ after) ≡ after
drop-append [] after = refl
drop-append (c ∷ p) after = drop-append p after

-- One round over a field of `n` bytes.
module _ (fuel n kind size offset : ℕ) (rest : List ℕ) (fits : offset + suc n ≤ size) where
  pub round_name :
      is_name kind ≡ true
      → parse_from (suc fuel) true (suc n ∷ kind ∷ rest) size offset
        ≡ (do text ← copied_until n rest; some (some text))
  unfolding parse_from
  round_name e =
      let inside : ltb offset size ≡ true = ground arith in
      let whole : ltb size (offset + suc n) ≡ false = ground arith in
      let len : suc n - 1 ≡ n = omega arith in
      let short : ltb size n ≡ false = ground arith in
      let more : (suc n == 0) ≡ false = ground arith in rw (inside, more, whole, e, len, short) refl

  pub round_other :
      is_name kind ≡ false
      → parse_from (suc fuel) true (suc n ∷ kind ∷ rest) size offset
        ≡ parse_from fuel true (drop n rest) size (offset + suc (suc n))
  unfolding parse_from
  round_other e =
      let inside : ltb offset size ≡ true = ground arith in
      let whole : ltb size (offset + suc n) ≡ false = ground arith in
      let more : (suc n == 0) ≡ false = ground arith in rw (inside, more, whole, e) refl

-- What may follow the fields of a report: nothing, or zeros.
abbrev pub Padding : List ℕ → Type 0
Padding [] = Unit {0}
Padding (c ∷ cs) = c ≡ 0

tail_assoc : (p e pad after : List ℕ) → ((p ++ e) ++ pad) ++ after ≡ p ++ ((e ++ pad) ++ after)
tail_assoc p e pad after = simp append_assoc

parse_from-encode :
    (fs : List Field) (pad after : List ℕ) (size offset fuel : ℕ)
    → Padding pad
    → offset + length (encode fs ++ pad) ≡ size
    → length (encode fs ++ pad) < fuel
    → parse_from fuel true ((encode fs ++ pad) ++ after) size offset ≡ some (first_name fs)
unfolding parse_from
parse_from-encode fs pad after size offset zero h e f = absurd (omega arith)
parse_from-encode [] [] after size offset (suc fuel) h e f =
    let over : ltb offset size ≡ false = ground arith in rw over refl
parse_from-encode [] (c ∷ pad) after size offset (suc fuel) h e f =
    let inside : ltb offset size ≡ true = ground arith in rw (inside, h) refl
parse_from-encode (g ∷ fs) pad after size offset (suc fuel) h e f =
    let n = length g.payload in
    let tail = (encode fs ++ pad) ++ after in
    let split = length-append g.payload (encode fs) in
    let whole = length-append (g.payload ++ encode fs) pad in
    let after_fields = length-append (encode fs) pad in
    let fits : offset + suc n ≤ size = omega arith in
    let shape =
      ap (λ r. parse_from (suc fuel) true (suc n ∷ g.kind ∷ r) size offset)
        (tail_assoc g.payload (encode fs) pad after) in
    elim (Bool-cases (is_name g.kind)) [
      | inl named ↦
          shape
          ∙ round_name fuel n g.kind size offset (g.payload ++ tail) fits named
          ∙ rw (copied_until-append g.payload tail, named) refl
      | inr other ↦
          shape
          ∙ round_other fuel n g.kind size offset (g.payload ++ tail) fits other
          ∙ ap (λ r. parse_from fuel true r size (offset + suc (suc n)))
              (drop-append g.payload tail)
          ∙ parse_from-encode fs pad after size (offset + suc (suc n)) fuel h (omega arith)
              (omega arith)
          ∙ rw other refl
    ]

-- A report that is made of fields, then zeros or nothing, has the name of the first field of the kinds
-- for names, up to a NUL, or none, whatever stands behind the report in memory and
-- where there is memory for the copy.
pub parse_name-encode :
    (fs : List Field) (pad after : List ℕ)
    → Padding pad
    → parse_name true ((encode fs ++ pad) ++ after) (length (encode fs ++ pad))
      ≡ some (first_name fs)
unfolding parse_name
parse_name-encode fs pad after h =
    parse_from-encode fs pad after (length (encode fs ++ pad)) 0 (suc (length (encode fs ++ pad))) h
      (omega arith) (omega arith)
