-- ===== src/Legacy/Name/Bounds.antt =====
-- How far `parse_name` reads (bluez/gattlib_adapter.c).
use gattlibcpp.Base.{
  ℕ, zero, suc, ◌+◌, ◌-◌, ◌≤◌, ◌<◌, ◌≡◌, ◌≢◌, refl, ap, ◌∙◌, Bool, true, false, Option, none, some,
  List, [], ◌∷◌, ◌++◌, ◌==◌, ltb, if◌then◌else◌, length, length-append, drop, Bool-cases, inl, inr,
  arith,
}
use mathlib.Core.List.{append_assoc}
use gattlibcpp.World.{Text}
use gattlibcpp.Legacy.Name.{copied_until, is_name, name_of, parse_from, parse_name}
use gattlibcpp.Legacy.Name.Fields.{
  Field, encode, until_nul, first_name, round_name, round_other, drop-append,
}

copied_until_total : (n : ℕ) (s : List ℕ) → n ≤ length s → (t : Text) × (copied_until n s ≡ some t)
unfolding copied_until
copied_until_total zero s h = ([], refl)
copied_until_total (suc n) [] h = absurd (omega arith)
copied_until_total (suc n) (c ∷ s) h =
    let (t, e) = copied_until_total n s (omega arith) in
    elim (Bool-cases (c == 0)) [
      | inl nul ↦ ([], rw nul refl)
      | inr more ↦ (c ∷ t, rw (e, more) refl)
    ]

name_of_total :
    (room : Bool) (b c size n : ℕ) (s : List ℕ)
    → n ≤ length s
    → (r : Option Text) × (name_of room (b ∷ c ∷ s) size n ≡ some r)
name_of_total room b c size n s h = elim (Bool-cases (ltb size n)) [
  | inl long ↦ (none, rw long refl)
  | inr short ↦
      let (t, e) = copied_until_total n s h in (if room then some t else none, rw (short, e) refl)
]

length-drop : (n : ℕ) (s : List ℕ) → length s ≤ n + length (drop n s)
length-drop zero s = omega arith
length-drop (suc n) [] = omega arith
length-drop (suc n) (x ∷ s) = omega (arith, length-drop n s)

-- One round ends, or goes on behind the field.
parse_from_total :
    (fuel : ℕ) (room : Bool) (s : List ℕ) (size offset : ℕ)
    → suc size ≤ offset + length s
    → size < offset + fuel
    → 0 < fuel
    → (r : Option Text) × (parse_from fuel room s size offset ≡ some r)
unfolding parse_from
parse_from_total zero room s size offset h f p = absurd (omega arith)
parse_from_total (suc fuel) room [] size offset h f p =
    let over : ltb offset size ≡ false = ground arith in (none, rw over refl)
parse_from_total (suc fuel) room (b ∷ []) size offset h f p =
    let over : ltb offset size ≡ false = ground arith in (none, rw over refl)
parse_from_total (suc fuel) room (b ∷ c ∷ s) size offset h f p =
    elim (Bool-cases (ltb offset size)) [
      | inr over ↦ (none, rw over refl)
      | inl inside ↦ elim (Bool-cases (b == 0)) [
        | inl zeros ↦ (none, rw (inside, zeros) refl)
        | inr more ↦ elim (Bool-cases (ltb size (offset + b))) [
          | inl long ↦ (none, rw (inside, more, long) refl)
          | inr fits ↦ elim (Bool-cases (is_name c)) [
            | inl named ↦
                let (r, e) = name_of_total room b c size (b - 1) s (ground arith) in
                (r, rw (inside, more, fits, named) e)
            | inr other ↦
                let left = length-drop b (c ∷ s) in
                let room_left : 0 < fuel = ground arith in
                let (r, e) =
                  parse_from_total fuel room (drop b (c ∷ s)) size (offset + suc b) (ground arith)
                    (ground arith) room_left in
                (r, rw (inside, more, fits, other) e)
          ]
        ]
      ]
    ]

-- With one readable byte behind the report, the parser ends and reads nothing further on, whatever the
-- report holds and however long it is.
pub parse_name_total :
    (room : Bool) (report : List ℕ) (size : ℕ)
    → size < length report
    → (r : Option Text) × (parse_name room report size ≡ some r)
unfolding parse_name
parse_name_total room report size h =
    parse_from_total (suc size) room report size 0 (omega arith) (omega arith) (omega arith)

-- A text without a NUL.
abbrev pub NoNul : List ℕ → Type 0
NoNul [] = Unit {0}
NoNul (c ∷ cs) = (c ≢ 0) × NoNul cs

copied_until-NoNul : (q after : List ℕ) → NoNul q → copied_until (length q) (q ++ after) ≡ some q
unfolding copied_until
copied_until-NoNul [] after h = refl
copied_until-NoNul (c ∷ q) after (n, h) =
    let more : (c == 0) ≡ false = ground arith in rw (copied_until-NoNul q after h, more) refl

at_same :
    (s : List ℕ) (size f f' o o' : ℕ)
    → f ≡ f'
    → o ≡ o'
    → parse_from f true s size o ≡ parse_from f' true s size o'
at_same s size f f' o o' e g =
    ap (λ x. parse_from x true s size o) e ∙ ap (λ x. parse_from f' true s size x) g

unnamed :
    (g : Field) (fs : List Field)
    → first_name (g ∷ fs) ≡ none
    → (is_name g.kind ≡ false) × (first_name fs ≡ none)
unnamed g fs e = elim (Bool-cases (is_name g.kind)) [
  | inl named ↦ let wrong : some (until_nul g.payload) ≡ none = rw named at e in cc
  | inr other ↦ (other, rw other at e)
]

-- Fields without a name are passed over.
parse_from-unnamed :
    (fs : List Field) (s : List ℕ) (size offset fuel : ℕ)
    → first_name fs ≡ none
    → offset + length (encode fs) ≤ size
    → parse_from (length fs + fuel) true (encode fs ++ s) size offset
      ≡ parse_from fuel true s size (offset + length (encode fs))
parse_from-unnamed [] s size offset fuel e h =
    at_same s size (0 + fuel) fuel offset (offset + 0) (omega arith) (omega arith)
parse_from-unnamed (g ∷ fs) s size offset fuel e h =
    let n = length g.payload in
    let split = length-append g.payload (encode fs) in
    let (other, later) = unnamed g fs e in
    at_same (encode (g ∷ fs) ++ s) size (suc (length fs) + fuel) (suc (length fs + fuel)) offset
      offset (omega arith) refl
    ∙ ap (λ r. parse_from (suc (length fs + fuel)) true (suc n ∷ g.kind ∷ r) size offset)
        (append_assoc g.payload (encode fs) s)
    ∙ round_other (length fs + fuel) n g.kind size offset (g.payload ++ (encode fs ++ s))
        (omega arith) other
    ∙ ap (λ r. parse_from (length fs + fuel) true r size (offset + suc (suc n)))
        (drop-append g.payload (encode fs ++ s))
    ∙ parse_from-unnamed fs s size (offset + suc (suc n)) fuel later (omega arith)
    ∙ at_same s size fuel fuel (offset + suc (suc n) + length (encode fs))
        (offset + length (encode (g ∷ fs))) refl (omega arith)

-- Every field takes two bytes.
length-le-encode : (fs : List Field) → length fs + length fs ≤ length (encode fs)
length-le-encode [] = omega arith
length-le-encode (g ∷ fs) =
    let split = length-append g.payload (encode fs) in omega (arith, length-le-encode fs)

-- A name field that the report holds all but the last byte of, behind fields without a name, is not
-- refused: the name has the byte behind the report, which is no part of it, for its last one.
pub parse_name_overrun :
    (fs : List Field) (kind : ℕ) (name after : List ℕ)
    → first_name fs ≡ none
    → is_name kind ≡ true
    → NoNul name
    → parse_name true
        (encode fs ++ suc (length name) ∷ kind ∷ (name ++ after))
        (length (encode fs) + suc (length name))
      ≡ some (some name)
unfolding parse_name
parse_name_overrun fs kind name after e named h =
    let size = length (encode fs) + suc (length name) in
    let s = suc (length name) ∷ kind ∷ (name ++ after) in
    let fuel = size - length fs in
    let pairs = length-le-encode fs in
    at_same (encode fs ++ s) size (suc size) (length fs + suc fuel) 0 0 (omega arith) refl
    ∙ parse_from-unnamed fs s size 0 (suc fuel) e (omega arith)
    ∙ round_name fuel (length name) kind size (0 + length (encode fs)) (name ++ after) (omega arith)
        named
    ∙ rw (copied_until-NoNul name after h) refl
