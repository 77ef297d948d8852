-- ===== src/Base/Lists.antt =====
-- Lists of addresses: membership, append and removal, as the GLib list functions document them.
use Prim.Native.Nat.{ℕ, zero, suc, ◌+◌}
use mathlib.Core.Path.{◌≡◌, refl}
use mathlib.Core.Logic.{◌≢◌}
use mathlib.Core.Bool.{Bool, true, false, ◌||◌}
use mathlib.Core.List.{List, [], ◌∷◌, ◌++◌}
use native.Mathlib.Omega.{arith}
use gattlibcpp.Base.Tests.{◌==◌, if◌then◌else◌}

module _ {ℓ} {A : Type ℓ} where
  abbrev pub length : List A → ℕ
  length [] = 0
  length (x ∷ xs) = suc (length xs)

  abbrev pub get_or : List A → ℕ → A → A
  get_or [] i d = d
  get_or (x ∷ xs) zero d = x
  get_or (x ∷ xs) (suc i) d = get_or xs i d

  abbrev pub take : ℕ → List A → List A
  take zero xs = []
  take (suc n) [] = []
  take (suc n) (x ∷ xs) = x ∷ take n xs

  abbrev pub drop : ℕ → List A → List A
  drop zero xs = xs
  drop (suc n) [] = []
  drop (suc n) (x ∷ xs) = drop n xs

  pub length-append : (xs ys : List A) → length (xs ++ ys) ≡ length xs + length ys
  length-append [] ys = omega arith
  length-append (x ∷ xs) ys = omega (arith, length-append xs ys)

-- Is the address in the list?
abbrev pub elem : ℕ → List ℕ → Bool
elem a [] = false
elem a (x ∷ xs) = (a == x) || elem a xs

-- The first occurrence is removed.
abbrev pub remove : ℕ → List ℕ → List ℕ
remove a [] = []
remove a (x ∷ xs) = if a == x then xs else x ∷ remove a xs

-- No address stands in the list twice.
abbrev pub Distinct : List ℕ → Type 0
Distinct [] = Unit {0}
Distinct (x ∷ xs) = (elem x xs ≡ false) × Distinct xs

pub elem-append : (a : ℕ) (xs ys : List ℕ) → elem a (xs ++ ys) ≡ (elem a xs || elem a ys)
elem-append a [] ys = refl
elem-append a (x ∷ xs) ys = ground (arith, elem-append a xs ys)

pub elem-snoc : (a d : ℕ) (xs : List ℕ) → elem a (xs ++ d ∷ []) ≡ (elem a xs || (a == d))
elem-snoc a d [] = ground arith
elem-snoc a d (x ∷ xs) = ground (arith, elem-snoc a d xs)

pub elem-remove_ne : (a d : ℕ) (xs : List ℕ) → a ≢ d → elem a (remove d xs) ≡ elem a xs
elem-remove_ne a d [] h = refl
elem-remove_ne a d (x ∷ xs) h = ground (arith, elem-remove_ne a d xs)

pub elem-remove_of : (a d : ℕ) (xs : List ℕ) → elem a (remove d xs) ≡ true → elem a xs ≡ true
elem-remove_of a d [] h = h
elem-remove_of a d (x ∷ xs) h = ground (arith, elem-remove_of a d xs)

pub elem-remove_self : (d : ℕ) (xs : List ℕ) → Distinct xs → elem d (remove d xs) ≡ false
elem-remove_self d [] h = refl
elem-remove_self d (x ∷ xs) h = ground (arith, elem-remove_self d xs h.1)

pub Distinct-snoc :
    (d : ℕ) (xs : List ℕ) → elem d xs ≡ false → Distinct xs → Distinct (xs ++ d ∷ [])
Distinct-snoc d [] e h = (refl, tt)
Distinct-snoc d (x ∷ xs) e h =
    (ground (arith, elem-snoc x d xs), Distinct-snoc d xs (ground arith) h.1)

pub Distinct-remove : (d : ℕ) (xs : List ℕ) → Distinct xs → Distinct (remove d xs)
Distinct-remove d [] h = tt
Distinct-remove d (x ∷ xs) h = ground (arith, Distinct-remove d xs h.1, elem-remove_of x d xs)
