-- ===== src/Base/Options.antt =====
-- Options as results of code that may fault: `none` is a fault.
use mathlib.Core.Path.{◌≡◌, refl, subst}
use mathlib.Core.Logic.{◌⊎◌, inl, inr}
use mathlib.Core.Bool.{Bool, true, false}
use mathlib.Core.Option.{Option, none, some}
use gattlibcpp.Base.Tests.{if◌then◌else◌}

infixl 5 ◌>>=◌
abbrev pub ◌>>=◌ {ℓ κ} : {A : Type ℓ} {B : Type κ} → Option A → (A → Option B) → Option B
none >>= f = none
some a >>= f = f a

pub Option-cases {ℓ} : {A : Type ℓ} (o : Option A) → (o ≡ none) ⊎ ((a : A) × (o ≡ some a))
Option-cases none = inl refl
Option-cases (some a) = inr (a, refl)

-- What holds of a result, where there is no fault.
abbrev pub Holds {ℓ κ} : {A : Type ℓ} → (A → Type κ) → Option A → Type κ
Holds P none = Unit
Holds P (some a) = P a

pub Holds-result {ℓ κ} :
    {A : Type ℓ} (P : A → Type κ) (r : Option A) (a : A) → Holds P r → r ≡ some a → P a
Holds-result P r a h e = subst (Holds P) e h

-- A block whose first result is known to have a property.
pub Holds-bind {ℓ κ μ ν} :
    {A : Type ℓ} {B : Type κ} (P : A → Type μ) (Q : B → Type ν) (r : Option A) (f : A → Option B)
    → Holds P r
    → ((a : A) → P a → Holds Q (f a))
    → Holds Q (r >>= f)
Holds-bind P Q none f h k = tt
Holds-bind P Q (some a) f h k = k a h

-- A block whose first result is only read.
pub Holds-read {ℓ κ ν} :
    {A : Type ℓ} {B : Type κ} (Q : B → Type ν) (r : Option A) (f : A → Option B)
    → ((a : A) → r ≡ some a → Holds Q (f a))
    → Holds Q (r >>= f)
Holds-read Q none f k = tt
Holds-read Q (some a) f k = k a refl

pub Holds-if {ℓ ν} :
    {B : Type ℓ} (Q : B → Type ν) (b : Bool) (x y : Option B)
    → (b ≡ true → Holds Q x)
    → (b ≡ false → Holds Q y)
    → Holds Q (if b then x else y)
Holds-if Q true x y h k = h refl
Holds-if Q false x y h k = k refl

pub Holds-option {ℓ κ ν} :
    {A : Type ℓ} {B : Type κ} (Q : B → Type ν) (o : Option A) (x : Option B) (f : A → Option B)
    → Holds Q x
    → ((a : A) → Holds Q (f a))
    → Holds Q (elim o [ none ↦ x | some a ↦ f a ])
Holds-option Q none x f h k = h
Holds-option Q (some a) x f h k = k a
