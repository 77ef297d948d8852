-- ===== src/DbusError.antt =====
-- `GATTLIB_ERROR_DBUS_WITH_ERROR` of include/gattlib.h, and the errors that D-Bus calls report.
use Prim.Native.Nat.{bit_or, bit_or-bitwise, digits, max}
use gattlibcpp.Base.{
  ℕ, zero, suc, ◌*◌, ◌/◌, ◌%◌, ◌^◌, ◌≤◌, ◌≢◌, Bool, true, false, ◌&&◌, ◌==◌, Option, none, some, [],
  ◌∷◌, arith,
}
use gattlibcpp.World.{Text}
use gattlibcpp.World.Codes.{success, error_dbus}

pub record GError : Type 0 where
  pub domain : ℕ  -- GQuark, 32 bits
  pub code : ℕ  -- gint, as a 32-bit pattern
  pub message : Text

-- (GATTLIB_ERROR_DBUS | (error->domain << 8) | (error->code))
unfoldable pub dbus_error : GError → ℕ
dbus_error e = bit_or (bit_or error_dbus (e.domain * 256 % 2 ^ 32)) e.code

-- `strncmp(s, p, strlen(p)) == 0`
abbrev pub has_prefix : Text → Text → Bool
has_prefix [] s = true
has_prefix (c ∷ p) [] = false
has_prefix (c ∷ p) (d ∷ s) = c == d && has_prefix p s

-- The code for a call that gave no proxy, with or without an error.
unfoldable pub dbus_failure : Option GError → ℕ
dbus_failure none = error_dbus
dbus_failure (some e) = dbus_error e

or_digits : ℕ → ℕ → ℕ → ℕ
or_digits n a b = digits (λ b. b) max n a b

bit_or-le_fuel : (n a b : ℕ) → a ≤ n → a ≤ or_digits n a b
unfolding or_digits
bit_or-le_fuel zero a b h = omega arith
bit_or-le_fuel (suc n) zero b h = omega arith
bit_or-le_fuel (suc n) (suc a) b h =
    omega (arith, bit_or-le_fuel n (suc a / 2) (b / 2) (omega arith))

pub le-bit_or : (a b : ℕ) → a ≤ bit_or a b
unfolding or_digits
le-bit_or a b = omega (arith, bit_or-bitwise a b, bit_or-le_fuel a a b)

-- A failed D-Bus call never answers GATTLIB_SUCCESS.
pub dbus_error-ne-success : (e : GError) → dbus_error e ≢ success
unfolding dbus_error
dbus_error-ne-success e p =
    let inner = le-bit_or error_dbus (e.domain * 256 % 2 ^ 32) in
    let outer = le-bit_or (bit_or error_dbus (e.domain * 256 % 2 ^ 32)) e.code in omega arith

pub dbus_failure-ne-success : (o : Option GError) → dbus_failure o ≢ success
unfolding dbus_failure
dbus_failure-ne-success none p = omega arith
dbus_failure-ne-success (some e) p = dbus_error-ne-success e p
