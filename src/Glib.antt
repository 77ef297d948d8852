-- ===== src/Glib.antt =====
-- What the library relies on of GLib, which is not part of the repository: the comparison of two
-- texts without regard to ASCII case. The documentation of `g_ascii_strcasecmp` makes its zero an
-- equivalence of texts.
use gattlibcpp.Base.{◌≡◌, Bool, true}
use gattlibcpp.World.{Text}

pub record AsciiCase : Type 0 where
  -- `g_ascii_strcasecmp(a, b) == 0`
  pub same : Text → Text → Bool
  pub same_refl : (s : Text) → same s s ≡ true
  pub same_sym : (s t : Text) → same s t ≡ true → same t s ≡ true
  pub same_trans : (s t u : Text) → same s t ≡ true → same t u ≡ true → same s u ≡ true
