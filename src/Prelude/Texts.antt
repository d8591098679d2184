-- ===== src/Prelude/Texts.antt =====
-- Lists of texts: `contains`, and what pushing and filtering do to it.
use mxdx.Prelude.Lists.{any, push_back, retain}
use Prim.Native.String.{String}
use mathlib.Core.Path.{◌≡◌, ap}
use mathlib.Core.Bool.{Bool, true, ◌&&◌, ◌||◌}
use mathlib.Core.List.{List, [], ◌∷◌}
use native.Mathlib.Omega.{arith}
use text.Mathlib.Text.{◌==◌ as str_eq}
use text.Mathlib.TextEquality.{eq_iff as str_eq_iff}

-- `contains`
unfoldable pub contains : List String → String → Bool
contains xs x = any (λ y. str_eq y x) xs

pub contains-push_back :
    (xs : List String) (y x : String) → contains (push_back xs y) x ≡ (contains xs x || str_eq y x)
unfolding contains
contains-push_back [] y x = ground arith
contains-push_back (z ∷ xs) y x = ground (arith, contains-push_back xs y x)

same_test : (p : String → Bool) (z x : String) → str_eq z x ≡ true → p z ≡ p x
same_test p z x h = ap p ((str_eq_iff z x).0 h)

pub contains-retain :
    (p : String → Bool) (xs : List String) (x : String)
    → contains (retain p xs) x ≡ (p x && contains xs x)
unfolding contains
contains-retain p [] x = ground arith
contains-retain p (z ∷ xs) x = ground (arith, same_test p z x, contains-retain p xs x)
