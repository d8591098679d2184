-- ===== src/Prelude/Chars.antt =====
-- `&str` as the list of its characters, for code that takes texts apart.
use Prim.Native.Nat.{ℕ}
use mathlib.Core.Path.{◌≡◌, refl, ap, ◌∙◌}
use mathlib.Core.Bool.{Bool, true, false, ◌&&◌, ◌||◌}
use mathlib.Core.List.{List, [], ◌∷◌, ◌++◌}
use native.Mathlib.Omega.{arith}
use mxdx.Prelude.Tests.{◌==◌}

-- A character is the number that Unicode gives it; of a text in UTF-8 its bytes serve as well.
abbrev pub Text : Type 0
Text = List ℕ

unfoldable pub starts_with : Text → Text → Bool
starts_with s [] = true
starts_with [] (p ∷ ps) = false
starts_with (c ∷ cs) (p ∷ ps) = c == p && starts_with cs ps

-- `contains` of a character
unfoldable pub contains_char : ℕ → Text → Bool
contains_char x [] = false
contains_char x (c ∷ cs) = c == x || contains_char x cs

-- `contains` of a text
unfoldable pub contains_text : Text → Text → Bool
contains_text [] p = starts_with [] p
contains_text (c ∷ cs) p = starts_with (c ∷ cs) p || contains_text cs p

pub starts_with-append : (p s : Text) → starts_with (p ++ s) p ≡ true
unfolding starts_with
starts_with-append [] s = refl
starts_with-append (x ∷ p) s = ground (arith, starts_with-append p s)

-- A text that starts with another is that one and a rest.
pub starts_with-rest : (s p : Text) → starts_with s p ≡ true → (rest : Text) × (s ≡ p ++ rest)
unfolding starts_with
starts_with-rest s [] h = (s, refl)
starts_with-rest [] (x ∷ p) h = cc
starts_with-rest (c ∷ s) (x ∷ p) h =
    let (rest, q) = starts_with-rest s p (ground arith) in
    let same : c ≡ x = ground arith in (rest, ap (λ z. z ∷ s) same ∙ ap (λ t. x ∷ t) q)

contains_start : (s p : Text) → starts_with s p ≡ true → contains_text s p ≡ true
unfolding contains_text
contains_start [] p h = h
contains_start (c ∷ s) p h = ground arith

-- A text holds what stands between any two parts of it.
pub contains_text-append : (xs p ys : Text) → contains_text (xs ++ (p ++ ys)) p ≡ true
unfolding contains_text
contains_text-append [] p ys = contains_start (p ++ ys) p (starts_with-append p ys)
contains_text-append (x ∷ xs) p ys = ground (arith, contains_text-append xs p ys)

pub contains_char-append : (xs ys : Text) (x : ℕ) → contains_char x (xs ++ x ∷ ys) ≡ true
unfolding contains_char
contains_char-append [] ys x = ground arith
contains_char-append (c ∷ xs) ys x = ground (arith, contains_char-append xs ys x)
