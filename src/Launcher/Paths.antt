-- ===== src/Launcher/Paths.antt =====
-- executor.rs of the launcher, `normalize_path`: the normal form of an absolute path.
use mxdx.Prelude.{
  ℕ, ◌≡◌, refl, sym, ap, ◌∙◌, inl, inr, true, false, ◌||◌, List, [], ◌∷◌, ◌++◌, ◌==◌, All, arith,
  Bool-cases,
}
use mathlib.Core.List.{append-nil}
use mxdx.Prelude.Chars.{Text, starts_with, contains_char}
use mxdx.Launcher.Executor.{
  extend, split_slashes, is_dot, is_dot_dot, is_blank, pop, add_part, add_parts, join, reverse_onto,
  normalize_path,
}

-- A component that names something: it is not blank, `.` or `..`, and no slash is in it.
pub record NormalPart (p : Text) : Type 0 where
  pub not_blank : is_blank p ≡ false
  pub not_dot : is_dot p ≡ false
  pub not_dot_dot : is_dot_dot p ≡ false
  pub no_slash : contains_char 47 p ≡ false

abbrev NoSlash : Text → Type 0
NoSlash p = contains_char 47 p ≡ false

extend-NoSlash :
    (c : ℕ) (ps : List Text) → (c == 47) ≡ false → All NoSlash ps → All NoSlash (extend c ps)
unfolding contains_char
extend-NoSlash c [] h a = (ground arith, tt)
extend-NoSlash c (p ∷ ps) h (a, more) = (ground arith, more)

split_slashes-NoSlash : (t : Text) → All NoSlash (split_slashes t)
unfolding split_slashes contains_char
split_slashes-NoSlash [] = (refl, tt)
split_slashes-NoSlash (c ∷ cs) = elim (Bool-cases (c == 47)) [
  | inl y ↦ rw y (refl, split_slashes-NoSlash cs)
  | inr n ↦ rw n (extend-NoSlash c (split_slashes cs) n (split_slashes-NoSlash cs))
]

pop-NormalPart : (cs : List Text) → All NormalPart cs → All NormalPart (pop cs)
unfolding pop
pop-NormalPart [] a = a
pop-NormalPart (c ∷ cs) (n, a) = a

new_part :
    (p : Text) → NoSlash p → (is_blank p || is_dot p) ≡ false → is_dot_dot p ≡ false → NormalPart p
new_part p s n m = record {
  not_blank = ground arith;
  not_dot = ground arith;
  not_dot_dot = m;
  no_slash = s;
}

add_part-NormalPart :
    (p : Text) (cs : List Text)
    → NoSlash p
    → All NormalPart cs
    → All NormalPart (add_part true p cs)
unfolding add_part pop
add_part-NormalPart p cs s a = elim (Bool-cases (is_blank p || is_dot p)) [
  | inl y ↦ rw y a
  | inr n ↦ elim (Bool-cases (is_dot_dot p)) [
    | inl y ↦ rw (n, y) (pop-NormalPart cs a)
    | inr m ↦ rw (n, m) (new_part p s n m, a)
  ]
]

add_parts-NormalPart :
    (ps cs : List Text) → All NoSlash ps → All NormalPart cs → All NormalPart (add_parts true ps cs)
unfolding add_parts
add_parts-NormalPart [] cs s a = a
add_parts-NormalPart (p ∷ ps) cs (s, ss) a =
    add_parts-NormalPart ps (add_part true p cs) ss (add_part-NormalPart p cs s a)

reverse_onto-All :
    (P : Text → Type 0) (xs ys : List Text) → All P xs → All P ys → All P (reverse_onto xs ys)
unfolding reverse_onto
reverse_onto-All P [] ys a b = b
reverse_onto-All P (x ∷ xs) ys (p, a) b = reverse_onto-All P xs (x ∷ ys) a (p, b)

-- Normal components are pushed one after the other.
push_all : (ps cs : List Text) → All NormalPart ps → add_parts true ps cs ≡ reverse_onto ps cs
unfolding add_parts add_part reverse_onto
push_all [] cs a = refl
push_all (p ∷ ps) cs (n, a) = rw (n.not_blank, n.not_dot, n.not_dot_dot) (push_all ps (p ∷ cs) a)

reverse_twice :
    (xs ys zs : List Text) → reverse_onto (reverse_onto xs ys) zs ≡ reverse_onto ys (xs ++ zs)
unfolding reverse_onto
reverse_twice [] ys zs = refl
reverse_twice (x ∷ xs) ys zs = reverse_twice xs (x ∷ ys) zs ∙ refl

-- Splitting a component and what follows it after a slash.
split_slashes-append : (p t : Text) → NoSlash p → split_slashes (p ++ 47 ∷ t) ≡ p ∷ split_slashes t
unfolding split_slashes contains_char
split_slashes-append [] t h = refl
split_slashes-append (c ∷ p) t h =
    let n : (c == 47) ≡ false = ground arith in rw (n, split_slashes-append p t (ground arith)) refl

split_slashes-part : (p : Text) → NoSlash p → split_slashes p ≡ p ∷ []
unfolding split_slashes contains_char
split_slashes-part [] h = refl
split_slashes-part (c ∷ p) h =
    let n : (c == 47) ≡ false = ground arith in rw (n, split_slashes-part p (ground arith)) refl

split_slashes-join :
    (p : Text) (ps : List Text) → All NormalPart (p ∷ ps) → split_slashes (join (p ∷ ps)) ≡ p ∷ ps
unfolding join
split_slashes-join p [] (n, a) = split_slashes-part p n.no_slash
split_slashes-join p (q ∷ ps) (n, a) =
    split_slashes-append p (join (q ∷ ps)) n.no_slash ∙ ap (λ l. p ∷ l) (split_slashes-join q ps a)

-- The normal form of an absolute path is a slash and components with slashes between them, none
-- of which is empty, one dot or two dots.
pub normalize_path-NormalPart :
    (path : Text)
    → starts_with path (47 ∷ []) ≡ true
    → (ps : List Text) × (normalize_path path ≡ 47 ∷ join ps) × All NormalPart ps
unfolding normalize_path
normalize_path-NormalPart path h =
    let parts = add_parts true (split_slashes path) [] in
    (
      reverse_onto parts [],
      rw (normalize_path, h) refl,
      reverse_onto-All NormalPart parts []
          (add_parts-NormalPart (split_slashes path) [] (split_slashes-NoSlash path) tt) tt,
    )

-- The normal form of a path that splits into normal components.
normal_parts :
    (t : Text) (ps : List Text)
    → split_slashes t ≡ ps
    → All NormalPart ps
    → normalize_path (47 ∷ t) ≡ 47 ∷ join ps
unfolding normalize_path split_slashes add_parts add_part starts_with reverse_onto
normal_parts t ps q a =
    ap (λ cs. 47 ∷ join (reverse_onto cs [])) (ap (λ l. add_parts true l []) q ∙ push_all ps [] a)
    ∙ ap (λ l. 47 ∷ join l) (reverse_twice ps [] [] ∙ append-nil ps)

normal_stays : (ps : List Text) → All NormalPart ps → normalize_path (47 ∷ join ps) ≡ 47 ∷ join ps
unfolding normalize_path split_slashes add_parts add_part starts_with reverse_onto join
normal_stays [] a = refl
normal_stays (p ∷ ps) a = normal_parts (join (p ∷ ps)) (p ∷ ps) (split_slashes-join p ps a) a

pub normalize_path-normalize_path :
    (path : Text)
    → starts_with path (47 ∷ []) ≡ true
    → normalize_path (normalize_path path) ≡ normalize_path path
normalize_path-normalize_path path h =
    let (ps, q, a) = normalize_path-NormalPart path h in
    ap normalize_path q ∙ normal_stays ps a ∙ sym q
