-- ===== src/P2p/Verify/Fingerprint.antt =====
-- verify.rs, `extract_sdp_fingerprint`: the result is the least candidate, in whatever order the lines
-- stand.
use mxdx.Prelude.{
  ◌≡◌, refl, sym, ap, subst, ◌∙◌, inl, inr, Bool, true, false, List, [], ◌∷◌, Option, some, none,
  if◌then◌else◌, any, arith, Bool-cases, Option-cases,
}
use mxdx.Prelude.Bytes.{bytes_eq, bytes_eq_refl, bytes_eq→eq}
use mxdx.Prelude.Chars.{Text}
use mxdx.Prelude.Results.{ok}
use mxdx.P2p.Verify.Sdp.{
  lines, candidate_of, push_some, candidates, text_le, insert_sorted, sort, first_or_missing,
  extract_sdp_fingerprint,
}

-- The text is one of the list.
unfoldable pub among : Text → List Text → Bool
among c xs = any (λ x. bytes_eq x c) xs

text_le_refl : (s : Text) → text_le s s ≡ true
unfolding text_le
text_le_refl [] = refl
text_le_refl (c ∷ s) = ground (arith, text_le_refl s)

text_le_total : (s t : Text) → text_le s t ≡ false → text_le t s ≡ true
unfolding text_le
text_le_total [] t h = cc
text_le_total (c ∷ s) [] h = refl
text_le_total (c ∷ s) (d ∷ t) h = ground (arith, text_le_total s t)

text_le_trans : (s t u : Text) → text_le s t ≡ true → text_le t u ≡ true → text_le s u ≡ true
unfolding text_le
text_le_trans [] t u h g = refl
text_le_trans (c ∷ s) [] u h g = cc
text_le_trans (c ∷ s) (d ∷ t) [] h g = cc
text_le_trans (c ∷ s) (d ∷ t) (e ∷ u) h g = ground (arith, text_le_trans s t u)

text_le_antisym : (s t : Text) → text_le s t ≡ true → text_le t s ≡ true → bytes_eq s t ≡ true
unfolding text_le bytes_eq
text_le_antisym [] [] h g = refl
text_le_antisym [] (d ∷ t) h g = cc
text_le_antisym (c ∷ s) [] h g = cc
text_le_antisym (c ∷ s) (d ∷ t) h g = ground (arith, text_le_antisym s t)

abbrev first_of : List Text → Option Text
first_of [] = none
first_of (x ∷ xs) = some x

abbrev lesser : Text → Option Text → Text
lesser x none = x
lesser x (some y) = if text_le x y then x else y

first_of-insert_sorted :
    (x : Text) (ys : List Text) → first_of (insert_sorted x ys) ≡ some (lesser x (first_of ys))
unfolding insert_sorted
first_of-insert_sorted x [] = refl
first_of-insert_sorted x (y ∷ ys) = ground arith

-- The first of a sorted list is one of the list, and none is less.
abbrev Least : Text → List Text → Type 0
Least m xs = (among m xs ≡ true) × ((c : Text) → among c xs ≡ true → text_le m c ≡ true)

same_le : (m x c : Text) → bytes_eq x c ≡ true → text_le m x ≡ true → text_le m c ≡ true
same_le m x c h g = subst (λ t. text_le m t ≡ true) (bytes_eq→eq x c h) g

one-Least : (x : Text) → Least x (x ∷ [])
unfolding among
one-Least x =
    (ground (arith, bytes_eq_refl x), λ c h. same_le x x c (ground arith) (text_le_refl x))

next-Least :
    (x y : Text) (xs : List Text) → Least y xs → Least (if text_le x y then x else y) (x ∷ xs)
unfolding among
next-Least x y xs (a, f) = elim (Bool-cases (text_le x y)) [
  | inl t ↦
      subst (λ z. Least (if z then x else y) (x ∷ xs)) (sym t)
        (
          ground (arith, bytes_eq_refl x),
          λ c h. elim (Bool-cases (bytes_eq x c)) [
            | inl e ↦ same_le x x c e (text_le_refl x)
            | inr n ↦ text_le_trans x y c t (f c (ground arith))
          ],
        )
  | inr t ↦
      subst (λ z. Least (if z then x else y) (x ∷ xs)) (sym t)
        (
          ground (arith, a),
          λ c h. elim (Bool-cases (bytes_eq x c)) [
            | inl e ↦ same_le y x c e (text_le_total x y t)
            | inr n ↦ f c (ground arith)
          ],
        )
]

sort-Least :
    (x : Text) (xs : List Text)
    → (m : Text) × (first_of (sort (x ∷ xs)) ≡ some m) × Least m (x ∷ xs)
unfolding sort
sort-Least x [] = (x, first_of-insert_sorted x [], one-Least x)
sort-Least x (y ∷ ys) =
    let (m, q, l) = sort-Least y ys in
    (
      if text_le x m then x else m,
      first_of-insert_sorted x (sort (y ∷ ys)) ∙ ap (λ o. some (lesser x o)) q,
      next-Least x m (y ∷ ys) l,
    )

Least-same :
    (m n : Text) (xs ys : List Text)
    → ((c : Text) → among c xs ≡ among c ys)
    → Least m xs
    → Least n ys
    → m ≡ n
Least-same m n xs ys h (a, f) (b, g) =
    bytes_eq→eq m n (text_le_antisym m n (f n (h n ∙ b)) (g m (sym (h m) ∙ a)))

skipped :
    (d : Text) (o : Option Text) (cs : List Text)
    → among d cs ≡ true
    → among d (push_some o cs) ≡ true
unfolding among
skipped d none cs h = h
skipped d (some c) cs h = ground (arith, h)

dropped :
    (d c : Text) (cs : List Text)
    → among c (d ∷ cs) ≡ true
    → bytes_eq d c ≡ false
    → among c cs ≡ true
unfolding among
dropped d c cs h n = ground arith

-- A candidate comes from one of the lines.
candidate-line :
    (c : Text) (ls : List Text)
    → among c (candidates ls) ≡ true
    → (l : Text) × (d : Text) × (among l ls ≡ true)
      × (candidate_of l ≡ some d)
      × (bytes_eq d c ≡ true)
unfolding among candidates
candidate-line c [] h = cc
candidate-line c (l ∷ ls) h = elim (Option-cases (candidate_of l)) [
  | inl q ↦
      let (k, d, a, p, e) = candidate-line c ls (rw (candidates, q) at h) in
      (k, d, ground (arith, a), p, e)
  | inr (d, q) ↦ elim (Bool-cases (bytes_eq d c)) [
    | inl e ↦ (l, d, ground (arith, bytes_eq_refl l), q, e)
    | inr n ↦
        let (k, d', a, p, e) =
          candidate-line c ls (dropped d c (candidates ls) (rw (candidates, q) at h) n) in
        (k, d', ground (arith, a), p, e)
  ]
]

line-candidate :
    (l d : Text) (ls : List Text)
    → among l ls ≡ true
    → candidate_of l ≡ some d
    → among d (candidates ls) ≡ true
unfolding among candidates
line-candidate l d [] h q = cc
line-candidate l d (k ∷ ls) h q = elim (Bool-cases (bytes_eq k l)) [
  | inl e ↦
      rw (candidates, ap candidate_of (bytes_eq→eq k l e) ∙ q) (ground (arith, bytes_eq_refl d))
  | inr n ↦ skipped d (candidate_of k) (candidates ls) (line-candidate l d ls (ground arith) q)
]

candidates-imply :
    (xs ys : List Text)
    → ((l : Text) → among l xs ≡ among l ys)
    → (c : Text) → among c (candidates xs) ≡ true
    → among c (candidates ys) ≡ true
candidates-imply xs ys h c a =
    let (l, d, m, q, e) = candidate-line c xs a in
    subst (λ t. among t (candidates ys) ≡ true) (bytes_eq→eq d c e)
      (line-candidate l d ys (sym (h l) ∙ m) q)

both_ways : (a b : Bool) → (a ≡ true → b ≡ true) → (b ≡ true → a ≡ true) → a ≡ b
both_ways a b f g = ground arith

none_among : (x : Text) (xs : List Text) → ¬ (among x (x ∷ xs) ≡ among x [])
unfolding among
none_among x xs h = ground (arith, bytes_eq_refl x)

found_first : (xs : List Text) (m : Text) → first_of xs ≡ some m → first_or_missing xs ≡ ok m
found_first [] m h = cc
found_first (x ∷ xs) m h = cc

first-same :
    (xs ys : List Text)
    → ((c : Text) → among c xs ≡ among c ys)
    → first_or_missing (sort xs) ≡ first_or_missing (sort ys)
unfolding sort
first-same [] [] h = refl
first-same [] (y ∷ ys) h = absurd (none_among y ys (sym (h y)))
first-same (x ∷ xs) [] h = absurd (none_among x xs (h x))
first-same (x ∷ xs) (y ∷ ys) h =
    let (m, q, l) = sort-Least x xs in
    let (n, r, k) = sort-Least y ys in
    found_first (sort (x ∷ xs)) m q
    ∙ ap ok (Least-same m n (x ∷ xs) (y ∷ ys) h l k)
    ∙ sym (found_first (sort (y ∷ ys)) n r)

-- Two SDPs with the same lines, in whatever order and however often each stands, have the same
-- fingerprint, or both none.
pub extract_sdp_fingerprint_lem :
    (a b : Text)
    → ((l : Text) → among l (lines a) ≡ among l (lines b))
    → extract_sdp_fingerprint a ≡ extract_sdp_fingerprint b
unfolding extract_sdp_fingerprint
extract_sdp_fingerprint_lem a b h = first-same (candidates (lines a)) (candidates (lines b)) (λ c.
    both_ways (among c (candidates (lines a))) (among c (candidates (lines b)))
      (candidates-imply (lines a) (lines b) h c)
      (candidates-imply (lines b) (lines a) (λ l. sym (h l)) c))
