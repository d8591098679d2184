-- ===== src/Policy/Recency.antt =====
-- policy.rs: the documented behaviour of the library lru, and how far one use moves a key.
use mxdx.Prelude.{
  ℕ, zero, suc, ◌≤◌, ◌≡◌, ◌≢◌, String, str_eq, str_eq_iff, Bool, true, false, not, ◌||◌, List, [],
  ◌∷◌, Option, some, none, retain, take, arith,
}
use mxdx.Policy.Engine.{LruCache}

-- The key is one of the first n.
unfoldable pub within : ℕ → String → List String → Bool
within zero k xs = false
within (suc n) k [] = false
within (suc n) k (x ∷ xs) = str_eq x k || within n k xs

abbrev pub without : String → List String → List String
without k = retain (λ x. not (str_eq x k))

-- A cache of at most `capacity` entries. `order` has its keys, the most recent first. A use of a
-- key moves it to the front, and only the keys beyond the capacity are dropped from the end.
pub record Laws {Cache : Type 0} (lru : LruCache Cache) (capacity : ℕ) : Type 0 where
  pub peek : String → Cache → Option ℕ
  pub order : Cache → List String
  pub get-peek : (k : String) (c : Cache) → (lru.get k c).1 ≡ peek k c
  pub peek-get : (k j : String) (c : Cache) → peek j (lru.get k c).0 ≡ peek j c
  pub order-get :
      (k : String) (c : Cache)
      → order (lru.get k c).0
        ≡ (elim (peek k c) [ none ↦ order c | some t ↦ k ∷ without k (order c) ])
  pub peek-pop : (k j : String) (c : Cache) → k ≢ j → peek j (lru.pop k c) ≡ peek j c
  pub order-pop : (k : String) (c : Cache) → order (lru.pop k c) ≡ without k (order c)
  pub peek-put : (k : String) (t : ℕ) (c : Cache) → peek k (lru.put k t c) ≡ some t
  pub peek-put-other :
      (k j : String) (t : ℕ) (c : Cache)
      → k ≢ j
      → within capacity j (k ∷ without k (order c)) ≡ true
      → peek j (lru.put k t c) ≡ peek j c
  pub order-put :
      (k : String) (t : ℕ) (c : Cache)
      → order (lru.put k t c) ≡ take capacity (k ∷ without k (order c))

pub within-suc :
    (n : ℕ) (j : String) (xs : List String) → within n j xs ≡ true → within (suc n) j xs ≡ true
unfolding within
within-suc zero j xs h = cc
within-suc (suc n) j [] h = h
within-suc (suc n) j (x ∷ xs) h = ground (arith, within-suc n j xs)

pub within-without :
    (n : ℕ) (k j : String) (xs : List String)
    → k ≢ j
    → within n j xs ≡ true
    → within n j (without k xs) ≡ true
unfolding within
within-without zero k j xs d h = cc
within-without (suc n) k j [] d h = h
within-without (suc n) k j (x ∷ xs) d h = ground (
  arith,
  str_eq_iff x k,
  str_eq_iff x j,
  within-without n k j xs d,
  within-suc n j (without k xs),
)

pub within-take :
    (n m : ℕ) (j : String) (xs : List String)
    → n ≤ m
    → within n j xs ≡ true
    → within n j (take m xs) ≡ true
unfolding within
within-take zero m j xs l h = h
within-take (suc n) zero j xs l h = absurd (omega arith)
within-take (suc n) (suc m) j [] l h = h
within-take (suc n) (suc m) j (x ∷ xs) l h = ground (arith, within-take n m j xs)

pub within-le :
    (n m : ℕ) (j : String) (xs : List String) → n ≤ m → within n j xs ≡ true → within m j xs ≡ true
unfolding within
within-le zero m j xs l h = cc
within-le (suc n) zero j xs l h = absurd (omega arith)
within-le (suc n) (suc m) j [] l h = h
within-le (suc n) (suc m) j (x ∷ xs) l h = ground (arith, within-le n m j xs)
