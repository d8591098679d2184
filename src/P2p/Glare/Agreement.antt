-- ===== src/P2p/Glare/Agreement.antt =====
-- Both peers compute the same winner.
use Prim.Native.Nat.{Ordering, compare as compare_nat}
use Prim.Native.Char.{code}
use Prim.Native.String.{compare, then}
use Prim.Native.String.compare
use text.Mathlib.TextEquality.{path_by_compare}
use mxdx.Prelude.{String, ℕ, ◌≡◌, refl, ◌⊎◌, inl, inr, ◌≢◌, arith}
use mxdx.P2p.Glare.{resolve, resolve_users, invert}

abbrev flip : Ordering → Ordering
flip Ordering.lt = Ordering.gt
flip Ordering.eq = Ordering.eq
flip Ordering.gt = Ordering.lt

flip-compare_nat : (m n : ℕ) → compare_nat n m ≡ flip (compare_nat m n)
flip-compare_nat m n = ground arith

flip-then : (o p : Ordering) → then (flip o) (flip p) ≡ flip (then o p)
flip-then Ordering.lt p = refl
flip-then Ordering.eq p = refl
flip-then Ordering.gt p = refl

-- Exchanging the texts turns the order round.
flip-compare : (s t : String) → compare t s ≡ flip (compare s t)
flip-compare String.[] String.[] = rw compare.nil-nil refl
flip-compare String.[] (String.◌∷◌ d t) = rw (compare.nil-cons d t, compare.cons-nil d t) refl
flip-compare (String.◌∷◌ c s) String.[] = rw (compare.cons-nil c s, compare.nil-cons c s) refl
flip-compare (String.◌∷◌ c s) (String.◌∷◌ d t) =
    rw (compare.cons-cons d c t s, compare.cons-cons c d s t)
      (rw (flip-compare s t, flip-compare_nat (code c) (code d))
        (flip-then (compare_nat (code c) (code d)) (compare s t)))

-- The winner depends on the two orders alone, and turns round with them unless both are ties.
invert-resolve_users :
    (users calls : Ordering)
    → (users ≢ Ordering.eq) ⊎ (calls ≢ Ordering.eq)
    → resolve_users (flip users) (flip calls) ≡ invert (resolve_users users calls)
unfolding resolve_users invert
invert-resolve_users users calls h = ground arith

-- Two invites that differ in the user or in the call: the peer, who reads the same two invites
-- with the roles exchanged, computes the opposite result, so exactly one of them wins.
pub resolve_agrees :
    (our_user_id their_user_id our_call_id their_call_id : String)
    → (our_user_id ≢ their_user_id) ⊎ (our_call_id ≢ their_call_id)
    → resolve their_user_id our_user_id their_call_id our_call_id
      ≡ invert (resolve our_user_id their_user_id our_call_id their_call_id)
unfolding resolve
resolve_agrees u v c d h =
    rw (flip-compare u v, flip-compare c d)
      (invert-resolve_users (compare u v) (compare c d) (differ h))
  where
    differ : (u ≢ v) ⊎ (c ≢ d) → (compare u v ≢ Ordering.eq) ⊎ (compare c d ≢ Ordering.eq)
    differ (inl n) = inl (λ e. n (path_by_compare u v e))
    differ (inr n) = inr (λ e. n (path_by_compare c d e))
