-- ===== src/P2p/Driver/Storm.antt =====
-- driver.rs, `record_decrypt_failure`: the rate limit on frames that do not decrypt.
use mxdx.Prelude.{
  ℕ, ◌+◌, ◌-◌, ◌≤◌, ◌≡◌, refl, List, [], ◌∷◌, ◌++◌, arith, sym, ap, subst, ◌∙◌, inl, inr,
  Bool-cases, push_back, length, length-append, leb, ltb, retain,
}
use mathlib.Core.List.{append-nil}
use mxdx.P2p.Driver.Types.{DriverTask, decrypt_failure_rate_per_sec}
use mxdx.P2p.Driver.Guards.{drop_old, record_decrypt_failure}

-- The times rise along the list, from the bound on.
abbrev pub IsRising : ℕ → List ℕ → Type 0
IsRising least [] = Unit {0}
IsRising least (t ∷ ts) = (least ≤ t) × IsRising t ts

abbrev pub since : ℕ → List ℕ → List ℕ
since bound = retain (λ t. leb bound t)

since-IsRising :
    (bound least : ℕ) (ts : List ℕ) → bound ≤ least → IsRising least ts → since bound ts ≡ ts
since-IsRising bound least [] h r = refl
since-IsRising bound least (t ∷ ts) h r = ground (arith, since-IsRising bound t ts)

-- On rising times the loop that drops from the front is a filter.
drop_old-IsRising :
    (bound least : ℕ) (ts : List ℕ) → IsRising least ts → drop_old bound ts ≡ since bound ts
unfolding drop_old
drop_old-IsRising bound least [] r = refl
drop_old-IsRising bound least (t ∷ ts) r =
    ground (arith, drop_old-IsRising bound t ts, since-IsRising bound t ts)

IsRising-le :
    (least lower : ℕ) (ts : List ℕ) → lower ≤ least → IsRising least ts → IsRising lower ts
IsRising-le least lower [] h r = tt
IsRising-le least lower (t ∷ ts) h r = (omega (arith, r.0), r.1)

IsRising-since :
    (bound least : ℕ) (ts : List ℕ) → IsRising least ts → IsRising least (since bound ts)
IsRising-since bound least [] r = tt
IsRising-since bound least (t ∷ ts) r = elim (Bool-cases (leb bound t)) [
  | inl y ↦ rw y (r.0, IsRising-since bound t ts r.1)
  | inr n ↦ rw n (IsRising-le t least (since bound ts) r.0 (IsRising-since bound t ts r.1))
]

IsRising-append : (least : ℕ) (ts us : List ℕ) → IsRising least (ts ++ us) → IsRising least ts
IsRising-append least [] us r = tt
IsRising-append least (t ∷ ts) us r = (r.0, IsRising-append t ts us r.1)

since-since :
    (old bound : ℕ) (ts : List ℕ) → old ≤ bound → since bound (since old ts) ≡ since bound ts
since-since old bound [] h = refl
since-since old bound (t ∷ ts) h = ground (arith, since-since old bound ts h)

since-push_back :
    (t : ℕ) (ts : List ℕ) → since (t - 1000) (push_back ts t) ≡ push_back (since (t - 1000) ts) t
since-push_back t [] = ground arith
since-push_back t (u ∷ us) = ground (arith, since-push_back t us)

append-push_back : (ts : List ℕ) (t : ℕ) (us : List ℕ) → ts ++ t ∷ us ≡ push_back ts t ++ us
append-push_back [] t us = refl
append-push_back (u ∷ ts) t us = ap (λ l. u ∷ l) (append-push_back ts t us)

module _ {Channel Crypto : Type 0} where
  -- With the times of the failures rising and a clock of at least one second: the window then
  -- holds exactly the failures of the last second and this one, and a storm is reported exactly
  -- if these are more than three.
  pub record_decrypt_failure_lem :
      (now least : ℕ) (d : DriverTask Channel Crypto)
      → 1000 ≤ now
      → IsRising least d.last_decrypt_failures
      → let recent = since (now - 1000) d.last_decrypt_failures in
        let (d', storm) = record_decrypt_failure now d in
        (d'.last_decrypt_failures ≡ push_back recent now)
        × (storm ≡ ltb decrypt_failure_rate_per_sec (length recent + 1))
  unfolding record_decrypt_failure
  record_decrypt_failure_lem now least d h r = ground (
    arith,
    drop_old-IsRising (now - 1000) least d.last_decrypt_failures r,
    length-append (since (now - 1000) d.last_decrypt_failures) (now ∷ []),
  )

  -- The driver after failures at these times.
  abbrev pub after_failures : List ℕ → DriverTask Channel Crypto → DriverTask Channel Crypto
  after_failures [] d = d
  after_failures (t ∷ ts) d = after_failures ts (record_decrypt_failure t d).0

  -- A driver whose window holds those of the past failures that are not before the bound.
  storm_counts_from :
      (past ts : List ℕ) (bound now : ℕ) (d : DriverTask Channel Crypto)
      → d.last_decrypt_failures ≡ since bound past
      → IsRising 0 past
      → IsRising (bound + 1000) (push_back ts now)
      → IsRising 0 (past ++ push_back ts now)
      → (record_decrypt_failure now (after_failures ts d)).1
        ≡ ltb decrypt_failure_rate_per_sec (length (since (now - 1000) (past ++ ts)) + 1)
  storm_counts_from past [] bound now d w p r q =
      (record_decrypt_failure_lem now 0 d (omega (arith, r.0))
        (subst (IsRising 0) (sym w) (IsRising-since bound 0 past p))).1
      ∙ rw (w, since-since bound (now - 1000) past (omega (arith, r.0)), append-nil past) refl
  storm_counts_from past (t ∷ ts) bound now d w p r q =
      let rising = subst (IsRising 0) (sym w) (IsRising-since bound 0 past p) in
      let kept = (record_decrypt_failure_lem t 0 d (omega (arith, r.0)) rising).0 in
      let later : past ++ t ∷ push_back ts now ≡ push_back past t ++ push_back ts now =
        append-push_back past t (push_back ts now) in
      storm_counts_from (push_back past t) ts (t - 1000) now (record_decrypt_failure t d).0
        (kept
          ∙ rw (w, since-since bound (t - 1000) past (omega (arith, r.0)))
              (sym (since-push_back t past)))
        (IsRising-append 0 (push_back past t) (push_back ts now) (subst (IsRising 0) later q))
        (IsRising-le t (t - 1000 + 1000) (push_back ts now) (omega (arith, r.0)) r.1)
        (subst (IsRising 0) later q)
      ∙ rw (append-push_back past t ts) refl

  -- From a driver with no failures in its window, on a clock of at least one second that never
  -- goes back: after any frames that do not decrypt, the next such one is reported as a storm
  -- exactly if with it there are more than three in the last second.
  pub storm_counts :
      (ts : List ℕ) (now : ℕ) (d : DriverTask Channel Crypto)
      → d.last_decrypt_failures ≡ []
      → IsRising 1000 (push_back ts now)
      → (record_decrypt_failure now (after_failures ts d)).1
        ≡ ltb 3 (length (since (now - 1000) ts) + 1)
  storm_counts ts now d w r =
      storm_counts_from [] ts 0 now d w tt r (IsRising-le 1000 0 (push_back ts now) (omega arith) r)
