-- ===== src/Policy/Once.antt =====
-- policy.rs: an event that was accepted, over any calls that come after it.
use mxdx.Prelude.{
  ℕ, suc, ◌+◌, ◌-◌, ◌≤◌, ◌<◌, ◌≡◌, refl, sym, subst, ◌∙◌, inl, inr, String, str_eq, str_eq_iff,
  str_eq_refl, true, List, [], ◌∷◌, Option, some, none, arith, length, All, Bool-cases,
}
use mxdx.Prelude.Results.{Result, ok, err}
use mxdx.Policy.Engine.{
  LruCache, PolicyEngine, PolicyRejection, replay, unauthorized, check_found, check_replay,
  is_authorized, mark_seen, evaluate, authorize_user, revoke_user,
}
use mxdx.Policy.Recency.{Laws, within, without, within-take}
use mxdx.Policy.Replay.{
  PolicyCall, authorized, revoked, evaluated, after_call, after_all, Soon, Held, replayed,
  evaluate_lem, weaken-Held, other-Held, check_found-ttl,
}

not_ok : (r : PolicyRejection) → ¬ (◌≡◌ {A = Result {0, 0} PolicyRejection Unit} (err r) (ok tt))
not_ok r h = cc

module _ {Cache : Type 0} (lru : LruCache Cache) (capacity : ℕ) (laws : Laws lru capacity) where
  evaluate-ttl :
      (now : ℕ) (e user_id action : String) (p : PolicyEngine Cache)
      → (evaluate lru now e user_id action p).0.ttl ≡ p.ttl
  unfolding evaluate check_replay mark_seen
  evaluate-ttl now e user_id action p =
      ground (arith, check_found-ttl lru capacity laws now e (lru.get e p.replay_cache) p)

  found_order :
      (e : String) (t : ℕ) (c : Cache)
      → laws.peek e c ≡ some t
      → laws.order (lru.get e c).0 ≡ e ∷ without e (laws.order c)
  found_order e t c q = laws.order-get e c ∙ rw q refl

  -- The event itself, while it is remembered, is looked up and moves to the front.
  found-Held :
      (now : ℕ) (e : String) (t n : ℕ) (c : Cache)
      → Held lru capacity laws e t n c
      → Held lru capacity laws e t (suc n) (lru.get e c).0
  unfolding within
  found-Held now e t n c w = record {
    kept = laws.peek-get e e c ∙ w.kept;
    near =
        subst (λ o. within (suc n) e o ≡ true) (sym (found_order e t c w.kept))
          (ground (arith, str_eq_refl e));
  }

  evaluate-found :
      (now : ℕ) (e user_id action : String) (t n : ℕ) (r : Cache × Option ℕ)
      (p : PolicyEngine Cache)
      → lru.get e p.replay_cache ≡ r
      → r.1 ≡ some t
      → now - t < p.ttl
      → (evaluate lru now e user_id action p).0.replay_cache ≡ r.0
  unfolding evaluate check_replay check_found
  evaluate-found now e user_id action t n (c, none) p q f h = cc
  evaluate-found now e user_id action t n (c, some s) p q f h =
      rw (evaluate, check_replay, q) (ground (arith, f))

  same-Held :
      (now : ℕ) (e user_id action : String) (t n : ℕ) (p : PolicyEngine Cache)
      → now - t < p.ttl
      → Held lru capacity laws e t n p.replay_cache
      → Held lru capacity laws e t (suc n) (evaluate lru now e user_id action p).0.replay_cache
  same-Held now e user_id action t n p h w =
      subst (Held lru capacity laws e t (suc n))
        (sym (
          evaluate-found now e user_id action t n (lru.get e p.replay_cache) p refl
            (laws.get-peek e p.replay_cache ∙ w.kept) h))
        (found-Held now e t n p.replay_cache w)

  after_call-Held :
      (e : String) (t n : ℕ) (x : PolicyCall) (p : PolicyEngine Cache)
      → Soon t p.ttl x
      → n < capacity
      → Held lru capacity laws e t n p.replay_cache
      → ((after_call lru x p).ttl ≡ p.ttl)
        × Held lru capacity laws e t (suc n) (after_call lru x p).replay_cache
  unfolding after_call authorize_user revoke_user
  after_call-Held e t n (authorized u) p s h w = (refl, weaken-Held lru capacity laws e t n _ w)
  after_call-Held e t n (revoked u) p s h w = (refl, weaken-Held lru capacity laws e t n _ w)
  after_call-Held e t n (evaluated now k u a) p s h w = (
    evaluate-ttl now k u a p,
    elim (Bool-cases (str_eq k e)) [
      | inl y ↦
          subst (λ j. Held lru capacity laws e t (suc n) (evaluate lru now j u a p).0.replay_cache)
            (sym ((str_eq_iff k e).0 y)) (same-Held now e u a t n p s w)
      | inr y ↦ other-Held lru capacity laws now k e t n u a p (ground (arith, str_eq_iff k e)) h w
    ],
  )

  after_all-Held :
      (e : String) (t n ttl : ℕ) (xs : List PolicyCall) (p : PolicyEngine Cache)
      → All (Soon t ttl) xs
      → p.ttl ≡ ttl
      → n + length xs ≤ capacity
      → Held lru capacity laws e t n p.replay_cache
      → ((after_all lru xs p).ttl ≡ ttl)
        × Held lru capacity laws e t (n + length xs) (after_all lru xs p).replay_cache
  unfolding after_all
  after_all-Held e t n ttl [] p s q h w =
      (q, subst (λ m. Held lru capacity laws e t m p.replay_cache) (omega arith) w)
  after_all-Held e t n ttl (x ∷ xs) p (s, ss) q h w =
      let (q', w') =
        after_call-Held e t n x p (subst (λ m. Soon t m x) (sym q) s) (omega arith) w in
      let (q'', w'') =
        after_all-Held e t (suc n) ttl xs (after_call lru x p) ss (q' ∙ q) (omega arith) w' in
      (
        q'',
        subst
            (λ m. Held lru capacity laws e t m (after_all lru xs (after_call lru x p)).replay_cache)
            (omega arith) w'',
      )

  -- An accepted event is the most recent one, with its time.
  accepted-Held :
      (now : ℕ) (e user_id action : String) (p : PolicyEngine Cache)
      → 0 < capacity
      → (evaluate lru now e user_id action p).1 ≡ ok tt
      → Held lru capacity laws e now 1 (evaluate lru now e user_id action p).0.replay_cache
  unfolding evaluate mark_seen within
  accepted-Held now e user_id action p h f = elim (Bool-cases (check_replay lru now e p).1) [
    | inl y ↦ absurd (not_ok replay (rw (evaluate, y) at f))
    | inr y ↦ elim (Bool-cases (is_authorized lru user_id action (check_replay lru now e p).0)) [
      | inl u ↦
          rw (evaluate, y, u)
            (record {
              kept = laws.peek-put e now _;
              near =
                  subst (λ o. within 1 e o ≡ true) (sym (laws.order-put e now _))
                    (within-take 1 capacity e _ (omega arith) (ground (arith, str_eq_refl e)));
            })
      | inr u ↦ absurd (not_ok unauthorized (rw (evaluate, y, u) at f))
    ]
  ]

  replayed_by :
      (later : ℕ) (e : String) (t ttl : ℕ) (p : PolicyEngine Cache)
      → laws.peek e p.replay_cache ≡ some t
      → p.ttl ≡ ttl
      → later - t < ttl
      → replayed lru capacity laws e later p.ttl p.replay_cache ≡ true
  replayed_by later e t ttl p k q l = ground (arith, k)

  -- With a cache that behaves as the library documents: an event that was accepted is rejected as
  -- a replay if it comes again, from whoever, less than the time to live later, provided that all
  -- evaluations in between also come that soon and there are fewer calls in between than the
  -- cache has room for.
  pub accepted_once :
      (now later : ℕ) (e user_id action user_id' action' : String) (xs : List PolicyCall)
      (p : PolicyEngine Cache)
      → (evaluate lru now e user_id action p).1 ≡ ok tt
      → All (Soon now p.ttl) xs
      → length xs < capacity
      → later - now < p.ttl
      → (evaluate lru later e user_id' action'
          (after_all lru xs (evaluate lru now e user_id action p).0)).1
        ≡ err replay
  accepted_once now later e user_id action user_id' action' xs p f s h l =
      let (q, w) =
        after_all-Held e now 1 p.ttl xs (evaluate lru now e user_id action p).0 s
          (evaluate-ttl now e user_id action p) (omega arith)
          (accepted-Held now e user_id action p (omega arith) f) in
      let last = after_all lru xs (evaluate lru now e user_id action p).0 in
      evaluate_lem lru capacity laws later e user_id' action' last
      ∙ rw (replayed_by later e now p.ttl last w.kept q l) refl
