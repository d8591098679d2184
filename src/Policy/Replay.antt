-- ===== src/Policy/Replay.antt =====
-- policy.rs: an event that was accepted is rejected when it comes again.
use mxdx.Prelude.{
  ℕ, suc, ◌-◌, ◌<◌, ◌≡◌, ◌≢◌, refl, sym, subst, ap, ◌∙◌, inl, inr, String, str_eq_refl, Bool, true,
  false, List, [], ◌∷◌, Option, some, none, if◌then◌else◌, arith, ltb, Bool-cases,
}
use mxdx.Prelude.Results.{ok, err}
use mxdx.Policy.Engine.{
  LruCache, PolicyEngine, replay, unauthorized, check_found, check_replay, is_authorized, mark_seen,
  evaluate, authorize_user, revoke_user,
}
use mxdx.Policy.Recency.{Laws, within, without, within-suc, within-without, within-take, within-le}

-- What can be asked of the engine; an evaluation has its time, event, user and action.
pub data PolicyCall : Type 0 where
  authorized : String → PolicyCall
  revoked : String → PolicyCall
  evaluated : ℕ → String → String → String → PolicyCall

module _ {Cache : Type 0} (lru : LruCache Cache) where
  unfoldable pub after_call : PolicyCall → PolicyEngine Cache → PolicyEngine Cache
  after_call (authorized user_id) p = authorize_user lru user_id p
  after_call (revoked user_id) p = revoke_user lru user_id p
  after_call (evaluated now e user_id action) p = (evaluate lru now e user_id action p).0

  unfoldable pub after_all : List PolicyCall → PolicyEngine Cache → PolicyEngine Cache
  after_all [] p = p
  after_all (x ∷ xs) p = after_all xs (after_call x p)

-- The call comes less than `ttl` after t.
abbrev pub Soon : ℕ → ℕ → PolicyCall → Type 0
Soon t ttl (authorized u) = Unit
Soon t ttl (revoked u) = Unit
Soon t ttl (evaluated now e u a) = now - t < ttl

module _ {Cache : Type 0} (lru : LruCache Cache) (capacity : ℕ) (laws : Laws lru capacity) where
  -- The event is in the cache with its time, among the n most recent ones.
  pub record Held (e : String) (t : ℕ) (n : ℕ) (c : Cache) : Type 0 where
    pub kept : laws.peek e c ≡ some t
    pub near : within n e (laws.order c) ≡ true

  -- Taking a key out twice.
  without-front :
      (k e : String) (n : ℕ) (xs : List String)
      → k ≢ e
      → within n e xs ≡ true
      → within n e (without k (k ∷ without k xs)) ≡ true
  without-front k e n xs d h =
      ground
        (arith, str_eq_refl k, within-without n k e (without k xs) d (within-without n k e xs d h))

  put-Held :
      (k e : String) (now t n : ℕ) (c : Cache)
      → k ≢ e
      → n < capacity
      → Held e t n c
      → Held e t (suc n) (lru.put k now c)
  unfolding within
  put-Held k e now t n c d h w =
      let front : within (suc n) e (k ∷ without k (laws.order c)) ≡ true =
        ground (arith, within-without n k e (laws.order c) d w.near) in
      record {
        kept =
            laws.peek-put-other k e now c d
              (within-le (suc n) capacity e (k ∷ without k (laws.order c)) (omega arith) front)
            ∙ w.kept;
        near =
            subst (λ o. within (suc n) e o ≡ true) (sym (laws.order-put k now c))
              (within-take (suc n) capacity e _ (omega arith) front);
      }

  -- The event was seen less than the time to live ago.
  abbrev pub replayed : String → ℕ → ℕ → Cache → Bool
  replayed e now ttl c = elim (laws.peek e c) [ none ↦ false | some t ↦ ltb (now - t) ttl ]

  pub check_found-replayed :
      (now : ℕ) (e : String) (r : Cache × Option ℕ) (p : PolicyEngine Cache)
      → r.1 ≡ laws.peek e p.replay_cache
      → (check_found lru now e r p).1 ≡ replayed e now p.ttl p.replay_cache
  unfolding check_found
  check_found-replayed now e (c, none) p q = ground (arith, q)
  check_found-replayed now e (c, some t) p q = ground (arith, q)

  check_found-users :
      (now : ℕ) (e : String) (r : Cache × Option ℕ) (p : PolicyEngine Cache)
      → (check_found lru now e r p).0.authorized_users ≡ p.authorized_users
  unfolding check_found
  check_found-users now e (c, none) p = refl
  check_found-users now e (c, some t) p = ground arith

  pub check_found-ttl :
      (now : ℕ) (e : String) (r : Cache × Option ℕ) (p : PolicyEngine Cache)
      → (check_found lru now e r p).0.ttl ≡ p.ttl
  unfolding check_found
  check_found-ttl now e (c, none) p = refl
  check_found-ttl now e (c, some t) p = ground arith

  -- With a cache that behaves as the library documents: an evaluation rejects an event as a
  -- replay exactly if it was seen less than the time to live ago, any other as unauthorized
  -- exactly if the user is not authorised, and accepts the rest.
  pub evaluate_lem :
      (now : ℕ) (e user_id action : String) (p : PolicyEngine Cache)
      → (evaluate lru now e user_id action p).1 ≡ (
          if replayed e now p.ttl p.replay_cache
          then err replay
          else if is_authorized lru user_id action p
          then ok tt
          else err unauthorized)
  unfolding evaluate check_replay is_authorized
  evaluate_lem now e user_id action p = ground (
    arith,
    check_found-replayed now e (lru.get e p.replay_cache) p (laws.get-peek e p.replay_cache),
    check_found-users now e (lru.get e p.replay_cache) p,
  )

  module _ (k e : String) (t n : ℕ) (c : Cache) (d : k ≢ e) (w : Held e t n c) where
    -- A lookup of a key that is not in the cache changes nothing.
    miss-Held : laws.peek k c ≡ none → Held e t n (lru.get k c).0
    miss-Held q = record {
      kept = laws.peek-get k e c ∙ w.kept;
      near = subst (λ o. within n e o ≡ true) (sym (laws.order-get k c ∙ rw q refl)) w.near;
    }

    hit_order :
        (s : ℕ) → laws.peek k c ≡ some s → laws.order (lru.get k c).0 ≡ k ∷ without k (laws.order c)
    hit_order s q = laws.order-get k c ∙ rw q refl

    hit-Held : (s : ℕ) → laws.peek k c ≡ some s → Held e t (suc n) (lru.get k c).0
    unfolding within
    hit-Held s q = record {
      kept = laws.peek-get k e c ∙ w.kept;
      near =
          subst (λ o. within (suc n) e o ≡ true) (sym (hit_order s q))
            (ground (arith, within-without n k e (laws.order c) d w.near));
    }

    -- An entry that has expired is dropped, and that leaves the other ones where they were.
    expired-Held : (s : ℕ) → laws.peek k c ≡ some s → Held e t n (lru.pop k (lru.get k c).0)
    expired-Held s q = record {
      kept = laws.peek-pop k e (lru.get k c).0 d ∙ laws.peek-get k e c ∙ w.kept;
      near =
          subst (λ o. within n e o ≡ true)
            (sym (laws.order-pop k (lru.get k c).0 ∙ ap (without k) (hit_order s q)))
            (without-front k e n (laws.order c) d w.near);
    }

  pub weaken-Held : (e : String) (t n : ℕ) (c : Cache) → Held e t n c → Held e t (suc n) c
  weaken-Held e t n c w = record { kept = w.kept; near = within-suc n e (laws.order c) w.near }

  module _ (now : ℕ) (k e : String) (t n : ℕ) where
    -- What was found for another event, and what becomes of this one then.
    check_found-Held :
        (r : Cache × Option ℕ) (p : PolicyEngine Cache)
        → (r.1 ≡ none → Held e t n r.0)
        → ((s : ℕ) → r.1 ≡ some s → Held e t (suc n) r.0)
        → ((s : ℕ) → r.1 ≡ some s → Held e t n (lru.pop k r.0))
        → let (p', again) = check_found lru now k r p in
          Held e t (suc n) p'.replay_cache × (again ≡ false → Held e t n p'.replay_cache)
    unfolding check_found
    check_found-Held (c, none) p miss hit out = (weaken-Held e t n c (miss refl), λ f. miss refl)
    check_found-Held (c, some s) p miss hit out = elim (Bool-cases (ltb (now - s) p.ttl)) [
      | inl y ↦ rw y (hit s refl, λ f. absurd (ground arith))
      | inr y ↦ rw y (weaken-Held e t n (lru.pop k c) (out s refl), λ f. out s refl)
    ]

    check_replay-Held :
        (p : PolicyEngine Cache)
        → k ≢ e
        → Held e t n p.replay_cache
        → let (p', again) = check_replay lru now k p in
          Held e t (suc n) p'.replay_cache × (again ≡ false → Held e t n p'.replay_cache)
    unfolding check_replay
    check_replay-Held p d w =
        let c = p.replay_cache in
        check_found-Held (lru.get k c) p
          (λ q. miss-Held k e t n c d w (sym (laws.get-peek k c) ∙ q))
          (λ s q. hit-Held k e t n c d w s (sym (laws.get-peek k c) ∙ q))
          (λ s q. expired-Held k e t n c d w s (sym (laws.get-peek k c) ∙ q))

    -- Evaluating another event moves this one back by one at most.
    pub other-Held :
        (user_id action : String) (p : PolicyEngine Cache)
        → k ≢ e
        → n < capacity
        → Held e t n p.replay_cache
        → Held e t (suc n) (evaluate lru now k user_id action p).0.replay_cache
    unfolding evaluate mark_seen
    other-Held user_id action p d h w =
        let (always, fresh) = check_replay-Held p d w in
        elim (Bool-cases (check_replay lru now k p).1) [
          | inl y ↦ rw (evaluate, y) always
          | inr y ↦
              elim (Bool-cases (is_authorized lru user_id action (check_replay lru now k p).0)) [
                | inl u ↦ rw (evaluate, y, u) (put-Held k e now t n _ d h (fresh y))
                | inr u ↦ rw (evaluate, y, u) always
              ]
        ]
