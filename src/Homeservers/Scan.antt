-- ===== src/Homeservers/Scan.antt =====
-- multi_hs.rs, `trigger_failover`: which server the search for another one picks.
use mxdx.Prelude.{
  ℕ, zero, suc, String, true, ◌++◌, ◌+◌, ◌≤◌, ◌<◌, ◌≡◌, ◌≢◌, refl, ◌⊎◌, inl, inr, ◌∙◌, ap, subst,
  false, List, [], ◌∷◌, some, get_elem?, arith,
}
use mxdx.Homeservers.Pool.{
  ServerEntry, MultiHsClient, Best, f64_max, is_down, status_of, consider, scan, start, switch_to,
  report_change, trigger_failover,
}

-- The server e at index i may take over: it is not the preferred one, it is not down, and its
-- latency has been measured.
pub record IsTarget (c : MultiHsClient) (i : ℕ) (e : ServerEntry) : Type 0 where
  pub other : i ≢ c.preferred_index
  pub up : is_down (status_of e.server c) ≡ false
  pub measured : e.latency_ms < f64_max

-- The best server is the old one, or one of the servers, which are counted from i on.
abbrev pub Found : MultiHsClient → ℕ → List ServerEntry → Best → Best → Type 0
Found c i es old new =
    (new ≡ old)
    ⊎ ((j : ℕ) × (k : ℕ) × (e : ServerEntry) × (j ≡ i + k)
        × (get_elem? es k ≡ some e)
        × IsTarget c j e
        × (new ≡ record { best_idx = some j; best_latency = e.latency_ms }))

considered :
    (c : MultiHsClient) (i : ℕ) (e : ServerEntry) (best : Best)
    → best.best_latency ≤ f64_max
    → (consider c i e best ≡ best)
      ⊎ (IsTarget c i e
          × (consider c i e best ≡ record { best_idx = some i; best_latency = e.latency_ms }))
unfolding consider
considered c i e best h = ground arith

consider-le :
    (c : MultiHsClient) (i : ℕ) (e : ServerEntry) (best : Best)
    → (consider c i e best).best_latency ≤ best.best_latency
unfolding consider
consider-le c i e best = ground arith

consider-IsTarget :
    (c : MultiHsClient) (i : ℕ) (e : ServerEntry) (best : Best)
    → IsTarget c i e
    → (consider c i e best).best_latency ≤ e.latency_ms
unfolding consider
consider-IsTarget c i e best t = ground arith

scan-le :
    (c : MultiHsClient) (i : ℕ) (es : List ServerEntry) (best : Best)
    → (scan c i es best).best_latency ≤ best.best_latency
unfolding scan
scan-le c i [] best = omega arith
scan-le c i (e ∷ es) best =
    omega (arith, scan-le c (suc i) es (consider c i e best), consider-le c i e best)

-- No server that may take over is faster than the one that the search ends with.
pub scan-IsTarget :
    (c : MultiHsClient) (i j k : ℕ) (es : List ServerEntry) (best : Best) (e : ServerEntry)
    → j ≡ i + k
    → get_elem? es k ≡ some e
    → IsTarget c j e
    → (scan c i es best).best_latency ≤ e.latency_ms
unfolding scan
scan-IsTarget c i j k [] best e h q t = cc
scan-IsTarget c i j zero (x ∷ es) best e h q t =
    ground (arith, scan-le c (suc i) es (consider c i x best), consider-IsTarget c i x best)
scan-IsTarget c i j (suc k) (x ∷ es) best e h q t =
    scan-IsTarget c (suc i) j k es (consider c i x best) e (omega arith) q t

Found-consider :
    (c : MultiHsClient) (i : ℕ) (x : ServerEntry) (es : List ServerEntry) (old mid new : Best)
    → Found c (suc i) es mid new
    → (mid ≡ old)
      ⊎ (IsTarget c i x × (mid ≡ record { best_idx = some i; best_latency = x.latency_ms }))
    → Found c i (x ∷ es) old new
Found-consider c i x es old mid new (inl p) (inl q) = inl (p ∙ q)
Found-consider c i x es old mid new (inl p) (inr (t, q)) =
    inr (i, 0, x, omega arith, refl, t, p ∙ q)
Found-consider c i x es old mid new (inr (j, k, e, h, g, t, p)) q =
    inr (j, suc k, e, omega arith, g, t, p)

pub scan-Found :
    (c : MultiHsClient) (i : ℕ) (es : List ServerEntry) (best : Best)
    → best.best_latency ≤ f64_max
    → Found c i es best (scan c i es best)
unfolding scan
scan-Found c i [] best h = inl refl
scan-Found c i (e ∷ es) best h =
    let mid = consider c i e best in
    Found-consider c i e es best mid (scan c (suc i) es mid)
      (scan-Found c (suc i) es mid (omega (arith, consider-le c i e best)))
      (considered c i e best h)

-- The calls of the callback are the old ones and, if one is registered, one with the new and the
-- old server.
pub record Told (c : MultiHsClient) (new : ServerEntry) (changes : List (String × String))
    : Type 0 where
  pub unregistered : c.callback ≡ false → changes ≡ c.changes
  pub registered :
      (old : ServerEntry)
      → get_elem? c.entries c.preferred_index ≡ some old
      → c.callback ≡ true
      → changes ≡ c.changes ++ (new.server, old.server) ∷ []

-- The failover goes to a server that may take over, and none that may is faster. But for the
-- preferred index and the calls of the callback all stays as it was.
pub record MovesTo (c : MultiHsClient) : Type 0 where
  pub index : ℕ
  pub entry : ServerEntry
  pub entry_at : get_elem? c.entries index ≡ some entry
  pub target : IsTarget c index entry
  pub changes : List (String × String)
  pub told : Told c entry changes
  pub moved : trigger_failover c ≡ record c { preferred_index = index; changes = changes }
  pub least :
      (i : ℕ) (x : ServerEntry)
      → get_elem? c.entries i ≡ some x
      → IsTarget c i x
      → entry.latency_ms ≤ x.latency_ms

-- The failover changes nothing, and no server may take over.
pub record Stays (c : MultiHsClient) : Type 0 where
  pub same : trigger_failover c ≡ c
  pub no_target : (i : ℕ) (x : ServerEntry) → get_elem? c.entries i ≡ some x → ¬ IsTarget c i x

report_change-Told :
    (c : MultiHsClient) (i : ℕ) (e : ServerEntry)
    → get_elem? c.entries i ≡ some e
    → Told c e (report_change i c)
report_change-Told c i e g = record {
  unregistered = λ h. rw h refl;
  registered = λ old p h. ground arith;
}

outcome_of :
    (c : MultiHsClient) (b : Best)
    → scan c 0 c.entries start ≡ b
    → Found c 0 c.entries start b
    → MovesTo c ⊎ Stays c
unfolding trigger_failover switch_to
outcome_of c b q (inl p) = inr (record {
  same = rw (q, p) refl;
  no_target = λ i x g t. omega (
    arith,
    t.measured,
    scan-IsTarget c 0 i i c.entries start x (omega arith) g t,
    ap Best.best_latency p,
    ap Best.best_latency q,
  );
})
outcome_of c b q (inr (j, k, e, h, g, t, p)) = inl (record {
  index = j;
  entry = e;
  entry_at = subst (λ n. get_elem? c.entries n ≡ some e) (omega arith) g;
  changes = report_change j c;
  told = report_change-Told c j e (subst (λ n. get_elem? c.entries n ≡ some e) (omega arith) g);
  target = t;
  moved = rw (q, p) refl;
  least = λ i x g' t'. omega (
    arith,
    scan-IsTarget c 0 i i c.entries start x (omega arith) g' t',
    ap Best.best_latency p,
    ap Best.best_latency q,
  );
})

-- A failover either makes another server the preferred one, which is not down and has a measured
-- latency, with none such faster, and tells a registered callback the new and the old server, all
-- else unchanged; or it changes nothing and there is no such server.
pub trigger_failover_lem : (c : MultiHsClient) → MovesTo c ⊎ Stays c
trigger_failover_lem c =
    outcome_of c (scan c 0 c.entries start) refl (scan-Found c 0 c.entries start (omega arith))
