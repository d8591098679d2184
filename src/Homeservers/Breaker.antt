-- ===== src/Homeservers/Breaker.antt =====
-- multi_hs.rs, `record_failure`: what one failure does to the statuses of all servers.
use mxdx.Prelude.{
  ℕ, suc, ◌-◌, ◌≤◌, ◌<◌, ◌≡◌, refl, ◌∙◌, ◌⊎◌, inl, inr, Bool, true, Bool-cases, Option-cases,
  all-get, not_all, String, str_eq, false, [], ◌∷◌, some, get_elem?, arith, length, length-append,
  retain, leb, ltb, str_eq_iff, if◌then◌else◌,
}
use mxdx.Prelude.Dict.{get, get-insert}
use mxdx.Prelude.Maps.{get-map_values}
use mxdx.Homeservers.Pool.{
  ServerEntry, MultiHsClient, CircuitBreaker, healthy, down, status_of, fail_window, note_failure,
  put_breaker, all_failing, is_failing, reset, reset_all, trip, react, fail_breaker, record_failure,
  switch_to, trigger_failover, is_single_server,
}

trigger_failover-status_of :
    (s : String) (c : MultiHsClient) → status_of s (trigger_failover c) ≡ status_of s c
unfolding trigger_failover switch_to status_of
trigger_failover-status_of s c = ground arith

reset_all-status_of : (s : String) (c : MultiHsClient) → status_of s (reset_all c) ≡ healthy
unfolding reset_all status_of
reset_all-status_of s c = ground (arith, get-map_values reset s c.breakers)

status_of-put :
    (server s : String) (b : CircuitBreaker) (c : MultiHsClient)
    → status_of s (put_breaker server b c) ≡ (if str_eq server s then b.status else status_of s c)
unfolding status_of
status_of-put server s b c = ground (arith, get-insert server s b c.breakers)

trip-status_of :
    (i : ℕ) (server s : String) (b : CircuitBreaker) (c : MultiHsClient)
    → status_of s (trip i server b c) ≡ (if str_eq server s then down else status_of s c)
unfolding trip
trip-status_of i server s b c =
    let b' : CircuitBreaker = record b { status = down } in
    let put : status_of s (put_breaker server b' c)
        ≡ (if str_eq server s then down else status_of s c) =
      status_of-put server s b' c in
    ground (arith, put, trigger_failover-status_of s (put_breaker server b' c))

-- The failures of the breaker in the last five minutes, with the one of now.
abbrev pub recent : ℕ → CircuitBreaker → ℕ
recent now b = suc (length (retain (λ t. ltb (now - t) fail_window) b.failures))

abbrev pub noted : ℕ → String → CircuitBreaker → MultiHsClient → MultiHsClient
noted now server b c = put_breaker server (note_failure now b) c

counted : (now : ℕ) (b : CircuitBreaker) → length (note_failure now b).failures ≡ recent now b
unfolding note_failure
counted now b =
    omega (arith, length-append (retain (λ t. ltb (now - t) fail_window) b.failures) (now ∷ []))

unmoved :
    (now : ℕ) (server s : String) (b : CircuitBreaker) (c : MultiHsClient)
    → get server c.breakers ≡ some b
    → status_of s (noted now server b c) ≡ status_of s c
unfolding status_of note_failure
unmoved now server s b c q =
    ground (arith, str_eq_iff server s, get-insert server s (note_failure now b) c.breakers)

record_failure-status_of :
    (now i : ℕ) (e : ServerEntry) (b : CircuitBreaker) (c : MultiHsClient) (s : String)
    → is_single_server c ≡ false
    → get_elem? c.entries i ≡ some e
    → get e.server c.breakers ≡ some b
    → status_of s (record_failure now i c) ≡ (
        if leb 5 (recent now b)
        then (if all_failing (noted now e.server b c)
            then healthy
            else if str_eq e.server s
            then down
            else status_of s c)
        else status_of s c)
unfolding record_failure fail_breaker react
record_failure-status_of now i e b c s m g q =
    rw (m, g, q)
      (ground (
        arith,
        counted now b,
        unmoved now e.server s b c q,
        reset_all-status_of s (noted now e.server b c),
        trip-status_of i e.server s (note_failure now b) (noted now e.server b c),
      ))

-- A failure of the server named `server`, whose breaker is b, and the server x: x has a breaker, and
-- it is down or has five failures, with that of now and of the last five minutes if it is b.
pub record Failing (now : ℕ) (server : String) (b : CircuitBreaker) (c : MultiHsClient)
    (x : ServerEntry) : Type 0 where
  pub breaker : CircuitBreaker
  pub kept : get x.server c.breakers ≡ some breaker
  pub failing :
      (breaker.status ≡ down)
      ⊎ (5 ≤ (if str_eq server x.server then recent now b else length breaker.failures))

abbrev pub AllFailing : ℕ → String → CircuitBreaker → MultiHsClient → Type 0
AllFailing now server b c =
    (j : ℕ) (x : ServerEntry) → get_elem? c.entries j ≡ some x → Failing now server b c x

module _ (now : ℕ) (server : String) (b : CircuitBreaker) (c : MultiHsClient)
    (q : get server c.breakers ≡ some b) where
  noted-get :
      (x : String)
      → get x (noted now server b c).breakers
        ≡ (if str_eq server x then some (note_failure now b) else get x c.breakers)
  noted-get x = get-insert server x (note_failure now b) c.breakers

  fails : ServerEntry → Bool
  fails x = is_failing (get x.server (noted now server b c).breakers)

  fails-Failing : (x : ServerEntry) → fails x ≡ true → Failing now server b c x
  unfolding fails note_failure
  fails-Failing x h = elim (Option-cases (get x.server c.breakers)) [
    | inl n ↦ absurd (ground (arith, noted-get x.server, str_eq_iff server x.server))
    | inr (o, g) ↦ record {
      breaker = o;
      kept = g;
      failing = ground (arith, noted-get x.server, counted now b, str_eq_iff server x.server);
    }
  ]

  Failing-fails : (x : ServerEntry) → Failing now server b c x → fails x ≡ true
  unfolding fails note_failure
  Failing-fails x f =
      ground
        (arith, f.kept, f.failing, noted-get x.server, counted now b, str_eq_iff server x.server)

  all_failing-AllFailing : all_failing (noted now server b c) ≡ true → AllFailing now server b c
  unfolding all_failing fails
  all_failing-AllFailing h j x g = fails-Failing x (all-get fails c.entries j x h g)

  not_all_failing : all_failing (noted now server b c) ≡ false → ¬ AllFailing now server b c
  unfolding all_failing fails
  not_all_failing h all_of =
      let (k, x, g, n) = not_all fails c.entries h in
      absurd (ground (arith, Failing-fails x (all_of k x g), n))

-- What the failure of a server e with the breaker b makes of the status of a server named s.
abbrev pub AfterFailure :
    ℕ → ServerEntry → CircuitBreaker → MultiHsClient → String → MultiHsClient → Type 0
AfterFailure now e b c s c' =
    ((recent now b < 5) × (status_of s c' ≡ status_of s c))
    ⊎ ((5 ≤ recent now b) × AllFailing now e.server b c × (status_of s c' ≡ healthy))
    ⊎ ((5 ≤ recent now b)
        × (¬ AllFailing now e.server b c)
        × (status_of s c' ≡ (if str_eq e.server s then down else status_of s c)))

-- In a pool of several servers, one failure of a known server that has a breaker: with fewer than
-- five failures of it in the window of five minutes no status changes; otherwise all servers
-- become healthy if each has a breaker that is down or has five failures, the one of now counted,
-- and if not exactly the servers of this name go down.
pub record_failure_lem :
    (now i : ℕ) (e : ServerEntry) (b : CircuitBreaker) (c : MultiHsClient) (s : String)
    → is_single_server c ≡ false
    → get_elem? c.entries i ≡ some e
    → get e.server c.breakers ≡ some b
    → AfterFailure now e b c s (record_failure now i c)
record_failure_lem now i e b c s m g q =
    let after = record_failure-status_of now i e b c s m g q in
    elim (Bool-cases (leb 5 (recent now b))) [
      | inr few ↦ inl (ground (arith, few), after ∙ rw few refl)
      | inl many ↦ elim (Bool-cases (all_failing (noted now e.server b c))) [
        | inl a ↦ inr (
            inl (
              ground (arith, many),
              all_failing-AllFailing now e.server b c q a,
              after ∙ rw (many, a) refl,
            ))
        | inr n ↦ inr (
            inr (
              ground (arith, many),
              not_all_failing now e.server b c q n,
              after ∙ rw (many, n) refl,
            ))
      ]
    ]
