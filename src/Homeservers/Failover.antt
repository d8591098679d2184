-- ===== src/Homeservers/Failover.antt =====
-- multi_hs.rs, the circuit breakers: the preferred server over a history of successes and failures.
use mxdx.Prelude.{
  ℕ, ◌<◌, ◌≡◌, ◌≢◌, refl, ◌⊎◌, inl, inr, sym, ap, subst, String, str_eq, true, false, List, Option,
  some, none, get_elem?, arith, Option-cases, Bool-cases, not_all, length, leb, str_eq_iff,
  str_eq_refl, if◌then◌else◌, ◌==◌,
}
use mxdx.Prelude.Dict.{get, get-insert}
use mxdx.Prelude.Maps.{get-map_values}
use mxdx.Homeservers.Pool.{
  ServerEntry, MultiHsClient, CircuitBreaker, f64_max, down, is_down, status_of, is_failing,
  all_failing, reset, reset_all, note_failure, put_breaker, trip, react, fail_breaker,
  record_failure, clear_breaker, record_success, switch_to, trigger_failover, fail_threshold,
  is_single_server,
}
use mxdx.Homeservers.Scan.{IsTarget, MovesTo, trigger_failover_lem}

-- Each server is connected once, and its latency was measured.
pub record Distinct (entries : List ServerEntry) : Type 0 where
  pub once :
      (i j : ℕ) (x y : ServerEntry)
      → get_elem? entries i ≡ some x
      → get_elem? entries j ≡ some y
      → x.server ≡ y.server
      → i ≡ j
  pub measured : (i : ℕ) (x : ServerEntry) → get_elem? entries i ≡ some x → x.latency_ms < f64_max

-- The preferred server is one of the pool and it is not down.
pub record Ready (c : MultiHsClient) : Type 0 where
  pub entry : ServerEntry
  pub entry_at : get_elem? c.entries c.preferred_index ≡ some entry
  pub up : is_down (status_of entry.server c) ≡ false

reset_all-Ready : (c : MultiHsClient) → Ready c → Ready (reset_all c)
unfolding reset_all status_of
reset_all-Ready c r = record {
  entry = r.entry;
  entry_at = r.entry_at;
  up = ground (arith, get-map_values reset r.entry.server c.breakers);
}

-- The server that a failover goes to is not down.
moved-Ready : (c : MultiHsClient) → MovesTo c → Ready (trigger_failover c)
unfolding switch_to status_of
moved-Ready c m =
    subst Ready (sym m.moved) (record { entry = m.entry; entry_at = m.entry_at; up = m.target.up })

-- A new breaker of a server, seen through the status of another or of the same server.
put_breaker-status_of :
    (server s : String) (b : CircuitBreaker) (c : MultiHsClient)
    → status_of s (put_breaker server b c) ≡ (if str_eq server s then b.status else status_of s c)
unfolding status_of
put_breaker-status_of server s b c = ground (arith, get-insert server s b c.breakers)

-- There is one server at an index.
same_server :
    (es : List ServerEntry) (i k : ℕ) (e x : ServerEntry)
    → get_elem? es i ≡ some e
    → get_elem? es k ≡ some x
    → i ≡ k
    → x.server ≡ e.server
same_server es i k e x g h p = cc

-- A breaker that is not failing is not down.
not_failing :
    (server : String) (c : MultiHsClient)
    → is_failing (get server c.breakers) ≡ false
    → is_down (status_of server c) ≡ false
unfolding status_of
not_failing server c h = ground arith

module _ (c : MultiHsClient) (d : Distinct c.entries) (r : Ready c) where
  -- A breaker that is not down, put for a server, leaves the preferred one as ready as it was.
  put_breaker-Ready :
      (server : String) (b : CircuitBreaker)
      → is_down b.status ≡ false ⊎ (b.status ≡ status_of server c)
      → Ready (put_breaker server b c)
  put_breaker-Ready server b h = record {
    entry = r.entry;
    entry_at = r.entry_at;
    up = ground (
      arith,
      put_breaker-status_of server r.entry.server b c,
      str_eq_iff server r.entry.server,
      r.up,
    );
  }

  module _ (i : ℕ) (e : ServerEntry) (b : CircuitBreaker) (g : get_elem? c.entries i ≡ some e)
      (q : get e.server c.breakers ≡ some b)
      (f : leb fail_threshold (length b.failures) ≡ true) where
    marked : MultiHsClient
    marked = put_breaker e.server (record b { status = down }) c

    -- Another server, which is not failing, may take over.
    spare :
        (k : ℕ) (x : ServerEntry)
        → get_elem? c.entries k ≡ some x
        → is_failing (get x.server c.breakers) ≡ false
        → i ≡ c.preferred_index
        → IsTarget marked k x
    unfolding marked
    spare k x h n p =
        let apart : x.server ≢ e.server =
          λ s. ground (arith, ap (λ z. is_failing (get z c.breakers)) s) in
        record {
          other = λ w. apart (same_server c.entries i k e x g h (omega arith));
          up = ground (
            arith,
            put_breaker-status_of e.server x.server (record b { status = down }) c,
            str_eq_iff e.server x.server,
            not_failing x.server c n,
          );
          measured = d.measured k x h;
        }

    marked-Ready : i ≢ c.preferred_index → Ready marked
    unfolding marked
    marked-Ready n = record {
      entry = r.entry;
      entry_at = r.entry_at;
      up = ground (
        arith,
        put_breaker-status_of e.server r.entry.server (record b { status = down }) c,
        str_eq_iff e.server r.entry.server,
        d.once i c.preferred_index e r.entry g r.entry_at,
        r.up,
      );
    }

    fails_over : all_failing c ≡ false → i ≡ c.preferred_index → Ready (trigger_failover marked)
    unfolding all_failing marked
    fails_over a p = elim (trigger_failover_lem marked) [
      | inl m ↦ moved-Ready marked m
      | inr s ↦
          let (k, x, h, n) = not_all (λ e. is_failing (get e.server c.breakers)) c.entries a in
          absurd (s.no_target k x h (spare k x h n p))
    ]

    -- A breaker that is marked as down leaves a preferred server that is not.
    trip-Ready : all_failing c ≡ false → Ready (trip i e.server b c)
    unfolding trip marked
    trip-Ready a = elim (Bool-cases (i == c.preferred_index)) [
      | inl t ↦
          subst (λ z. Ready (if z then trigger_failover marked else marked)) (sym t)
            (fails_over a (ground arith))
      | inr t ↦
          subst (λ z. Ready (if z then trigger_failover marked else marked)) (sym t)
            (marked-Ready (ground arith))
    ]

  note_failure-Ready :
      (now i : ℕ) (e : ServerEntry) (b : CircuitBreaker)
      → get e.server c.breakers ≡ some b
      → Ready (put_breaker e.server (note_failure now b) c)
  unfolding note_failure status_of
  note_failure-Ready now i e b q = put_breaker-Ready e.server (note_failure now b) (inr (rw q refl))

react-Ready :
    (i : ℕ) (e : ServerEntry) (b : CircuitBreaker) (c : MultiHsClient)
    → Distinct c.entries
    → Ready c
    → get_elem? c.entries i ≡ some e
    → get e.server c.breakers ≡ some b
    → Ready (react i e.server b c)
unfolding react
react-Ready i e b c d r g q = elim (Bool-cases (leb fail_threshold (length b.failures))) [
  | inr n ↦ rw n r
  | inl f ↦ elim (Bool-cases (all_failing c)) [
    | inl a ↦ rw (f, a) (reset_all-Ready c r)
    | inr a ↦ rw (f, a) (trip-Ready c d r i e b g q f a)
  ]
]

fail_breaker-Ready :
    (now i : ℕ) (e : ServerEntry) (o : Option CircuitBreaker) (c : MultiHsClient)
    → Distinct c.entries
    → Ready c
    → get_elem? c.entries i ≡ some e
    → get e.server c.breakers ≡ o
    → Ready (fail_breaker now i e.server o c)
unfolding fail_breaker
fail_breaker-Ready now i e none c d r g q = r
fail_breaker-Ready now i e (some b) c d r g q =
    react-Ready i e (note_failure now b) (put_breaker e.server (note_failure now b) c) d
      (note_failure-Ready c d r now i e b q) g
      (ground
        (arith, get-insert e.server e.server (note_failure now b) c.breakers, str_eq_refl e.server))

pub record_failure-Ready :
    (now i : ℕ) (c : MultiHsClient) → Distinct c.entries → Ready c → Ready (record_failure now i c)
unfolding record_failure
record_failure-Ready now i c d r = elim (Bool-cases (is_single_server c)) [
  | inl s ↦ rw s r
  | inr s ↦ elim (Option-cases (get_elem? c.entries i)) [
    | inl g ↦ rw (s, g) r
    | inr (e, g) ↦ rw (s, g) (fail_breaker-Ready now i e (get e.server c.breakers) c d r g refl)
  ]
]

clear_breaker-Ready :
    (server : String) (o : Option CircuitBreaker) (c : MultiHsClient)
    → Distinct c.entries
    → Ready c
    → Ready (clear_breaker server o c)
unfolding clear_breaker
clear_breaker-Ready server none c d r = r
clear_breaker-Ready server (some b) c d r = put_breaker-Ready c d r server (reset b) (inl refl)

pub record_success-Ready :
    (i : ℕ) (c : MultiHsClient) → Distinct c.entries → Ready c → Ready (record_success i c)
unfolding record_success
record_success-Ready i c d r = elim (Bool-cases (is_single_server c)) [
  | inl s ↦ rw s r
  | inr s ↦ elim (Option-cases (get_elem? c.entries i)) [
    | inl g ↦ rw (s, g) r
    | inr (e, g) ↦ rw (s, g) (clear_breaker-Ready e.server (get e.server c.breakers) c d r)
  ]
]
