-- ===== src/Homeservers/History.antt =====
-- multi_hs.rs: a pool from its connection on, over any calls.
use mxdx.Prelude.{
  ℕ, zero, suc, ◌+◌, ◌<◌, ◌≡◌, refl, inl, inr, sym, subst, String, false, List, [], ◌∷◌, Option,
  some, none, get_elem?, arith, Option-cases, length,
}
use mxdx.Prelude.Dict.{Dict, get, insert, get-insert}
use mxdx.Homeservers.Pool.{
  ServerEntry, MultiHsClient, CircuitBreaker, new, down, is_down, status_or_healthy, status_of,
  position, min_by, unwrap_or_zero, select_preferred, new_breakers, from_clients, note_failure,
  put_breaker, reset_all, trip, react, fail_breaker, record_failure, clear_breaker, record_success,
  switch_to, trigger_failover, Answer, success, failure, through_preferred,
}
use mxdx.Homeservers.Failover.{Distinct, Ready, record_failure-Ready, record_success-Ready}

-- A call through the preferred server with its answer, and what a server has done in a collection.
pub data PoolCall : Type 0 where
  sent : ℕ → Answer String → PoolCall
  succeeded : ℕ → PoolCall
  failed : ℕ → ℕ → PoolCall

unfoldable pub after_call : PoolCall → MultiHsClient → MultiHsClient
after_call (sent now answer) c = (through_preferred now answer c).0
after_call (succeeded i) c = record_success i c
after_call (failed now i) c = record_failure now i c

unfoldable pub after_all : List PoolCall → MultiHsClient → MultiHsClient
after_all [] c = c
after_all (x ∷ xs) c = after_all xs (after_call x c)

trigger_failover-entries : (c : MultiHsClient) → (trigger_failover c).entries ≡ c.entries
unfolding trigger_failover switch_to
trigger_failover-entries c = ground arith

react-entries :
    (i : ℕ) (server : String) (b : CircuitBreaker) (c : MultiHsClient)
    → (react i server b c).entries ≡ c.entries
unfolding react trip reset_all
react-entries i server b c =
    ground (arith, trigger_failover-entries (put_breaker server (record b { status = down }) c))

fail_breaker-entries :
    (now i : ℕ) (server : String) (o : Option CircuitBreaker) (c : MultiHsClient)
    → (fail_breaker now i server o c).entries ≡ c.entries
unfolding fail_breaker
fail_breaker-entries now i server none c = refl
fail_breaker-entries now i server (some b) c =
    react-entries i server (note_failure now b) (put_breaker server (note_failure now b) c)

record_failure-entries :
    (now i : ℕ) (c : MultiHsClient) → (record_failure now i c).entries ≡ c.entries
unfolding record_failure
record_failure-entries now i c = elim (Option-cases (get_elem? c.entries i)) [
  | inl g ↦ rw g (ground arith)
  | inr (e, g) ↦
      rw g (ground (arith, fail_breaker-entries now i e.server (get e.server c.breakers) c))
]

record_success-entries : (i : ℕ) (c : MultiHsClient) → (record_success i c).entries ≡ c.entries
unfolding record_success clear_breaker
record_success-entries i c = ground arith

after_call-Ready :
    (x : PoolCall) (c : MultiHsClient)
    → Distinct c.entries
    → Ready c
    → Distinct (after_call x c).entries × Ready (after_call x c)
unfolding after_call through_preferred
after_call-Ready (sent now (success a)) c d r = (
  subst Distinct (sym (record_success-entries c.preferred_index c)) d,
  record_success-Ready c.preferred_index c d r,
)
after_call-Ready (sent now (failure e)) c d r = (
  subst Distinct (sym (record_failure-entries now c.preferred_index c)) d,
  record_failure-Ready now c.preferred_index c d r,
)
after_call-Ready (succeeded i) c d r =
    (subst Distinct (sym (record_success-entries i c)) d, record_success-Ready i c d r)
after_call-Ready (failed now i) c d r =
    (subst Distinct (sym (record_failure-entries now i c)) d, record_failure-Ready now i c d r)

after_all-Ready :
    (xs : List PoolCall) (c : MultiHsClient) → Distinct c.entries → Ready c → Ready (after_all xs c)
unfolding after_all
after_all-Ready [] c d r = r
after_all-Ready (x ∷ xs) c d r =
    let (d', r') = after_call-Ready x c d r in after_all-Ready xs (after_call x c) d' r'

new_breakers-up :
    (es : List ServerEntry) (server : String) (m : Dict CircuitBreaker)
    → is_down (status_or_healthy (get server m)) ≡ false
    → is_down (status_or_healthy (get server (new_breakers es m))) ≡ false
unfolding new_breakers
new_breakers-up [] server m h = h
new_breakers-up (e ∷ es) server m h =
    new_breakers-up es server (insert e.server new m)
      (ground (arith, get-insert e.server server new m))

-- The first server of the name is found from i on.
position-lt :
    (name : String) (i : ℕ) (es : List ServerEntry)
    → 0 < i + length es
    → unwrap_or_zero (position name i es) < i + length es
position-lt name i [] h = omega arith
position-lt name i (e ∷ es) h = ground (arith, position-lt name (suc i) es)

min_by-lt :
    (best latency i : ℕ) (es : List ServerEntry)
    → best < i
    → min_by best latency i es < i + length es
min_by-lt best latency i [] h = omega arith
min_by-lt best latency i (e ∷ es) h =
    ground (arith, min_by-lt best latency (suc i) es, min_by-lt i e.latency_ms (suc i) es)

select_preferred-lt :
    (preferred : Option String) (es : List ServerEntry)
    → 0 < length es
    → select_preferred preferred es < length es
unfolding select_preferred
select_preferred-lt none [] h = omega arith
select_preferred-lt none (e ∷ es) h = omega (arith, min_by-lt 0 e.latency_ms 1 es)
select_preferred-lt (some name) es h = omega (arith, position-lt name 0 es)

get_elem?-lt :
    (i : ℕ) (es : List ServerEntry) → i < length es → (e : ServerEntry) × (get_elem? es i ≡ some e)
get_elem?-lt i [] h = absurd (omega arith)
get_elem?-lt zero (e ∷ es) h = (e, refl)
get_elem?-lt (suc i) (e ∷ es) h = get_elem?-lt i es (omega arith)

from_clients-Ready :
    (es : List ServerEntry) (preferred : Option String)
    → 0 < length es
    → Ready (from_clients es preferred)
unfolding from_clients status_of get
from_clients-Ready es preferred h =
    let (e, g) =
      get_elem?-lt (select_preferred preferred es) es (select_preferred-lt preferred es h) in
    record { entry = e; entry_at = g; up = new_breakers-up es e.server [] refl }

-- For a pool of at least one server, in which every server has its own name and a measured
-- latency: whatever the servers answer and fail, from the connection on, the preferred server is
-- one of the pool and it is not down.
pub preferred_is_up :
    (es : List ServerEntry) (preferred : Option String) (xs : List PoolCall)
    → 0 < length es
    → Distinct es
    → Ready (after_all xs (from_clients es preferred))
unfolding from_clients
preferred_is_up es preferred xs h d =
    after_all-Ready xs (from_clients es preferred) d (from_clients-Ready es preferred h)
