-- ===== src/Homeservers/Pool.antt =====
-- multi_hs.rs: the connected homeservers, their circuit breakers and the preferred one.
use mxdx.Prelude.{
  ℕ, suc, ◌-◌, String, str_eq, Bool, true, false, ◌||◌, List, [], ◌∷◌, Option, some, none,
  if◌then◌else◌, ltb, leb, ◌==◌, length, all, retain, push_back, get_elem?,
}
use mxdx.Prelude.Dict.{Dict, get, insert}
use mxdx.Prelude.Maps.{map_values}

-- `FAIL_WINDOW`, in nanoseconds
abbrev pub fail_window : ℕ
fail_window = 300000000000

abbrev pub fail_threshold : ℕ
fail_threshold = 5

-- The bit pattern of `f64::MAX`. The latencies are floats from zero on, which are ordered as the
-- 64-bit numbers of their patterns are.
abbrev pub f64_max : ℕ
f64_max = 9218868437227405311

pub data ServerStatus : Type 0 where
  healthy : ServerStatus
  down : ServerStatus

abbrev pub is_down : ServerStatus → Bool
is_down healthy = false
is_down down = true

-- The connection itself is outside of the model.
pub record ServerEntry : Type 0 where
  pub server : String
  pub password : String
  pub latency_ms : ℕ

pub record CircuitBreaker : Type 0 where
  pub failures : List ℕ
  pub status : ServerStatus

abbrev pub new : CircuitBreaker
new = record { failures = []; status = healthy }

pub record ServerHealth : Type 0 where
  pub server : String
  pub status : ServerStatus
  pub latency_ms : ℕ

-- `callback` says that one is registered, and `changes` are its calls, the new server first.
pub record MultiHsClient : Type 0 where
  pub entries : List ServerEntry
  pub preferred_index : ℕ
  pub preferred_override : Option String
  pub breakers : Dict CircuitBreaker
  pub seen_events : Dict ℕ
  pub seen_order : List String
  pub callback : Bool
  pub changes : List (String × String)

-- `position(|e| e.server == name)`, counted from i on
abbrev pub position : String → ℕ → List ServerEntry → Option ℕ
position name i [] = none
position name i (e ∷ es) = if str_eq e.server name then some i else position name (suc i) es

-- `min_by` on the latencies: the first of the least ones. `best` is the one so far.
abbrev pub min_by : ℕ → ℕ → ℕ → List ServerEntry → ℕ
min_by best latency i [] = best
min_by best latency i (e ∷ es) =
    if ltb e.latency_ms latency
    then min_by i e.latency_ms (suc i) es
    else min_by best latency (suc i) es

abbrev pub lowest_latency : List ServerEntry → ℕ
lowest_latency [] = 0
lowest_latency (e ∷ es) = min_by 0 e.latency_ms 1 es

abbrev pub unwrap_or_zero : Option ℕ → ℕ
unwrap_or_zero none = 0
unwrap_or_zero (some i) = i

unfoldable pub select_preferred : Option String → List ServerEntry → ℕ
select_preferred none entries = lowest_latency entries
select_preferred (some name) entries = unwrap_or_zero (position name 0 entries)

unfoldable pub new_breakers : List ServerEntry → Dict CircuitBreaker → Dict CircuitBreaker
new_breakers [] m = m
new_breakers (e ∷ es) m = new_breakers es (insert e.server new m)

unfoldable pub from_clients : List ServerEntry → Option String → MultiHsClient
from_clients entries preferred_server = record {
  entries = entries;
  preferred_index = select_preferred preferred_server entries;
  preferred_override = preferred_server;
  breakers = new_breakers entries [];
  seen_events = [];
  seen_order = [];
  callback = false;
  changes = [];
}

unfoldable pub on_preferred_change : MultiHsClient → MultiHsClient
on_preferred_change c = record c { callback = true }

abbrev pub is_single_server : MultiHsClient → Bool
is_single_server c = leb (length c.entries) 1

-- `map(|b| b.status).unwrap_or(Healthy)`
abbrev pub status_or_healthy : Option CircuitBreaker → ServerStatus
status_or_healthy none = healthy
status_or_healthy (some b) = b.status

unfoldable pub status_of : String → MultiHsClient → ServerStatus
status_of server c = status_or_healthy (get server c.breakers)

abbrev pub health_of : MultiHsClient → List ServerEntry → List ServerHealth
health_of c [] = []
health_of c (e ∷ es) =
    let health : ServerHealth = record {
      server = e.server;
      status = status_of e.server c;
      latency_ms = e.latency_ms;
    } in
    health ∷ health_of c es

unfoldable pub server_health : MultiHsClient → List ServerHealth
server_health c = health_of c c.entries

-- `entries[i].server`
abbrev pub server_at : ℕ → List ServerEntry → String
server_at i entries = elim (get_elem? entries i) [ none ↦ "" | some e ↦ e.server ]

-- The best server so far, and its latency.
pub record Best : Type 0 where
  pub best_idx : Option ℕ
  pub best_latency : ℕ

abbrev pub start : Best
start = record { best_idx = none; best_latency = f64_max }

unfoldable pub consider : MultiHsClient → ℕ → ServerEntry → Best → Best
consider c i e best =
    if i == c.preferred_index
    then best
    else if is_down (status_of e.server c)
    then best
    else if ltb e.latency_ms best.best_latency
    then record { best_idx = some i; best_latency = e.latency_ms }
    else best

unfoldable pub scan : MultiHsClient → ℕ → List ServerEntry → Best → Best
scan c i [] best = best
scan c i (e ∷ es) best = scan c (suc i) es (consider c i e best)

abbrev pub report_change : ℕ → MultiHsClient → List (String × String)
report_change i c =
    if c.callback
    then push_back c.changes (server_at i c.entries, server_at c.preferred_index c.entries)
    else c.changes

unfoldable pub switch_to : Option ℕ → MultiHsClient → MultiHsClient
switch_to none c = c
switch_to (some i) c = record c { preferred_index = i; changes = report_change i c }

unfoldable pub trigger_failover : MultiHsClient → MultiHsClient
trigger_failover c = switch_to (scan c 0 c.entries start).best_idx c

-- `unwrap_or(false)` of the test of a breaker
abbrev pub is_failing : Option CircuitBreaker → Bool
is_failing none = false
is_failing (some b) = is_down b.status || leb fail_threshold (length b.failures)

unfoldable pub all_failing : MultiHsClient → Bool
all_failing c = all (λ e. is_failing (get e.server c.breakers)) c.entries

abbrev pub reset : CircuitBreaker → CircuitBreaker
reset b = record { failures = []; status = healthy }

unfoldable pub reset_all : MultiHsClient → MultiHsClient
reset_all c = record c { breakers = map_values reset c.breakers }

-- The failures inside the window and the new one. A time before another counts as the same.
unfoldable pub note_failure : ℕ → CircuitBreaker → CircuitBreaker
note_failure now b = record b {
  failures = push_back (retain (λ t. ltb (now - t) fail_window) b.failures) now;
}

abbrev pub put_breaker : String → CircuitBreaker → MultiHsClient → MultiHsClient
put_breaker server b c = record c { breakers = insert server b c.breakers }

unfoldable pub trip : ℕ → String → CircuitBreaker → MultiHsClient → MultiHsClient
trip i server b c =
    let marked = put_breaker server (record b { status = down }) c in
    if i == c.preferred_index then trigger_failover marked else marked

-- `noted` is the breaker with the failure, which `c` already has.
unfoldable pub react : ℕ → String → CircuitBreaker → MultiHsClient → MultiHsClient
react i server noted c =
    if leb fail_threshold (length noted.failures)
    then (if all_failing c then reset_all c else trip i server noted c)
    else c

unfoldable pub fail_breaker : ℕ → ℕ → String → Option CircuitBreaker → MultiHsClient → MultiHsClient
fail_breaker now i server none c = c
fail_breaker now i server (some b) c =
    react i server (note_failure now b) (put_breaker server (note_failure now b) c)

-- An index out of range, which panics in the source, changes nothing here.
unfoldable pub record_failure : ℕ → ℕ → MultiHsClient → MultiHsClient
record_failure now i c = if is_single_server c then c else elim (get_elem? c.entries i) [
  | none ↦ c
  | some e ↦ fail_breaker now i e.server (get e.server c.breakers) c
]

unfoldable pub clear_breaker : String → Option CircuitBreaker → MultiHsClient → MultiHsClient
clear_breaker server none c = c
clear_breaker server (some b) c = put_breaker server (reset b) c

unfoldable pub record_success : ℕ → MultiHsClient → MultiHsClient
record_success i c = if is_single_server c then c else elim (get_elem? c.entries i) [
  | none ↦ c
  | some e ↦ clear_breaker e.server (get e.server c.breakers) c
]

-- The answer of a homeserver to one call.
pub data Answer (A : Type 0) : Type 0 where
  success : A → Answer A
  failure : String → Answer A

-- `send_event`, `send_state_event`, `sync_once`, `join_room` and the other calls that go through the
-- preferred server: they note how it answered, and pass the answer on.
unfoldable pub through_preferred :
    {A : Type 0} → ℕ → Answer A → MultiHsClient → MultiHsClient × Answer A
through_preferred now (success a) c = (record_success c.preferred_index c, success a)
through_preferred now (failure e) c = (record_failure now c.preferred_index c, failure e)
