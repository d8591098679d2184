-- ===== src/Homeservers/Tests.antt =====
-- The pool of homeservers at concrete inputs.
use mxdx.Prelude.{
  ℕ, zero, suc, ◌<◌, ◌≡◌, refl, ◌⊎◌, String, true, false, List, [], ◌∷◌, ◌++◌, Option, some, none,
  arith, get_elem?, str_eq_iff, str_eq,
}
use mxdx.Prelude.Dict.{get, insert, contains_key}
use mxdx.Prelude.Maps.{map_values}
use mxdx.Prelude.Texts.{contains}
use mxdx.Homeservers.Pool.{
  ServerEntry, MultiHsClient, CircuitBreaker, healthy, down, new, reset_all, f64_max, status_of,
  all_failing, from_clients, select_preferred, trigger_failover, record_failure, failure, scan,
  consider, react, fail_breaker, note_failure, trip, switch_to,
}
use mxdx.Homeservers.Scan.{MovesTo, Stays, trigger_failover_lem}
use mxdx.Homeservers.Breaker.{AfterFailure, record_failure_lem}
use mxdx.Homeservers.Failover.{Distinct, Ready}
use mxdx.Homeservers.History.{PoolCall, sent, succeeded, failed, after_all, preferred_is_up}
use mxdx.Homeservers.Collect.{is_duplicate, deliver}
use mxdx.Homeservers.Seen.{Remembers}
use mxdx.Homeservers.Recall.{check_events, is_duplicate-check_events, seen_is_bounded}
use mxdx.Homeservers.Deliver.{first_of_each, deliver_lem}

abbrev near : ServerEntry
near = record { server = "https://a"; password = ""; latency_ms = 10 }

abbrev far : ServerEntry
far = record { server = "https://b"; password = ""; latency_ms = 20 }

abbrev both : List ServerEntry
both = near ∷ far ∷ []

apart :
    (a b : ServerEntry)
    → str_eq a.server b.server ≡ false
    → (x y : ServerEntry) → some a ≡ some x
    → some b ≡ some y
    → ¬ (x.server ≡ y.server)
apart a b f x y g h s = ground (arith, str_eq_iff a.server b.server)

only_once :
    (i j : ℕ) (x y : ServerEntry)
    → get_elem? both i ≡ some x
    → get_elem? both j ≡ some y
    → x.server ≡ y.server
    → i ≡ j
only_once zero zero x y g h s = refl
only_once zero (suc zero) x y g h s = absurd (apart near far refl x y g h s)
only_once (suc zero) zero x y g h s = absurd (apart far near refl x y g h s)
only_once (suc zero) (suc zero) x y g h s = refl
only_once (suc (suc i)) j x y g h s = cc
only_once i (suc (suc j)) x y g h s = cc

both_measured : (i : ℕ) (x : ServerEntry) → get_elem? both i ≡ some x → x.latency_ms < f64_max
both_measured zero x g = ground arith
both_measured (suc zero) x g = ground arith
both_measured (suc (suc i)) x g = cc

both-Distinct : Distinct both
both-Distinct = record { once = only_once; measured = both_measured }

abbrev refused : PoolCall
refused = sent 7 (failure "timeout")

abbrev storm : List PoolCall
storm = refused ∷ refused ∷ refused ∷ refused ∷ refused ∷ succeeded 0 ∷ failed 8 1 ∷ []

preferred_is_up_example : Ready (after_all storm (from_clients both none))
preferred_is_up_example = preferred_is_up both none storm (omega arith) both-Distinct

abbrev pool : MultiHsClient
pool = record (from_clients both none) {
  breakers =
      ("https://a", record { failures = 1 ∷ 2 ∷ 3 ∷ 4 ∷ []; status = healthy })
      ∷ ("https://b", new)
      ∷ [];
}

-- The fifth failure of the preferred server takes it down, and the other one takes over.
takes_over : (record_failure 7 0 pool).preferred_index ≡ 1
unfolding record_failure from_clients react fail_breaker note_failure get insert all_failing trip
    trigger_failover scan consider status_of switch_to select_preferred
takes_over = refl

abbrev worn : CircuitBreaker
worn = record { failures = 1 ∷ 2 ∷ 3 ∷ 4 ∷ []; status = healthy }

has_worn : get "https://a" pool.breakers ≡ some worn
unfolding get
has_worn = refl

record_failure_lem_example : AfterFailure 7 near worn pool "https://b" (record_failure 7 0 pool)
unfolding from_clients
record_failure_lem_example = record_failure_lem 7 0 near worn pool "https://b" refl refl has_worn

-- With the other server down, the fifth failure of the preferred one makes both healthy.
both_recover :
    status_of "https://b" (
      record_failure 7 0 (record pool {
        breakers =
            ("https://a", worn) ∷ ("https://b", record { failures = []; status = down }) ∷ [];
      }))
    ≡ healthy
unfolding record_failure from_clients react fail_breaker note_failure get insert all_failing
    reset_all status_of map_values
both_recover = refl

trigger_failover_lem_example : MovesTo pool ⊎ Stays pool
trigger_failover_lem_example = trigger_failover_lem pool

abbrev connected : MultiHsClient
connected = from_clients both none

seen_is_bounded_example : Remembers (check_events ((1, "$e") ∷ []) connected)
seen_is_bounded_example = seen_is_bounded both none ((1, "$e") ∷ [])

is_duplicate-check_events_example :
    (is_duplicate 9 "$e"
      (check_events ((2, "$f") ∷ (3, "$g") ∷ []) (is_duplicate 1 "$e" connected).0)).1
    ≡ true
unfolding from_clients check_events is_duplicate contains_key
is_duplicate-check_events_example =
    is_duplicate-check_events 1 9 "$e" ((2, "$f") ∷ (3, "$g") ∷ []) connected
      (seen_is_bounded both none []) refl refl (omega arith)

abbrev arrived : List (Option String)
arrived = some "$e" ∷ none ∷ some "$f" ∷ some "$e" ∷ []

deliver_lem_example :
    (deliver (λ e. e) 1 arrived connected []).1
    ≡ [] ++ first_of_each (λ e. e) connected.seen_order arrived
unfolding from_clients check_events
deliver_lem_example =
    deliver_lem (λ e. e) 1 arrived connected [] (seen_is_bounded both none []) refl (omega arith)

three_delivered : first_of_each (λ e. e) [] arrived ≡ some "$e" ∷ none ∷ some "$f" ∷ []
unfolding first_of_each contains
three_delivered = refl
