-- ===== src/Coordinator/Tests.antt =====
-- The coordinator at concrete inputs.
use mxdx.Prelude.Texts.{contains}
use mxdx.Prelude.{
  ℕ, String, ◌≡◌, refl, ◌≢◌, str_eq_iff, true, false, List, [], ◌∷◌, some, none, any, arith,
}
use mxdx.Prelude.Dict.{get, contains_key}
use mxdx.Events.{FailurePolicy, SessionTask, WorkerTool, WorkerInfo}
use mxdx.Coordinator.Router as Router
use mxdx.Coordinator.Router.{
  WorkerEntry, Router, offers, offers_all, update_worker, remove_worker, route, route_to, is_known,
  overwrite,
}
use mxdx.Coordinator.Index as Index
use mxdx.Coordinator.Index.{workers_with_all, CapabilityIndex}
use mxdx.Coordinator.Lookup.{Change, appeared, gone, track, route_is_listed}
use mxdx.Coordinator.Claim.{
  ClaimRecord, ClaimTracker, attempt, release, after_calls, get_claim, record_claim,
  claim_is_exclusive,
}
use mxdx.Coordinator.Watchlist.{WatchedSession, Watchlist, check_at}
use mxdx.Coordinator.Alerts.{is_miss, is_timeout, is_late, is_overdue, Watching, check_at_lem}
use mxdx.Coordinator.Failure.{
  FailureAction, failing_task, retries_exceeded, respawns_then_escalates,
}

abbrev task : SessionTask
task = record {
  uuid = "s1";
  sender_id = "@alice:ex";
  bin = "make";
  args = [];
  env = none;
  cwd = none;
  interactive = false;
  no_room_output = false;
  timeout_seconds = none;
  heartbeat_interval_seconds = 30;
  plan = none;
  required_capabilities = "gpu" ∷ "docker" ∷ [];
  routing_mode = none;
  on_timeout = none;
  on_heartbeat_miss = none;
}

abbrev docker : WorkerTool
docker = record { name = "docker"; version = none; description = "d"; healthy = true }

abbrev worker : WorkerInfo
worker = record {
  worker_id = "w1";
  host = "h";
  os = "linux";
  arch = "x86_64";
  cpu_count = 4;
  memory_total_mb = 8192;
  disk_available_mb = 50000;
  tools = docker ∷ [];
  capabilities = "gpu" ∷ [];
  updated_at = 0;
}

abbrev plain_worker : WorkerInfo
plain_worker = record worker { worker_id = "w2"; tools = []; capabilities = "linux" ∷ [] }

abbrev entry : WorkerEntry
entry = record { room_id = "!r1:ex"; info = worker }

abbrev plain_entry : WorkerEntry
plain_entry = record { room_id = "!r2:ex"; info = plain_worker }

abbrev workers : Router
workers = plain_entry ∷ entry ∷ []

routes : route task workers ≡ some entry
unfolding route_to offers_all offers contains
routes = refl

routes_to_none : route task (plain_entry ∷ []) ≡ none
unfolding route_to offers_all offers contains
routes_to_none = refl

abbrev changes : List Change
changes = appeared "!r2:ex" plain_worker ∷ appeared "!r1:ex" worker ∷ gone "w2" ∷ []

route_is_listed_example :
    let (r, ix) = track changes (Router.new, Index.new) in
    ((w : WorkerEntry)
      → route task r ≡ some w
      → contains (workers_with_all task.required_capabilities ix) w.info.worker_id ≡ true)
    × (route task r ≡ none
        → (id : String) → contains (workers_with_all task.required_capabilities ix) id ≡ false)
route_is_listed_example = route_is_listed changes task

abbrev index : CapabilityIndex
index = Index.update worker Index.new

abbrev held : ClaimRecord
held = record { session_uuid = "s1"; worker_id = "w1"; claimed_at = 5 }

abbrev claims : ClaimTracker
claims = ("s1", held) ∷ []

claimed : get_claim "s1" claims ≡ some held
unfolding get
claimed = refl

not_released : release "s2" ≢ release "s1"
not_released h = ground (arith, str_eq_iff "s2" "s1")

claim_is_exclusive_example :
    let calls = attempt 6 "s1" "w2" ∷ release "s2" ∷ [] in
    (get_claim "s1" (after_calls calls claims) ≡ some held)
    × ((now : ℕ) (worker_id : String)
        → record_claim now "s1" worker_id (after_calls calls claims)
          ≡ (after_calls calls claims, false))
claim_is_exclusive_example =
    claim_is_exclusive (attempt 6 "s1" "w2" ∷ release "s2" ∷ []) "s1" held claims
      ((λ h. cc), (not_released, tt)) claimed

abbrev watched : WatchedSession
watched = record {
  session_uuid = "s1";
  worker_id = "w1";
  room_id = "!r1:ex";
  started_at = 1000;
  last_heartbeat = 1000;
  heartbeat_interval_seconds = 30;
  timeout_seconds = some 600;
}

abbrev watchlist : Watchlist
watchlist = ("s1", watched) ∷ []

watchlist-Watching : Watching watchlist
unfolding contains_key
watchlist-Watching = record { one_watch = (refl, tt); keyed = (refl, tt) }

check_at_lem_example :
    (any (is_miss "s1") (check_at 1061 watchlist) ≡ is_late 1061 (get "s1" watchlist))
    × (any (is_timeout "s1") (check_at 1061 watchlist) ≡ is_overdue 1061 (get "s1" watchlist))
check_at_lem_example = check_at_lem 1061 "s1" watchlist watchlist-Watching

watched_at : get "s1" watchlist ≡ some watched
unfolding get
watched_at = refl

respawns_then_escalates_example :
    failing_task 5 (FailurePolicy.respawn 3) task "crashed" 0
    ≡ (3, some (FailureAction.escalate "s1" (retries_exceeded 3 "crashed")))
respawns_then_escalates_example =
    respawns_then_escalates 5 3 0 task "crashed" (omega arith) (omega arith) (omega arith)
