-- ===== src/Coordinator/Watchlist.antt =====
-- watchlist.rs: the sessions whose heartbeats are watched. `SystemTime::now()` is an argument, in
-- seconds.
use mxdx.Prelude.{
  ℕ, ◌-◌, ◌*◌, ◌%◌, ◌^◌, String, List, [], ◌∷◌, ◌++◌, Option, some, none, if◌then◌else◌, ltb,
  length,
}
use mxdx.Prelude.Dict.{Dict, get, insert, remove}

pub record WatchedSession : Type 0 where
  pub session_uuid : String
  pub worker_id : String
  pub room_id : String
  pub started_at : ℕ
  pub last_heartbeat : ℕ
  pub heartbeat_interval_seconds : ℕ
  pub timeout_seconds : Option ℕ

-- Both carry the session, the worker and the seconds that have passed.
pub data WatchAlert : Type 0 where
  heartbeat_miss : String → String → ℕ → WatchAlert
  timeout : String → String → ℕ → WatchAlert

-- `Watchlist` is the map of its sessions.
abbrev pub Watchlist : Type 0
Watchlist = Dict WatchedSession

-- `Watchlist::new`
abbrev pub new : Watchlist
new = []

unfoldable pub watch : WatchedSession → Watchlist → Watchlist
watch session sessions = insert session.session_uuid session sessions

unfoldable pub unwatch : String → Watchlist → Watchlist
unwatch session_uuid sessions = remove session_uuid sessions

-- `get_mut`: the entry is overwritten in place.
unfoldable pub record_heartbeat : ℕ → String → Watchlist → Watchlist
record_heartbeat now session_uuid sessions = elim (get session_uuid sessions) [
  | none ↦ sessions
  | some session ↦ insert session_uuid (record session { last_heartbeat = now }) sessions
]

-- No heartbeat for twice the interval, whose product wraps around at 64 bits.
unfoldable pub heartbeat_alerts : ℕ → WatchedSession → List WatchAlert
heartbeat_alerts now s =
    let since_last = now - s.last_heartbeat in
    if ltb ((s.heartbeat_interval_seconds * 2) % 2 ^ 64) since_last
    then heartbeat_miss s.session_uuid s.worker_id since_last ∷ []
    else []

unfoldable pub timeout_alerts : ℕ → WatchedSession → List WatchAlert
timeout_alerts now s = elim s.timeout_seconds [
  | none ↦ []
  | some limit ↦
      let elapsed = now - s.started_at in
      if ltb limit elapsed then timeout s.session_uuid s.worker_id elapsed ∷ [] else []
]

unfoldable pub check_at : ℕ → Watchlist → List WatchAlert
check_at now [] = []
check_at now ((k, s) ∷ sessions) =
    (heartbeat_alerts now s ++ timeout_alerts now s) ++ check_at now sessions

abbrev pub watched_count : Watchlist → ℕ
watched_count sessions = length sessions
