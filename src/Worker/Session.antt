-- ===== src/Worker/Session.antt =====
-- session.rs: the sessions of a worker. `SystemTime::now()` is an argument, in seconds.
use mxdx.Prelude.{
  ℕ, ◌-◌, String, str_append, Bool, true, false, not, List, [], ◌∷◌, Option, some, none,
  if◌then◌else◌, retain,
}
use mxdx.Prelude.Results.{Result, ok, err, ℤ}
use mxdx.Prelude.Dict.{Dict, insert, contains_key}
use mxdx.Prelude.Dict as Dict
use mxdx.Events.{SessionTask, SessionStatus, ActiveSessionState, CompletedSessionState}

pub data SessionState : Type 0 where
  claimed running completed : SessionState

-- `Tmux` is the handle of a terminal, which the manager only keeps.
pub record Session (Tmux : Type 0) : Type 0 where
  pub uuid : String
  pub task : SessionTask
  pub state : SessionState
  pub tmux : Option Tmux
  pub started_at : ℕ
  pub worker_id : String
  pub pid : Option ℕ

pub record SessionManager (Tmux : Type 0) : Type 0 where
  pub sessions : Dict (Session Tmux)
  pub manager_id : String

-- `{:?}` of a state
abbrev pub state_text : SessionState → String
state_text claimed = "Claimed"
state_text running = "Running"
state_text completed = "Completed"

abbrev pub is_completed : SessionState → Bool
is_completed completed = true
is_completed claimed = false
is_completed running = false

abbrev pub not_found : String → String
not_found uuid = str_append (str_append "session " uuid) " not found"

abbrev pub not_claimed : String → SessionState → String
not_claimed uuid state =
    str_append
      (str_append (str_append (str_append "session " uuid) " is not in Claimed state (current: ")
        (state_text state))
      ")"

abbrev pub is_claimed_state : SessionState → Bool
is_claimed_state claimed = true
is_claimed_state running = false
is_claimed_state completed = false

module _ {Tmux : Type 0} where
  -- `SessionManager::new`
  abbrev pub new : String → SessionManager Tmux
  new worker_id = record { sessions = []; manager_id = worker_id }

  abbrev pub contains_session : String → SessionManager Tmux → Bool
  contains_session uuid m = contains_key uuid m.sessions

  abbrev pub put : String → Session Tmux → SessionManager Tmux → SessionManager Tmux
  put uuid s m = record m { sessions = insert uuid s m.sessions }

  unfoldable pub claim :
      ℕ → SessionTask → SessionManager Tmux → SessionManager Tmux × Result String ActiveSessionState
  claim now task m =
      let active_state : ActiveSessionState = record {
        bin = task.bin;
        args = task.args;
        pid = none;
        start_time = now;
        client_id = task.sender_id;
        interactive = task.interactive;
        worker_id = m.manager_id;
      } in
      let session : Session Tmux = record {
        uuid = task.uuid;
        task = task;
        state = claimed;
        tmux = none;
        started_at = now;
        worker_id = m.manager_id;
        pid = none;
      } in
      if contains_session task.uuid m
      then (m, err (str_append (str_append "session " task.uuid) " already exists"))
      else (put task.uuid session m, ok active_state)

  unfoldable pub mark_running :
      String
      → Option ℕ
      → Tmux
      → SessionManager Tmux
      → SessionManager Tmux × Result {0, 0} String Unit
  mark_running uuid pid tmux m = elim (Dict.get uuid m.sessions) [
    | none ↦ (m, err (not_found uuid))
    | some s ↦
        if is_claimed_state s.state
        then (put uuid (record s { state = running; pid = pid; tmux = some tmux }) m, ok tt)
        else (m, err (not_claimed uuid s.state))
  ]

  unfoldable pub complete :
      ℕ
      → String
      → SessionStatus
      → Option ℤ
      → SessionManager Tmux
      → SessionManager Tmux × Result String CompletedSessionState
  complete now uuid status exit_code m = elim (Dict.get uuid m.sessions) [
    | none ↦ (m, err (not_found uuid))
    | some s ↦
        if is_completed s.state
        then (m, err (str_append (str_append "session " uuid) " already completed"))
        else (
          put uuid (record s { state = completed }) m,
          ok (record {
            exit_code = exit_code;
            duration_seconds = now - s.started_at;
            completion_time = now;
          }),
        )
  ]

  abbrev values : Dict (Session Tmux) → List (Session Tmux)
  values [] = []
  values ((k, s) ∷ m) = s ∷ values m

  abbrev pub active_sessions : SessionManager Tmux → List (Session Tmux)
  active_sessions m = retain (λ s. not (is_completed s.state)) (values m.sessions)

  abbrev pub get : String → SessionManager Tmux → Option (Session Tmux)
  get uuid m = Dict.get uuid m.sessions

  abbrev pub remove : String → SessionManager Tmux → SessionManager Tmux × Option (Session Tmux)
  remove uuid m = (record m { sessions = Dict.remove uuid m.sessions }, Dict.get uuid m.sessions)
