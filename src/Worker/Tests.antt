-- ===== src/Worker/Tests.antt =====
-- The worker at concrete inputs.
use mxdx.Prelude.{
  if◌then◌else◌, arith, ℕ, String, ◌≡◌, refl, true, false, List, [], ◌∷◌, Option, some, none,
}
use mxdx.Prelude.Texts.{contains}
use mxdx.Prelude.Bytes.{Bytes, bytes_eq, bytes_eq→eq}
use mxdx.Worker.Batch.{Batch, Received, bytes, window_over, start, batch_loop, send_batch}
use mxdx.Worker.Batches.{Numbered, contents, all_received, batch_loop_sends_all}
use mxdx.Prelude.Results.{ℤ, Result, err}
use mxdx.Prelude.Dict.{get, insert, remove, contains_key}
use mxdx.Events.{SessionTask, SessionStatus, success}
use mxdx.Worker.Mux.{
  SessionMux, Json, new, has_session, route_event, add_session, remove_session, action_of,
  sessions_in_room,
}
use mxdx.Worker.Rooms.{MuxCall, join, leave, after_all, Muxed, Fresh, after_all-Muxed, target}
use mxdx.Worker.Session as Sessions
use mxdx.Worker.Session.{Session, SessionManager, completed, complete}
use mxdx.Worker.Lifecycle as Lifecycle
use mxdx.Worker.Lifecycle.{
  SessionCall, take, run, finish, forget, completed_is_final, Managed, after_all-Managed, fails,
}

abbrev calls : List MuxCall
calls =
    join "s1" "!r:ex" "@a:ex"
    ∷ join "s2" "!r:ex" "@b:ex"
    ∷ leave "s1"
    ∷ join "s1" "!q:ex" "@a:ex"
    ∷ []

calls-Fresh : Fresh calls new
unfolding has_session add_session remove_session contains_key insert get remove
calls-Fresh = (refl, (refl, (refl, tt)))

new-Muxed : Muxed new
unfolding sessions_in_room contains get
new-Muxed room_id session_id = refl

after_all-Muxed_example : Muxed (after_all calls new)
after_all-Muxed_example = after_all-Muxed calls new calls-Fresh new-Muxed

-- Every text is an object whose every field is the text "s1".
abbrev json : Json String
json = record {
  from_str = λ t. some t;
  field = λ v name. some "s1";
  as_str = λ v. some v;
  as_u64 = λ v. none;
}

abbrev one_session : SessionMux
one_session = record {
  sessions =
      ("s1", record { session_id = "s1"; dm_room_id = "!r:ex"; client_user_id = "@a:ex" }) ∷ [];
  room_sessions = ("!r:ex", "s1" ∷ []) ∷ [];
}

forwards : target (route_event json "org.mxdx.session.input" "{}" one_session) ≡ some "s1"
unfolding route_event action_of has_session contains_key
forwards = refl

abbrev task : SessionTask
task = record {
  uuid = "s1";
  sender_id = "@alice:ex";
  bin = "make";
  args = [];
  env = none;
  cwd = none;
  interactive = false;
  no_room_output = false;
  timeout_seconds = none;
  heartbeat_interval_seconds = 30;
  plan = none;
  required_capabilities = [];
  routing_mode = none;
  on_timeout = none;
  on_heartbeat_miss = none;
}

abbrev session : Session ℕ
session = record {
  uuid = "s1";
  task = task;
  state = completed;
  tmux = some 1;
  started_at = 5;
  worker_id = "w1";
  pid = none;
}

abbrev manager : SessionManager ℕ
manager = record { sessions = ("s1", session) ∷ []; manager_id = "w1" }

abbrev later : List (SessionCall ℕ)
later = take 9 task ∷ run "s1" none 2 ∷ finish 10 "s1" success none ∷ []

kept : Sessions.get "s1" manager ≡ some session
unfolding get
kept = refl

completed_is_final_example :
    (Sessions.get "s1" (Lifecycle.after_all later manager) ≡ some session)
    × ((now : ℕ) (status : SessionStatus) (exit_code : Option ℤ)
        → ((complete now "s1" status exit_code (Lifecycle.after_all later manager)).0
            ≡ Lifecycle.after_all later manager)
          × (fails (complete now "s1" status exit_code (Lifecycle.after_all later manager)).1
              ≡ true))
completed_is_final_example =
    completed_is_final later "s1" manager session ((λ e. cc), ((λ e. cc), ((λ e. cc), tt))) kept
      refl

after_all-Managed_example : Managed (Lifecycle.after_all later (Sessions.new "w1"))
after_all-Managed_example = after_all-Managed "w1" later

abbrev four : Bytes
four = 1 ∷ 1 ∷ 1 ∷ 1 ∷ []

-- A library that compresses just one text.
unfoldable shrink : Bytes → Option Bytes
shrink input = if bytes_eq input four then some (9 ∷ []) else none

shrinks_back : (input out : Bytes) → shrink input ≡ some out → four ≡ input
unfolding shrink
shrinks_back input out h = ground (arith, bytes_eq→eq input four)

-- A server that always refuses.
abbrev refuse : Batch → Result {0, 0} Bytes Unit
refuse b = err (52 ∷ 50 ∷ 57 ∷ [])

abbrev output : List Received
output = bytes (1 ∷ 1 ∷ []) ∷ bytes (1 ∷ 1 ∷ []) ∷ window_over ∷ bytes (5 ∷ []) ∷ []

batch_loop_sends_all_example :
    (contents (λ _. four) (batch_loop shrink 2 refuse output start).sent ≡ all_received output)
    × Numbered 0
        (batch_loop shrink 2 refuse output start).last_seq
        (batch_loop shrink 2 refuse output start).sent
batch_loop_sends_all_example = batch_loop_sends_all shrink 2 refuse (λ _. four) shrinks_back output

two_batches : (batch_loop shrink 2 refuse output start).last_seq ≡ 2
unfolding batch_loop send_batch
two_batches = refl
