-- ===== src/P2p/Turn.antt =====
-- turn.rs: the credentials of the TURN servers and the loop that refreshes them. All times are in
-- nanoseconds, and the wall clock and the monotonic clock are read at the same instants.
use mxdx.Prelude.{
  ℕ, ◌+◌, ◌-◌, ◌*◌, ◌/◌, String, str_eq, Bool, true, false, List, [], ◌∷◌, Option, some, none,
  if◌then◌else◌, leb, push_back, get_elem?,
}
use mxdx.Prelude.Texts.{contains}
use mxdx.Prelude.Results.{Result, ok, err}

abbrev pub loopback_hosts : List String
loopback_hosts = "localhost" ∷ "127.0.0.1" ∷ "::1" ∷ "[::1]" ∷ []

pub record TurnCredentials : Type 0 where
  pub uris : List String
  pub username : String
  pub password : String
  pub ttl : ℕ
  pub fetched_at : ℕ

abbrev pub expires_at : TurnCredentials → ℕ
expires_at c = c.fetched_at + c.ttl

abbrev pub refresh_at : TurnCredentials → ℕ
refresh_at c = c.fetched_at + c.ttl / 2

abbrev pub is_expired : ℕ → TurnCredentials → Bool
is_expired now c = leb (expires_at c) now

-- `Url`: its scheme and its host, of which some kinds have none.
pub record Url : Type 0 where
  pub scheme : String
  pub host : Option String

abbrev pub host_or_empty : Option String → String
host_or_empty none = ""
host_or_empty (some h) = h

unfoldable pub is_safe_scheme : Url → Bool
is_safe_scheme url =
    if str_eq url.scheme "https"
    then true
    else if str_eq url.scheme "http"
    then contains loopback_hosts (host_or_empty url.host)
    else false

-- The body of the answer of the homeserver, with the time to live in seconds.
pub record TurnResponse : Type 0 where
  pub uris : List String
  pub username : String
  pub password : String
  pub ttl : ℕ

-- What the HTTP library makes of the request: a client that cannot be built, no answer, or an answer
-- with whether its status is a success and its body, if that can be read.
pub data HttpAnswer : Type 0 where
  no_client : String → HttpAnswer
  no_answer : HttpAnswer
  answer : Bool → Option TurnResponse → HttpAnswer

abbrev pub Fetched : Type 0
Fetched = Result {0, 0} String (Option TurnCredentials)

unfoldable pub credentials_of : ℕ → TurnResponse → Fetched
credentials_of now body = elim body.uris [
  | [] ↦ ok none
  | u ∷ us ↦ ok (
      some (record {
        uris = u ∷ us;
        username = body.username;
        password = body.password;
        ttl = body.ttl * 1000000000;
        fetched_at = now;
      }))
]

unfoldable pub read_answer : ℕ → HttpAnswer → Fetched
read_answer now (no_client e) = err e
read_answer now no_answer = ok none
read_answer now (answer false body) = ok none
read_answer now (answer true none) = ok none
read_answer now (answer true (some body)) = credentials_of now body

abbrev pub is_requested : HttpAnswer → Bool
is_requested (no_client e) = false
is_requested no_answer = true
is_requested (answer status body) = true

-- The request is what the library would answer to it; it is sent only past the scheme's test and with
-- a client, which is seen in the first component: whether the access token left.
unfoldable pub fetch_turn_credentials : ℕ → Url → HttpAnswer → Bool × Fetched
fetch_turn_credentials now homeserver http =
    if is_safe_scheme homeserver
    then (is_requested http, read_answer now http)
    else (false, ok none)

pub data TurnRefreshOutcome : Type 0 where
  refreshed : TurnCredentials → TurnRefreshOutcome
  retry_pending : TurnRefreshOutcome
  expired : TurnRefreshOutcome

-- Five steps, in seconds.
abbrev pub refresh_backoff_secs : List ℕ
refresh_backoff_secs = 5 ∷ 10 ∷ 20 ∷ 40 ∷ 60 ∷ []

abbrev pub second : ℕ
second = 1000000000

-- The variables of the loop, and the outcomes that it has sent.
pub record RefreshLoop : Type 0 where
  pub hard_expiry : ℕ
  pub next_wake : ℕ
  pub backoff_idx : ℕ
  pub outcomes : List TurnRefreshOutcome

unfoldable pub start : ℕ → TurnCredentials → RefreshLoop
start now initial = record {
  hard_expiry = now + (expires_at initial - now);
  next_wake = now + (refresh_at initial - now);
  backoff_idx = 0;
  outcomes = [];
}

-- What wakes the loop: a shutdown, or a trigger or the timer at some time, with what the fetch that
-- follows gives, when it is done, and whether the receiver still takes the outcome.
pub data Wake : Type 0 where
  shutdown : Wake
  woken : ℕ → ℕ → Fetched → Bool → Wake

abbrev pub backoff_at : ℕ → ℕ
backoff_at i = elim (get_elem? refresh_backoff_secs i) [ none ↦ 0 | some s ↦ s ]

abbrev pub next_idx : ℕ → ℕ
next_idx i = if leb (i + 1) 4 then i + 1 else 4

unfoldable pub reschedule : ℕ → RefreshLoop → RefreshLoop
reschedule now l =
    let candidate_wake = now + backoff_at l.backoff_idx * second in
    record l {
      backoff_idx = next_idx l.backoff_idx;
      next_wake = if leb l.hard_expiry candidate_wake then l.hard_expiry else candidate_wake;
      outcomes = push_back l.outcomes retry_pending;
    }

unfoldable pub after_fetch : ℕ → Fetched → RefreshLoop → RefreshLoop
after_fetch now (ok (some creds)) l = record l {
  backoff_idx = 0;
  next_wake = now + (refresh_at creds - now);
  outcomes = push_back l.outcomes (refreshed creds);
}
after_fetch now (ok none) l = reschedule now l
after_fetch now (err e) l = reschedule now l

unfoldable pub run_refresh_loop : List Wake → RefreshLoop → RefreshLoop
run_refresh_loop [] l = l
run_refresh_loop (shutdown ∷ wakes) l = l
run_refresh_loop (woken now done fetched listening ∷ wakes) l =
    let next = after_fetch done fetched l in
    let rest = run_refresh_loop wakes next in
    if leb l.hard_expiry now
    then record l { outcomes = push_back l.outcomes expired }
    else if listening
    then rest
    else record next { outcomes = l.outcomes }
