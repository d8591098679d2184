-- ===== src/P2p/Refresh.antt =====
-- turn.rs: where the access token goes, and how long the refresh loop runs.
use mxdx.Prelude.{
  ℕ, ◌≤◌, ◌<◌, ◌≡◌, ◌≢◌, refl, sym, ap, subst, ◌∙◌, ◌⊎◌, inl, inr, String, str_eq, str_eq_iff, Bool,
  true, false, List, [], ◌∷◌, ◌++◌, Option, some, none, leb, push_back, All, arith, Bool-cases,
  le→leb,
}
use mxdx.Prelude.Texts.{contains}
use mxdx.Prelude.Results.{ok, err}
use mxdx.P2p.Turn.{
  TurnCredentials, Url, HttpAnswer, no_client, no_answer, answer, TurnResponse, Fetched,
  is_safe_scheme, is_requested, host_or_empty, credentials_of, read_answer, fetch_turn_credentials,
  expired, RefreshLoop, Wake, shutdown, woken, after_fetch, reschedule, run_refresh_loop,
  loopback_hosts,
}

-- Encrypted, or to this very host.
abbrev pub SafeOrigin : Url → Type 0
SafeOrigin url =
    (url.scheme ≡ "https")
    ⊎ ((url.scheme ≡ "http")
        × ((url.host ≡ some "localhost")
            ⊎ (url.host ≡ some "127.0.0.1")
            ⊎ (url.host ≡ some "::1")
            ⊎ (url.host ≡ some "[::1]")))

loopback :
    (host : Option String)
    → contains loopback_hosts (host_or_empty host) ≡ true
    → (host ≡ some "localhost")
      ⊎ (host ≡ some "127.0.0.1")
      ⊎ (host ≡ some "::1")
      ⊎ (host ≡ some "[::1]")
unfolding contains
loopback none h = cc
loopback (some x) h = ground (
  arith,
  str_eq_iff "localhost" x,
  str_eq_iff "127.0.0.1" x,
  str_eq_iff "::1" x,
  str_eq_iff "[::1]" x,
)

safe_scheme : (url : Url) → is_safe_scheme url ≡ true → SafeOrigin url
unfolding is_safe_scheme
safe_scheme url h = elim (Bool-cases (str_eq url.scheme "https")) [
  | inl y ↦ inl ((str_eq_iff url.scheme "https").0 y)
  | inr n ↦ elim (Bool-cases (str_eq url.scheme "http")) [
    | inl y ↦ inr ((str_eq_iff url.scheme "http").0 y, loopback url.host (ground arith))
    | inr m ↦ absurd (ground arith)
  ]
]

abbrev uris_of : Fetched → List String
uris_of (ok (some c)) = c.uris
uris_of (ok none) = []
uris_of (err e) = []

credentials-uris : (now : ℕ) (body : TurnResponse) → uris_of (credentials_of now body) ≡ body.uris
unfolding credentials_of
credentials-uris now body = ground arith

no_credentials :
    (now : ℕ) (body : TurnResponse) → body.uris ≡ [] → credentials_of now body ≡ ok none
unfolding credentials_of
no_credentials now body q = rw (credentials_of, q) refl

none_is_not_some : (c : TurnCredentials) → ¬ (◌≡◌ {A = Fetched} (ok none) (ok (some c)))
none_is_not_some c h = cc

answer_has_uris :
    (now : ℕ) (http : HttpAnswer) (c : TurnCredentials)
    → read_answer now http ≡ ok (some c)
    → c.uris ≢ []
unfolding read_answer
answer_has_uris now (no_client e) c h = cc
answer_has_uris now no_answer c h = cc
answer_has_uris now (answer false body) c h = cc
answer_has_uris now (answer true none) c h = cc
answer_has_uris now (answer true (some body)) c h = λ z.
    none_is_not_some c
      (sym (no_credentials now body (sym (credentials-uris now body) ∙ ap uris_of h ∙ z)) ∙ h)

answer_is_sent :
    (now : ℕ) (http : HttpAnswer) (c : TurnCredentials)
    → read_answer now http ≡ ok (some c)
    → is_requested http ≡ true
unfolding read_answer
answer_is_sent now (no_client e) c h = cc
answer_is_sent now no_answer c h = refl
answer_is_sent now (answer status body) c h = refl

-- Whatever the homeserver answers: a request with the access token is sent only over https, or
-- over http to one of the four names of the local host; and credentials come only from a request
-- that was sent, with at least one server.
pub fetch_turn_credentials-SafeOrigin :
    (now : ℕ) (homeserver : Url) (http : HttpAnswer)
    → let (sent, fetched) = fetch_turn_credentials now homeserver http in
      (sent ≡ true → SafeOrigin homeserver)
      × ((c : TurnCredentials) → fetched ≡ ok (some c) → (sent ≡ true) × (c.uris ≢ []))
unfolding fetch_turn_credentials
fetch_turn_credentials-SafeOrigin now homeserver http =
    elim (Bool-cases (is_safe_scheme homeserver)) [
      | inl y ↦
          rw (fetch_turn_credentials, y)
            (
              (λ t. safe_scheme homeserver y),
              λ c h. (answer_is_sent now http c h, answer_has_uris now http c h),
            )
      | inr n ↦ rw (fetch_turn_credentials, n) ((λ t. cc), λ c h. cc)
    ]

-- The loop is still running after these wakes: none is a shutdown, each comes before the expiry, and
-- the outcome of each is received.
abbrev pub Running : ℕ → Wake → Type 0
Running expiry shutdown = ⊥
Running expiry (woken now done fetched listening) = (now < expiry) × (listening ≡ true)

after_fetch-expiry :
    (now : ℕ) (fetched : Fetched) (l : RefreshLoop)
    → (after_fetch now fetched l).hard_expiry ≡ l.hard_expiry
unfolding after_fetch reschedule
after_fetch-expiry now (ok (some c)) l = refl
after_fetch-expiry now (ok none) l = refl
after_fetch-expiry now (err e) l = refl

-- After any wakes before the expiry of the first credentials that were no shutdown and whose
-- outcomes were received, refreshes that succeeded included: a wake at or after that expiry ends
-- the loop with the outcome Expired, without a fetch, whatever would follow.
pub run_expires :
    (ws rest : List Wake) (now done : ℕ) (fetched : Fetched) (listening : Bool) (l : RefreshLoop)
    → All (Running l.hard_expiry) ws
    → l.hard_expiry ≤ now
    → run_refresh_loop (ws ++ woken now done fetched listening ∷ rest) l
      ≡ record (run_refresh_loop ws l) {
        outcomes = push_back (run_refresh_loop ws l).outcomes expired;
      }
unfolding run_refresh_loop
run_expires [] rest now done fetched listening l a h = rw (le→leb l.hard_expiry now h) refl
run_expires (shutdown ∷ ws) rest now done fetched listening l (a, later) h = absurd a
run_expires (woken n d f true ∷ ws) rest now done fetched listening l ((b, e), later) h =
    let before : leb l.hard_expiry n ≡ false = ground arith in
    let same = sym (after_fetch-expiry d f l) in
    rw before (
      run_expires ws rest now done fetched listening (after_fetch d f l)
        (subst (λ x. All (Running x) ws) same later) (subst (λ x. x ≤ now) same h))
run_expires (woken n d f false ∷ ws) rest now done fetched listening l ((b, e), later) h = cc
