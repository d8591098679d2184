-- ===== src/Coordinator/Claim.antt =====
-- claim.rs: which worker has claimed a session. `SystemTime::now()` is an argument, in seconds.
use mxdx.Prelude.{
  ℕ, String, str_eq_iff, ◌≡◌, ◌≢◌, Bool, true, false, List, [], ◌∷◌, Option, some, if◌then◌else◌,
  arith, All,
}
use mxdx.Prelude.Dict.{
  Dict, get, insert, remove, contains_key, get-insert, get-remove, contains_key-get,
}

pub record ClaimRecord : Type 0 where
  pub session_uuid : String
  pub worker_id : String
  pub claimed_at : ℕ

-- `ClaimTracker` is the map of its claims.
abbrev pub ClaimTracker : Type 0
ClaimTracker = Dict ClaimRecord

-- `ClaimTracker::new`
abbrev pub new : ClaimTracker
new = []

unfoldable pub record_claim : ℕ → String → String → ClaimTracker → ClaimTracker × Bool
record_claim now session_uuid worker_id claims =
    let claim : ClaimRecord = record {
      session_uuid = session_uuid;
      worker_id = worker_id;
      claimed_at = now;
    } in
    if contains_key session_uuid claims
    then (claims, false)
    else (insert session_uuid claim claims, true)

abbrev pub get_claim : String → ClaimTracker → Option ClaimRecord
get_claim session_uuid claims = get session_uuid claims

abbrev pub release_claim : String → ClaimTracker → ClaimTracker
release_claim session_uuid claims = remove session_uuid claims

abbrev pub is_claimed : String → ClaimTracker → Bool
is_claimed session_uuid claims = contains_key session_uuid claims

-- A call of the tracker: an attempt of a worker at a time, or a release.
pub data ClaimCall : Type 0 where
  attempt : ℕ → String → String → ClaimCall
  release : String → ClaimCall

abbrev pub after_call : ClaimCall → ClaimTracker → ClaimTracker
after_call (attempt now session_uuid worker_id) claims =
    (record_claim now session_uuid worker_id claims).0
after_call (release session_uuid) claims = release_claim session_uuid claims

abbrev pub after_calls : List ClaimCall → ClaimTracker → ClaimTracker
after_calls [] claims = claims
after_calls (c ∷ cs) claims = after_calls cs (after_call c claims)

after_call-get :
    (c : ClaimCall) (session_uuid : String) (held : ClaimRecord) (claims : ClaimTracker)
    → c ≢ release session_uuid
    → get_claim session_uuid claims ≡ some held
    → get_claim session_uuid (after_call c claims) ≡ some held
unfolding record_claim
after_call-get (attempt now s w) session_uuid held claims n h = ground (
  arith,
  str_eq_iff s session_uuid,
  contains_key-get s claims,
  get-insert s session_uuid (record { session_uuid = s; worker_id = w; claimed_at = now }) claims,
)
after_call-get (release s) session_uuid held claims n h =
    ground (arith, str_eq_iff s session_uuid, get-remove s session_uuid claims)

-- A claim stays what it is, with its worker and its time, through any attempts and releases of
-- other sessions, and every further attempt at it fails until it is released.
pub claim_is_exclusive :
    (calls : List ClaimCall) (session_uuid : String) (held : ClaimRecord) (claims : ClaimTracker)
    → All (λ c. c ≢ release session_uuid) calls
    → get_claim session_uuid claims ≡ some held
    → (get_claim session_uuid (after_calls calls claims) ≡ some held)
      × ((now : ℕ) (worker_id : String)
          → record_claim now session_uuid worker_id (after_calls calls claims)
            ≡ (after_calls calls claims, false))
unfolding record_claim
claim_is_exclusive [] session_uuid held claims n h =
    (h, λ now worker_id. ground (arith, contains_key-get session_uuid claims))
claim_is_exclusive (c ∷ cs) session_uuid held claims n h =
    claim_is_exclusive cs session_uuid held (after_call c claims) n.1
      (after_call-get c session_uuid held claims n.0 h)

-- A released session can be claimed by any worker, which then holds it.
pub claim_after_release :
    (now : ℕ) (session_uuid worker_id : String) (claims : ClaimTracker)
    → let (claimed, won) =
        record_claim now session_uuid worker_id (release_claim session_uuid claims) in
      (won ≡ true)
      × (get_claim session_uuid claimed
          ≡ some (record { session_uuid = session_uuid; worker_id = worker_id; claimed_at = now }))
unfolding record_claim
claim_after_release now session_uuid worker_id claims = ground (
  arith,
  contains_key-get session_uuid (remove session_uuid claims),
  get-remove session_uuid session_uuid claims,
  str_eq_iff session_uuid session_uuid,
  get-insert session_uuid session_uuid
      (record { session_uuid = session_uuid; worker_id = worker_id; claimed_at = now })
      (remove session_uuid claims),
)
