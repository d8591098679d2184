-- ===== src/Policy/Engine.antt =====
-- policy.rs: the replay cache, the authorised users, and the evaluation of a command event.
use mxdx.Prelude.{
  ℕ, ◌-◌, String, str_eq, Bool, true, false, not, List, [], Option, some, none, if◌then◌else◌, ltb,
  retain, push_back,
}
use mxdx.Prelude.Results.{Result, ok, err}
use mxdx.Prelude.Texts.{contains}

abbrev pub default_cache_capacity : ℕ
default_cache_capacity = 10000

-- One hour, in nanoseconds.
abbrev pub default_ttl : ℕ
default_ttl = 3600000000000

-- The library lru: a cache from texts to instants. `get` makes the entry the most recent one.
pub record LruCache (Cache : Type 0) : Type 0 where
  pub with_capacity : ℕ → Cache
  pub get : String → Cache → Cache × Option ℕ
  pub put : String → ℕ → Cache → Cache
  pub pop : String → Cache → Cache

pub record PolicyEngine (Cache : Type 0) : Type 0 where
  pub replay_cache : Cache
  pub ttl : ℕ
  pub authorized_users : List String

pub data PolicyRejection : Type 0 where
  replay : PolicyRejection
  unauthorized : PolicyRejection

-- `Display`
abbrev pub rejection_text : PolicyRejection → String
rejection_text replay = "replayed event rejected"
rejection_text unauthorized = "unauthorized user rejected"

module _ {Cache : Type 0} (lru : LruCache Cache) where
  -- `PolicyEngine::with_capacity_and_ttl`. It panics for a capacity of zero.
  unfoldable pub with_capacity_and_ttl : ℕ → ℕ → PolicyEngine Cache
  with_capacity_and_ttl capacity ttl = record {
    replay_cache = lru.with_capacity capacity;
    ttl = ttl;
    authorized_users = [];
  }

  -- `PolicyEngine::new`
  unfoldable pub new : PolicyEngine Cache
  new = with_capacity_and_ttl default_cache_capacity default_ttl

  unfoldable pub authorize_user : String → PolicyEngine Cache → PolicyEngine Cache
  authorize_user user_id p = record p {
    authorized_users =
        if contains p.authorized_users user_id
        then p.authorized_users
        else push_back p.authorized_users user_id;
  }

  unfoldable pub revoke_user : String → PolicyEngine Cache → PolicyEngine Cache
  revoke_user user_id p = record p {
    authorized_users = retain (λ u. not (str_eq u user_id)) p.authorized_users;
  }

  -- What the cache has found; `elapsed` of a time that is still to come is zero.
  unfoldable pub check_found :
      ℕ → String → Cache × Option ℕ → PolicyEngine Cache → PolicyEngine Cache × Bool
  check_found now event_id (cache, none) p = (record p { replay_cache = cache }, false)
  check_found now event_id (cache, some seen_at) p =
      if ltb (now - seen_at) p.ttl
      then (record p { replay_cache = cache }, true)
      else (record p { replay_cache = lru.pop event_id cache }, false)

  unfoldable pub check_replay : ℕ → String → PolicyEngine Cache → PolicyEngine Cache × Bool
  check_replay now event_id p = check_found now event_id (lru.get event_id p.replay_cache) p

  unfoldable pub mark_seen : ℕ → String → PolicyEngine Cache → PolicyEngine Cache
  mark_seen now event_id p = record p { replay_cache = lru.put event_id now p.replay_cache }

  -- The action is only logged.
  unfoldable pub is_authorized : String → String → PolicyEngine Cache → Bool
  is_authorized user_id action p = contains p.authorized_users user_id

  -- The instant of the check and that of the mark are the same reading of the clock here.
  unfoldable pub evaluate :
      ℕ
      → String
      → String
      → String
      → PolicyEngine Cache
      → PolicyEngine Cache × Result {0, 0} PolicyRejection Unit
  evaluate now event_id user_id action p =
      let (p', replayed) = check_replay now event_id p in
      if replayed
      then (p', err replay)
      else if not (is_authorized user_id action p')
      then (p', err unauthorized)
      else (mark_seen now event_id p', ok tt)
