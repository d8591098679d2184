-- ===== src/Worker/Mux.antt =====
-- session_mux.rs: the sessions that share a room, and the events that are for them.
use mxdx.Prelude.{
  ℕ, ◌%◌, ◌^◌, String, str_eq, Bool, not, List, [], ◌∷◌, Option, some, none, if◌then◌else◌, retain,
  push_back, length,
}
use mxdx.Prelude.Dict.{Dict, get, insert, remove, contains_key}

pub record SessionMuxEntry : Type 0 where
  pub session_id : String
  pub dm_room_id : String
  pub client_user_id : String

pub record SessionMux : Type 0 where
  pub sessions : Dict SessionMuxEntry
  pub room_sessions : Dict (List String)

-- `resize` carries the session, the columns and the rows, both `u16`.
pub data MuxAction : Type 0 where
  forward_input : String → String → MuxAction
  resize : String → ℕ → ℕ → MuxAction
  signal : String → String → MuxAction
  no_match : MuxAction

-- `SessionMux::new`
abbrev pub new : SessionMux
new = record { sessions = []; room_sessions = [] }

-- `unwrap_or_default`
abbrev pub ids_or_default : Option (List String) → List String
ids_or_default none = []
ids_or_default (some ids) = ids

unfoldable pub add_session : String → String → String → SessionMux → SessionMux
add_session session_id dm_room_id client_user_id mux =
    let entry : SessionMuxEntry = record {
      session_id = session_id;
      dm_room_id = dm_room_id;
      client_user_id = client_user_id;
    } in
    record {
      sessions = insert session_id entry mux.sessions;
      room_sessions =
          insert dm_room_id
            (push_back (ids_or_default (get dm_room_id mux.room_sessions)) session_id)
            mux.room_sessions;
    }

-- The identifiers of the room without the session; a room that is left without one is removed.
unfoldable pub leave_room : String → String → Dict (List String) → Dict (List String)
leave_room session_id dm_room_id rooms = elim (get dm_room_id rooms) [
  | none ↦ rooms
  | some ids ↦ elim (retain (λ id. not (str_eq id session_id)) ids) [
    | [] ↦ remove dm_room_id rooms
    | id ∷ more ↦ insert dm_room_id (id ∷ more) rooms
  ]
]

unfoldable pub remove_session : String → SessionMux → SessionMux
remove_session session_id mux = elim (get session_id mux.sessions) [
  | none ↦ mux
  | some entry ↦ record {
    sessions = remove session_id mux.sessions;
    room_sessions = leave_room session_id entry.dm_room_id mux.room_sessions;
  }
]

unfoldable pub sessions_in_room : String → SessionMux → List String
sessions_in_room room_id mux = ids_or_default (get room_id mux.room_sessions)

unfoldable pub has_session : String → SessionMux → Bool
has_session session_id mux = contains_key session_id mux.sessions

abbrev pub session_count : SessionMux → ℕ
session_count mux = length mux.sessions

-- The serde_json library: parsing a text, a field of an object, a text and an unsigned number.
pub record Json (Value : Type 0) : Type 0 where
  pub from_str : String → Option Value
  pub field : Value → String → Option Value
  pub as_str : Value → Option String
  pub as_u64 : Value → Option ℕ

abbrev pub unwrap_or {ℓ} : {A : Type ℓ} → Option A → A → A
unwrap_or none a = a
unwrap_or (some b) a = b

module _ {Value : Type 0} (json : Json Value) where
  -- `content.get(name).and_then(as_str)`
  abbrev pub text_field : Value → String → Option String
  text_field content name = elim (json.field content name) [ none ↦ none | some v ↦ json.as_str v ]

  abbrev pub number_field : Value → String → Option ℕ
  number_field content name = elim (json.field content name) [
    | none ↦ none
    | some v ↦ json.as_u64 v
  ]

  unfoldable pub action_of : String → Value → String → MuxAction
  action_of event_type content session_id =
      if str_eq event_type "org.mxdx.session.input"
      then forward_input session_id (unwrap_or (text_field content "data") "")
      else if str_eq event_type "org.mxdx.session.resize"
      then resize session_id (unwrap_or (number_field content "cols") 80 % 2 ^ 16)
          (unwrap_or (number_field content "rows") 24 % 2 ^ 16)
      else if str_eq event_type "org.mxdx.session.signal"
      then signal session_id (unwrap_or (text_field content "signal") "SIGTERM")
      else no_match

  unfoldable pub route_event : String → String → SessionMux → MuxAction
  route_event event_type content_json mux = elim (json.from_str content_json) [
    | none ↦ no_match
    | some content ↦ elim (text_field content "session_uuid") [
      | none ↦ no_match
      | some session_id ↦
          if has_session session_id mux then action_of event_type content session_id else no_match
    ]
  ]
