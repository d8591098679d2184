-- ===== src/Worker/Rooms.antt =====
-- session_mux.rs: the two maps agree, and only registered sessions get events.
use mxdx.Prelude.{
  String, str_eq, str_eq_iff, ◌≡◌, refl, ◌∙◌, Bool, true, false, not, ◌&&◌, List, [], ◌∷◌, Option,
  some, none, if◌then◌else◌, retain, push_back, arith, Option-cases, inl, inr,
}
use mxdx.Prelude.Dict.{Dict, get, insert, remove, get-insert, get-remove, contains_key-get}
use mxdx.Prelude.Texts.{contains, contains-push_back, contains-retain}
use mxdx.Worker.Mux.{
  SessionMuxEntry, SessionMux, MuxAction, forward_input, resize, signal, no_match, ids_or_default,
  add_session, leave_room, remove_session, sessions_in_room, has_session, Json, action_of,
  route_event, text_field,
}

-- Whether an entry that may be missing is in the room.
abbrev pub is_in : String → Option SessionMuxEntry → Bool
is_in room_id none = false
is_in room_id (some e) = str_eq e.dm_room_id room_id

-- A room lists exactly the registered sessions that are in it.
abbrev pub Muxed : SessionMux → Type 0
Muxed mux =
    (room_id session_id : String)
    → contains (sessions_in_room room_id mux) session_id
      ≡ is_in room_id (get session_id mux.sessions)

-- What the worker asks of the mux.
pub data MuxCall : Type 0 where
  join : String → String → String → MuxCall
  leave : String → MuxCall

abbrev pub after : MuxCall → SessionMux → SessionMux
after (join session_id dm_room_id client_user_id) mux =
    add_session session_id dm_room_id client_user_id mux
after (leave session_id) mux = remove_session session_id mux

abbrev pub after_all : List MuxCall → SessionMux → SessionMux
after_all [] mux = mux
after_all (c ∷ cs) mux = after_all cs (after c mux)

-- No session joins while it is registered.
abbrev pub Fresh : List MuxCall → SessionMux → Type 0
Fresh [] mux = Unit
Fresh (join session_id r u ∷ cs) mux =
    (has_session session_id mux ≡ false) × Fresh cs (after (join session_id r u) mux)
Fresh (leave session_id ∷ cs) mux = Fresh cs (after (leave session_id) mux)

-- The sessions that a room lists.
abbrev listed : String → Dict (List String) → String → Bool
listed room_id rooms session_id = contains (ids_or_default (get room_id rooms)) session_id

listed-insert :
    (r : String) (ids : List String) (rooms : Dict (List String)) (n id : String)
    → listed n (insert r ids rooms) id ≡ (if str_eq r n then contains ids id else listed n rooms id)
listed-insert r ids rooms n id = ground (arith, get-insert r n ids rooms)

listed-remove :
    (r : String) (rooms : Dict (List String)) (n id : String)
    → listed n (remove r rooms) id ≡ (if str_eq r n then false else listed n rooms id)
unfolding contains
listed-remove r rooms n id = ground (arith, get-remove r n rooms)

listed-none :
    (n id : String) (rooms : Dict (List String)) → get n rooms ≡ none → listed n rooms id ≡ false
unfolding contains
listed-none n id rooms h = rw h refl

-- The list of the room that is left, when what is left of it is known.
listed-left :
    (r : String) (left : List String) (rooms : Dict (List String)) (n id : String)
    → listed n
        (elim left as (λ _. Dict (List String)) [
          | [] ↦ remove r rooms
          | i ∷ more ↦ insert r (i ∷ more) rooms
        ])
        id
      ≡ (if str_eq r n then contains left id else listed n rooms id)
unfolding contains
listed-left r [] rooms n id = listed-remove r rooms n id
listed-left r (i ∷ more) rooms n id = listed-insert r (i ∷ more) rooms n id

listed-leave_room :
    (s r : String) (rooms : Dict (List String)) (n id : String)
    → listed n (leave_room s r rooms) id
      ≡ (if str_eq r n then not (str_eq id s) && listed n rooms id else listed n rooms id)
unfolding leave_room contains
listed-leave_room s r rooms n id = elim (Option-cases (get r rooms)) [
  | inl h ↦ rw (h, leave_room) (ground (arith, str_eq_iff r n, listed-none n id rooms))
  | inr (ids, h) ↦
      rw (h, leave_room)
        (listed-left r (retain (λ i. not (str_eq i s)) ids) rooms n id
          ∙ ground (arith, h, str_eq_iff r n, contains-retain (λ i. not (str_eq i s)) ids id))
]

add_session-Muxed :
    (s r u : String) (mux : SessionMux)
    → has_session s mux ≡ false
    → Muxed mux
    → Muxed (add_session s r u mux)
unfolding add_session sessions_in_room has_session
add_session-Muxed s r u mux f v n id = ground (
  arith,
  listed-insert r (push_back (ids_or_default (get r mux.room_sessions)) s) mux.room_sessions n id,
  contains-push_back (ids_or_default (get r mux.room_sessions)) s id,
  get-insert s id (record { session_id = s; dm_room_id = r; client_user_id = u }) mux.sessions,
  contains_key-get s mux.sessions,
  str_eq_iff s id,
  str_eq_iff r n,
  v n id,
)

remove_session-Muxed : (s : String) (mux : SessionMux) → Muxed mux → Muxed (remove_session s mux)
unfolding remove_session sessions_in_room
remove_session-Muxed s mux v n id = elim (Option-cases (get s mux.sessions)) [
  | inl h ↦ rw (h, remove_session) (v n id)
  | inr (e, h) ↦
      rw (h, remove_session)
        (listed-leave_room s e.dm_room_id mux.room_sessions n id
          ∙ ground (
            arith,
            h,
            get-remove s id mux.sessions,
            str_eq_iff s id,
            str_eq_iff id s,
            str_eq_iff e.dm_room_id n,
            v n id,
          ))
]

-- From maps that agree, and with no session joining while it is registered: after any joins and
-- leaves a room lists exactly the registered sessions that are in it.
pub after_all-Muxed :
    (cs : List MuxCall) (mux : SessionMux) → Fresh cs mux → Muxed mux → Muxed (after_all cs mux)
after_all-Muxed [] mux f v = v
after_all-Muxed (join s r u ∷ cs) mux f v =
    after_all-Muxed cs _ f.1 (add_session-Muxed s r u mux f.0 v)
after_all-Muxed (leave s ∷ cs) mux f v = after_all-Muxed cs _ f (remove_session-Muxed s mux v)

-- The session that an action is for.
abbrev pub target : MuxAction → Option String
target (forward_input session_id input) = some session_id
target (resize session_id cols rows) = some session_id
target (signal session_id name) = some session_id
target no_match = none

module _ {Value : Type 0} (json : Json Value) where
  action-target :
      (event_type : String) (content : Value) (s t : String)
      → target (action_of json event_type content s) ≡ some t
      → s ≡ t
  unfolding action_of
  action-target event_type content s t h = ground arith

  -- An action is only for a registered session.
  pub route_event-target :
      (event_type content_json : String) (mux : SessionMux) (session_id : String)
      → target (route_event json event_type content_json mux) ≡ some session_id
      → has_session session_id mux ≡ true
  unfolding route_event
  route_event-target event_type content_json mux session_id h =
      elim (Option-cases (json.from_str content_json)) [
        | inl p ↦ ground arith
        | inr (content, p) ↦ elim (Option-cases (text_field json content "session_uuid")) [
          | inl q ↦ ground arith
          | inr (s, q) ↦ ground (arith, action-target event_type content s session_id)
        ]
      ]
