-- ===== src/Client/Tracker.antt =====
-- daemon/sessions.rs: the output that the daemon keeps for each session. A `str` is the list of its
-- bytes.
use mxdx.Prelude.{
  ℕ, ◌+◌, ◌-◌, ◌%◌, ◌^◌, String, Bool, true, false, List, [], ◌∷◌, some, none, if◌then◌else◌, ltb,
  length, push_back,
}
use mxdx.Prelude.Bytes.{Bytes}
use mxdx.Prelude.Dict as Dict
use mxdx.Prelude.Dict.{Dict, get, insert}
use mxdx.Prelude.Maps.{keys}

abbrev pub default_buffer_size : ℕ
default_buffer_size = 65536

-- `broadcast` is the lines that have been sent on the broadcast channel.
pub record TrackedSession : Type 0 where
  pub output_buffer : List Bytes
  pub buffer_bytes : ℕ
  pub max_buffer_bytes : ℕ
  pub broadcast : List Bytes
  pub worker_room : String
  pub is_complete : Bool

-- `SessionTracker` is the map of its sessions.
abbrev pub SessionTracker : Type 0
SessionTracker = Dict TrackedSession

-- `SessionTracker::new`
abbrev pub new : SessionTracker
new = []

abbrev pub fresh_session : String → TrackedSession
fresh_session worker_room = record {
  output_buffer = [];
  buffer_bytes = 0;
  max_buffer_bytes = default_buffer_size;
  broadcast = [];
  worker_room = worker_room;
  is_complete = false;
}

unfoldable pub track : String → String → SessionTracker → SessionTracker
track uuid worker_room m = insert uuid (fresh_session worker_room) m

-- The loop that drops the oldest lines until the new one fits: the lines and the bytes that are left.
unfoldable pub make_room : ℕ → ℕ → List Bytes → ℕ → List Bytes × ℕ
make_room line_len max [] buffered = ([], buffered)
make_room line_len max (old ∷ lines) buffered =
    let less = make_room line_len max lines (buffered - length old) in
    if ltb max ((buffered + line_len) % 2 ^ 64) then less else (old ∷ lines, buffered)

unfoldable pub push_line : Bytes → TrackedSession → TrackedSession
push_line line s =
    if ltb s.max_buffer_bytes (length line)
    then s
    else let (lines, buffered) =
        make_room (length line) s.max_buffer_bytes s.output_buffer s.buffer_bytes in
      record s {
        output_buffer = push_back lines line;
        buffer_bytes = (buffered + length line) % 2 ^ 64;
        broadcast = push_back s.broadcast line;
      }

unfoldable pub push_output : String → Bytes → SessionTracker → SessionTracker
push_output uuid line m = elim (get uuid m) [ none ↦ m | some s ↦ insert uuid (push_line line s) m ]

unfoldable pub complete : String → SessionTracker → SessionTracker
complete uuid m = elim (get uuid m) [
  | none ↦ m
  | some s ↦ insert uuid (record s { is_complete = true }) m
]

abbrev pub remove : String → SessionTracker → SessionTracker
remove uuid m = Dict.remove uuid m

unfoldable pub buffered_output : String → SessionTracker → List Bytes
buffered_output uuid m = elim (get uuid m) [ none ↦ [] | some s ↦ s.output_buffer ]

abbrev pub active_count : SessionTracker → ℕ
active_count [] = 0
active_count ((k, s) ∷ m) = if s.is_complete then active_count m else active_count m + 1

abbrev pub session_uuids : SessionTracker → List String
session_uuids m = keys m
