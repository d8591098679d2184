-- ===== src/Client/Tests.antt =====
-- The client at concrete inputs.
use mxdx.Prelude.{◌≡◌, refl, List, [], ◌∷◌, some}
use mxdx.Prelude.Bytes.{Bytes}
use mxdx.Prelude.Dict.{get, insert}
use mxdx.Client.Tracker.{
  TrackedSession, new, fresh_session, track, push_output, push_line, make_room,
}
use mxdx.Client.Buffers.{Bounded}
use mxdx.Client.Tracked.{TrackerCall, begin, line, after_all, tracked-Bounded}

abbrev text : Bytes
text = 104 ∷ 105 ∷ []

abbrev calls : List TrackerCall
calls = begin "s1" "!r:ex" ∷ line "s1" text ∷ []

abbrev kept : TrackedSession
kept = record (fresh_session "!r:ex") {
  output_buffer = text ∷ [];
  buffer_bytes = 2;
  broadcast = text ∷ [];
}

keeps : get "s1" (after_all calls new) ≡ some kept
unfolding get insert track push_output push_line make_room
keeps = refl

tracked-Bounded_example : Bounded kept
tracked-Bounded_example = tracked-Bounded calls "s1" kept keeps
