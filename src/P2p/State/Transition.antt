-- ===== src/P2p/State/Transition.antt =====
-- state.rs, `transition`: the hangup that every state accepts, then the arm of the current state.
use mxdx.Prelude.{String, List, [], ◌∷◌, ◌++◌, Option, some, none}
use mxdx.P2p.State.Effects.{
  Command, state_transition, send_hangup, tear_down_channel, emit_telemetry,
}
use mxdx.P2p.State.Types.{
  Clock, P2pState, idle, fetching_turn, inviting, answering, glare, connecting, verifying, opened,
  failed, name, current_call, Event, hangup, TransitionResult, ok,
}
use mxdx.P2p.State.Before.{idle_arm, fetching_turn_arm, inviting_arm}
use mxdx.P2p.State.Handshake.{answering_arm, glare_arm, connecting_arm, verifying_arm}
use mxdx.P2p.State.After.{open_arm, failed_arm}

-- What a hangup sends for the call that it ends, if there is one.
hangup_commands : Option (String × String) → String → List Command
hangup_commands none reason = []
hangup_commands (some (call_id, party_id)) reason =
    send_hangup call_id party_id reason ∷ tear_down_channel reason ∷ []

unfoldable pub hangup_arm : P2pState → String → TransitionResult
unfolding hangup_commands current_call name
hangup_arm s reason = ok idle (
    hangup_commands (current_call s) reason
    ++ emit_telemetry (state_transition (name s) "Idle" reason) ∷ [])

-- The `match` on the state and the event.
unfoldable pub arm : Clock → P2pState → Event → TransitionResult
unfolding idle_arm fetching_turn_arm inviting_arm answering_arm glare_arm connecting_arm
    verifying_arm open_arm failed_arm
arm now idle e = idle_arm now e
arm now (fetching_turn since) e = fetching_turn_arm now since e
arm now (inviting s) e = inviting_arm now s e
arm now (answering s) e = answering_arm now s e
arm now (glare s) e = glare_arm s e
arm now (connecting s) e = connecting_arm now s e
arm now (verifying s) e = verifying_arm now s e
arm now (opened s) e = open_arm now s e
arm now (failed s) e = failed_arm now s e

unfoldable pub transition : Clock → P2pState → Event → TransitionResult
unfolding hangup_arm arm
transition now s (hangup reason) = hangup_arm s reason
transition now s e = arm now s e
