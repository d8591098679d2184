-- ===== src/P2p/State/Reports.antt =====
-- What one step of `transition` tells the peer and the telemetry.
use mxdx.Prelude.{String, ◌≡◌, ◌≢◌, Bool, true, false, List, arith, any, All, some}
use mxdx.P2p.State.Effects.{Command, send_hangup, emit_telemetry, state_transition}
use mxdx.P2p.State.Types.{Clock, P2pState, name, current_call, Event, ok}
use mxdx.P2p.State.Transition.{transition}

abbrev pub is_report : Command → Bool
is_report (emit_telemetry (state_transition _ _ _)) = true
is_report _ = false

-- A report of a state transition names these two states; other commands are let through.
abbrev pub Reports : String → String → Command → Type 0
Reports f t (emit_telemetry (state_transition f' t' _)) = (f' ≡ f) × (t' ≡ t)
Reports f t _ = Unit {0}

-- Telemetry is exact: every reported state transition names the state before and the state after,
-- and a transition that changes the name of the state is reported.
pub transition-Reports :
    (now : Clock) (s t : P2pState) (e : Event) {cs : List Command}
    → transition now s e ≡ ok t cs
    → All (Reports (name s) (name t)) cs × (name s ≢ name t → any is_report cs ≡ true)
unfolding transition current_call name
transition-Reports now s t e h = ground arith

-- What a hangup command must name: the call and the party of the state that is left.
abbrev pub HangsUp : P2pState → Command → Type 0
HangsUp s (send_hangup call_id party_id _) = current_call s ≡ some (call_id, party_id)
HangsUp s _ = Unit {0}

-- Every hangup that a transition sends names the call and the party that the state before it
-- held.
pub transition-HangsUp :
    (now : Clock) (s t : P2pState) (e : Event) {cs : List Command}
    → transition now s e ≡ ok t cs
    → All (HangsUp s) cs
unfolding transition current_call
transition-HangsUp now s t e h = ground arith
