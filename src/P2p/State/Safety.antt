-- ===== src/P2p/State/Safety.antt =====
-- One step of `transition`: what it may open, what it tears down, reports and keeps.
use mxdx.Prelude.{
  ◌+◌, ◌≤◌, String, ◌≡◌, ◌⊎◌, Bool, true, false, List, [], Option, some, none, arith, any,
}
use mxdx.P2p.Channel.{ChannelEvent}
use mxdx.P2p.State.Effects.{Command, tear_down_channel, drain_outbound}
use mxdx.P2p.State.Types.{
  Clock, P2pState, Verifying, Opened, Failed, StartRequest, idle, fetching_turn, verifying, opened,
  failed, is_open, current_call, default_retry_after, Event, start, verify_ok, channel_event, ok,
  illegal,
}
use mxdx.P2p.State.Transition.{transition}

-- A transition into `Open` starts in `Open`, or is `VerifyOk` in `Verifying`.
pub transition-opened :
    (now : Clock) (s : P2pState) (e : Event) {o : Opened} {cs : List Command}
    → transition now s e ≡ ok (opened o) cs
    → (is_open s ≡ true) ⊎ ((v : Verifying) × (s ≡ verifying v) × (e ≡ verify_ok))
unfolding transition
transition-opened now s e h = ground arith

abbrev pub is_tear_down : Command → Bool
is_tear_down (tear_down_channel _) = true
is_tear_down _ = false

abbrev pub in_call : P2pState → Bool
in_call s = elim (current_call s) [ some _ ↦ true | none ↦ false ]

-- A transition that ends a call tears the channel down, unless the channel has itself reported
-- that it is closed.
pub transition_ends_call :
    (now : Clock) (s t : P2pState) (e : Event) {cs : List Command}
    → transition now s e ≡ ok t cs
    → in_call s ≡ true
    → in_call t ≡ false
    → (any is_tear_down cs ≡ true) ⊎ ((r : String) × (e ≡ channel_event (ChannelEvent.closed r)))
unfolding transition current_call
transition_ends_call now s t e h i o = ground arith

abbrev pub call_id_of : P2pState → Option String
call_id_of s = elim (current_call s) [ some (c, _) ↦ some c | none ↦ none ]

-- While a call lives its identifier stays: a transition from a state with a call to a state with
-- a call keeps the identifier.
pub transition-call_id_of :
    (now : Clock) (s t : P2pState) (e : Event) {cs : List Command} {c d : String}
    → transition now s e ≡ ok t cs
    → call_id_of s ≡ some c
    → call_id_of t ≡ some d
    → d ≡ c
unfolding transition current_call
transition-call_id_of now s t e h i o = ground arith

-- A queued payload is drained only by the transition that enters `Open`.
abbrev pub is_drain : Command → Bool
is_drain drain_outbound = true
is_drain _ = false

-- The command to drain the outbound queue is given only by the transition into Open on VerifyOk.
pub drain_needs_verify_ok :
    (now : Clock) (s t : P2pState) (e : Event) {cs : List Command}
    → transition now s e ≡ ok t cs
    → any is_drain cs ≡ true
    → (is_open t ≡ true) × (e ≡ verify_ok)
unfolding transition current_call
drain_needs_verify_ok now s t e h i = ground arith

-- A transition into Failed sets the earliest retry at least 30 seconds after the clock of the
-- transition, or was already in that very Failed state.
pub transition-failed :
    (now : Clock) (s : P2pState) (e : Event) {f : Failed} {cs : List Command}
    → transition now s e ≡ ok (failed f) cs
    → (s ≡ failed f) ⊎ (now 0 + default_retry_after ≤ f.retry_after)
unfolding transition
transition-failed now s e h = ground arith

-- A start is obeyed in `Idle` and in `Failed`, where it goes to `FetchingTurn`. In every other state
-- it changes nothing: `Glare` drops it with no command, the others refuse it.
abbrev pub is_resting : P2pState → Bool
is_resting idle = true
is_resting (failed _) = true
is_resting _ = false

-- A start is obeyed in Idle and in Failed, where it goes to FetchingTurn with the time of the
-- clock; in every other state it is dropped or refused, and the state stays.
pub transition-start :
    (now : Clock) (s : P2pState) (r : StartRequest)
    → ((is_resting s ≡ true)
        × ((cs : List Command) × (transition now s (start r) ≡ ok (fetching_turn (now 0)) cs)))
      ⊎ ((is_resting s ≡ false)
          × ((transition now s (start r) ≡ ok s [])
              ⊎ ((note : String) × (transition now s (start r) ≡ illegal note))))
unfolding transition
transition-start now s r = ground arith
