-- ===== src/P2p/State/Run.antt =====
-- The state machine fed with any sequence of events, each with its own clock. An illegal event keeps
-- the state, as `DriverTask::dispatch` does.
use mxdx.Prelude.{ℕ, ◌<◌, ◌≡◌, refl, ◌⊎◌, inl, inr, Bool, true, false, List, [], ◌∷◌, arith, All}
use mxdx.P2p.Channel.{ChannelEvent}
use mxdx.P2p.Signaling.{ParsedCallEvent}
use mxdx.P2p.State.Types.{
  Clock, P2pState, Failed, idle, verifying, failed, is_open, Event, start, hangup, verify_ok,
  channel_event, call_event_received, TransitionResult, ok, illegal,
}
use mxdx.P2p.State.Transition.{transition}

unfoldable pub next_state : P2pState → TransitionResult → P2pState
next_state s (ok t _) = t
next_state s (illegal _) = s

unfoldable pub step : P2pState → Clock × Event → P2pState
unfolding next_state
step s (now, e) = next_state s (transition now s e)

unfoldable pub run : P2pState → List (Clock × Event) → P2pState
run s [] = s
run s (i ∷ is) = run (step s i) is

abbrev is_verifying : P2pState → Bool
is_verifying (verifying _) = true
is_verifying _ = false

step-is_open :
    (now : Clock) (s : P2pState) (e : Event)
    → is_open (step s (now, e)) ≡ true
    → (is_open s ≡ true) ⊎ ((is_verifying s ≡ true) × (e ≡ verify_ok))
unfolding step transition
step-is_open now s e h = ground arith

step-is_verifying :
    (now : Clock) (s : P2pState) (e : Event)
    → is_verifying (step s (now, e)) ≡ true
    → (is_verifying s ≡ true) ⊎ (e ≡ channel_event ChannelEvent.opened)
unfolding step transition
step-is_verifying now s e h = ground arith

-- The events hold a `VerifyOk`.
abbrev HasVerifyOk : List (Clock × Event) → Type 0
HasVerifyOk [] = ⊥
HasVerifyOk ((_, e) ∷ is) = (e ≡ verify_ok) ⊎ HasVerifyOk is

-- The events hold an opened channel and, later, a `VerifyOk`.
abbrev pub HasHandshake : List (Clock × Event) → Type 0
HasHandshake [] = ⊥
HasHandshake ((_, e) ∷ is) =
    ((e ≡ channel_event ChannelEvent.opened) × HasVerifyOk is) ⊎ HasHandshake is

abbrev OpensFrom : P2pState → List (Clock × Event) → Type 0
OpensFrom s is = (is_open s ≡ true) ⊎ (((is_verifying s ≡ true) × HasVerifyOk is) ⊎ HasHandshake is)

step-OpensFrom :
    (s : P2pState) (i : Clock × Event) (is : List (Clock × Event))
    → OpensFrom (step s i) is
    → OpensFrom s (i ∷ is)
step-OpensFrom s (now, e) is (inl o) = elim (step-is_open now s e o) [
  | inl p ↦ inl p
  | inr (v, q) ↦ inr (inl (v, inl q))
]
step-OpensFrom s (now, e) is (inr (inl (v, k))) = elim (step-is_verifying now s e v) [
  | inl p ↦ inr (inl (p, inr k))
  | inr q ↦ inr (inr (inl (q, k)))
]
step-OpensFrom s (now, e) is (inr (inr k)) = inr (inr (inr k))

run-OpensFrom :
    (s : P2pState) (is : List (Clock × Event)) → is_open (run s is) ≡ true → OpensFrom s is
unfolding run
run-OpensFrom s [] h = inl h
run-OpensFrom s (i ∷ is) h = step-OpensFrom s i is (run-OpensFrom (step s i) is h)

-- Whatever events arrive, in whatever order: a call that starts Idle and is Open in the end has
-- seen the channel open and, after that, the verification succeed.
pub open_needs_handshake :
    (is : List (Clock × Event)) → is_open (run idle is) ≡ true → HasHandshake is
open_needs_handshake is h = elim (run-OpensFrom idle is h) [
  | inl o ↦ cc
  | inr (inl (v, _)) ↦ cc
  | inr (inr k) ↦ k
]

-- Events that come before the retry time and ask for no new call.
abbrev pub IsQuiet : ℕ → Clock × Event → Type 0
IsQuiet at (now, hangup _) = ⊥
IsQuiet at (now, start _) = ⊥
IsQuiet at (now, call_event_received (ParsedCallEvent.invite _)) = ⊥
IsQuiet at (now, _) = now 0 < at

step-failed :
    (f : Failed) (i : Clock × Event) → IsQuiet f.retry_after i → step (failed f) i ≡ failed f
unfolding step transition
step-failed f (now, e) h = ground arith

-- Before its retry time a failed call stays exactly as it is through any events, unless it is
-- started, invited or hung up.
pub run-failed :
    (f : Failed) (is : List (Clock × Event))
    → All (IsQuiet f.retry_after) is
    → run (failed f) is ≡ failed f
unfolding run
run-failed f [] h = refl
run-failed f (i ∷ is) h = rw (step-failed f i h.0) (run-failed f is h.1)
