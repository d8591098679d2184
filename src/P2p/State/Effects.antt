-- ===== src/P2p/State/Effects.antt =====
-- state.rs, the types of what a transition asks the driver to do: `Command`, telemetry and timers.
use mxdx.Prelude.{ℕ, String, List, Option}
use mxdx.P2p.Channel.{Sdp, IceServer, IceCandidate}

pub data SecurityEventKind : Type 0 where
  verify_failure decrypt_storm replay_detected wrong_peer : SecurityEventKind

-- `state_transition` carries `from`, `to` and the reason, `handshake_completed` its three times.
pub data TelemetryKind : Type 0 where
  state_transition : String → String → String → TelemetryKind
  handshake_completed : ℕ → ℕ → ℕ → TelemetryKind
  turn_refresh : String → TelemetryKind
  fallback : String → TelemetryKind
  security_event : SecurityEventKind → Option String → TelemetryKind

pub data ScheduledEvent : Type 0 where
  invite_timeout ice_timeout retry_ready : ScheduledEvent

-- The fields stand in the source's order.
pub data Command : Type 0 where
  send_invite : String → String → Sdp → ℕ → Option String → Command
  send_answer : String → String → Sdp → Command
  send_candidates : String → String → List IceCandidate → Command
  send_hangup : String → String → String → Command
  send_select_answer : String → String → String → Command
  begin_fetch_turn : Command
  start_verifying : List ℕ → Command
  tear_down_channel : String → Command
  configure_ice_servers : List IceServer → Command
  schedule : ℕ → ScheduledEvent → Command
  reset_idle : Command
  emit_telemetry : TelemetryKind → Command
  lockout_device : String → Command
  drain_outbound : Command
