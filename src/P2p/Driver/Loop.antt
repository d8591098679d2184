-- ===== src/P2p/Driver/Loop.antt =====
-- driver.rs, `dispatch`, `handle_control` and the arms of `run`. The order in which the queues
-- deliver is the order of the inputs.
use mxdx.Prelude.{
  List, [], ◌∷◌, some, none, Bool, true, false, not, ◌&&◌, if◌then◌else◌, push_back, any, str_eq,
}
use mxdx.P2p.Signaling.{ParsedCallEvent}
use mxdx.P2p.State.Effects.{SecurityEventKind, security_event}
use mxdx.P2p.State.Types.{
  Clock, P2pState, idle, is_open, Event, idle_tick, call_event_received, TransitionResult, ok,
  illegal,
}
use mxdx.P2p.State.Types
use mxdx.P2p.State.Transition.{transition}
use mxdx.P2p.Driver.Types.{
  Backend, DriverTask, P2pTransportConfig, ControlMsg, OutboundRequest, snapshot_from,
  watchdog_reset,
}
use mxdx.P2p.Driver.Commands.{
  emit, update_snapshot, report, shut_watchdog, tear_down, apply_commands, drain_outbound_now,
}

-- The task that `P2PTransport::spawn` starts.
unfoldable pub spawn : {Channel Crypto : Type 0} → P2pTransportConfig → DriverTask Channel Crypto
spawn config = record {
  config = config;
  state = idle;
  snapshot = snapshot_from idle;
  channel = none;
  crypto = none;
  pending_outbound = [];
  recent_nonces = [];
  locked_peers = [];
  verify_failures = [];
  last_decrypt_failures = [];
  idle_watchdog = false;
  draws = 0;
  log = [];
}

module _ {Channel Crypto : Type 0} (b : Backend Channel Crypto) where
  -- The watchdog is shut when the commands are done and `Open` has been left.
  unfoldable pub leave_open : Bool → DriverTask Channel Crypto → DriverTask Channel Crypto
  leave_open was_open d = if was_open && not (is_open d.state) then shut_watchdog d else d

  unfoldable pub dispatch_result :
      Bool → TransitionResult → DriverTask Channel Crypto → DriverTask Channel Crypto
  unfolding leave_open
  dispatch_result was_open (ok next commands) d =
      leave_open was_open (apply_commands b commands (update_snapshot (record d { state = next })))
  dispatch_result was_open (illegal note) d = d

  unfoldable pub dispatch : Clock → Event → DriverTask Channel Crypto → DriverTask Channel Crypto
  unfolding dispatch_result
  dispatch now e d = dispatch_result (is_open d.state) (transition now d.state e) d

  -- A start that names a locked peer is refused.
  unfoldable pub handle_control :
      Clock → ControlMsg → DriverTask Channel Crypto → DriverTask Channel Crypto
  handle_control now (ControlMsg.start peer_user_id peer_device_id) d =
      if any (λ p. str_eq p peer_user_id) d.locked_peers
      then report (security_event SecurityEventKind.wrong_peer (some peer_user_id)) d
      else dispatch now
          (Types.start (record {
            peer_user_id = peer_user_id;
            peer_device_id = peer_device_id;
            our_user_id = d.config.our_user_id;
            our_device_id = d.config.our_device_id;
            room_id = d.config.room_id;
            session_uuid = d.config.session_uuid;
          }))
          d
  handle_control now (ControlMsg.hangup reason) d = dispatch now (Types.hangup reason) d

  reset_after_send : DriverTask Channel Crypto → DriverTask Channel Crypto
  reset_after_send d = if d.idle_watchdog then emit watchdog_reset d else d

  -- A payload that arrives outside `Open` is dropped with all that is queued.
  unfoldable pub handle_outbound :
      OutboundRequest → DriverTask Channel Crypto → DriverTask Channel Crypto
  unfolding reset_after_send
  handle_outbound out d =
      let d' = record d { pending_outbound = push_back d.pending_outbound out } in
      if is_open d.state
      then reset_after_send (drain_outbound_now b d')
      else record d' { pending_outbound = [] }

-- One message of the queues that `run` waits on.
pub data Input : Type 0 where
  shutdown tick : Input
  control : ControlMsg → Input
  call_event : ParsedCallEvent → Input
  outbound : OutboundRequest → Input

module _ {Channel Crypto : Type 0} (b : Backend Channel Crypto) where
  -- One round of the loop; `false` ends it.
  unfoldable pub step : Clock → Input → DriverTask Channel Crypto → DriverTask Channel Crypto × Bool
  step now shutdown d = (tear_down "shutdown" d, false)
  step now tick d = (dispatch b now idle_tick d, true)
  step now (control ctl) d = (handle_control b now ctl d, true)
  step now (call_event e) d = (dispatch b now (call_event_received e) d, true)
  step now (outbound out) d = (handle_outbound b out d, true)

  -- The loop over the messages in their order of arrival; it stops at the first shutdown.
  unfoldable pub run : List (Clock × Input) → DriverTask Channel Crypto → DriverTask Channel Crypto
  run [] d = d
  run ((now, shutdown) ∷ is) d = (step now shutdown d).0
  run ((now, i) ∷ is) d = run is (step now i d).0
