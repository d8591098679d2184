-- ===== src/P2p/Driver/Commands.antt =====
-- driver.rs, `apply_command` and what it calls.
use mxdx.Prelude.{
  ℕ, suc, String, str_append, List, [], ◌∷◌, Option, some, none, true, false, not, ◌&&◌,
  if◌then◌else◌, push_back,
}
use mxdx.P2p.Channel.{Sdp, IceServer, restart_ice_unsupported}
use mxdx.P2p.State.Effects.{
  Command, TelemetryKind, send_invite, send_answer, send_candidates, send_hangup,
  send_select_answer, begin_fetch_turn, start_verifying, tear_down_channel, configure_ice_servers,
  schedule, reset_idle, emit_telemetry, lockout_device, drain_outbound, fallback, state_transition,
}
use mxdx.P2p.State.Types.{idle, is_open}
use mxdx.P2p.Driver.Types.{
  Backend, DriverTask, Effect, OutboundRequest, EncryptedFrame, ChannelResult, done, error,
  error_text, sent, closed, watchdog_spawned, watchdog_reset, watchdog_shut, telemetry,
  snapshot_from,
}

module _ {Channel Crypto : Type 0} where
  abbrev pub emit : Effect → DriverTask Channel Crypto → DriverTask Channel Crypto
  emit e d = record d { log = push_back d.log e }

  unfoldable pub update_snapshot : DriverTask Channel Crypto → DriverTask Channel Crypto
  update_snapshot d = record d { snapshot = snapshot_from d.state }

  -- `emit_telemetry`; the bus is the log.
  abbrev pub report : TelemetryKind → DriverTask Channel Crypto → DriverTask Channel Crypto
  report kind d = emit (telemetry kind) d

  unfoldable pub close_channel :
      String → Option Channel → DriverTask Channel Crypto → DriverTask Channel Crypto
  close_channel reason none d = d
  close_channel reason (some ch) d = emit (closed reason) (record d { channel = none })

  unfoldable pub shut_watchdog : DriverTask Channel Crypto → DriverTask Channel Crypto
  shut_watchdog d =
      if d.idle_watchdog then emit watchdog_shut (record d { idle_watchdog = false }) else d

  unfoldable pub tear_down : String → DriverTask Channel Crypto → DriverTask Channel Crypto
  unfolding close_channel shut_watchdog
  tear_down reason d =
      let d' = close_channel reason d.channel d in
      shut_watchdog (record d' { crypto = none; pending_outbound = [] })

  unfoldable pub teardown_for_turn_refresh :
      String → DriverTask Channel Crypto → DriverTask Channel Crypto
  unfolding tear_down update_snapshot
  teardown_for_turn_refresh reason d =
      let d' = update_snapshot (record (tear_down reason d) { state = idle }) in
      report (state_transition "Open" "Idle" reason) (report (fallback reason) d')

  -- The watchdog starts with the first command in `Open`, and starts anew with each later one.
  unfoldable pub apply_reset_idle : DriverTask Channel Crypto → DriverTask Channel Crypto
  apply_reset_idle d =
      if not d.idle_watchdog && is_open d.state
      then emit watchdog_spawned (record d { idle_watchdog = true })
      else if d.idle_watchdog
      then emit watchdog_reset d
      else d

abbrev keep : Option (List ℕ) → List (List ℕ) → List (List ℕ)
keep none wires = wires
keep (some wire) wires = wire ∷ wires

module _ {Channel Crypto : Type 0} (b : Backend Channel Crypto) where
  unfoldable pub restart_result :
      ChannelResult Sdp → DriverTask Channel Crypto → DriverTask Channel Crypto
  restart_result (done sdp) d = d
  restart_result (error restart_ice_unsupported) d =
      teardown_for_turn_refresh "turn_refresh_teardown" d
  restart_result (error e) d =
      teardown_for_turn_refresh (str_append "ice_restart_failed:" (error_text e)) d

  unfoldable pub restart_channel :
      Option Channel → List IceServer → DriverTask Channel Crypto → DriverTask Channel Crypto
  unfolding restart_result
  restart_channel none servers d = d
  restart_channel (some ch) servers d =
      let (ch', r) = b.restart_ice ch servers in restart_result r (record d { channel = some ch' })

  unfoldable pub handle_configure_ice_servers :
      List IceServer → DriverTask Channel Crypto → DriverTask Channel Crypto
  unfolding restart_channel
  handle_configure_ice_servers servers d =
      if not (is_open d.state) then d else restart_channel d.channel servers d

  -- One payload of the first loop: its wire form, or nothing after a failure.
  unfoldable pub seal_frame :
      Option EncryptedFrame
      → DriverTask Channel Crypto
      → Option (List ℕ) × DriverTask Channel Crypto
  seal_frame none d = (none, report (fallback "encrypt_failed") d)
  seal_frame (some frame) d = (b.to_vec frame, d)

  unfoldable pub seal_one :
      Crypto
      → OutboundRequest
      → DriverTask Channel Crypto
      → Option (List ℕ) × DriverTask Channel Crypto
  unfolding seal_frame
  seal_one crypto req d =
      seal_frame (b.encrypt crypto d.draws req.payload) (record d { draws = suc d.draws })

  unfoldable pub seal_all :
      Crypto
      → List OutboundRequest
      → DriverTask Channel Crypto
      → List (List ℕ) × DriverTask Channel Crypto
  unfolding seal_one
  seal_all crypto [] d = ([], d)
  seal_all crypto (req ∷ reqs) d =
      let (wire, d') = seal_one crypto req d in
      let (wires, d'') = seal_all crypto reqs d' in (keep wire wires, d'')

  unfoldable pub send_result :
      List ℕ → ChannelResult (Unit {0}) → DriverTask Channel Crypto → DriverTask Channel Crypto
  send_result wire (done _) d = emit (sent wire) d
  send_result wire (error _) d = report (fallback "channel_send_failed") d

  unfoldable pub send_all :
      Channel → List (List ℕ) → DriverTask Channel Crypto → DriverTask Channel Crypto
  unfolding send_result
  send_all ch [] d = d
  send_all ch (wire ∷ wires) d = send_all ch wires (send_result wire (b.send ch wire) d)

  -- Both a cipher and a channel are needed; without one the queue is left as it is.
  unfoldable pub drain_with :
      Option Crypto → Option Channel → DriverTask Channel Crypto → DriverTask Channel Crypto
  unfolding seal_all send_all
  drain_with (some crypto) (some ch) d =
      let (wires, d') = seal_all crypto d.pending_outbound (record d { pending_outbound = [] }) in
      send_all ch wires d'
  drain_with _ _ d = d

  unfoldable pub drain_outbound_now : DriverTask Channel Crypto → DriverTask Channel Crypto
  unfolding drain_with
  drain_outbound_now d = if not (is_open d.state) then d else drain_with d.crypto d.channel d

  -- Signaling, TURN and timers belong to the integration layer: the driver only traces them.
  unfoldable pub apply_command : Command → DriverTask Channel Crypto → DriverTask Channel Crypto
  apply_command (send_invite _ _ _ _ _) d = d
  apply_command (send_answer _ _ _) d = d
  apply_command (send_candidates _ _ _) d = d
  apply_command (send_hangup _ _ _) d = d
  apply_command (send_select_answer _ _ _) d = d
  apply_command (start_verifying _) d = d
  apply_command begin_fetch_turn d = d
  apply_command (configure_ice_servers servers) d = handle_configure_ice_servers servers d
  apply_command (tear_down_channel reason) d = tear_down reason d
  apply_command reset_idle d = apply_reset_idle d
  apply_command drain_outbound d = drain_outbound_now d
  apply_command (emit_telemetry kind) d = report kind d
  apply_command (schedule _ _) d = d
  apply_command (lockout_device peer) d = record d { locked_peers = peer ∷ d.locked_peers }

  unfoldable pub apply_commands :
      List Command → DriverTask Channel Crypto → DriverTask Channel Crypto
  apply_commands [] d = d
  apply_commands (c ∷ cs) d = apply_commands cs (apply_command c d)
