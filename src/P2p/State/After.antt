-- ===== src/P2p/State/After.antt =====
-- state.rs, `transition`: the arms of `Open` and `Failed`.
use mxdx.Prelude.{◌+◌, str_append, [], ◌∷◌, none, leb, if◌then◌else◌}
use mxdx.P2p.Channel.{ChannelEvent}
use mxdx.P2p.Signaling.{ParsedCallEvent}
use mxdx.P2p.State.Effects.{
  SecurityEventKind, state_transition, security_event, send_hangup, begin_fetch_turn,
  tear_down_channel, configure_ice_servers, emit_telemetry, reset_idle,
}
use mxdx.P2p.State.Types.{
  Clock, default_retry_after, decrypt_storm_retry_after, Opened, Failed, idle, fetching_turn,
  answering, opened, failed, Event, start, hangup, turn_refreshed, turn_expired,
  call_event_received, channel_event, outbound_pressure, idle_tick, invite_timeout, ice_timeout,
  verify_ok, verify_fail, decrypt_storm, retry_ready, TransitionResult, ok, illegal, stay,
}

open_channel : Clock → Opened → ChannelEvent → TransitionResult
open_channel now s (ChannelEvent.message _) =
    ok (opened (record { call_id = s.call_id; last_io = now 0 })) (reset_idle ∷ [])
open_channel now s (ChannelEvent.closed reason) =
    ok idle
      (emit_telemetry (state_transition "Open" "Idle" (str_append "channel_closed:" reason)) ∷ [])
open_channel now s (ChannelEvent.failure msg) =
    ok
      (failed (record {
        reason = str_append "channel_failure:" msg;
        retry_after = now 0 + default_retry_after;
      }))
      (tear_down_channel "channel_failure"
        ∷ emit_telemetry (state_transition "Open" "Failed" "channel_failure")
        ∷ [])
open_channel now s _ = stay (opened s)

open_call : Opened → ParsedCallEvent → TransitionResult
open_call s (ParsedCallEvent.hangup _) = ok idle (
    tear_down_channel "peer_hangup"
    ∷ emit_telemetry (state_transition "Open" "Idle" "peer_hangup")
    ∷ [])
open_call s _ = stay (opened s)

unfoldable pub open_arm : Clock → Opened → Event → TransitionResult
unfolding open_channel open_call
open_arm now s outbound_pressure =
    ok (opened (record { call_id = s.call_id; last_io = now 0 })) (reset_idle ∷ [])
open_arm now s (channel_event e) = open_channel now s e
open_arm now s idle_tick = ok idle (
    send_hangup s.call_id "<current>" "idle_timeout"
    ∷ tear_down_channel "idle_timeout"
    ∷ emit_telemetry (state_transition "Open" "Idle" "idle_timeout")
    ∷ [])
open_arm now s (turn_refreshed servers) = ok (opened s) (configure_ice_servers servers ∷ [])
open_arm now s turn_expired =
    ok (failed (record { reason = "turn_expired"; retry_after = now 0 + default_retry_after })) (
      send_hangup s.call_id "<current>" "turn_expired"
      ∷ tear_down_channel "turn_expired"
      ∷ emit_telemetry (state_transition "Open" "Failed" "turn_expired")
      ∷ [])
open_arm now s decrypt_storm =
    ok
      (failed
        (record { reason = "decrypt_storm"; retry_after = now 0 + decrypt_storm_retry_after }))
      (send_hangup s.call_id "<current>" "decrypt_storm"
        ∷ tear_down_channel "decrypt_storm"
        ∷ emit_telemetry (security_event SecurityEventKind.decrypt_storm none)
        ∷ emit_telemetry (state_transition "Open" "Failed" "decrypt_storm")
        ∷ [])
open_arm now s (call_event_received e) = open_call s e
open_arm now s retry_ready = stay (opened s)
open_arm now s invite_timeout = illegal "open_timer_events_dropped"
open_arm now s ice_timeout = illegal "open_timer_events_dropped"
open_arm now s verify_ok = illegal "open_timer_events_dropped"
open_arm now s (verify_fail _) = illegal "open_timer_events_dropped"
open_arm now s (start _) = illegal "double_start_while_open"
open_arm now s (hangup _) = stay (opened s)

failed_call : Failed → ParsedCallEvent → TransitionResult
failed_call s (ParsedCallEvent.invite inv) =
    ok
      (answering
        (record { call_id = inv.call_id; party_id = "<pending>"; their_party_id = inv.party_id }))
      (emit_telemetry (state_transition "Failed" "Answering" "peer_invite") ∷ [])
failed_call s _ = stay (failed s)

-- A start is honoured at once; `RetryReady` waits for `retry_after`.
unfoldable pub failed_arm : Clock → Failed → Event → TransitionResult
unfolding failed_call
failed_arm now s retry_ready =
    if leb s.retry_after (now 0)
    then ok idle (emit_telemetry (state_transition "Failed" "Idle" "retry_ready") ∷ [])
    else stay (failed s)
failed_arm now s (start _) = ok (fetching_turn (now 0)) (
    begin_fetch_turn
    ∷ emit_telemetry (state_transition "Failed" "FetchingTurn" "start_from_failed")
    ∷ [])
failed_arm now s (call_event_received e) = failed_call s e
failed_arm now s _ = stay (failed s)
