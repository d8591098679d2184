-- ===== src/P2p/State/Handshake.antt =====
-- state.rs, `transition`: the arms of `Answering`, `Glare`, `Connecting` and `Verifying`.
use mxdx.Prelude.{ℕ, ◌+◌, String, str_append, List, [], ◌∷◌, none, replicate}
use mxdx.P2p.Channel.{ChannelEvent}
use mxdx.P2p.Signaling.{ParsedCallEvent}
use mxdx.P2p.State.Effects.{
  SecurityEventKind, state_transition, handshake_completed, security_event, send_hangup,
  start_verifying, tear_down_channel, emit_telemetry, reset_idle, drain_outbound,
}
use mxdx.P2p.State.Types.{
  Clock, default_retry_after, ice_timeout_retry_after, Answering, Connecting, Verifying, Glaring,
  VerifyFailureReason, answering, glare, connecting, verifying, opened, failed, Event, start,
  hangup, turn_refreshed, turn_expired, call_event_received, channel_event, outbound_pressure,
  idle_tick, invite_timeout, ice_timeout, verify_ok, verify_fail, decrypt_storm, retry_ready,
  TransitionResult, ok, illegal, stay,
}

-- `[0u8; 32]`
abbrev zero_nonce : List ℕ
zero_nonce = replicate 32 0

answering_channel : Clock → Answering → ChannelEvent → TransitionResult
answering_channel now s ChannelEvent.opened =
    ok
      (verifying
        (record { call_id = s.call_id; our_party_id = s.party_id; our_nonce = zero_nonce }))
      (start_verifying zero_nonce
        ∷ emit_telemetry (state_transition "Answering" "Verifying" "channel_open")
        ∷ [])
answering_channel now s (ChannelEvent.failure msg) =
    ok
      (failed (record {
        reason = str_append "channel_failure:" msg;
        retry_after = now 0 + ice_timeout_retry_after;
      }))
      (tear_down_channel "channel_failure"
        ∷ emit_telemetry (state_transition "Answering" "Failed" "channel_failure")
        ∷ [])
answering_channel now s _ = stay (answering s)

answering_call : Clock → Answering → ParsedCallEvent → TransitionResult
answering_call now s (ParsedCallEvent.hangup _) =
    ok (failed (record { reason = "peer_hangup"; retry_after = now 0 + default_retry_after })) (
      tear_down_channel "peer_hangup"
      ∷ emit_telemetry (state_transition "Answering" "Failed" "peer_hangup")
      ∷ [])
answering_call now s _ = stay (answering s)

unfoldable pub answering_arm : Clock → Answering → Event → TransitionResult
unfolding answering_channel answering_call
answering_arm now s (channel_event e) = answering_channel now s e
answering_arm now s (call_event_received e) = answering_call now s e
answering_arm now s outbound_pressure = stay (answering s)
answering_arm now s idle_tick = stay (answering s)
answering_arm now s retry_ready = stay (answering s)
answering_arm now s (turn_refreshed _) = stay (answering s)
answering_arm now s turn_expired = stay (answering s)
answering_arm now s invite_timeout = stay (answering s)
answering_arm now s ice_timeout = stay (answering s)
answering_arm now s verify_ok = illegal "answering_post_verify_events_dropped"
answering_arm now s (verify_fail _) = illegal "answering_post_verify_events_dropped"
answering_arm now s decrypt_storm = illegal "answering_post_verify_events_dropped"
answering_arm now s (start _) = illegal "double_start_while_answering"
answering_arm now s (hangup _) = stay (answering s)

-- The one arm of `Glare` drops every event.
unfoldable pub glare_arm : Glaring → Event → TransitionResult
glare_arm s _ = stay (glare s)

connecting_channel : Clock → Connecting → ChannelEvent → TransitionResult
connecting_channel now s ChannelEvent.opened =
    ok
      (verifying
        (record { call_id = s.call_id; our_party_id = s.our_party_id; our_nonce = zero_nonce }))
      (start_verifying zero_nonce
        ∷ emit_telemetry (state_transition "Connecting" "Verifying" "channel_open")
        ∷ [])
connecting_channel now s (ChannelEvent.failure msg) =
    ok
      (failed (record {
        reason = str_append "channel_failure:" msg;
        retry_after = now 0 + ice_timeout_retry_after;
      }))
      (tear_down_channel "channel_failure"
        ∷ emit_telemetry (state_transition "Connecting" "Failed" "channel_failure")
        ∷ [])
connecting_channel now s _ = stay (connecting s)

connecting_call : Clock → Connecting → ParsedCallEvent → TransitionResult
connecting_call now s (ParsedCallEvent.hangup _) =
    ok (failed (record { reason = "peer_hangup"; retry_after = now 0 + default_retry_after })) (
      tear_down_channel "peer_hangup"
      ∷ emit_telemetry (state_transition "Connecting" "Failed" "peer_hangup")
      ∷ [])
connecting_call now s _ = stay (connecting s)

unfoldable pub connecting_arm : Clock → Connecting → Event → TransitionResult
unfolding connecting_channel connecting_call
connecting_arm now s (channel_event e) = connecting_channel now s e
connecting_arm now s ice_timeout =
    ok (failed (record { reason = "ice_timeout"; retry_after = now 0 + ice_timeout_retry_after })) (
      send_hangup s.call_id s.our_party_id "ice_timeout"
      ∷ tear_down_channel "ice_timeout"
      ∷ emit_telemetry (state_transition "Connecting" "Failed" "ice_timeout")
      ∷ [])
connecting_arm now s (call_event_received e) = connecting_call now s e
connecting_arm now s outbound_pressure = stay (connecting s)
connecting_arm now s idle_tick = stay (connecting s)
connecting_arm now s retry_ready = stay (connecting s)
connecting_arm now s (turn_refreshed _) = stay (connecting s)
connecting_arm now s turn_expired = stay (connecting s)
connecting_arm now s invite_timeout = stay (connecting s)
connecting_arm now s verify_ok = illegal "connecting_post_verify_events_dropped"
connecting_arm now s (verify_fail _) = illegal "connecting_post_verify_events_dropped"
connecting_arm now s decrypt_storm = illegal "connecting_post_verify_events_dropped"
connecting_arm now s (start _) = illegal "double_start_while_connecting"
connecting_arm now s (hangup _) = stay (connecting s)

-- The security telemetry and the reason of a failed verification.
verify_failure_kind : VerifyFailureReason → SecurityEventKind × String
verify_failure_kind VerifyFailureReason.signature_mismatch =
    (SecurityEventKind.verify_failure, "verify_failure")
verify_failure_kind VerifyFailureReason.replay_detected =
    (SecurityEventKind.replay_detected, "replay_detected")
verify_failure_kind VerifyFailureReason.timeout =
    (SecurityEventKind.verify_failure, "verify_timeout")
verify_failure_kind VerifyFailureReason.invalid_payload =
    (SecurityEventKind.verify_failure, "verify_invalid_payload")
verify_failure_kind VerifyFailureReason.device_locked_out =
    (SecurityEventKind.wrong_peer, "device_locked_out")

verifying_fail : Clock → Verifying → SecurityEventKind × String → TransitionResult
verifying_fail now s (security_kind, reason_str) =
    ok (failed (record { reason = reason_str; retry_after = now 0 + default_retry_after })) (
      send_hangup s.call_id s.our_party_id reason_str
      ∷ tear_down_channel reason_str
      ∷ emit_telemetry (security_event security_kind none)
      ∷ emit_telemetry (state_transition "Verifying" "Failed" reason_str)
      ∷ [])

verifying_channel : Clock → Verifying → ChannelEvent → TransitionResult
verifying_channel now s (ChannelEvent.closed reason) =
    ok
      (failed (record {
        reason = str_append "channel_closed_during_verify:" reason;
        retry_after = now 0 + default_retry_after;
      }))
      (emit_telemetry (state_transition "Verifying" "Failed" "channel_closed") ∷ [])
verifying_channel now s (ChannelEvent.failure msg) =
    ok
      (failed (record {
        reason = str_append "channel_failure:" msg;
        retry_after = now 0 + ice_timeout_retry_after;
      }))
      (tear_down_channel "channel_failure"
        ∷ emit_telemetry (state_transition "Verifying" "Failed" "channel_failure")
        ∷ [])
verifying_channel now s _ = stay (verifying s)

verifying_call : Clock → Verifying → ParsedCallEvent → TransitionResult
verifying_call now s (ParsedCallEvent.hangup _) =
    ok (failed (record { reason = "peer_hangup"; retry_after = now 0 + default_retry_after })) (
      tear_down_channel "peer_hangup"
      ∷ emit_telemetry (state_transition "Verifying" "Failed" "peer_hangup")
      ∷ [])
verifying_call now s _ = stay (verifying s)

unfoldable pub verifying_arm : Clock → Verifying → Event → TransitionResult
unfolding verify_failure_kind verifying_fail verifying_channel verifying_call
verifying_arm now s verify_ok = ok (opened (record { call_id = s.call_id; last_io = now 0 })) (
    reset_idle
    ∷ drain_outbound
    ∷ emit_telemetry (state_transition "Verifying" "Open" "verify_ok")
    ∷ emit_telemetry (handshake_completed 0 0 0)
    ∷ [])
verifying_arm now s (verify_fail reason) = verifying_fail now s (verify_failure_kind reason)
verifying_arm now s (channel_event e) = verifying_channel now s e
verifying_arm now s (call_event_received e) = verifying_call now s e
verifying_arm now s outbound_pressure = stay (verifying s)
verifying_arm now s idle_tick = stay (verifying s)
verifying_arm now s retry_ready = stay (verifying s)
verifying_arm now s (turn_refreshed _) = stay (verifying s)
verifying_arm now s turn_expired = stay (verifying s)
verifying_arm now s invite_timeout = illegal "verifying_unexpected_timer"
verifying_arm now s ice_timeout = illegal "verifying_unexpected_timer"
verifying_arm now s decrypt_storm = illegal "verifying_unexpected_timer"
verifying_arm now s (start _) = illegal "double_start_while_verifying"
verifying_arm now s (hangup _) = stay (verifying s)
