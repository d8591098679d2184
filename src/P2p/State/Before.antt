-- ===== src/P2p/State/Before.antt =====
-- state.rs, `transition`: the arms of `Idle`, `FetchingTurn` and `Inviting`.
use mxdx.Prelude.{ℕ, ◌+◌, [], ◌∷◌, none, not, str_eq, if◌then◌else◌}
use mxdx.P2p.Channel.{Sdp, SdpKind}
use mxdx.P2p.Signaling.{ParsedCallEvent, default_invite_lifetime_ms}
use mxdx.P2p.Glare.{GlareResult}
use mxdx.P2p.State.Effects.{
  ScheduledEvent, state_transition, fallback, send_invite, send_hangup, begin_fetch_turn,
  tear_down_channel, configure_ice_servers, schedule, emit_telemetry,
}
use mxdx.P2p.State.Types.{
  Clock, default_retry_after, Inviting, idle, fetching_turn, inviting, answering, glare, connecting,
  failed, Event, start, hangup, turn_refreshed, turn_expired, call_event_received, channel_event,
  outbound_pressure, idle_tick, invite_timeout, ice_timeout, verify_ok, verify_fail, decrypt_storm,
  retry_ready, TransitionResult, ok, illegal, stay,
}

-- An inbound invite while `Idle` is answered; the other call events are dropped.
idle_call : ParsedCallEvent → TransitionResult
idle_call (ParsedCallEvent.invite inv) =
    ok
      (answering
        (record { call_id = inv.call_id; party_id = "our-party"; their_party_id = inv.party_id }))
      (begin_fetch_turn ∷ emit_telemetry (state_transition "Idle" "Answering" "peer_invite") ∷ [])
idle_call _ = stay idle

unfoldable pub idle_arm : Clock → Event → TransitionResult
unfolding idle_call
idle_arm now (start _) =
    ok (fetching_turn (now 0))
      (begin_fetch_turn ∷ emit_telemetry (state_transition "Idle" "FetchingTurn" "start") ∷ [])
idle_arm now (call_event_received e) = idle_call e
idle_arm now (channel_event _) = stay idle
idle_arm now outbound_pressure = stay idle
idle_arm now idle_tick = stay idle
idle_arm now retry_ready = stay idle
idle_arm now (turn_refreshed _) = stay idle
idle_arm now turn_expired = stay idle
idle_arm now verify_ok = stay idle
idle_arm now (verify_fail _) = stay idle
idle_arm now invite_timeout = stay idle
idle_arm now ice_timeout = stay idle
idle_arm now decrypt_storm = stay idle
idle_arm now (hangup _) = stay idle

abbrev pending_offer : Sdp
pending_offer = record { kind = SdpKind.offer; sdp = "" }

-- The peer invites before our invite is out: there is no glare, we answer.
fetching_turn_call : ℕ → ParsedCallEvent → TransitionResult
fetching_turn_call since (ParsedCallEvent.invite inv) =
    ok
      (answering
        (record { call_id = inv.call_id; party_id = "<pending>"; their_party_id = inv.party_id }))
      (emit_telemetry (state_transition "FetchingTurn" "Answering" "peer_invite_preempts_turn")
        ∷ [])
fetching_turn_call since _ = stay (fetching_turn since)

unfoldable pub fetching_turn_arm : Clock → ℕ → Event → TransitionResult
unfolding fetching_turn_call
fetching_turn_arm now since (turn_refreshed servers) =
    ok
      (inviting (record {
        call_id = "<pending>";
        started = now 0;
        our_offer = pending_offer;
        our_party_id = "<pending>";
        lifetime_ms = default_invite_lifetime_ms;
      }))
      (configure_ice_servers servers
        ∷ send_invite "<pending>" "<pending>" pending_offer default_invite_lifetime_ms none
        ∷ schedule (now 1 + default_invite_lifetime_ms) ScheduledEvent.invite_timeout
        ∷ emit_telemetry (state_transition "FetchingTurn" "Inviting" "turn_ready")
        ∷ [])
fetching_turn_arm now since turn_expired =
    ok (failed (record { reason = "turn_expired"; retry_after = now 0 + default_retry_after })) (
      emit_telemetry (fallback "turn_expired")
      ∷ emit_telemetry (state_transition "FetchingTurn" "Failed" "turn_expired")
      ∷ [])
fetching_turn_arm now since (call_event_received e) = fetching_turn_call since e
fetching_turn_arm now since (channel_event _) = stay (fetching_turn since)
fetching_turn_arm now since outbound_pressure = stay (fetching_turn since)
fetching_turn_arm now since idle_tick = stay (fetching_turn since)
fetching_turn_arm now since retry_ready = stay (fetching_turn since)
fetching_turn_arm now since invite_timeout = illegal "fetching_turn_timer_events_dropped"
fetching_turn_arm now since ice_timeout = illegal "fetching_turn_timer_events_dropped"
fetching_turn_arm now since verify_ok = illegal "fetching_turn_timer_events_dropped"
fetching_turn_arm now since (verify_fail _) = illegal "fetching_turn_timer_events_dropped"
fetching_turn_arm now since (start _) = illegal "double_start_while_fetching_turn"
fetching_turn_arm now since decrypt_storm = stay (fetching_turn since)
fetching_turn_arm now since (hangup _) = stay (fetching_turn since)

-- An answer to our call, a concurrent invite, or the peer's hangup; the rest is dropped.
inviting_call : Clock → Inviting → ParsedCallEvent → TransitionResult
inviting_call now s (ParsedCallEvent.answer ans) =
    if not (str_eq ans.call_id s.call_id)
    then illegal "inviting_answer_call_id_mismatch"
    else ok
        (connecting
          (record { call_id = s.call_id; our_party_id = s.our_party_id; ice_started = now 0 }))
        (schedule (now 1 + 30000) ScheduledEvent.ice_timeout
          ∷ emit_telemetry (state_transition "Inviting" "Connecting" "answer_received")
          ∷ [])
inviting_call now s (ParsedCallEvent.invite peer_inv) =
    ok
      (glare (record {
        our_call = s.call_id;
        their_call = peer_inv.call_id;
        resolution = GlareResult.we_win;
      }))
      (emit_telemetry (state_transition "Inviting" "Glare" "concurrent_invites") ∷ [])
inviting_call now s (ParsedCallEvent.hangup _) =
    ok (failed (record { reason = "peer_hangup"; retry_after = now 0 + default_retry_after })) (
      tear_down_channel "peer_hangup"
      ∷ emit_telemetry (state_transition "Inviting" "Failed" "peer_hangup")
      ∷ [])
inviting_call now s _ = stay (inviting s)

unfoldable pub inviting_arm : Clock → Inviting → Event → TransitionResult
unfolding inviting_call
inviting_arm now s (call_event_received e) = inviting_call now s e
inviting_arm now s invite_timeout =
    ok (failed (record { reason = "invite_timeout"; retry_after = now 0 + default_retry_after })) (
      send_hangup s.call_id s.our_party_id "invite_timeout"
      ∷ tear_down_channel "invite_timeout"
      ∷ emit_telemetry (state_transition "Inviting" "Failed" "invite_timeout")
      ∷ [])
inviting_arm now s (channel_event _) = stay (inviting s)
inviting_arm now s outbound_pressure = stay (inviting s)
inviting_arm now s idle_tick = stay (inviting s)
inviting_arm now s retry_ready = stay (inviting s)
inviting_arm now s (turn_refreshed _) = stay (inviting s)
inviting_arm now s turn_expired = stay (inviting s)
inviting_arm now s ice_timeout = stay (inviting s)
inviting_arm now s verify_ok = illegal "inviting_post_verify_events_dropped"
inviting_arm now s (verify_fail _) = illegal "inviting_post_verify_events_dropped"
inviting_arm now s decrypt_storm = illegal "inviting_post_verify_events_dropped"
inviting_arm now s (start _) = illegal "double_start_while_inviting"
inviting_arm now s (hangup _) = stay (inviting s)
