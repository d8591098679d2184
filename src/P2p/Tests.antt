-- ===== src/P2p/Tests.antt =====
-- The theorems about the transport at concrete inputs, and runs of the state machine and the driver.
use mxdx.Prelude.{
  ℕ, ◌+◌, ◌-◌, String, str_eq_iff, ◌≡◌, refl, ◌⊎◌, inl, true, false, List, [], ◌∷◌, some, none,
  arith, any, length, ltb,
}
use mxdx.Prelude.Dict.{get}
use mxdx.P2p.Channel.{ChannelEvent, SdpKind, restart_ice_unsupported}
use mxdx.P2p.Signaling.{ParsedCallEvent}
use mxdx.P2p.Glare.{we_win, they_win, resolve, invert}
use mxdx.P2p.Glare.Agreement.{resolve_agrees}
use mxdx.P2p.State.Effects.{
  Command, SecurityEventKind, security_event, send_hangup, tear_down_channel, reset_idle,
  drain_outbound, emit_telemetry, state_transition, handshake_completed,
}
use mxdx.P2p.State.Types.{
  Clock, P2pState, Opened, Inviting, Failed, idle, opened, verifying, inviting, failed, is_open,
  name, current_call, Event, StartRequest, start, turn_refreshed, call_event_received,
  channel_event, verify_ok, idle_tick, retry_ready, invite_timeout, ok,
}
use mxdx.P2p.State.Transition.{transition}
use mxdx.P2p.State.Safety.{is_tear_down, transition_ends_call}
use mxdx.P2p.State.Run.{HasHandshake, run, step, open_needs_handshake}
use mxdx.P2p.Driver.Storm.{since, after_failures, storm_counts}
use mxdx.P2p.Driver.Types.{Backend, DriverTask, P2pTransportConfig, ControlMsg, done, error}
use mxdx.P2p.Driver.Commands.{
  report, drain_outbound_now, apply_commands, apply_command, tear_down, update_snapshot,
}
use mxdx.P2p.Driver.Loop
use mxdx.P2p.Driver.Loop.{
  Input, shutdown, tick, control, call_event, outbound, spawn, handle_control,
}
use mxdx.P2p.Driver.Guards.{bump_verify_failure, check_replay, record_decrypt_failure}
use mxdx.P2p.Driver.Keeps.{Inv}
use mxdx.P2p.Driver.Invariant.{run-Inv}
use mxdx.P2p.Driver.Reach.{is_parked, is_sent, run-Silent}
use mxdx.P2p.Driver.Replay.{check_all, check_replay-check_all}
use mxdx.P2p.Driver.Lockout.{three_strikes}

-- A clock that reads 5000 first, and one more at each reading.
abbrev clock : Clock
clock n = 5000 + n

abbrev request : StartRequest
request = record {
  peer_user_id = "@bob:ex";
  peer_device_id = none;
  our_user_id = "@alice:ex";
  our_device_id = "A";
  room_id = "!r:ex";
  session_uuid = none;
}

abbrev answer : ParsedCallEvent
answer = ParsedCallEvent.answer (record {
  call_id = "<pending>";
  party_id = "p";
  version = "1";
  answer = record { kind = "answer"; sdp = "" };
})

-- A call from the start to `Open`.
abbrev handshake : List (Clock × Event)
handshake =
    (clock, start request)
    ∷ (clock, turn_refreshed [])
    ∷ (clock, call_event_received answer)
    ∷ (clock, channel_event ChannelEvent.opened)
    ∷ (clock, verify_ok)
    ∷ []

handshake_opens : is_open (run idle handshake) ≡ true
unfolding run step transition
handshake_opens = refl

open_needs_handshake_example : HasHandshake handshake
open_needs_handshake_example = open_needs_handshake handshake handshake_opens

abbrev call : Opened
call = record { call_id = "c1"; last_io = 0 }

abbrev idle_commands : List Command
idle_commands =
    send_hangup "c1" "<current>" "idle_timeout"
    ∷ tear_down_channel "idle_timeout"
    ∷ emit_telemetry (state_transition "Open" "Idle" "idle_timeout")
    ∷ []

idle_tick_ends : transition clock (opened call) idle_tick ≡ ok idle idle_commands
unfolding transition
idle_tick_ends = refl

transition_ends_call_example :
    (any is_tear_down idle_commands ≡ true)
    ⊎ ((r : String) × (idle_tick ≡ channel_event (ChannelEvent.closed r)))
unfolding current_call
transition_ends_call_example =
    transition_ends_call clock (opened call) idle idle_tick idle_tick_ends refl refl

abbrev verified : P2pState
verified = verifying (record { call_id = "c1"; our_party_id = "p1"; our_nonce = 1 ∷ [] })

abbrev open_commands : List Command
open_commands =
    reset_idle
    ∷ drain_outbound
    ∷ emit_telemetry (state_transition "Verifying" "Open" "verify_ok")
    ∷ emit_telemetry (handshake_completed 0 0 0)
    ∷ []

abbrev call_at_5000 : P2pState
call_at_5000 = opened (record { call_id = "c1"; last_io = 5000 })

verify_ok_opens : transition clock verified verify_ok ≡ ok call_at_5000 open_commands
unfolding transition
verify_ok_opens = refl

abbrev timed_out : Failed
timed_out = record { reason = "invite_timeout"; retry_after = 35000 }

abbrev invited : Inviting
invited = record {
  call_id = "c1";
  started = 0;
  our_offer = record { kind = SdpKind.offer; sdp = "" };
  our_party_id = "p1";
  lifetime_ms = 30000;
}

abbrev timeout_commands : List Command
timeout_commands =
    send_hangup "c1" "p1" "invite_timeout"
    ∷ tear_down_channel "invite_timeout"
    ∷ emit_telemetry (state_transition "Inviting" "Failed" "invite_timeout")
    ∷ []

invite_timeout_fails :
    transition clock (inviting invited) invite_timeout ≡ ok (failed timed_out) timeout_commands
unfolding transition
invite_timeout_fails = refl

abbrev early : List (Clock × Event)
early = (clock, retry_ready) ∷ (clock, idle_tick) ∷ (clock, retry_ready) ∷ []

resolve_agrees_example :
    resolve "@bob:ex" "@alice:ex" "c2" "c1" ≡ invert (resolve "@alice:ex" "@bob:ex" "c1" "c2")
resolve_agrees_example =
    resolve_agrees "@alice:ex" "@bob:ex" "c1" "c2"
      (inl (ground (arith, str_eq_iff "@alice:ex" "@bob:ex")))

resolve_by_user : resolve "@alice:ex" "@bob:ex" "c2" "c1" ≡ we_win
unfolding resolve
resolve_by_user = refl

resolve_by_call : resolve "@me:ex" "@me:ex" "ccc" "bbb" ≡ they_win
unfolding resolve
resolve_by_call = refl

-- A backend whose channel takes every frame and cannot restart ICE.
abbrev plain_backend : Backend ℕ ℕ
plain_backend = record {
  restart_ice = λ ch servers. (ch, error restart_ice_unsupported);
  send = λ ch frame. done tt;
  encrypt = λ key draw payload. some (record { ciphertext = "c"; iv = "i" });
  to_vec = λ frame. some (1 ∷ []);
}

abbrev config : P2pTransportConfig
config = record {
  our_user_id = "@alice:ex";
  our_device_id = "A";
  room_id = "!r:ex";
  session_uuid = none;
  idle_window = 300000;
  outbound_depth = 256;
  inbound_depth = 256;
}

abbrev driver : DriverTask ℕ ℕ
driver = record {
  config = config;
  state = call_at_5000;
  snapshot = record { name = "Open"; is_open = true };
  channel = some 1;
  crypto = some 1;
  pending_outbound = [];
  recent_nonces = [];
  locked_peers = [];
  verify_failures = [];
  last_decrypt_failures = 4200 ∷ 4700 ∷ 4800 ∷ [];
  idle_watchdog = true;
  draws = 0;
  log = [];
}

abbrev invite : ParsedCallEvent
invite = ParsedCallEvent.invite (record {
  call_id = "c2";
  party_id = "p2";
  version = "1";
  lifetime = 30000;
  offer = record { kind = "offer"; sdp = "" };
  mxdx_session_key = none;
  session_uuid = none;
})

abbrev messages : List (Clock × Input)
messages =
    (clock, call_event invite)
    ∷ (clock, outbound (record { event_type = "m"; payload = 1 ∷ [] }))
    ∷ (clock, control (ControlMsg.hangup "bye"))
    ∷ (clock, control (ControlMsg.start "@bob:ex" none))
    ∷ []

driver-Inv : Inv driver
unfolding name
driver-Inv = record { snapshot_exact = refl; watched = refl }

run-Inv_example : Inv (Loop.run plain_backend messages driver)
run-Inv_example =
    run-Inv plain_backend messages driver ((λ e. cc), ((λ e. cc), ((λ e. cc), ((λ e. cc), tt))))
      driver-Inv

run-Silent_example :
    (is_parked (Loop.run plain_backend messages (spawn config)).state ≡ true)
    × (any is_sent (Loop.run plain_backend messages (spawn config)).log ≡ false)
run-Silent_example = run-Silent plain_backend config messages

abbrev ended : List (Clock × Input)
ended = (clock, tick) ∷ (clock, shutdown) ∷ (clock, call_event invite) ∷ []

-- An open driver sends what it is given, and its tick goes back to `Idle`.
abbrev payload : List (Clock × Input)
payload = (clock, outbound (record { event_type = "m"; payload = 7 ∷ [] })) ∷ (clock, tick) ∷ []

open_driver_sends : any is_sent (Loop.run plain_backend payload driver).log ≡ true
unfolding Loop.run Loop.step Loop.handle_outbound drain_outbound_now Loop.dispatch transition
    apply_commands apply_command tear_down update_snapshot
open_driver_sends = refl

struck : DriverTask ℕ ℕ
struck =
    (bump_verify_failure "@bob:ex"
      (bump_verify_failure "@bob:ex" (bump_verify_failure "@bob:ex" driver).0).0).0

three_strikes_example :
    handle_control plain_backend clock
      (ControlMsg.start "@bob:ex" none)
      (Loop.run plain_backend messages struck)
    ≡ report
        (security_event SecurityEventKind.wrong_peer (some "@bob:ex"))
        (Loop.run plain_backend messages struck)
unfolding struck get
three_strikes_example =
    three_strikes plain_backend "@bob:ex" driver messages clock none (omega arith)

abbrev other_checks : List (String × List ℕ)
other_checks = ("c1", 2 ∷ []) ∷ ("c2", 1 ∷ []) ∷ []

check_replay-check_all_example :
    (check_replay "c1" (1 ∷ []) (check_all other_checks (check_replay "c1" (1 ∷ []) driver).0)).1
    ≡ true
unfolding check_replay
check_replay-check_all_example =
    check_replay-check_all "c1" (1 ∷ []) other_checks driver refl (omega arith)

fourth_failure_storms : (record_decrypt_failure 5000 driver).1 ≡ true
unfolding record_decrypt_failure
fourth_failure_storms = refl

abbrev bad_frames : List ℕ
bad_frames = 4200 ∷ 4700 ∷ 4800 ∷ []

abbrev spawned : DriverTask ℕ ℕ
spawned = spawn config

storm_counts_example :
    (record_decrypt_failure 5000 (after_failures bad_frames spawned)).1
    ≡ ltb 3 (length (since (5000 - 1000) bad_frames) + 1)
unfolding spawn
storm_counts_example = storm_counts bad_frames 5000 spawned refl (ground arith)
