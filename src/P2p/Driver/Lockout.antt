-- ===== src/P2p/Driver/Lockout.antt =====
-- driver.rs, `bump_verify_failure` and `handle_control`: three strikes against a peer.
use mxdx.Prelude.{
  ℕ, ◌+◌, ◌<◌, String, str_eq, str_eq_refl, ◌≡◌, refl, Bool, true, ◌||◌, List, [], ◌∷◌, Option,
  some, none, arith, any, leb, push_back,
}
use mxdx.Prelude.Dict.{get, get-insert}
use mxdx.P2p.State.Effects.{SecurityEventKind, security_event, Command, configure_ice_servers}
use mxdx.P2p.Channel.{IceServer, Sdp}
use mxdx.P2p.State.Types.{Clock, Event, TransitionResult, ok, illegal}
use mxdx.P2p.State.Transition.{transition}
use mxdx.P2p.Driver.Types.{Backend, DriverTask, ControlMsg, ChannelResult}
use mxdx.P2p.Driver.Commands.{
  report, tear_down, shut_watchdog, update_snapshot, teardown_for_turn_refresh, restart_result,
  restart_channel, apply_reset_idle, handle_configure_ice_servers, apply_command, apply_commands,
}
use mxdx.P2p.Driver.Keeps.{Same-drain_outbound_now}
use mxdx.P2p.Driver.Loop.{
  Input, shutdown, tick, control, call_event, outbound, leave_open, dispatch_result, dispatch,
  handle_control, handle_outbound, step, run,
}
use mxdx.P2p.Driver.Guards.{failures_of, bump_verify_failure}

module _ {Channel Crypto : Type 0} where
  abbrev pub strikes : String → DriverTask Channel Crypto → ℕ
  strikes peer d = failures_of (get peer d.verify_failures)

  abbrev pub is_locked : String → DriverTask Channel Crypto → Bool
  is_locked peer d = any (λ p. str_eq p peer) d.locked_peers

  -- Below the 32-bit limit one failed verification adds one strike to the peer, and reports a
  -- lockout and locks the peer exactly from the third strike on.
  pub bump_verify_failure_lem :
      (peer : String) (d : DriverTask Channel Crypto)
      → strikes peer d < 4294967295
      → let (d', locked) = bump_verify_failure peer d in
        (strikes peer d' ≡ strikes peer d + 1)
        × (locked ≡ leb 3 (strikes peer d + 1))
        × (is_locked peer d' ≡ (leb 3 (strikes peer d + 1) || is_locked peer d))
  unfolding bump_verify_failure
  bump_verify_failure_lem peer d h =
      ground (arith, get-insert peer peer (strikes peer d + 1) d.verify_failures, str_eq_refl peer)

module _ {Channel Crypto : Type 0} (b : Backend Channel Crypto) where
  restart_result-is_locked :
      (peer : String) (r : ChannelResult Sdp) (d : DriverTask Channel Crypto)
      → is_locked peer d ≡ true
      → is_locked peer (restart_result b r d) ≡ true
  unfolding restart_result teardown_for_turn_refresh
  restart_result-is_locked peer r d h = ground arith

  restart_channel-is_locked :
      (peer : String) (channel : Option Channel) (servers : List IceServer)
      (d : DriverTask Channel Crypto)
      → is_locked peer d ≡ true
      → is_locked peer (restart_channel b channel servers d) ≡ true
  unfolding restart_channel
  restart_channel-is_locked peer none servers d h = h
  restart_channel-is_locked peer (some ch) servers d h =
      restart_result-is_locked peer (b.restart_ice ch servers).1 _ h

  -- No command unlocks a peer.
  apply_command-is_locked :
      (peer : String) (c : Command) (d : DriverTask Channel Crypto)
      → is_locked peer d ≡ true
      → is_locked peer (apply_command b c d) ≡ true
  unfolding apply_command tear_down apply_reset_idle handle_configure_ice_servers
  apply_command-is_locked peer (configure_ice_servers servers) d h =
      ground (arith, restart_channel-is_locked peer d.channel servers d h)
  apply_command-is_locked peer c d h = ground (arith, Same-drain_outbound_now b d)

  apply_commands-is_locked :
      (peer : String) (cs : List Command) (d : DriverTask Channel Crypto)
      → is_locked peer d ≡ true
      → is_locked peer (apply_commands b cs d) ≡ true
  unfolding apply_commands
  apply_commands-is_locked peer [] d h = h
  apply_commands-is_locked peer (c ∷ cs) d h =
      apply_commands-is_locked peer cs (apply_command b c d) (apply_command-is_locked peer c d h)

  leave_open-is_locked :
      (peer : String) (w : Bool) (d : DriverTask Channel Crypto)
      → is_locked peer d ≡ true
      → is_locked peer (leave_open b w d) ≡ true
  unfolding leave_open shut_watchdog
  leave_open-is_locked peer w d h = ground arith

  dispatch_result-is_locked :
      (peer : String) (w : Bool) (r : TransitionResult) (d : DriverTask Channel Crypto)
      → is_locked peer d ≡ true
      → is_locked peer (dispatch_result b w r d) ≡ true
  unfolding dispatch_result update_snapshot
  dispatch_result-is_locked peer w (ok next cs) d h =
      leave_open-is_locked peer w _ (apply_commands-is_locked peer cs _ h)
  dispatch_result-is_locked peer w (illegal note) d h = h

  dispatch-is_locked :
      (peer : String) (now : Clock) (e : Event) (d : DriverTask Channel Crypto)
      → is_locked peer d ≡ true
      → is_locked peer (dispatch b now e d) ≡ true
  unfolding dispatch
  dispatch-is_locked peer now e d h =
      dispatch_result-is_locked peer _ (transition now d.state e) d h

  step-is_locked :
      (peer : String) (now : Clock) (i : Input) (d : DriverTask Channel Crypto)
      → is_locked peer d ≡ true
      → is_locked peer (step b now i d).0 ≡ true
  unfolding step handle_control handle_outbound tear_down
  step-is_locked peer now shutdown d h = ground arith
  step-is_locked peer now tick d h = dispatch-is_locked peer now _ d h
  step-is_locked peer now (control (ControlMsg.start user device)) d h =
      grind (arith, dispatch-is_locked)
  step-is_locked peer now (control (ControlMsg.hangup reason)) d h =
      dispatch-is_locked peer now _ d h
  step-is_locked peer now (call_event e) d h = dispatch-is_locked peer now _ d h
  step-is_locked peer now (outbound out) d h = ground (
    arith,
    Same-drain_outbound_now b (record d { pending_outbound = push_back d.pending_outbound out }),
  )

  run-is_locked :
      (peer : String) (is : List (Clock × Input)) (d : DriverTask Channel Crypto)
      → is_locked peer d ≡ true
      → is_locked peer (run b is d) ≡ true
  unfolding run
  run-is_locked peer [] d h = h
  run-is_locked peer ((now, shutdown) ∷ is) d h = step-is_locked peer now shutdown d h
  run-is_locked peer ((now, tick) ∷ is) d h =
      run-is_locked peer is _ (step-is_locked peer now tick d h)
  run-is_locked peer ((now, control ctl) ∷ is) d h =
      run-is_locked peer is _ (step-is_locked peer now (control ctl) d h)
  run-is_locked peer ((now, call_event e) ∷ is) d h =
      run-is_locked peer is _ (step-is_locked peer now (call_event e) d h)
  run-is_locked peer ((now, outbound out) ∷ is) d h =
      run-is_locked peer is _ (step-is_locked peer now (outbound out) d h)

  handle_control-is_locked :
      (now : Clock) (peer : String) (device : Option String) (d : DriverTask Channel Crypto)
      → is_locked peer d ≡ true
      → handle_control b now (ControlMsg.start peer device) d
        ≡ report (security_event SecurityEventKind.wrong_peer (some peer)) d
  unfolding handle_control
  handle_control-is_locked now peer device d h = rw h refl

  bump_verify_failure_thrice :
      (peer : String) (d : DriverTask Channel Crypto)
      → strikes peer d < 4294967292
      → is_locked peer
          (bump_verify_failure peer (bump_verify_failure peer (bump_verify_failure peer d).0).0).0
        ≡ true
  bump_verify_failure_thrice peer d h =
      let d' = (bump_verify_failure peer d).0 in
      let d'' = (bump_verify_failure peer d').0 in
      ground (
        arith,
        bump_verify_failure_lem peer d,
        bump_verify_failure_lem peer d',
        bump_verify_failure_lem peer d'',
      )

  -- If the counter of the peer is far from its 32-bit limit, three failed verifications lock the
  -- peer out for good: whatever messages the driver handles after them, a start that names the
  -- peer does nothing but report it to the security telemetry.
  pub three_strikes :
      (peer : String) (d : DriverTask Channel Crypto) (is : List (Clock × Input)) (now : Clock)
      (device : Option String)
      → strikes peer d < 4294967292
      → let struck =
          (bump_verify_failure peer
            (bump_verify_failure peer (bump_verify_failure peer d).0).0).0 in
        let later = run b is struck in
        handle_control b now (ControlMsg.start peer device) later
        ≡ report (security_event SecurityEventKind.wrong_peer (some peer)) later
  three_strikes peer d is now device h =
      handle_control-is_locked now peer device _
        (run-is_locked peer is _ (bump_verify_failure_thrice peer d h))
