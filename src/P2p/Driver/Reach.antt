-- ===== src/P2p/Driver/Reach.antt =====
-- driver.rs, `run`: which states the messages that the loop waits on can reach. The loop has no arm
-- for TURN results, channel events, the handshake or the timers.
use mxdx.Prelude.{◌≡◌, refl, Bool, true, false, ◌||◌, List, [], ◌∷◌, arith, any, push_back}
use mxdx.P2p.State.Effects.{Command}
use mxdx.P2p.State.Types.{
  Clock, P2pState, idle, fetching_turn, answering, failed, is_open, Event, StartRequest, idle_tick,
  call_event_received, TransitionResult, ok, illegal,
}
use mxdx.P2p.State.Types
use mxdx.P2p.State.Transition.{transition}
use mxdx.P2p.Driver.Types.{Backend, DriverTask, P2pTransportConfig, ControlMsg, Effect, sent}
use mxdx.P2p.Driver.Commands.{
  update_snapshot, shut_watchdog, tear_down, apply_reset_idle, handle_configure_ice_servers,
  drain_outbound_now, apply_command, apply_commands,
}
use mxdx.P2p.Driver.Loop.{
  Input, shutdown, tick, control, call_event, outbound, spawn, leave_open, dispatch_result,
  dispatch, handle_control, handle_outbound, step, run,
}

abbrev pub is_parked : P2pState → Bool
is_parked idle = true
is_parked (fetching_turn _) = true
is_parked (answering _) = true
is_parked (failed _) = true
is_parked _ = false

-- The events that the loop makes.
abbrev is_loop_event : Event → Bool
is_loop_event (Types.start _) = true
is_loop_event (Types.hangup _) = true
is_loop_event idle_tick = true
is_loop_event (call_event_received _) = true
is_loop_event _ = false

transition-is_parked :
    (now : Clock) (s t : P2pState) (e : Event) {cs : List Command}
    → is_loop_event e ≡ true
    → transition now s e ≡ ok t cs
    → is_parked s ≡ true
    → is_parked t ≡ true
unfolding transition
transition-is_parked now s t e l h p = ground arith

abbrev pub is_sent : Effect → Bool
is_sent (sent _) = true
is_sent _ = false

any-push_back :
    (p : Effect → Bool) (xs : List Effect) (x : Effect) → any p (push_back xs x) ≡ (any p xs || p x)
any-push_back p [] x = ground arith
any-push_back p (y ∷ ys) x = ground (arith, any-push_back p ys x)

module _ {Channel Crypto : Type 0} (b : Backend Channel Crypto) where
  -- Parked, and no frame has gone out.
  pub record Silent (d : DriverTask Channel Crypto) : Type 0 where
    pub parked : is_parked d.state ≡ true
    pub unsent : any is_sent d.log ≡ false

  apply_command-Silent :
      (c : Command) (d : DriverTask Channel Crypto) → Silent d → Silent (apply_command b c d)
  unfolding apply_command tear_down apply_reset_idle handle_configure_ice_servers drain_outbound_now
  apply_command-Silent c d h = grind (arith, any-push_back)

  apply_commands-Silent :
      (cs : List Command) (d : DriverTask Channel Crypto)
      → Silent d
      → Silent (apply_commands b cs d)
  unfolding apply_commands
  apply_commands-Silent [] d h = h
  apply_commands-Silent (c ∷ cs) d h =
      apply_commands-Silent cs (apply_command b c d) (apply_command-Silent c d h)

  leave_open-Silent :
      (w : Bool) (d : DriverTask Channel Crypto) → Silent d → Silent (leave_open b w d)
  unfolding leave_open shut_watchdog
  leave_open-Silent w d h = grind (arith, any-push_back)

  dispatch_result-Silent :
      (now : Clock) (e : Event) (r : TransitionResult) (d : DriverTask Channel Crypto)
      → is_loop_event e ≡ true
      → transition now d.state e ≡ r
      → Silent d
      → Silent (dispatch_result b (is_open d.state) r d)
  unfolding dispatch_result update_snapshot
  dispatch_result-Silent now e (ok next cs) d l h v = leave_open-Silent _ _ (
      apply_commands-Silent cs _ (record {
        parked = transition-is_parked now d.state next e l h v.parked;
        unsent = v.unsent;
      }))
  dispatch_result-Silent now e (illegal note) d l h v = v

  dispatch-Silent :
      (now : Clock) (e : Event) (d : DriverTask Channel Crypto)
      → is_loop_event e ≡ true
      → Silent d
      → Silent (dispatch b now e d)
  unfolding dispatch
  dispatch-Silent now e d l v = dispatch_result-Silent now e (transition now d.state e) d l refl v

  handle_control-Silent :
      (now : Clock) (ctl : ControlMsg) (d : DriverTask Channel Crypto)
      → Silent d
      → Silent (handle_control b now ctl d)
  unfolding handle_control
  handle_control-Silent now (ControlMsg.start user device) d v =
      grind (arith, dispatch-Silent, any-push_back)
  handle_control-Silent now (ControlMsg.hangup reason) d v = dispatch-Silent now _ d refl v

  step-Silent :
      (now : Clock) (i : Input) (d : DriverTask Channel Crypto)
      → Silent d
      → Silent (step b now i d).0
  unfolding step tear_down handle_outbound
  step-Silent now shutdown d v = grind (arith, any-push_back)
  step-Silent now tick d v = dispatch-Silent now _ d refl v
  step-Silent now (control ctl) d v = handle_control-Silent now ctl d v
  step-Silent now (call_event e) d v = dispatch-Silent now _ d refl v
  step-Silent now (outbound out) d v = ground arith

  run_from-Silent :
      (is : List (Clock × Input)) (d : DriverTask Channel Crypto) → Silent d → Silent (run b is d)
  unfolding run
  run_from-Silent [] d v = v
  run_from-Silent ((now, shutdown) ∷ is) d v = step-Silent now shutdown d v
  run_from-Silent ((now, tick) ∷ is) d v = run_from-Silent is _ (step-Silent now tick d v)
  run_from-Silent ((now, control ctl) ∷ is) d v =
      run_from-Silent is _ (step-Silent now (control ctl) d v)
  run_from-Silent ((now, call_event e) ∷ is) d v =
      run_from-Silent is _ (step-Silent now (call_event e) d v)
  run_from-Silent ((now, outbound out) ∷ is) d v =
      run_from-Silent is _ (step-Silent now (outbound out) d v)

  spawn-Silent : (config : P2pTransportConfig) → Silent (spawn config)
  unfolding spawn
  spawn-Silent config = ground arith

  -- Whatever messages its loop receives, a freshly spawned driver stays in Idle, FetchingTurn,
  -- Answering or Failed, and no frame ever goes out on the data channel.
  pub run-Silent :
      (config : P2pTransportConfig) (is : List (Clock × Input))
      → (is_parked (run b is (spawn config)).state ≡ true)
        × (any is_sent (run b is (spawn config)).log ≡ false)
  run-Silent config is = ground (arith, run_from-Silent is (spawn config) (spawn-Silent config))
