-- ===== src/P2p/Driver/Invariant.antt =====
-- driver.rs: the snapshot and the watchdog follow the state through every message.
use mxdx.Prelude.{
  ◌≡◌, refl, ◌⊎◌, inl, inr, Bool, true, false, List, [], ◌∷◌, arith, any, Bool-cases, push_back,
  ◌≢◌, All,
}
use mxdx.P2p.State.Effects.{Command, reset_idle}
use mxdx.P2p.State.Types.{Clock, P2pState, is_open, Event, TransitionResult, ok, illegal}
use mxdx.P2p.State.Transition.{transition}
use mxdx.P2p.State.Safety.{is_tear_down}
use mxdx.P2p.Driver.Types.{Backend, DriverTask, ControlMsg, OutboundRequest, snapshot_from}
use mxdx.P2p.Driver.Commands.{
  update_snapshot, shut_watchdog, apply_reset_idle, apply_command, apply_commands,
}
use mxdx.P2p.Driver.Loop.{
  Input, shutdown, tick, control, call_event, outbound, leave_open, dispatch_result, dispatch,
  handle_control, handle_outbound, step, run,
}
use mxdx.P2p.Driver.Keeps.{
  Inv, Left, Released, tear_down-Released, Same-drain_outbound_now, shut_watchdog-Inv,
  apply_commands-Left, apply_commands_outside, apply_commands_keeping,
}

-- Staying in `Open` tears nothing down.
transition_stays_open :
    (now : Clock) (s t : P2pState) (e : Event) {cs : List Command}
    → transition now s e ≡ ok t cs
    → is_open s ≡ true
    → is_open t ≡ true
    → any is_tear_down cs ≡ false
unfolding transition
transition_stays_open now s t e h o p = ground arith

-- Entering `Open` arms the watchdog first, and tears nothing down.
transition_enters_open :
    (now : Clock) (s t : P2pState) (e : Event) {cs : List Command}
    → transition now s e ≡ ok t cs
    → is_open s ≡ false
    → is_open t ≡ true
    → (rest : List Command) × (cs ≡ reset_idle ∷ rest) × (any is_tear_down rest ≡ false)
unfolding transition
transition_enters_open now s t e h o p = ground arith

-- The messages hold a shutdown.
abbrev pub HasShutdown : List (Clock × Input) → Type 0
HasShutdown [] = ⊥
HasShutdown ((_, i) ∷ is) = (i ≡ shutdown) ⊎ HasShutdown is

module _ {Channel Crypto : Type 0} (b : Backend Channel Crypto) where
  -- The driver with the next state and its snapshot, before the commands.
  abbrev moved : P2pState → DriverTask Channel Crypto → DriverTask Channel Crypto
  moved next d = record d { state = next; snapshot = snapshot_from next }

  enter-Inv :
      (next : P2pState) (cs : List Command) (d : DriverTask Channel Crypto)
      → d.idle_watchdog ≡ false
      → is_open next ≡ true
      → (rest : List Command) × (cs ≡ reset_idle ∷ rest) × (any is_tear_down rest ≡ false)
      → Inv (apply_commands b cs (moved next d))
  unfolding apply_commands apply_command apply_reset_idle
  enter-Inv next cs d w o (rest, e, k) =
      rw (e, apply_commands)
        (apply_commands_keeping b rest (apply_command b reset_idle (moved next d)) k armed)
    where
      armed : Inv (apply_command b reset_idle (moved next d))
      armed = ground arith

  leave_open-Inv :
      (was_open : Bool) (d : DriverTask Channel Crypto) → Inv d → Inv (leave_open b was_open d)
  unfolding leave_open shut_watchdog
  leave_open-Inv was_open d v = ground arith

  leave_open-Left : (d : DriverTask Channel Crypto) → Left d → Inv (leave_open b true d)
  unfolding leave_open
  leave_open-Left d l = rw l.left_state (shut_watchdog-Inv d l)

  dispatch_ok-Inv :
      (now : Clock) (e : Event) (next : P2pState) (cs : List Command)
      (d : DriverTask Channel Crypto)
      → transition now d.state e ≡ ok next cs
      → Inv d
      → Inv (leave_open b (is_open d.state) (apply_commands b cs (moved next d)))
  dispatch_ok-Inv now e next cs d h v = elim (Bool-cases (is_open next)) [
    | inl p ↦ leave_open-Inv _ _ (elim (Bool-cases (is_open d.state)) [
      | inl o ↦
          apply_commands_keeping b cs (moved next d)
            (transition_stays_open now d.state next e h o p) (ground arith)
      | inr o ↦
          enter-Inv next cs d (ground arith) p (transition_enters_open now d.state next e h o p)
    ])
    | inr p ↦ elim (Bool-cases (is_open d.state)) [
      | inl o ↦ rw o (
          leave_open-Left _ (
            apply_commands-Left b cs (moved next d)
              (record { left_snapshot = refl; left_state = p })))
      | inr o ↦ leave_open-Inv _ _ (apply_commands_outside b cs (moved next d) p (ground arith))
    ]
  ]

  dispatch_result-Inv :
      (now : Clock) (e : Event) (r : TransitionResult) (d : DriverTask Channel Crypto)
      → transition now d.state e ≡ r
      → Inv d
      → Inv (dispatch_result b (is_open d.state) r d)
  unfolding dispatch_result update_snapshot
  dispatch_result-Inv now e (ok next cs) d h v = dispatch_ok-Inv now e next cs d h v
  dispatch_result-Inv now e (illegal note) d h v = v

  -- Dispatching any event, on any outcome of the backend, keeps the invariant of the driver: the
  -- public snapshot is exactly that of the state, and the idle watchdog is alive exactly while
  -- the state is Open.
  pub dispatch-Inv :
      (now : Clock) (e : Event) (d : DriverTask Channel Crypto) → Inv d → Inv (dispatch b now e d)
  unfolding dispatch
  dispatch-Inv now e d v = dispatch_result-Inv now e (transition now d.state e) d refl v

  handle_control-Inv :
      (now : Clock) (ctl : ControlMsg) (d : DriverTask Channel Crypto)
      → Inv d
      → Inv (handle_control b now ctl d)
  unfolding handle_control
  handle_control-Inv now (ControlMsg.start user device) d v = grind (arith, dispatch-Inv)
  handle_control-Inv now (ControlMsg.hangup reason) d v = dispatch-Inv now _ d v

  handle_outbound-Inv :
      (out : OutboundRequest) (d : DriverTask Channel Crypto)
      → Inv d
      → Inv (handle_outbound b out d)
  unfolding handle_outbound
  handle_outbound-Inv out d v = ground (
    arith,
    Same-drain_outbound_now b (record d { pending_outbound = push_back d.pending_outbound out }),
  )

  -- A message other than a shutdown keeps the invariant.
  step-Inv :
      (now : Clock) (i : Input) (d : DriverTask Channel Crypto)
      → i ≢ shutdown
      → Inv d
      → Inv (step b now i d).0
  unfolding step
  step-Inv now shutdown d n v = absurd (n refl)
  step-Inv now tick d n v = dispatch-Inv now _ d v
  step-Inv now (control ctl) d n v = handle_control-Inv now ctl d v
  step-Inv now (call_event e) d n v = dispatch-Inv now _ d v
  step-Inv now (outbound out) d n v = handle_outbound-Inv out d v

  -- A run that meets a shutdown ends there, whatever is queued behind it, with no channel, no
  -- key, no queued payload and no watchdog.
  pub run-Released :
      (is : List (Clock × Input)) (d : DriverTask Channel Crypto)
      → HasShutdown is
      → Released (run b is d)
  unfolding run step
  run-Released [] d h = absurd h
  run-Released ((now, shutdown) ∷ is) d h = tear_down-Released "shutdown" d
  run-Released ((now, tick) ∷ is) d (inl e) = cc
  run-Released ((now, tick) ∷ is) d (inr h) = run-Released is _ h
  run-Released ((now, control ctl) ∷ is) d (inl e) = cc
  run-Released ((now, control ctl) ∷ is) d (inr h) = run-Released is _ h
  run-Released ((now, call_event e) ∷ is) d (inl p) = cc
  run-Released ((now, call_event e) ∷ is) d (inr h) = run-Released is _ h
  run-Released ((now, outbound out) ∷ is) d (inl e) = cc
  run-Released ((now, outbound out) ∷ is) d (inr h) = run-Released is _ h

  -- A message that is no shutdown is handled, and the loop goes on.
  pub run-cons :
      (now : Clock) (i : Input) (is : List (Clock × Input)) (d : DriverTask Channel Crypto)
      → i ≢ shutdown
      → run b ((now, i) ∷ is) d ≡ run b is (step b now i d).0
  unfolding run
  run-cons now shutdown is d n = absurd (n refl)
  run-cons now tick is d n = refl
  run-cons now (control ctl) is d n = refl
  run-cons now (call_event e) is d n = refl
  run-cons now (outbound out) is d n = refl

  -- From a driver whose public snapshot is that of its state and whose idle watchdog is alive
  -- exactly while the state is Open: any messages without a shutdown keep both so.
  pub run-Inv :
      (is : List (Clock × Input)) (d : DriverTask Channel Crypto)
      → All (λ i. i.1 ≢ shutdown) is
      → Inv d
      → Inv (run b is d)
  unfolding run
  run-Inv [] d n v = v
  run-Inv ((now, i) ∷ is) d n v =
      rw (run-cons now i is d n.0) (run-Inv is (step b now i d).0 n.1 (step-Inv now i d n.0 v))
