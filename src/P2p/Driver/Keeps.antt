-- ===== src/P2p/Driver/Keeps.antt =====
-- driver.rs: what each command leaves alone.
use mxdx.Prelude.{
  ℕ, String, ◌⊎◌, inl, inr, ◌≡◌, refl, false, List, [], ◌∷◌, Option, some, none, arith, any,
}
use mxdx.P2p.Channel.{IceServer, Sdp}
use mxdx.P2p.State.Effects.{Command, tear_down_channel, configure_ice_servers, drain_outbound}
use mxdx.P2p.State.Types.{is_open}
use mxdx.P2p.State.Safety.{is_tear_down}
use mxdx.P2p.Driver.Types.{
  Backend, DriverTask, OutboundRequest, ChannelResult, done, error, snapshot_from,
}
use mxdx.P2p.Driver.Commands.{
  shut_watchdog, tear_down, teardown_for_turn_refresh, apply_reset_idle,
  handle_configure_ice_servers, drain_outbound_now, drain_with, seal_one, seal_all, send_result,
  send_all, restart_channel, restart_result, apply_command, apply_commands,
}

module _ {Channel Crypto : Type 0} where
  -- The second driver has the state, the snapshot, the watchdog and the locked peers of the first.
  abbrev pub Same : DriverTask Channel Crypto → DriverTask Channel Crypto → Type 0
  Same d d' =
      (d'.state ≡ d.state)
      × (d'.snapshot ≡ d.snapshot)
      × (d'.idle_watchdog ≡ d.idle_watchdog)
      × (d'.locked_peers ≡ d.locked_peers)

  -- The snapshot is that of the state, and a watchdog lives exactly in `Open`.
  pub record Inv (d : DriverTask Channel Crypto) : Type 0 where
    pub snapshot_exact : d.snapshot ≡ snapshot_from d.state
    pub watched : d.idle_watchdog ≡ is_open d.state

  -- The same outside `Open`, where the watchdog may still be alive.
  pub record Left (d : DriverTask Channel Crypto) : Type 0 where
    pub left_snapshot : d.snapshot ≡ snapshot_from d.state
    pub left_state : is_open d.state ≡ false

  pub shut_watchdog-Inv : (d : DriverTask Channel Crypto) → Left d → Inv (shut_watchdog d)
  unfolding shut_watchdog
  shut_watchdog-Inv d h = ground arith

  pub tear_down-Left :
      (reason : String) (d : DriverTask Channel Crypto) → Left d → Left (tear_down reason d)
  unfolding tear_down
  tear_down-Left reason d h = ground arith

  pub tear_down-Inv :
      (reason : String) (d : DriverTask Channel Crypto)
      → Inv d
      → is_open d.state ≡ false
      → Inv (tear_down reason d)
  unfolding tear_down
  tear_down-Inv reason d h o = ground arith

  -- What a shutdown leaves behind: no channel, no key, no queued payload, no watchdog.
  pub record Released (d : DriverTask Channel Crypto) : Type 0 where
    pub no_channel : d.channel ≡ none
    pub no_crypto : d.crypto ≡ none
    pub no_pending : d.pending_outbound ≡ []
    pub no_watchdog : d.idle_watchdog ≡ false

  pub tear_down-Released :
      (reason : String) (d : DriverTask Channel Crypto) → Released (tear_down reason d)
  unfolding tear_down
  tear_down-Released reason d = ground arith

module _ {Channel Crypto : Type 0} (b : Backend Channel Crypto) where
  Same-seal_one :
      (crypto : Crypto) (req : OutboundRequest) (d : DriverTask Channel Crypto)
      → Same d (seal_one b crypto req d).1
  unfolding seal_one
  Same-seal_one crypto req d = ground arith

  Same-seal_all :
      (crypto : Crypto) (reqs : List OutboundRequest) (d : DriverTask Channel Crypto)
      → Same d (seal_all b crypto reqs d).1
  unfolding seal_all
  Same-seal_all crypto [] d = (refl, refl, refl, refl)
  Same-seal_all crypto (req ∷ reqs) d =
      ground
        (arith, Same-seal_one crypto req d, Same-seal_all crypto reqs (seal_one b crypto req d).1)

  Same-send_result :
      (wire : List ℕ) (r : ChannelResult (Unit {0})) (d : DriverTask Channel Crypto)
      → Same d (send_result b wire r d)
  unfolding send_result
  Same-send_result wire (done _) d = (refl, refl, refl, refl)
  Same-send_result wire (error _) d = (refl, refl, refl, refl)

  Same-send_all :
      (ch : Channel) (wires : List (List ℕ)) (d : DriverTask Channel Crypto)
      → Same d (send_all b ch wires d)
  unfolding send_all
  Same-send_all ch [] d = (refl, refl, refl, refl)
  Same-send_all ch (wire ∷ wires) d =
      let d' = send_result b wire (b.send ch wire) d in
      ground (arith, Same-send_result wire (b.send ch wire) d, Same-send_all ch wires d')

  Same-drain_with :
      (crypto : Option Crypto) (channel : Option Channel) (d : DriverTask Channel Crypto)
      → Same d (drain_with b crypto channel d)
  unfolding drain_with
  Same-drain_with (some crypto) (some ch) d =
      let d' = record d { pending_outbound = [] } in
      let r = seal_all b crypto d.pending_outbound d' in
      ground (arith, Same-seal_all crypto d.pending_outbound d', Same-send_all ch r.0 r.1)
  Same-drain_with (some crypto) none d = (refl, refl, refl, refl)
  Same-drain_with none _ d = (refl, refl, refl, refl)

  pub Same-drain_outbound_now : (d : DriverTask Channel Crypto) → Same d (drain_outbound_now b d)
  unfolding drain_outbound_now
  Same-drain_outbound_now d = ground (arith, Same-drain_with d.crypto d.channel d)

  -- Outside `Open` no command gets back into it, and none but the snapshot of the state is shown.
  apply_command-Left :
      (c : Command) (d : DriverTask Channel Crypto) → Left d → Left (apply_command b c d)
  unfolding apply_command tear_down apply_reset_idle handle_configure_ice_servers drain_outbound_now
  apply_command-Left c d h = ground arith

  -- The tear-down for new TURN servers ends in `Idle`, from wherever it starts.
  teardown_for_turn_refresh-Inv :
      (reason : String) (d : DriverTask Channel Crypto) → Inv (teardown_for_turn_refresh reason d)
  unfolding teardown_for_turn_refresh
  teardown_for_turn_refresh-Inv reason d = ground arith

  restart_result-Inv :
      (r : ChannelResult Sdp) (d : DriverTask Channel Crypto) → Inv d → Inv (restart_result b r d)
  unfolding restart_result
  restart_result-Inv r d h = grind (arith, teardown_for_turn_refresh-Inv)

  restart_channel-Inv :
      (channel : Option Channel) (servers : List IceServer) (d : DriverTask Channel Crypto)
      → Inv d
      → Inv (restart_channel b channel servers d)
  unfolding restart_channel
  restart_channel-Inv none servers d h = h
  restart_channel-Inv (some ch) servers d h =
      restart_result-Inv (b.restart_ice ch servers).1
        (record d { channel = some (b.restart_ice ch servers).0 })
        (record { snapshot_exact = h.snapshot_exact; watched = h.watched })

  handle_configure_ice_servers-Inv :
      (servers : List IceServer) (d : DriverTask Channel Crypto)
      → Inv d
      → Inv (handle_configure_ice_servers b servers d)
  unfolding handle_configure_ice_servers
  handle_configure_ice_servers-Inv servers d h =
      ground (arith, restart_channel-Inv d.channel servers d h)

  -- With the invariant, a command keeps it unless it tears the channel of an open call down.
  pub apply_command-Inv :
      (c : Command) (d : DriverTask Channel Crypto)
      → (is_tear_down c ≡ false) ⊎ (is_open d.state ≡ false)
      → Inv d
      → Inv (apply_command b c d)
  unfolding apply_command apply_reset_idle
  apply_command-Inv (configure_ice_servers servers) d k h =
      handle_configure_ice_servers-Inv servers d h
  apply_command-Inv drain_outbound d k h = ground (arith, Same-drain_outbound_now d)
  apply_command-Inv (tear_down_channel reason) d k h = ground (arith, tear_down-Inv reason d h)
  apply_command-Inv _ d k h = ground arith

  pub apply_commands-Left :
      (cs : List Command) (d : DriverTask Channel Crypto) → Left d → Left (apply_commands b cs d)
  unfolding apply_commands
  apply_commands-Left [] d h = h
  apply_commands-Left (c ∷ cs) d h =
      apply_commands-Left cs (apply_command b c d) (apply_command-Left c d h)

  -- Outside `Open` the invariant holds through any commands.
  pub apply_commands_outside :
      (cs : List Command) (d : DriverTask Channel Crypto)
      → is_open d.state ≡ false
      → Inv d
      → Inv (apply_commands b cs d)
  unfolding apply_commands
  apply_commands_outside [] d o h = h
  apply_commands_outside (c ∷ cs) d o h =
      let left =
        apply_command-Left c d (record { left_snapshot = h.snapshot_exact; left_state = o }) in
      apply_commands_outside cs (apply_command b c d) left.left_state
        (apply_command-Inv c d (inr o) h)

  pub apply_commands_keeping :
      (cs : List Command) (d : DriverTask Channel Crypto)
      → any is_tear_down cs ≡ false
      → Inv d
      → Inv (apply_commands b cs d)
  unfolding apply_commands
  apply_commands_keeping [] d k h = h
  apply_commands_keeping (c ∷ cs) d k h =
      apply_commands_keeping cs (apply_command b c d) (ground arith)
        (apply_command-Inv c d (inl (ground arith)) h)
