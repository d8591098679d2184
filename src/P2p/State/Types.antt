-- ===== src/P2p/State/Types.antt =====
-- state.rs, the types: `P2PState`, `Event` and `TransitionResult`. A variant with fields
-- is a record of its own. Times are milliseconds of the monotonic clock.
use mxdx.Prelude.{ℕ, String, List, [], Option, some, none, Bool, true, false}
use mxdx.P2p.Channel.{Sdp, IceServer, ChannelEvent}
use mxdx.P2p.Signaling.{ParsedCallEvent}
use mxdx.P2p.Glare.{GlareResult}
use mxdx.P2p.State.Effects.{Command}

-- The readings of the clock that one call makes, in order: `now 0` is the first `Instant::now()`.
abbrev pub Clock : Type 0
Clock = ℕ → ℕ

abbrev pub default_retry_after : ℕ
default_retry_after = 30000

abbrev pub ice_timeout_retry_after : ℕ
ice_timeout_retry_after = 60000

abbrev pub decrypt_storm_retry_after : ℕ
decrypt_storm_retry_after = 60000

pub record Inviting : Type 0 where
  pub call_id : String
  pub started : ℕ
  pub our_offer : Sdp
  pub our_party_id : String
  pub lifetime_ms : ℕ

pub record Answering : Type 0 where
  pub call_id : String
  pub party_id : String
  pub their_party_id : String

pub record Glaring : Type 0 where
  pub our_call : String
  pub their_call : String
  pub resolution : GlareResult

pub record Connecting : Type 0 where
  pub call_id : String
  pub our_party_id : String
  pub ice_started : ℕ

-- A nonce is the list of its 32 bytes.
pub record Verifying : Type 0 where
  pub call_id : String
  pub our_party_id : String
  pub our_nonce : List ℕ

pub record Opened : Type 0 where
  pub call_id : String
  pub last_io : ℕ

pub record Failed : Type 0 where
  pub reason : String
  pub retry_after : ℕ

-- `opened` is the source's `Open`, a reserved word here; `fetching_turn` carries `since`.
pub data P2pState : Type 0 where
  idle : P2pState
  fetching_turn : ℕ → P2pState
  inviting : Inviting → P2pState
  answering : Answering → P2pState
  glare : Glaring → P2pState
  connecting : Connecting → P2pState
  verifying : Verifying → P2pState
  opened : Opened → P2pState
  failed : Failed → P2pState

unfoldable pub name : P2pState → String
name idle = "Idle"
name (fetching_turn _) = "FetchingTurn"
name (inviting _) = "Inviting"
name (answering _) = "Answering"
name (glare _) = "Glare"
name (connecting _) = "Connecting"
name (verifying _) = "Verifying"
name (opened _) = "Open"
name (failed _) = "Failed"

abbrev pub is_open : P2pState → Bool
is_open (opened _) = true
is_open _ = false

pub record StartRequest : Type 0 where
  pub peer_user_id : String
  pub peer_device_id : Option String
  pub our_user_id : String
  pub our_device_id : String
  pub room_id : String
  pub session_uuid : Option String

pub data VerifyFailureReason : Type 0 where
  signature_mismatch replay_detected timeout invalid_payload device_locked_out : VerifyFailureReason

pub data Event : Type 0 where
  start : StartRequest → Event
  hangup : String → Event
  turn_refreshed : List IceServer → Event
  turn_expired : Event
  call_event_received : ParsedCallEvent → Event
  channel_event : ChannelEvent → Event
  outbound_pressure idle_tick invite_timeout ice_timeout verify_ok : Event
  verify_fail : VerifyFailureReason → Event
  decrypt_storm retry_ready : Event

pub data TransitionResult : Type 0 where
  ok : P2pState → List Command → TransitionResult
  illegal : String → TransitionResult

abbrev pub stay : P2pState → TransitionResult
stay current = ok current []

-- The call and the party that a hangup names.
unfoldable pub current_call : P2pState → Option (String × String)
current_call idle = none
current_call (fetching_turn _) = none
current_call (failed _) = none
current_call (inviting s) = some (s.call_id, s.our_party_id)
current_call (connecting s) = some (s.call_id, s.our_party_id)
current_call (verifying s) = some (s.call_id, s.our_party_id)
current_call (answering s) = some (s.call_id, s.party_id)
current_call (glare s) = some (s.our_call, "<pending>")
current_call (opened s) = some (s.call_id, "<current>")
