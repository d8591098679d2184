-- ===== src/P2p/Driver/Types.antt =====
-- driver.rs, the types, and mod.rs, the limits and the snapshot.
use mxdx.Prelude.{ℕ, String, List, Option, Bool, str_append}
use mxdx.Prelude.Dict.{Dict}
use mxdx.Prelude.Decimal.{decimal}
use mxdx.P2p.Channel.{
  Sdp, IceServer, ChannelError, invalid_sdp, invalid_candidate, ice_init_failed, backend,
  restart_ice_unsupported, channel_closed, frame_too_large,
}
use mxdx.P2p.State.Effects.{TelemetryKind}
use mxdx.P2p.State.Types.{P2pState, name, is_open}

abbrev pub outbound_queue_depth : ℕ
outbound_queue_depth = 256

abbrev pub decrypt_failure_rate_per_sec : ℕ
decrypt_failure_rate_per_sec = 3

abbrev pub replay_window_size : ℕ
replay_window_size = 16

pub record P2pTransportConfig : Type 0 where
  pub our_user_id : String
  pub our_device_id : String
  pub room_id : String
  pub session_uuid : Option String
  pub idle_window : ℕ
  pub outbound_depth : ℕ
  pub inbound_depth : ℕ

pub record P2pStateSnapshot : Type 0 where
  pub name : String
  pub is_open : Bool

abbrev pub snapshot_from : P2pState → P2pStateSnapshot
snapshot_from s = record { name = name s; is_open = is_open s }

-- `Megolm<Bytes>` is the list of its bytes.
pub record OutboundRequest : Type 0 where
  pub event_type : String
  pub payload : List ℕ

pub record EncryptedFrame : Type 0 where
  pub ciphertext : String
  pub iv : String

pub data ControlMsg : Type 0 where
  start : String → Option String → ControlMsg
  hangup : String → ControlMsg

-- What an operation of the backend returns.
pub data ChannelResult {ℓ} (A : Type ℓ) : Type ℓ where
  done : A → ChannelResult A
  error : ChannelError → ChannelResult A

-- The text of a `ChannelError`, its `#[error]` line.
unfoldable pub error_text : ChannelError → String
error_text (invalid_sdp e) = str_append "invalid SDP: " e
error_text (invalid_candidate e) = str_append "invalid ICE candidate: " e
error_text (ice_init_failed e) = str_append "ICE initialisation failed: " e
error_text restart_ice_unsupported = "restart_ice not supported by this backend"
error_text (frame_too_large most actual) =
    str_append "frame exceeds " (
      str_append (decimal most)
        (str_append "-byte limit (" (str_append (decimal actual) " bytes)")))
error_text channel_closed = "channel is closed"
error_text (backend e) = str_append "backend error: " e

-- The parts that the driver only calls: the WebRTC channel, the AES-GCM cipher and the JSON encoder.
-- `encrypt` takes the number of the draw from the system's generator besides its plaintext; `none`
-- is its error. An operation on `&mut self` returns the channel too.
pub record Backend (Channel Crypto : Type 0) : Type 0 where
  pub restart_ice : Channel → List IceServer → Channel × ChannelResult Sdp
  pub send : Channel → List ℕ → ChannelResult (Unit {0})
  pub encrypt : Crypto → ℕ → List ℕ → Option EncryptedFrame
  pub to_vec : EncryptedFrame → Option (List ℕ)

-- What the driver does to the outside, oldest first in its log.
pub data Effect : Type 0 where
  sent : List ℕ → Effect
  closed : String → Effect
  watchdog_spawned watchdog_reset watchdog_shut : Effect
  telemetry : TelemetryKind → Effect

-- `DriverTask`. The queues' ends are left out: what they deliver is the input of `Loop.step`. A
-- watchdog's handle is its presence. `draws` counts the encryptions, `log` the effects.
pub record DriverTask (Channel Crypto : Type 0) : Type 0 where
  pub config : P2pTransportConfig
  pub state : P2pState
  pub snapshot : P2pStateSnapshot
  pub channel : Option Channel
  pub crypto : Option Crypto
  pub pending_outbound : List OutboundRequest
  pub recent_nonces : List (List ℕ × String)
  pub locked_peers : List String
  pub verify_failures : Dict ℕ
  pub last_decrypt_failures : List ℕ
  pub idle_watchdog : Bool
  pub draws : ℕ
  pub log : List Effect
