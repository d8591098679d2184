-- ===== src/P2p/Channel.antt =====
-- crates/mxdx-p2p/src/channel/mod.rs: what the data channel's backend takes and reports.
use mxdx.Prelude.{ℕ, String, List, Option}

pub record IceServer : Type 0 where
  pub urls : List String
  pub username : Option String
  pub credential : Option String

pub data SdpKind : Type 0 where
  offer answer : SdpKind

pub record Sdp : Type 0 where
  pub kind : SdpKind
  pub sdp : String

pub record IceCandidate : Type 0 where
  pub candidate : String
  pub sdp_mid : Option String
  pub sdp_mline_index : Option ℕ

-- A frame is the list of its bytes. `opened` is the source's `Open`, a reserved word here.
pub data ChannelEvent : Type 0 where
  local_ice : IceCandidate → ChannelEvent
  message : List ℕ → ChannelEvent
  opened : ChannelEvent
  closed : String → ChannelEvent
  failure : String → ChannelEvent

pub data ChannelError : Type 0 where
  invalid_sdp invalid_candidate ice_init_failed backend : String → ChannelError
  restart_ice_unsupported channel_closed : ChannelError
  frame_too_large : ℕ → ℕ → ChannelError
