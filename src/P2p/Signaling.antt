-- ===== src/P2p/Signaling.antt =====
-- crates/mxdx-p2p/src/signaling/events.rs and parse.rs: the `m.call.*` events, parsed.
use mxdx.Prelude.{ℕ, String, List, Option}

abbrev pub default_invite_lifetime_ms : ℕ
default_invite_lifetime_ms = 30000

pub record CallSdpField : Type 0 where
  pub kind : String
  pub sdp : String

pub record CallIceCandidate : Type 0 where
  pub candidate : String
  pub sdp_mid : Option String
  pub sdp_mline_index : Option ℕ

pub record CallInvite : Type 0 where
  pub call_id : String
  pub party_id : String
  pub version : String
  pub lifetime : ℕ
  pub offer : CallSdpField
  pub mxdx_session_key : Option String
  pub session_uuid : Option String

pub record CallAnswer : Type 0 where
  pub call_id : String
  pub party_id : String
  pub version : String
  pub answer : CallSdpField

pub record CallCandidates : Type 0 where
  pub call_id : String
  pub party_id : String
  pub version : String
  pub candidates : List CallIceCandidate

pub record CallHangup : Type 0 where
  pub call_id : String
  pub party_id : String
  pub version : String
  pub reason : Option String

pub record CallSelectAnswer : Type 0 where
  pub call_id : String
  pub party_id : String
  pub version : String
  pub selected_party_id : String

pub data ParsedCallEvent : Type 0 where
  invite : CallInvite → ParsedCallEvent
  answer : CallAnswer → ParsedCallEvent
  candidates : CallCandidates → ParsedCallEvent
  hangup : CallHangup → ParsedCallEvent
  select_answer : CallSelectAnswer → ParsedCallEvent
  unknown : String → ParsedCallEvent
