-- ===== src/P2p/Verify/Types.antt =====
-- verify.rs, the data, and what the handshake asks of its libraries.
use mxdx.Prelude.Results.{Result}
use mxdx.Prelude.Bytes.{Bytes}
use mxdx.Prelude.{ℕ, Bool, Option}

abbrev pub nonce_len : ℕ
nonce_len = 32

abbrev pub ed25519_signature_len : ℕ
ed25519_signature_len = 64

abbrev pub ed25519_public_key_len : ℕ
ed25519_public_key_len = 32

-- A `str` is the list of the bytes of its UTF-8 text.
pub data VerifyError : Type 0 where
  invalid_base64 : Bytes → VerifyError
  invalid_signature_length : ℕ → VerifyError
  invalid_public_key_length : ℕ → VerifyError
  invalid_nonce_length : ℕ → VerifyError
  invalid_public_key : Bytes → VerifyError
  signature_mismatch : VerifyError
  missing_sdp_fingerprint : VerifyError
  signing_failed : Bytes → VerifyError

-- `challenge` carries the nonce and the device, `response` the signature, the signer's key and the
-- device.
pub data HandshakeMsg : Type 0 where
  challenge : Bytes → Bytes → HandshakeMsg
  response : Bytes → Bytes → Bytes → HandshakeMsg

-- The user of our device stands in no transcript.
pub record HandshakeParams : Type 0 where
  pub room_id : Bytes
  pub session_uuid : Bytes
  pub call_id : Bytes
  pub our_nonce : Bytes
  pub our_party_id : Bytes
  pub our_user_id : Bytes
  pub our_device_id : Bytes
  pub peer_user_id : Bytes
  pub peer_device_id : Bytes
  pub our_sdp_fingerprint : Bytes
  pub we_are_offerer : Bool

pub data HandshakeOutcome : Type 0 where
  verified signature_mismatch replay_detected peer_device_unknown : HandshakeOutcome
  invalid_payload peer_key_mismatch : HandshakeOutcome

-- The base64 and ed25519_dalek libraries: `from_bytes` of a key and `verify` of a message and a
-- signature, and `sign` of a message with the device's own key, which also gives the public key.
pub record Library (VerifyingKey : Type 0) : Type 0 where
  pub encode : Bytes → Bytes
  pub decode : Bytes → Result Bytes Bytes
  pub from_bytes : Bytes → Result Bytes VerifyingKey
  pub verify : VerifyingKey → Bytes → Bytes → Bool

-- `HandshakeSigner::sign`: the signature and the public key.
abbrev pub Signer : Type 0
Signer = Bytes → Result VerifyError (Bytes × Bytes)

-- `HandshakePeerKeySource::peer_public_key`, of a user and a device.
abbrev pub PeerKeys : Type 0
PeerKeys = Bytes → Bytes → Option Bytes
