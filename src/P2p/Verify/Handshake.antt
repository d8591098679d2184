-- ===== src/P2p/Verify/Handshake.antt =====
-- verify.rs: building and checking the messages of the handshake.
use mxdx.Prelude.Results.{Result, ok, err}
use mxdx.Prelude.Bytes.{Bytes, bytes_eq}
use mxdx.Prelude.{ℕ, Option, some, none, if◌then◌else◌, ◌==◌, length}
use mxdx.P2p.State.Types.{VerifyFailureReason}
use mxdx.P2p.Verify.Types.{
  nonce_len, ed25519_signature_len, ed25519_public_key_len, VerifyError, invalid_base64,
  invalid_signature_length, invalid_public_key_length, invalid_nonce_length, invalid_public_key,
  HandshakeMsg, challenge, response, HandshakeParams, HandshakeOutcome, verified,
  peer_device_unknown, peer_key_mismatch, Library, Signer, PeerKeys,
}
use mxdx.P2p.Verify.Transcript.{build_transcript, canonical_ordering}

abbrev pub to_event : HandshakeOutcome → Option VerifyFailureReason
to_event verified = none
to_event HandshakeOutcome.signature_mismatch = some VerifyFailureReason.signature_mismatch
to_event HandshakeOutcome.replay_detected = some VerifyFailureReason.replay_detected
to_event peer_device_unknown = some VerifyFailureReason.signature_mismatch
to_event HandshakeOutcome.invalid_payload = some VerifyFailureReason.invalid_payload
to_event peer_key_mismatch = some VerifyFailureReason.signature_mismatch

-- The transcript of one side, from its parameters and what the peer has said.
unfoldable pub our_transcript : HandshakeParams → Bytes → Bytes → Bytes → Bytes
our_transcript params peer_nonce peer_party_id peer_sdp_fingerprint =
    let (off_nonce, ans_nonce) =
      canonical_ordering params.our_nonce peer_nonce params.we_are_offerer in
    let (off_party, ans_party) =
      canonical_ordering params.our_party_id peer_party_id params.we_are_offerer in
    let (off_fp, ans_fp) =
      canonical_ordering params.our_sdp_fingerprint peer_sdp_fingerprint params.we_are_offerer in
    build_transcript params.room_id params.session_uuid params.call_id off_nonce ans_nonce off_party
      ans_party off_fp ans_fp

module _ {VerifyingKey : Type 0} (lib : Library VerifyingKey) where
  -- The bytes of a base64 text, if there are exactly n of them.
  unfoldable pub decode_exactly : ℕ → (ℕ → VerifyError) → Bytes → Result VerifyError Bytes
  decode_exactly n invalid_length b64 = elim (lib.decode b64) [
    | ok raw ↦ if length raw == n then ok raw else err (invalid_length (length raw))
    | err e ↦ err (invalid_base64 e)
  ]

  abbrev pub decode_nonce_b64 : Bytes → Result VerifyError Bytes
  decode_nonce_b64 = decode_exactly nonce_len invalid_nonce_length

  abbrev pub decode_signature_b64 : Bytes → Result VerifyError Bytes
  decode_signature_b64 = decode_exactly ed25519_signature_len invalid_signature_length

  abbrev pub decode_public_key_b64 : Bytes → Result VerifyError Bytes
  decode_public_key_b64 = decode_exactly ed25519_public_key_len invalid_public_key_length

  unfoldable pub verify_peer_signature : Bytes → Bytes → Bytes → Result {0, 0} VerifyError Unit
  verify_peer_signature peer_public_key_bytes signature_bytes transcript =
      elim (lib.from_bytes peer_public_key_bytes) [
        | ok vk ↦
            if lib.verify vk transcript signature_bytes
            then ok tt
            else err VerifyError.signature_mismatch
        | err e ↦ err (invalid_public_key e)
      ]

  -- The keys and the signature, once they are decoded and the Matrix key is known.
  unfoldable pub check_signature : Bytes → Bytes → Bytes → Bytes → HandshakeOutcome
  check_signature wire_pk matrix_pk signature transcript =
      if bytes_eq wire_pk matrix_pk
      then elim (verify_peer_signature matrix_pk signature transcript) [
        | ok _ ↦ verified
        | err _ ↦ HandshakeOutcome.signature_mismatch
      ]
      else peer_key_mismatch

  unfoldable pub verify_handshake_response :
      HandshakeParams → Bytes → Bytes → Bytes → HandshakeMsg → PeerKeys → HandshakeOutcome
  verify_handshake_response params nonce party fingerprint (challenge _ _) peer_keys =
      HandshakeOutcome.invalid_payload
  verify_handshake_response params nonce party fingerprint (response sig_b64 pk_b64 device)
        peer_keys =
      elim (decode_public_key_b64 pk_b64) [
        | err _ ↦ HandshakeOutcome.invalid_payload
        | ok wire_pk ↦ elim (decode_signature_b64 sig_b64) [
          | err _ ↦ HandshakeOutcome.invalid_payload
          | ok signature ↦ elim (peer_keys params.peer_user_id device) [
            | none ↦ peer_device_unknown
            | some matrix_pk ↦
                check_signature wire_pk matrix_pk signature
                  (our_transcript params nonce party fingerprint)
          ]
        ]
      ]

  unfoldable pub build_handshake_response :
      HandshakeParams → Bytes → Bytes → Bytes → Signer → Result VerifyError HandshakeMsg
  build_handshake_response params nonce party fingerprint sign =
      elim (sign (our_transcript params nonce party fingerprint)) [
        | ok (sig, pk) ↦ ok (response (lib.encode sig) (lib.encode pk) params.our_device_id)
        | err e ↦ err e
      ]

  abbrev pub build_handshake_challenge : HandshakeParams → HandshakeMsg
  build_handshake_challenge params = challenge (lib.encode params.our_nonce) params.our_device_id
