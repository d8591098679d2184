-- ===== src/P2p/Verify/Exchange.antt =====
-- verify.rs: the response of an honest peer is accepted.
use mxdx.Prelude.Results.{ok}
use mxdx.Prelude.Bytes.{Bytes, bytes_eq_refl}
use mxdx.Prelude.{ℕ, ◌≡◌, refl, true, not, some, arith, length}
use mxdx.P2p.Verify.Types.{
  ed25519_signature_len, ed25519_public_key_len, invalid_signature_length,
  invalid_public_key_length, VerifyError, HandshakeMsg, response, HandshakeParams, verified,
  Library, Signer, PeerKeys,
}
use mxdx.P2p.Verify.Transcript.{canonical_ordering}
use mxdx.P2p.Verify.Handshake.{
  our_transcript, decode_exactly, verify_peer_signature, check_signature, verify_handshake_response,
  build_handshake_response,
}
use mxdx.P2p.Verify.Injective.{Binding, transcript_of}

-- What one side binds, from its parameters and what the peer has said.
abbrev pub view : HandshakeParams → Bytes → Bytes → Bytes → Binding
view params nonce party fingerprint = record {
  room_id = params.room_id;
  session_uuid = params.session_uuid;
  call_id = params.call_id;
  offerer_nonce = (canonical_ordering params.our_nonce nonce params.we_are_offerer).0;
  answerer_nonce = (canonical_ordering params.our_nonce nonce params.we_are_offerer).1;
  offerer_party_id = (canonical_ordering params.our_party_id party params.we_are_offerer).0;
  answerer_party_id = (canonical_ordering params.our_party_id party params.we_are_offerer).1;
  offerer_sdp_fingerprint =
      (canonical_ordering params.our_sdp_fingerprint fingerprint params.we_are_offerer).0;
  answerer_sdp_fingerprint =
      (canonical_ordering params.our_sdp_fingerprint fingerprint params.we_are_offerer).1;
}

pub our_transcript_lem :
    (params : HandshakeParams) (nonce party fingerprint : Bytes)
    → our_transcript params nonce party fingerprint
      ≡ transcript_of (view params nonce party fingerprint)
unfolding our_transcript
our_transcript_lem params nonce party fingerprint = refl

-- The two sides of one call: one of them is the offerer.
pub record Mirror (a b : HandshakeParams) : Type 0 where
  pub same_room : a.room_id ≡ b.room_id
  pub same_session : a.session_uuid ≡ b.session_uuid
  pub same_call : a.call_id ≡ b.call_id
  pub other_role : b.we_are_offerer ≡ not a.we_are_offerer

-- The transcript that one side makes of what the other has said.
abbrev pub heard : HandshakeParams → HandshakeParams → Bytes
heard a b = our_transcript a b.our_nonce b.our_party_id b.our_sdp_fingerprint

-- The two sides of one call make the same transcript.
pub heard_agrees : (a b : HandshakeParams) → Mirror a b → heard a b ≡ heard b a
unfolding our_transcript
heard_agrees a b m = ground (arith, m.same_room, m.same_session, m.same_call, m.other_role)

module _ {VerifyingKey : Type 0} (lib : Library VerifyingKey) where
  -- What is encoded decodes to itself.
  abbrev pub DecodesBack : Type 0
  DecodesBack = (bytes : Bytes) → lib.decode (lib.encode bytes) ≡ ok bytes

  -- What the signer returns has the lengths of Ed25519, and the signature verifies under the key.
  pub record IsSigner (sign : Signer) : Type 0 where
    pub signature_length :
        (t sig pk : Bytes) → sign t ≡ ok (sig, pk) → length sig ≡ ed25519_signature_len
    pub key_length : (t sig pk : Bytes) → sign t ≡ ok (sig, pk) → length pk ≡ ed25519_public_key_len
    pub signature_verifies :
        (t sig pk : Bytes)
        → sign t ≡ ok (sig, pk)
        → (vk : VerifyingKey) × (lib.from_bytes pk ≡ ok vk) × (lib.verify vk t sig ≡ true)

  decode_exactly-encode :
      (n : ℕ) (e : ℕ → VerifyError) (bytes : Bytes)
      → DecodesBack
      → length bytes ≡ n
      → decode_exactly lib n e (lib.encode bytes) ≡ ok bytes
  unfolding decode_exactly
  decode_exactly-encode n e bytes d l = rw (d bytes, decode_exactly) (ground arith)

  check_signature_accepts :
      (pk sig t : Bytes) (vk : VerifyingKey)
      → lib.from_bytes pk ≡ ok vk
      → lib.verify vk t sig ≡ true
      → check_signature lib pk pk sig t ≡ verified
  unfolding check_signature verify_peer_signature
  check_signature_accepts pk sig t vk h v = rw (bytes_eq_refl pk, h, v) refl

  -- A response signed over the transcript of the reader is accepted, if the reader's store has the
  -- signer's key.
  response_accepted :
      (params reader : HandshakeParams) (n p f n' p' f' : Bytes) (sign : Signer) (keys : PeerKeys)
      (sig pk : Bytes)
      → DecodesBack
      → IsSigner sign
      → sign (our_transcript params n p f) ≡ ok (sig, pk)
      → our_transcript params n p f ≡ our_transcript reader n' p' f'
      → keys reader.peer_user_id params.our_device_id ≡ some pk
      → verify_handshake_response lib reader n' p' f'
          (response (lib.encode sig) (lib.encode pk) params.our_device_id)
          keys
        ≡ verified
  unfolding verify_handshake_response
  response_accepted params reader n p f n' p' f' sign keys sig pk d s h t k =
      let (vk, from, v) = s.signature_verifies _ sig pk h in
      rw
        (
          decode_exactly-encode ed25519_public_key_len invalid_public_key_length pk d
              (s.key_length _ sig pk h),
          decode_exactly-encode ed25519_signature_len invalid_signature_length sig d
              (s.signature_length _ sig pk h),
          k,
          ← t,
          verify_handshake_response,
        )
        (check_signature_accepts pk sig _ vk from v)

  -- If the libraries decode what they encode and the signatures of the signer verify under its
  -- key: on the two sides of one call, with one of them the offerer, the response that one side
  -- builds is accepted by the other, provided that its store holds the key of the signer for the
  -- device of the response.
  pub build-verify :
      (a b : HandshakeParams) (sign : Signer) (keys : PeerKeys) (sig pk : Bytes)
      → DecodesBack
      → IsSigner sign
      → Mirror a b
      → sign (heard a b) ≡ ok (sig, pk)
      → keys b.peer_user_id a.our_device_id ≡ some pk
      → (msg : HandshakeMsg) × (build_handshake_response lib a b.our_nonce b.our_party_id
            b.our_sdp_fingerprint sign
          ≡ ok msg)
        × (verify_handshake_response lib b a.our_nonce a.our_party_id a.our_sdp_fingerprint msg keys
            ≡ verified)
  unfolding build_handshake_response
  build-verify a b sign keys sig pk d s m h k = (
    response (lib.encode sig) (lib.encode pk) a.our_device_id,
    rw (h, build_handshake_response) refl,
    response_accepted a b _ _ _ _ _ _ sign keys sig pk d s h (heard_agrees a b m) k,
  )

  -- If the libraries decode what they encode and the signatures of the signer verify under its
  -- key: a side that calls another device of its own user, and whose store holds the key of its
  -- own device, accepts its own response, whatever nonce, party and fingerprint it has heard.
  pub accepts_own_response :
      (a : HandshakeParams) (nonce party fingerprint : Bytes) (sign : Signer) (keys : PeerKeys)
      (sig pk : Bytes)
      → DecodesBack
      → IsSigner sign
      → a.peer_user_id ≡ a.our_user_id
      → sign (our_transcript a nonce party fingerprint) ≡ ok (sig, pk)
      → keys a.our_user_id a.our_device_id ≡ some pk
      → (msg : HandshakeMsg) × (build_handshake_response lib a nonce party fingerprint sign
          ≡ ok msg)
        × (verify_handshake_response lib a nonce party fingerprint msg keys ≡ verified)
  unfolding build_handshake_response
  accepts_own_response a nonce party fingerprint sign keys sig pk d s u h k = (
    response (lib.encode sig) (lib.encode pk) a.our_device_id,
    rw (h, build_handshake_response) refl,
    response_accepted a a _ _ _ _ _ _ sign keys sig pk d s h refl (rw u k),
  )
