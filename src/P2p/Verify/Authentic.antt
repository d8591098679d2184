-- ===== src/P2p/Verify/Authentic.antt =====
-- verify.rs: what an accepted response proves.
use mxdx.Prelude.Results.{ok, Result-cases}
use mxdx.Prelude.Bytes.{Bytes, bytes_eq→eq}
use mxdx.Prelude.{sym, subst, ◌≡◌, ◌∙◌, true, List, some, arith, Memᴰ, inl, inr, Option-cases}
use mxdx.P2p.Verify.Types.{
  HandshakeMsg, challenge, response, HandshakeParams, verified, Library, PeerKeys,
}
use mxdx.P2p.Verify.Handshake.{
  our_transcript, decode_public_key_b64, decode_signature_b64, verify_peer_signature,
  check_signature, verify_handshake_response,
}
use mxdx.P2p.Verify.Injective.{Binding, IsBinding, transcript_of, transcript_injective}
use mxdx.P2p.Verify.Exchange.{view, our_transcript_lem}

module _ {VerifyingKey : Type 0} (lib : Library VerifyingKey) where
  -- What an accepted response shows: the key of the store for the named device, and a signature.
  pub record Accepted (params : HandshakeParams) (t : Bytes) (keys : PeerKeys) : Type 0 where
    pub device : Bytes
    pub key : Bytes
    pub verifying_key : VerifyingKey
    pub signature : Bytes
    pub key_of_device : keys params.peer_user_id device ≡ some key
    pub key_is_valid : lib.from_bytes key ≡ ok verifying_key
    pub verifies : lib.verify verifying_key t signature ≡ true

  signature_passes :
      (key sig t : Bytes)
      → verify_peer_signature lib key sig t ≡ ok tt
      → (vk : VerifyingKey) × (lib.from_bytes key ≡ ok vk) × (lib.verify vk t sig ≡ true)
  unfolding verify_peer_signature
  signature_passes key sig t h = ground arith

  passes :
      (wire_pk key sig t : Bytes)
      → check_signature lib wire_pk key sig t ≡ verified
      → (wire_pk ≡ key) × (verify_peer_signature lib key sig t ≡ ok tt)
  unfolding check_signature
  passes wire_pk key sig t h = ground (arith, bytes_eq→eq wire_pk key)

  check_signature-Accepted :
      (wire_pk key sig t device : Bytes) (params : HandshakeParams) (keys : PeerKeys)
      → keys params.peer_user_id device ≡ some key
      → check_signature lib wire_pk key sig t ≡ verified
      → Accepted params t keys
  check_signature-Accepted wire_pk key sig t device params keys k h =
      let (vk, from, v) = signature_passes key sig t (passes wire_pk key sig t h).1 in
      record {
        device = device;
        key = key;
        verifying_key = vk;
        signature = sig;
        key_of_device = k;
        key_is_valid = from;
        verifies = v;
      }

  reaches_signature :
      (params : HandshakeParams) (n p f s_b64 pk_b64 device : Bytes) (keys : PeerKeys)
      → verify_handshake_response lib params n p f (response s_b64 pk_b64 device) keys ≡ verified
      → (wire_pk : Bytes) × (sig : Bytes) × (key : Bytes) × (keys params.peer_user_id device
          ≡ some key)
        × (check_signature lib wire_pk key sig (our_transcript params n p f) ≡ verified)
  unfolding verify_handshake_response
  reaches_signature params n p f s_b64 pk_b64 device keys h =
      elim (Result-cases (decode_public_key_b64 lib pk_b64)) [
        | inr (e, q) ↦ ground arith
        | inl (wire_pk, q) ↦ elim (Result-cases (decode_signature_b64 lib s_b64)) [
          | inr (e, r) ↦ ground arith
          | inl (sig, r) ↦ elim (Option-cases (keys params.peer_user_id device)) [
            | inl m ↦ ground arith
            | inr (key, k) ↦ (wire_pk, sig, key, k, ground arith)
          ]
        ]
      ]

  not_verified :
      (params : HandshakeParams) (n p f x y : Bytes) (keys : PeerKeys)
      → verify_handshake_response lib params n p f (challenge x y) keys ≡ verified
      → ⊥
  unfolding verify_handshake_response
  not_verified params n p f x y keys h = cc

  pub verify-Accepted :
      (params : HandshakeParams) (n p f : Bytes) (msg : HandshakeMsg) (keys : PeerKeys)
      → verify_handshake_response lib params n p f msg keys ≡ verified
      → Accepted params (our_transcript params n p f) keys
  verify-Accepted params n p f (challenge x y) keys h =
      absurd (not_verified params n p f x y keys h)
  verify-Accepted params n p f (response s_b64 pk_b64 device) keys h =
      let (wire_pk, sig, key, k, c) = reaches_signature params n p f s_b64 pk_b64 device keys h in
      check_signature-Accepted wire_pk key sig _ device params keys k c

  -- What each device of a user has signed: a signature that verifies under the key that the store holds
  -- for a device was made by that device, over one of its bindings.
  abbrev pub Unforgeable : Bytes → PeerKeys → (Bytes → List Binding) → Type 0
  Unforgeable user keys signed =
      (device key t sig : Bytes) (vk : VerifyingKey)
      → keys user device ≡ some key
      → lib.from_bytes key ≡ ok vk
      → lib.verify vk t sig ≡ true
      → (b : Binding) × Memᴰ b (signed device) × (t ≡ transcript_of b)

  -- If signatures cannot be forged, and every binding has texts without the byte 0 and nonces of
  -- 32 bytes: a response is accepted only if a device of the peer has itself signed exactly our
  -- view of the call, that is the same room, session, call, nonces, parties and fingerprints in
  -- the same roles.
  pub verified_was_signed :
      (params : HandshakeParams) (n p f : Bytes) (msg : HandshakeMsg) (keys : PeerKeys)
      (signed : Bytes → List Binding)
      → Unforgeable params.peer_user_id keys signed
      → IsBinding (view params n p f)
      → ((device : Bytes) (b : Binding) → Memᴰ b (signed device) → IsBinding b)
      → verify_handshake_response lib params n p f msg keys ≡ verified
      → (device : Bytes) × Memᴰ (view params n p f) (signed device)
  verified_was_signed params n p f msg keys signed u v w h =
      let a = verify-Accepted params n p f msg keys h in
      let (b, m, e) =
        u a.device a.key (our_transcript params n p f) a.signature a.verifying_key a.key_of_device
          a.key_is_valid a.verifies in
      (
        a.device,
        subst (λ x. Memᴰ x (signed a.device))
            (sym (
              transcript_injective (view params n p f) b v (w a.device b m)
                (sym (our_transcript_lem params n p f) ∙ e)))
            m,
      )
