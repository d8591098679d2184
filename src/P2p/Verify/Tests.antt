-- ===== src/P2p/Verify/Tests.antt =====
-- The handshake between two devices at concrete inputs.
use mxdx.Prelude.Results.{ok}
use mxdx.Prelude.Bytes.{Bytes, bytes_eq, bytes_eq→eq}
use mxdx.Prelude.{
  sym, subst, if◌then◌else◌, ◌≡◌, refl, true, false, ◌&&◌, List, [], ◌∷◌, some, none, arith,
  replicate, Memᴰ,
}
use mxdx.P2p.Verify.Types.{
  HandshakeMsg, HandshakeParams, verified, Library, Signer, PeerKeys, response,
}
use mxdx.P2p.Verify.Handshake.{
  our_transcript, build_handshake_response, verify_handshake_response, decode_exactly,
  check_signature, verify_peer_signature,
}
use mxdx.P2p.Verify.Transcript.{build_transcript}
use mxdx.P2p.Verify.Injective.{Binding, IsBinding, transcript_of, transcript_injective}
use mxdx.P2p.Verify.Exchange.{
  view, Mirror, heard, heard_agrees, IsSigner, build-verify, accepts_own_response,
}
use mxdx.P2p.Verify.Authentic.{Unforgeable, verified_was_signed}

abbrev alice : HandshakeParams
alice = record {
  room_id = 33 ∷ 114 ∷ [];
  session_uuid = [];
  call_id = 99 ∷ 49 ∷ [];
  our_nonce = replicate 32 1;
  our_party_id = 112 ∷ 49 ∷ [];
  our_user_id = 64 ∷ 97 ∷ [];
  our_device_id = 65 ∷ [];
  peer_user_id = 64 ∷ 98 ∷ [];
  peer_device_id = 66 ∷ [];
  our_sdp_fingerprint = 65 ∷ 65 ∷ [];
  we_are_offerer = true;
}

abbrev bob : HandshakeParams
bob = record {
  room_id = 33 ∷ 114 ∷ [];
  session_uuid = [];
  call_id = 99 ∷ 49 ∷ [];
  our_nonce = replicate 32 2;
  our_party_id = 112 ∷ 50 ∷ [];
  our_user_id = 64 ∷ 98 ∷ [];
  our_device_id = 66 ∷ [];
  peer_user_id = 64 ∷ 97 ∷ [];
  peer_device_id = 65 ∷ [];
  our_sdp_fingerprint = 66 ∷ 66 ∷ [];
  we_are_offerer = false;
}

abbrev signature : Bytes
signature = replicate 64 7

abbrev alice_key : Bytes
alice_key = replicate 32 9

-- The one signature that verifies is `signature`, of any text, under the key of Alice.
abbrev lenient : Library Bytes
lenient = record {
  encode = λ b. b;
  decode = λ b. ok b;
  from_bytes = λ b. ok b;
  verify = λ vk t sig. bytes_eq vk alice_key && bytes_eq sig signature;
}

abbrev signer : Signer
signer t = ok (signature, alice_key)

-- Alice's one device.
abbrev store : PeerKeys
store user device = if bytes_eq device (65 ∷ []) then some alice_key else none

signer_result : (t sig pk : Bytes) → signer t ≡ ok (sig, pk) → (sig ≡ signature) × (pk ≡ alice_key)
signer_result t sig pk h = (cc, cc)

signer-IsSigner : IsSigner lenient signer
unfolding bytes_eq
signer-IsSigner = record {
  signature_length = λ t sig pk h. rw ((signer_result t sig pk h).0) refl;
  key_length = λ t sig pk h. rw ((signer_result t sig pk h).1) refl;
  signature_verifies = λ t sig pk h.
      (pk, refl, rw ((signer_result t sig pk h).0, (signer_result t sig pk h).1) refl);
}

sides_match : Mirror alice bob
sides_match = record { same_room = refl; same_session = refl; same_call = refl; other_role = refl }

heard_agrees_example : heard alice bob ≡ heard bob alice
heard_agrees_example = heard_agrees alice bob sides_match

build-verify_example :
    (msg : HandshakeMsg) × (build_handshake_response lenient alice bob.our_nonce bob.our_party_id
        bob.our_sdp_fingerprint signer
      ≡ ok msg)
    × (verify_handshake_response lenient bob alice.our_nonce alice.our_party_id
          alice.our_sdp_fingerprint msg store
        ≡ verified)
unfolding bytes_eq
build-verify_example =
    build-verify lenient alice bob signer store signature alice_key (λ b. refl) signer-IsSigner
      sides_match refl refl

-- Alice calls another of her own devices.
abbrev self_call : HandshakeParams
self_call = record alice { peer_user_id = 64 ∷ 97 ∷ [] }

accepts_own_response_example :
    (msg : HandshakeMsg) × (build_handshake_response lenient self_call bob.our_nonce
        bob.our_party_id bob.our_sdp_fingerprint signer
      ≡ ok msg)
    × (verify_handshake_response lenient self_call bob.our_nonce bob.our_party_id
          bob.our_sdp_fingerprint msg store
        ≡ verified)
unfolding bytes_eq
accepts_own_response_example =
    accepts_own_response lenient self_call bob.our_nonce bob.our_party_id bob.our_sdp_fingerprint
      signer store signature alice_key (λ b. refl) signer-IsSigner refl refl refl

abbrev bob_view : Binding
bob_view = view bob alice.our_nonce alice.our_party_id alice.our_sdp_fingerprint

bob_view-IsBinding : IsBinding bob_view
bob_view-IsBinding = record {
  room_text = omega arith;
  session_text = tt;
  call_text = omega arith;
  offerer_nonce_length = refl;
  answerer_nonce_length = refl;
  offerer_party_text = omega arith;
  answerer_party_text = omega arith;
  offerer_fingerprint_text = omega arith;
  answerer_fingerprint_text = omega arith;
}

transcript_injective_example :
    bob_view ≡ view alice bob.our_nonce bob.our_party_id bob.our_sdp_fingerprint
transcript_injective_example =
    transcript_injective bob_view
      (view alice bob.our_nonce bob.our_party_id bob.our_sdp_fingerprint) bob_view-IsBinding
      bob_view-IsBinding refl

-- The one signature that verifies is Alice's, of Bob's view of the call.
abbrev strict : Library Bytes
strict = record {
  encode = λ b. b;
  decode = λ b. ok b;
  from_bytes = λ b. ok b;
  verify = λ vk t sig. bytes_eq t (transcript_of bob_view);
}

abbrev signed : Bytes → List Binding
signed device = bob_view ∷ []

strict-Unforgeable : Unforgeable strict (64 ∷ 97 ∷ []) store signed
strict-Unforgeable device key t sig vk k f v = (bob_view, Memᴰ.head refl, bytes_eq→eq _ _ v)

signed-IsBinding : (device : Bytes) (b : Binding) → Memᴰ b (signed device) → IsBinding b
signed-IsBinding device b (Memᴰ.head e) = subst IsBinding (sym e) bob_view-IsBinding
signed-IsBinding device b (Memᴰ.tail m) = elim m [ ]

accepted :
    verify_handshake_response strict bob alice.our_nonce alice.our_party_id
      alice.our_sdp_fingerprint
      (response signature alice_key (65 ∷ []))
      store
    ≡ verified
unfolding bytes_eq verify_handshake_response our_transcript build_transcript decode_exactly
    check_signature verify_peer_signature
accepted = refl

verified_was_signed_example : (device : Bytes) × Memᴰ bob_view (signed device)
verified_was_signed_example =
    verified_was_signed strict bob alice.our_nonce alice.our_party_id alice.our_sdp_fingerprint
      (response signature alice_key (65 ∷ [])) store signed strict-Unforgeable bob_view-IsBinding
      signed-IsBinding accepted
