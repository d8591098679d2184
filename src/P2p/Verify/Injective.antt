-- ===== src/P2p/Verify/Injective.antt =====
-- verify.rs: a transcript determines the nine things that it binds.
use mxdx.Prelude.Bytes.{Bytes}
use mxdx.Prelude.{◌∙◌, ◌≡◌, refl, sym, ap, ◌≢◌, [], ◌∷◌, ◌++◌, arith, All, length, length-append}
use mxdx.P2p.Verify.Types.{nonce_len}
use mxdx.P2p.Verify.Transcript.{domain_separation_tag, field_sep, build_transcript}

-- A text without the byte 0.
abbrev pub NoSep : Bytes → Type 0
NoSep = All (λ c. c ≢ field_sep)

-- What a transcript binds.
pub record Binding : Type 0 where
  pub room_id : Bytes
  pub session_uuid : Bytes
  pub call_id : Bytes
  pub offerer_nonce : Bytes
  pub answerer_nonce : Bytes
  pub offerer_party_id : Bytes
  pub answerer_party_id : Bytes
  pub offerer_sdp_fingerprint : Bytes
  pub answerer_sdp_fingerprint : Bytes

abbrev pub transcript_of : Binding → Bytes
transcript_of b =
    build_transcript b.room_id b.session_uuid b.call_id b.offerer_nonce b.answerer_nonce
      b.offerer_party_id b.answerer_party_id b.offerer_sdp_fingerprint b.answerer_sdp_fingerprint

-- The texts hold no separator, and the nonces have their length.
pub record IsBinding (b : Binding) : Type 0 where
  pub room_text : NoSep b.room_id
  pub session_text : NoSep b.session_uuid
  pub call_text : NoSep b.call_id
  pub offerer_nonce_length : length b.offerer_nonce ≡ nonce_len
  pub answerer_nonce_length : length b.answerer_nonce ≡ nonce_len
  pub offerer_party_text : NoSep b.offerer_party_id
  pub answerer_party_text : NoSep b.answerer_party_id
  pub offerer_fingerprint_text : NoSep b.offerer_sdp_fingerprint
  pub answerer_fingerprint_text : NoSep b.answerer_sdp_fingerprint

-- A text holds no separator with something behind it.
NoSep-inside : (r a a' : Bytes) → NoSep a → a ≡ r ++ field_sep ∷ a' → ⊥
NoSep-inside [] (x ∷ a) a' n h = n.0 cc
NoSep-inside [] [] a' n h = cc
NoSep-inside (y ∷ r) [] a' n h = cc
NoSep-inside (y ∷ r) (x ∷ a) a' n h = NoSep-inside r a a' n.1 cc

-- The last separator starts a text on the right.
split_last :
    (r r' a a' : Bytes)
    → NoSep a
    → NoSep a'
    → r ++ field_sep ∷ a ≡ r' ++ field_sep ∷ a'
    → (r ≡ r') × (a ≡ a')
split_last [] [] a a' n n' h = (refl, cc)
split_last [] (y ∷ r') a a' n n' h = absurd (NoSep-inside r' a a' n cc)
split_last (x ∷ r) [] a a' n n' h = absurd (NoSep-inside r a' a n' cc)
split_last (x ∷ r) (y ∷ r') a a' n n' h = let (p, q) = split_last r r' a a' n n' cc in (cc, q)

-- A suffix of known length can be cut off.
split_tail : (a a' n n' : Bytes) → length n ≡ length n' → a ++ n ≡ a' ++ n' → (a ≡ a') × (n ≡ n')
split_tail [] [] n n' l h = (refl, h)
split_tail [] (y ∷ a') n n' l h = absurd (omega (arith, l, ap length h, length-append a' n'))
split_tail (x ∷ a) [] n n' l h = absurd (omega (arith, l, ap length h, length-append a n))
split_tail (x ∷ a) (y ∷ a') n n' l h = let (p, q) = split_tail a a' n n' l cc in (cc, q)

-- Two transcripts of bindings without the byte 0 in their texts and with nonces of 32 bytes: if
-- the bytes are the same, so are all nine fields.
pub transcript_injective :
    (a b : Binding) → IsBinding a → IsBinding b → transcript_of a ≡ transcript_of b → a ≡ b
unfolding build_transcript
transcript_injective a b va vb h =
    let (h1, answerer_fp) =
      split_last _ _ _ _ va.answerer_fingerprint_text vb.answerer_fingerprint_text h in
    let (h2, offerer_fp) =
      split_last _ _ _ _ va.offerer_fingerprint_text vb.offerer_fingerprint_text h1 in
    let (h3, answerer) = split_last _ _ _ _ va.answerer_party_text vb.answerer_party_text h2 in
    let (h4, offerer) = split_last _ _ _ _ va.offerer_party_text vb.offerer_party_text h3 in
    let (h5, answer) =
      split_tail _ _ a.answerer_nonce b.answerer_nonce
        (va.answerer_nonce_length ∙ sym vb.answerer_nonce_length) h4 in
    let (h6, offer) =
      split_tail _ _ a.offerer_nonce b.offerer_nonce
        (va.offerer_nonce_length ∙ sym vb.offerer_nonce_length) h5 in
    let (h7, call) = split_last _ _ _ _ va.call_text vb.call_text h6 in
    let (h8, session) = split_last _ _ _ _ va.session_text vb.session_text h7 in
    let (h9, room) =
      split_last domain_separation_tag domain_separation_tag _ _ va.room_text vb.room_text h8 in
    cc
