-- ===== src/P2p/Verify/Transcript.antt =====
-- verify.rs: the transcript that both peers sign, and who comes first in it.
use mxdx.Prelude.Bytes.{Bytes}
use mxdx.Prelude.{ℕ, Bool, true, false, [], ◌∷◌, ◌++◌, Option, some, none}
use mxdx.P2p.Glare.{GlareResult, we_win, they_win}

-- "mxdx.p2p.verify.v1"
abbrev pub domain_separation_tag : Bytes
domain_separation_tag =
    109 ∷ 120 ∷ 100 ∷ 120 ∷ 46 ∷ 112 ∷ 50 ∷ 112 ∷ 46 ∷ 118 ∷ 101 ∷ 114 ∷ 105 ∷ 102 ∷ 121 ∷ 46 ∷ 118
    ∷ 49 ∷ []

abbrev pub field_sep : ℕ
field_sep = 0

unfoldable pub build_transcript :
    Bytes → Bytes → Bytes → Bytes → Bytes → Bytes → Bytes → Bytes → Bytes → Bytes
build_transcript room_id session_uuid call_id offerer_nonce answerer_nonce offerer_party_id
      answerer_party_id offerer_sdp_fingerprint answerer_sdp_fingerprint =
    domain_separation_tag
    ++ field_sep ∷ room_id
    ++ field_sep ∷ session_uuid
    ++ field_sep ∷ call_id
    ++ offerer_nonce
    ++ answerer_nonce
    ++ field_sep ∷ offerer_party_id
    ++ field_sep ∷ answerer_party_id
    ++ field_sep ∷ offerer_sdp_fingerprint
    ++ field_sep ∷ answerer_sdp_fingerprint

abbrev pub canonical_ordering {ℓ} : {T : Type ℓ} → T → T → Bool → T × T
canonical_ordering our theirs true = (our, theirs)
canonical_ordering our theirs false = (theirs, our)

abbrev pub we_are_offerer : Option GlareResult → Bool → Bool
we_are_offerer (some we_win) sent_invite = true
we_are_offerer (some they_win) sent_invite = false
we_are_offerer none sent_invite = sent_invite
