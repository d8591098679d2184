-- ===== src/P2p/Verify/SdpTests.antt =====
-- Fingerprints of concrete SDPs.
use mxdx.Prelude.{◌≡◌, refl, [], ◌∷◌, ◌++◌, arith}
use mxdx.Prelude.Bytes.{bytes_eq}
use mxdx.Prelude.Chars.{Text}
use mxdx.Prelude.Results.{ok}
use mxdx.P2p.Verify.Sdp.{
  attribute, lines, trim_start, trim_end, strip_prefix, split_once, fingerprint_of, candidate_of,
  candidates, text_le, insert_sorted, sort, extract_sdp_fingerprint,
}
use mxdx.P2p.Verify.Fingerprint.{among, extract_sdp_fingerprint_lem}

-- a=fingerprint:sha-256 b, and the same with A.
abbrev line_b : Text
line_b = attribute ++ 115 ∷ 104 ∷ 97 ∷ 45 ∷ 50 ∷ 53 ∷ 54 ∷ 32 ∷ 98 ∷ []

abbrev line_a : Text
line_a = attribute ++ 115 ∷ 104 ∷ 97 ∷ 45 ∷ 50 ∷ 53 ∷ 54 ∷ 32 ∷ 65 ∷ []

abbrev offer : Text
offer = line_b ++ 10 ∷ line_a

abbrev swapped : Text
swapped = line_a ++ 10 ∷ line_b

takes_least : extract_sdp_fingerprint offer ≡ ok (65 ∷ [])
unfolding extract_sdp_fingerprint lines candidates candidate_of strip_prefix trim_start trim_end
    fingerprint_of split_once bytes_eq sort insert_sorted text_le
takes_least = refl

two_lines : (p q l : Text) → among l (p ∷ q ∷ []) ≡ among l (q ∷ p ∷ [])
unfolding among
two_lines p q l = ground arith

extract_sdp_fingerprint_lem_example :
    extract_sdp_fingerprint offer ≡ extract_sdp_fingerprint swapped
unfolding lines
extract_sdp_fingerprint_lem_example =
    extract_sdp_fingerprint_lem offer swapped (two_lines line_b line_a)
