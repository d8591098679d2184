-- ===== src/P2p/Verify/Sdp.antt =====
-- verify.rs, `extract_sdp_fingerprint`: the lines of an SDP that bind the channel. A text is here the
-- list of its characters, which order as its bytes do.
use mxdx.Prelude.{
  ℕ, ◌-◌, Bool, true, false, ◌&&◌, ◌||◌, List, [], ◌∷◌, Option, some, none, if◌then◌else◌, ltb, leb,
  ◌==◌, map,
}
use mxdx.Prelude.Bytes.{bytes_eq}
use mxdx.Prelude.Chars.{Text}
use mxdx.Prelude.Results.{Result, ok, err}
use mxdx.P2p.Verify.Types.{VerifyError, missing_sdp_fingerprint}

-- `char::is_whitespace`
abbrev pub is_whitespace : ℕ → Bool
is_whitespace c =
    (leb 9 c && leb c 13)
    || c == 32
    || c == 133
    || c == 160
    || c == 5760
    || (leb 8192 c && leb c 8202)
    || c == 8232
    || c == 8233
    || c == 8239
    || c == 8287
    || c == 12288

unfoldable pub trim_start : Text → Text
trim_start [] = []
trim_start (c ∷ cs) = let rest = trim_start cs in if is_whitespace c then rest else c ∷ cs

unfoldable pub trim_end : Text → Text
trim_end [] = []
trim_end (c ∷ cs) = elim (trim_end cs) [
  | [] ↦ if is_whitespace c then [] else c ∷ []
  | d ∷ ds ↦ c ∷ d ∷ ds
]

abbrev pub trim : Text → Text
trim t = trim_end (trim_start t)

abbrev pub first_line : ℕ → List Text → List Text
first_line c [] = (c ∷ []) ∷ []
first_line c (l ∷ ls) = (c ∷ l) ∷ ls

-- `lines()`. The carriage return that it takes off is white space, which is trimmed in any case.
unfoldable pub lines : Text → List Text
lines [] = []
lines (c ∷ cs) = let rest = lines cs in if c == 10 then [] ∷ rest else first_line c rest

unfoldable pub strip_prefix : Text → Text → Option Text
strip_prefix [] t = some t
strip_prefix (p ∷ ps) [] = none
strip_prefix (p ∷ ps) (c ∷ cs) = let rest = strip_prefix ps cs in if p == c then rest else none

-- `splitn(2, is_whitespace)`: the part before the first white space, and the one after it.
unfoldable pub split_once : Text → Text × Text
split_once [] = ([], [])
split_once (c ∷ cs) =
    let (before, after) = split_once cs in if is_whitespace c then ([], cs) else (c ∷ before, after)

abbrev pub upper : ℕ → ℕ
upper c = if leb 97 c && leb c 122 then c - 32 else c

-- "a=fingerprint:"
abbrev pub attribute : Text
attribute = 97 ∷ 61 ∷ 102 ∷ 105 ∷ 110 ∷ 103 ∷ 101 ∷ 114 ∷ 112 ∷ 114 ∷ 105 ∷ 110 ∷ 116 ∷ 58 ∷ []

-- "SHA-256"
abbrev pub sha_256 : Text
sha_256 = 83 ∷ 72 ∷ 65 ∷ 45 ∷ 50 ∷ 53 ∷ 54 ∷ []

abbrev pub has_text : Text → Bool
has_text [] = false
has_text (c ∷ cs) = true

unfoldable pub fingerprint_of : Text → Option Text
fingerprint_of rest =
    let (algo, after) = split_once rest in
    if bytes_eq (map upper algo) sha_256 && has_text (trim after)
    then some (map upper (trim after))
    else none

unfoldable pub candidate_of : Text → Option Text
candidate_of line = elim (strip_prefix attribute (trim line)) [
  | none ↦ none
  | some rest ↦ fingerprint_of rest
]

abbrev pub push_some : Option Text → List Text → List Text
push_some none cs = cs
push_some (some c) cs = c ∷ cs

unfoldable pub candidates : List Text → List Text
candidates [] = []
candidates (l ∷ ls) = push_some (candidate_of l) (candidates ls)

-- The order of texts.
unfoldable pub text_le : Text → Text → Bool
text_le [] t = true
text_le (c ∷ s) [] = false
text_le (c ∷ s) (d ∷ t) = if ltb c d then true else c == d && text_le s t

unfoldable pub insert_sorted : Text → List Text → List Text
insert_sorted x [] = x ∷ []
insert_sorted x (y ∷ ys) =
    let later = insert_sorted x ys in if text_le x y then x ∷ y ∷ ys else y ∷ later

-- `sort()`
unfoldable pub sort : List Text → List Text
sort [] = []
sort (x ∷ xs) = insert_sorted x (sort xs)

abbrev pub first_or_missing : List Text → Result VerifyError Text
first_or_missing [] = err missing_sdp_fingerprint
first_or_missing (c ∷ cs) = ok c

unfoldable pub extract_sdp_fingerprint : Text → Result VerifyError Text
extract_sdp_fingerprint sdp = first_or_missing (sort (candidates (lines sdp)))

unfoldable pub canonical_sdp_fingerprints : Text → Text → Result VerifyError (Text × Text)
canonical_sdp_fingerprints offer_sdp answer_sdp = elim (extract_sdp_fingerprint offer_sdp) [
  | err e ↦ err e
  | ok offerer_fp ↦ elim (extract_sdp_fingerprint answer_sdp) [
    | err e ↦ err e
    | ok answerer_fp ↦ ok (offerer_fp, answerer_fp)
  ]
]
