-- ===== src/Worker/Batch.antt =====
-- batched_sender.rs: the loop that gathers output into batches. A `str` is the list of its bytes, and
-- a time is in milliseconds.
use mxdx.Prelude.{
  ℕ, ◌+◌, ◌-◌, ◌*◌, ◌%◌, ◌^◌, Bool, true, false, ◌&&◌, List, [], ◌∷◌, ◌++◌, Option, some, none,
  if◌then◌else◌, ltb, leb, length, push_back,
}
use mxdx.Prelude.Bytes.{Bytes}
use mxdx.Prelude.Chars.{starts_with}
use mxdx.Prelude.Results.{Result, ok, err}

-- "429"
abbrev rate_limit_mark : Bytes
rate_limit_mark = 52 ∷ 50 ∷ 57 ∷ []

-- "retry_after_ms"
abbrev retry_after_mark : Bytes
retry_after_mark =
    114 ∷ 101 ∷ 116 ∷ 114 ∷ 121 ∷ 95 ∷ 97 ∷ 102 ∷ 116 ∷ 101 ∷ 114 ∷ 95 ∷ 109 ∷ 115 ∷ []

abbrev pub default_batch_window : ℕ
default_batch_window = 200

abbrev pub p2p_open_batch_window : ℕ
p2p_open_batch_window = 10

-- `&s[s.find(pattern)?..]`
unfoldable pub from_match : Bytes → Bytes → Option Bytes
from_match pattern [] = if starts_with [] pattern then some [] else none
from_match pattern (c ∷ cs) =
    let later = from_match pattern cs in
    if starts_with (c ∷ cs) pattern then some (c ∷ cs) else later

abbrev is_digit : ℕ → Bool
is_digit c = leb 48 c && leb c 57

-- `split(|c| !c.is_ascii_digit())`, with the word so far.
unfoldable pub split_words : Bytes → Bytes → List Bytes
split_words word [] = word ∷ []
split_words word (c ∷ cs) =
    let inside = split_words (push_back word c) cs in
    let outside = split_words [] cs in if is_digit c then inside else word ∷ outside

abbrev digits_value : ℕ → Bytes → ℕ
digits_value acc [] = acc
digits_value acc (c ∷ cs) = digits_value (acc * 10 + (c - 48)) cs

-- `parse::<u64>()` of a word of digits
unfoldable pub parse_u64 : Bytes → Option ℕ
parse_u64 [] = none
parse_u64 (c ∷ cs) = let n = digits_value 0 (c ∷ cs) in if ltb n (2 ^ 64) then some n else none

unfoldable pub first_positive : List Bytes → Option ℕ
first_positive [] = none
first_positive (word ∷ words) =
    let later = first_positive words in
    elim (parse_u64 word) [ none ↦ later | some ms ↦ if ltb 0 ms then some ms else later ]

unfoldable pub parse_retry_after : Bytes → Option ℕ
parse_retry_after error_msg = elim (from_match retry_after_mark error_msg) [
  | none ↦ none
  | some rest ↦ first_positive (split_words [] rest)
]

-- A call of the send function: the payload, its number and whether it is compressed.
pub record Batch : Type 0 where
  pub payload : Bytes
  pub seq : ℕ
  pub compressed : Bool

-- What the loop keeps, and the calls of the send function so far.
pub record BatchLoop : Type 0 where
  pub last_seq : ℕ
  pub buffer : Bytes
  pub backoff : Option ℕ
  pub sent : List Batch

-- What the loop receives: data, or the end of the window; the end of the list closes the channel.
pub data Received : Type 0 where
  bytes : Bytes → Received
  window_over : Received

abbrev pub start : BatchLoop
start = record { last_seq = 0; buffer = []; backoff = none; sent = [] }

-- The compression library is the function `deflate`, which may fail.
module _ (deflate : Bytes → Option Bytes) (threshold : ℕ)
    (send_fn : Batch → Result {0, 0} Bytes Unit) where
  unfoldable pub maybe_compress : Bytes → Bytes × Bool
  maybe_compress input =
      if ltb (length input) threshold then (input, false) else elim (deflate input) [
        | none ↦ (input, false)
        | some out ↦ if ltb (length out) (length input) then (out, true) else (input, false)
      ]

  unfoldable pub backoff_after : Result {0, 0} Bytes Unit → Option ℕ
  backoff_after (ok _) = none
  backoff_after (err e) = elim (from_match rate_limit_mark e) [
    | none ↦ none
    | some _ ↦ elim (parse_retry_after e) [ none ↦ some 5000 | some ms ↦ some ms ]
  ]

  unfoldable pub send_batch : BatchLoop → BatchLoop
  send_batch l =
      let (payload, compressed) = maybe_compress l.buffer in
      let batch : Batch = record {
        payload = payload;
        seq = (l.last_seq + 1) % 2 ^ 64;
        compressed = compressed;
      } in
      record {
        last_seq = batch.seq;
        buffer = [];
        backoff = backoff_after (send_fn batch);
        sent = push_back l.sent batch;
      }

  -- An empty buffer waits for data without a window. A backoff is slept off before.
  unfoldable pub batch_loop : List Received → BatchLoop → BatchLoop
  batch_loop [] l = elim l.buffer [
    | [] ↦ record l { backoff = none }
    | _ ∷ _ ↦ record (send_batch l) { backoff = none }
  ]
  batch_loop (bytes input ∷ rs) l =
      batch_loop rs (record l { buffer = l.buffer ++ input; backoff = none })
  batch_loop (window_over ∷ rs) l =
      let waiting = batch_loop rs (record l { backoff = none }) in
      let sent = batch_loop rs (send_batch l) in elim l.buffer [ [] ↦ waiting | _ ∷ _ ↦ sent ]
