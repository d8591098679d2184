-- ===== src/Launcher/Batcher.antt =====
-- terminal/batcher.rs: output that is gathered until it is large enough or old enough.
use mxdx.Prelude.{
  ℕ, ◌-◌, ◌<◌, ◌≡◌, refl, sym, ap, ◌∙◌, inl, inr, Bool, true, false, not, ◌&&◌, List, [], ◌∷◌, ◌++◌,
  Option, some, none, if◌then◌else◌, leb, length, arith, Bool-cases,
}
use mathlib.Core.List.{append-nil, append_assoc}
use mxdx.Prelude.Bytes.{Bytes}

-- The interval and the times are in nanoseconds.
pub record OutputBatcher : Type 0 where
  pub buffer : Bytes
  pub max_bytes : ℕ
  pub flush_interval : ℕ
  pub last_flush : ℕ

unfoldable pub new : ℕ → ℕ → ℕ → OutputBatcher
new now max_bytes flush_interval = record {
  buffer = [];
  max_bytes = max_bytes;
  flush_interval = flush_interval;
  last_flush = now;
}

-- The batcher after a drain; what is drained is its buffer.
abbrev pub drain : ℕ → OutputBatcher → OutputBatcher
drain now b = record b { buffer = []; last_flush = now }

unfoldable pub push : ℕ → Bytes → OutputBatcher → OutputBatcher × Option Bytes
push now data_ b =
    let extended : OutputBatcher = record b { buffer = b.buffer ++ data_ } in
    if leb b.max_bytes (length extended.buffer)
    then (drain now extended, some extended.buffer)
    else (extended, none)

abbrev pub has_no_bytes : Bytes → Bool
has_no_bytes [] = true
has_no_bytes (x ∷ xs) = false

unfoldable pub tick : ℕ → OutputBatcher → OutputBatcher × Option Bytes
tick now b =
    if not (has_no_bytes b.buffer) && leb b.flush_interval (now - b.last_flush)
    then (drain now b, some b.buffer)
    else (b, none)

unfoldable pub flush : ℕ → OutputBatcher → OutputBatcher × Option Bytes
flush now b = if has_no_bytes b.buffer then (b, none) else (drain now b, some b.buffer)

-- What can be asked of a batcher, with the time.
pub data BatcherCall : Type 0 where
  pushed : ℕ → Bytes → BatcherCall
  ticked : ℕ → BatcherCall
  flushed : ℕ → BatcherCall

unfoldable pub run_call : BatcherCall → OutputBatcher → OutputBatcher × Option Bytes
run_call (pushed now data_) b = push now data_ b
run_call (ticked now) b = tick now b
run_call (flushed now) b = flush now b

abbrev pub or_nothing : Option Bytes → Bytes
or_nothing none = []
or_nothing (some out) = out

-- All that the calls hand out, in order, and the batcher after them.
unfoldable pub run_calls : List BatcherCall → OutputBatcher → OutputBatcher × Bytes
run_calls [] b = (b, [])
run_calls (x ∷ xs) b =
    let (b', out) = run_call x b in
    let (b'', rest) = run_calls xs b' in (b'', or_nothing out ++ rest)

abbrev pub input_of : BatcherCall → Bytes
input_of (pushed now data_) = data_
input_of (ticked now) = []
input_of (flushed now) = []

abbrev pub inputs : List BatcherCall → Bytes
inputs [] = []
inputs (x ∷ xs) = input_of x ++ inputs xs

-- One call loses, repeats and reorders nothing, and keeps the buffer below its bound.
abbrev Kept : OutputBatcher → BatcherCall → OutputBatcher × Option Bytes → Type 0
Kept b x (b', out) =
    (or_nothing out ++ b'.buffer ≡ b.buffer ++ input_of x)
    × (length b'.buffer < b'.max_bytes)
    × (b'.max_bytes ≡ b.max_bytes)

run_call-Kept :
    (x : BatcherCall) (b : OutputBatcher) → length b.buffer < b.max_bytes → Kept b x (run_call x b)
unfolding run_call push tick flush
run_call-Kept (pushed now data_) b h =
    elim (Bool-cases (leb b.max_bytes (length (b.buffer ++ data_)))) [
      | inl y ↦ rw (push, y) (append-nil (b.buffer ++ data_), omega (arith, h), refl)
      | inr n ↦ rw (push, n) (refl, ground arith, refl)
    ]
run_call-Kept (ticked now) b h =
    elim (Bool-cases (not (has_no_bytes b.buffer) && leb b.flush_interval (now - b.last_flush))) [
      | inl y ↦ rw (tick, y) (refl, omega (arith, h), refl)
      | inr n ↦ rw (tick, n) (sym (append-nil b.buffer), h, refl)
    ]
run_call-Kept (flushed now) b h = elim (Bool-cases (has_no_bytes b.buffer)) [
  | inl y ↦ rw (flush, y) (sym (append-nil b.buffer), h, refl)
  | inr n ↦ rw (flush, n) (refl, omega (arith, h), refl)
]

-- From a batcher whose buffer is below its bound: after any pushes, ticks and flushes at any
-- times, what was handed out and what is still buffered is exactly what was there and was pushed,
-- in order, and the buffer is below the bound.
pub run_calls_lem :
    (xs : List BatcherCall) (b : OutputBatcher)
    → length b.buffer < b.max_bytes
    → ((run_calls xs b).1 ++ (run_calls xs b).0.buffer ≡ b.buffer ++ inputs xs)
      × (length (run_calls xs b).0.buffer < b.max_bytes)
unfolding run_calls
run_calls_lem [] b h = (sym (append-nil b.buffer), h)
run_calls_lem (x ∷ xs) b h =
    let (q, l, m) = run_call-Kept x b h in
    let (b', out) = run_call x b in
    let (r, s) = run_calls_lem xs b' l in
    (
      append_assoc (or_nothing out) (run_calls xs b').1 (run_calls xs b').0.buffer
          ∙ ap (λ t. or_nothing out ++ t) r
          ∙ sym (append_assoc (or_nothing out) b'.buffer (inputs xs))
          ∙ ap (λ t. t ++ inputs xs) q
          ∙ append_assoc b.buffer (input_of x) (inputs xs),
      omega (arith, s, m),
    )
