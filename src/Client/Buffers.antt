-- ===== src/Client/Buffers.antt =====
-- daemon/sessions.rs: a buffer holds the newest lines, within its bound.
use mxdx.Prelude.{
  ℕ, ◌+◌, ◌-◌, ◌≤◌, ◌<◌, ◌%◌, ◌^◌, ◌≡◌, refl, sym, ap, false, List, [], ◌∷◌, ◌++◌, if◌then◌else◌,
  ltb, lt→ltb, subst, length, push_back, arith, Bool-cases, inl, inr,
}
use mxdx.Prelude.Bytes.{Bytes}
use mxdx.Client.Tracker.{TrackedSession, make_room, push_line}

-- The bytes of all lines.
abbrev pub total : List Bytes → ℕ
total [] = 0
total (l ∷ ls) = length l + total ls

total-push_back : (ls : List Bytes) (l : Bytes) → total (push_back ls l) ≡ total ls + length l
total-push_back [] l = omega arith
total-push_back (k ∷ ls) l = omega (arith, total-push_back ls l)

-- The count is that of the lines, and within the bound, which is the default one.
abbrev pub Bounded : TrackedSession → Type 0
Bounded s =
    (s.buffer_bytes ≡ total s.output_buffer)
    × (s.buffer_bytes ≤ s.max_buffer_bytes)
    × (s.max_buffer_bytes ≡ 65536)

-- The first list is the end of the second.
abbrev pub IsEnd : List Bytes → List Bytes → Type 0
IsEnd ys xs = (front : List Bytes) × (xs ≡ front ++ ys)

-- What is left fits with the new line, is counted, and is the end of what was there.
abbrev Room : ℕ → ℕ → List Bytes → List Bytes × ℕ → Type 0
Room line_len max lines r = (r.1 ≡ total r.0) × (r.1 + line_len ≤ max) × IsEnd r.0 lines

Room-cons :
    (line_len max : ℕ) (old : Bytes) (lines : List Bytes) (r : List Bytes × ℕ)
    → Room line_len max lines r
    → Room line_len max (old ∷ lines) r
Room-cons line_len max old lines r (c, f, (front, e)) = (c, f, (old ∷ front, ap (λ t. old ∷ t) e))

make_room-Room :
    (line_len max : ℕ) (lines : List Bytes) (buffered : ℕ)
    → line_len ≤ max
    → max ≡ 65536
    → buffered ≡ total lines
    → buffered ≤ max
    → Room line_len max lines (make_room line_len max lines buffered)
unfolding make_room
make_room-Room line_len max [] buffered a b c d = (c, omega arith, ([], refl))
make_room-Room line_len max (old ∷ lines) buffered a b c d =
    elim (Bool-cases (ltb max ((buffered + line_len) % 2 ^ 64))) [
      | inl h ↦
          subst (λ x. Room line_len max (old ∷ lines) (if x then less else (old ∷ lines, buffered)))
            (sym h)
            (Room-cons line_len max old lines less (
              make_room-Room line_len max lines (buffered - length old) a b (omega arith)
                (omega arith)))
      | inr h ↦
          subst (λ x. Room line_len max (old ∷ lines) (if x then less else (old ∷ lines, buffered)))
            (sym h) (c, fits h, ([], refl))
    ]
  where
    less : List Bytes × ℕ
    less = make_room line_len max lines (buffered - length old)

    fits : ltb max ((buffered + line_len) % 2 ^ 64) ≡ false → buffered + line_len ≤ max
    fits h = ground arith

-- The line is the newest of the second buffer, behind the end of the first, and is broadcast.
abbrev pub Newest : Bytes → TrackedSession → TrackedSession → Type 0
Newest line s t =
    (left : List Bytes) × IsEnd left s.output_buffer
    × (t.output_buffer ≡ push_back left line)
    × (t.broadcast ≡ push_back s.broadcast line)

push-Room :
    (line : Bytes) (s : TrackedSession) (r : List Bytes × ℕ)
    → s.max_buffer_bytes ≡ 65536
    → Room (length line) s.max_buffer_bytes s.output_buffer r
    → Bounded (record s {
      output_buffer = push_back r.0 line;
      buffer_bytes = (r.1 + length line) % 2 ^ 64;
      broadcast = push_back s.broadcast line;
    })
push-Room line s r b (c, f, e) = (ground (arith, total-push_back r.0 line), ground arith, b)

-- For a session whose count is that of its lines and within the bound: a line that is larger than
-- the bound changes nothing; any other keeps the buffer counted and within its bound, is
-- broadcast, and stands behind the newest of the lines that were there.
pub push_line_lem :
    (line : Bytes) (s : TrackedSession)
    → Bounded s
    → (s.max_buffer_bytes < length line → push_line line s ≡ s)
      × (length line ≤ s.max_buffer_bytes
          → Bounded (push_line line s) × Newest line s (push_line line s))
unfolding push_line
push_line_lem line s (c, d, b) = (
  (λ h. rw (lt→ltb s.max_buffer_bytes (length line) h, push_line) refl),
  (λ h.
      let e : ltb s.max_buffer_bytes (length line) ≡ false = ground arith in
      let r =
        make_room-Room (length line) s.max_buffer_bytes s.output_buffer s.buffer_bytes h b c d in
      rw (e, push_line) (push-Room line s _ b r, (_, r.2, refl, refl))),
)
