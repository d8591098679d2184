-- ===== src/Worker/Batches.antt =====
-- batched_sender.rs: every byte goes out once and in order, in batches that are numbered in order.
use mxdx.Prelude.{
  subst, ℕ, ◌+◌, ◌%◌, ◌^◌, ◌≡◌, refl, sym, ◌∙◌, ap, List, [], ◌∷◌, ◌++◌, Option, some, none,
  if◌then◌else◌, push_back, arith, Option-cases, ◌⊎◌, inl, inr,
}
use mxdx.Prelude.Bytes.{Bytes}
use mxdx.Prelude.Results.{Result}
use mxdx.Worker.Batch.{
  Batch, BatchLoop, Received, bytes, window_over, start, maybe_compress, send_batch, batch_loop,
}

append_assoc : (xs ys zs : Bytes) → (xs ++ ys) ++ zs ≡ xs ++ (ys ++ zs)
append_assoc [] ys zs = refl
append_assoc (x ∷ xs) ys zs = ap (λ t. x ∷ t) (append_assoc xs ys zs)

append_nil : (xs : Bytes) → xs ++ [] ≡ xs
append_nil [] = refl
append_nil (x ∷ xs) = ap (λ t. x ∷ t) (append_nil xs)

List-cases : (xs : Bytes) → (xs ≡ []) ⊎ ((x : ℕ) × (ys : Bytes) × (xs ≡ x ∷ ys))
List-cases [] = inl refl
List-cases (x ∷ ys) = inr (x, ys, refl)

-- Which of two loops goes on, by the buffer.
by_buffer : Bytes → BatchLoop → BatchLoop → BatchLoop
by_buffer buffer empty full = elim buffer [ [] ↦ empty | _ ∷ _ ↦ full ]

by_buffer_empty :
    (buffer : Bytes) (empty full : BatchLoop) → buffer ≡ [] → by_buffer buffer empty full ≡ empty
unfolding by_buffer
by_buffer_empty buffer empty full p = rw p refl

by_buffer_full :
    (buffer : Bytes) (empty full : BatchLoop) {x : ℕ} {ys : Bytes}
    → buffer ≡ x ∷ ys
    → by_buffer buffer empty full ≡ full
unfolding by_buffer
by_buffer_full buffer empty full p = rw p refl

-- All that is received.
abbrev pub all_received : List Received → Bytes
all_received [] = []
all_received (bytes input ∷ rs) = input ++ all_received rs
all_received (window_over ∷ rs) = all_received rs

-- The numbers go up by one, modulo 2 ^ 64, from the first number to the second.
abbrev pub Numbered : ℕ → ℕ → List Batch → Type 0
Numbered k end [] = k ≡ end
Numbered k end (b ∷ bs) = (b.seq ≡ (k + 1) % 2 ^ 64) × Numbered b.seq end bs

Numbered-push :
    (k end : ℕ) (bs : List Batch) (b : Batch)
    → Numbered k end bs
    → b.seq ≡ (end + 1) % 2 ^ 64
    → Numbered k b.seq (push_back bs b)
Numbered-push k end [] b n e = (e ∙ ap (λ x. (x + 1) % 2 ^ 64) (sym n), refl)
Numbered-push k end (c ∷ bs) b n e = (n.0, Numbered-push c.seq end bs b n.1 e)

-- What a receiver reads from the batches, with the decompression of the library.
abbrev pub content : (Bytes → Bytes) → Batch → Bytes
content inflate b = if b.compressed then inflate b.payload else b.payload

abbrev pub contents : (Bytes → Bytes) → List Batch → Bytes
contents inflate [] = []
contents inflate (b ∷ bs) = content inflate b ++ contents inflate bs

contents-push :
    (inflate : Bytes → Bytes) (bs : List Batch) (b : Batch)
    → contents inflate (push_back bs b) ≡ contents inflate bs ++ content inflate b
contents-push inflate [] b = append_nil (content inflate b)
contents-push inflate (c ∷ bs) b =
    ap (λ t. content inflate c ++ t) (contents-push inflate bs b)
    ∙ sym (append_assoc (content inflate c) (contents inflate bs) (content inflate b))

at : (k : ℕ) {l m : BatchLoop} → l ≡ m → Numbered k l.last_seq l.sent → Numbered k m.last_seq m.sent
at k e n = subst (λ x. Numbered k x.last_seq x.sent) e n

module _ (deflate : Bytes → Option Bytes) (threshold : ℕ)
    (send_fn : Batch → Result {0, 0} Bytes Unit) (inflate : Bytes → Bytes)
    (inflates : (input out : Bytes) → deflate input ≡ some out → inflate out ≡ input) where
  content-maybe_compress :
      (input : Bytes)
      → (if (maybe_compress deflate threshold send_fn input).1
          then inflate (maybe_compress deflate threshold send_fn input).0
          else (maybe_compress deflate threshold send_fn input).0)
        ≡ input
  unfolding maybe_compress
  content-maybe_compress input = elim (Option-cases (deflate input)) [
    | inl p ↦ ground arith
    | inr (out, p) ↦ ground (arith, inflates input out p)
  ]

  contents-send_batch :
      (l : BatchLoop)
      → contents inflate (send_batch deflate threshold send_fn l).sent
        ≡ contents inflate l.sent ++ l.buffer
  unfolding send_batch
  contents-send_batch l =
      contents-push inflate l.sent _
      ∙ ap (λ t. contents inflate l.sent ++ t) (content-maybe_compress l.buffer)

  buffer-send_batch : (l : BatchLoop) → (send_batch deflate threshold send_fn l).buffer ≡ []
  unfolding send_batch
  buffer-send_batch l = refl

  send_batch-Numbered :
      (k : ℕ) (l : BatchLoop)
      → Numbered k l.last_seq l.sent
      → Numbered k
          (send_batch deflate threshold send_fn l).last_seq
          (send_batch deflate threshold send_fn l).sent
  unfolding send_batch
  send_batch-Numbered k l n = Numbered-push k l.last_seq l.sent _ n refl

  batch_loop_end :
      (l : BatchLoop)
      → batch_loop deflate threshold send_fn [] l
        ≡ by_buffer l.buffer
            (record l { backoff = none })
            (record (send_batch deflate threshold send_fn l) { backoff = none })
  unfolding batch_loop by_buffer
  batch_loop_end l = refl

  batch_loop_over :
      (rs : List Received) (l : BatchLoop)
      → batch_loop deflate threshold send_fn (window_over ∷ rs) l
        ≡ by_buffer l.buffer
            (batch_loop deflate threshold send_fn rs (record l { backoff = none }))
            (batch_loop deflate threshold send_fn rs (send_batch deflate threshold send_fn l))
  unfolding batch_loop by_buffer
  batch_loop_over rs l = refl

  batch_loop-contents :
      (rs : List Received) (l : BatchLoop)
      → contents inflate (batch_loop deflate threshold send_fn rs l).sent
        ≡ contents inflate l.sent ++ (l.buffer ++ all_received rs)
  unfolding batch_loop
  batch_loop-contents [] l = elim (List-cases l.buffer) [
    | inl p ↦
        ap (λ t. contents inflate t.sent) (batch_loop_end l ∙ by_buffer_empty _ _ _ p)
        ∙ (sym (append_nil (contents inflate l.sent))
            ∙ ap (λ t. contents inflate l.sent ++ (t ++ [])) (sym p))
    | inr (x, ys, p) ↦
        ap (λ t. contents inflate t.sent) (batch_loop_end l ∙ by_buffer_full _ _ _ p)
        ∙ (contents-send_batch l
            ∙ ap (λ t. contents inflate l.sent ++ t) (sym (append_nil l.buffer)))
  ]
  batch_loop-contents (bytes input ∷ rs) l =
      batch_loop-contents rs (record l { buffer = l.buffer ++ input; backoff = none })
      ∙ ap (λ t. contents inflate l.sent ++ t) (append_assoc l.buffer input (all_received rs))
  batch_loop-contents (window_over ∷ rs) l = elim (List-cases l.buffer) [
    | inl p ↦
        ap (λ t. contents inflate t.sent) (batch_loop_over rs l ∙ by_buffer_empty _ _ _ p)
        ∙ batch_loop-contents rs (record l { backoff = none })
    | inr (x, ys, p) ↦
        ap (λ t. contents inflate t.sent) (batch_loop_over rs l ∙ by_buffer_full _ _ _ p)
        ∙ (batch_loop-contents rs (send_batch deflate threshold send_fn l)
            ∙ (ap
                  (λ t.
                    contents inflate (send_batch deflate threshold send_fn l).sent
                    ++ (t ++ all_received rs))
                  (buffer-send_batch l)
                ∙ (ap (λ t. t ++ all_received rs) (contents-send_batch l)
                    ∙ append_assoc (contents inflate l.sent) l.buffer (all_received rs))))
  ]

  batch_loop-Numbered :
      (rs : List Received) (k : ℕ) (l : BatchLoop)
      → Numbered k l.last_seq l.sent
      → Numbered k
          (batch_loop deflate threshold send_fn rs l).last_seq
          (batch_loop deflate threshold send_fn rs l).sent
  unfolding batch_loop
  batch_loop-Numbered [] k l n = elim (List-cases l.buffer) [
    | inl p ↦ at k (sym (batch_loop_end l ∙ by_buffer_empty _ _ _ p)) n
    | inr (x, ys, p) ↦
        at k (sym (batch_loop_end l ∙ by_buffer_full _ _ _ p)) (send_batch-Numbered k l n)
  ]
  batch_loop-Numbered (bytes input ∷ rs) k l n = batch_loop-Numbered rs k _ n
  batch_loop-Numbered (window_over ∷ rs) k l n = elim (List-cases l.buffer) [
    | inl p ↦
        at k (sym (batch_loop_over rs l ∙ by_buffer_empty _ _ _ p))
          (batch_loop-Numbered rs k (record l { backoff = none }) n)
    | inr (x, ys, p) ↦ at k (sym (batch_loop_over rs l ∙ by_buffer_full _ _ _ p)) (
        batch_loop-Numbered rs k (send_batch deflate threshold send_fn l)
          (send_batch-Numbered k l n))
  ]

  -- If the library decompresses what it has compressed: whatever the send function answers, the
  -- batches that the loop hands to it from its start to the closing of the channel hold all
  -- received bytes, each once and in order, and are numbered from 1 on without a gap, modulo 2 ^
  -- 64.
  pub batch_loop_sends_all :
      (rs : List Received)
      → (contents inflate (batch_loop deflate threshold send_fn rs start).sent ≡ all_received rs)
        × Numbered 0
            (batch_loop deflate threshold send_fn rs start).last_seq
            (batch_loop deflate threshold send_fn rs start).sent
  batch_loop_sends_all rs = (batch_loop-contents rs start, batch_loop-Numbered rs 0 start refl)
