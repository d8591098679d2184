-- ===== src/Launcher/RingBuffer.antt =====
-- terminal/ring_buffer.rs: the newest events by their numbers.
use mxdx.Prelude.{
  ℕ, Bool, true, false, ◌&&◌, List, [], ◌∷◌, Option, some, none, if◌then◌else◌, leb, ◌==◌, length,
  pop_front, push_back, retain, map,
}

pub record EventRingBuffer {ℓ} (T : Type ℓ) : Type ℓ where
  pub buffer : List (ℕ × T)
  pub capacity : ℕ

module _ {ℓ} {T : Type ℓ} where
  -- `EventRingBuffer::new`
  abbrev pub new : ℕ → EventRingBuffer T
  new capacity = record { buffer = []; capacity = capacity }

  unfoldable pub push : ℕ → T → EventRingBuffer T → EventRingBuffer T
  push seq event r =
      let room = if length r.buffer == r.capacity then pop_front r.buffer else r.buffer in
      record r { buffer = push_back room (seq, event) }

  unfoldable pub get_range : ℕ → ℕ → EventRingBuffer T → List T
  get_range from to r = map (λ e. e.1) (retain (λ e. leb from e.0 && leb e.0 to) r.buffer)

  abbrev find_event : ℕ → List (ℕ × T) → Option T
  find_event seq [] = none
  find_event seq ((s, event) ∷ es) = if s == seq then some event else find_event seq es

  abbrev pub get : ℕ → EventRingBuffer T → Option T
  get seq r = find_event seq r.buffer

  abbrev pub len : EventRingBuffer T → ℕ
  len r = length r.buffer

  abbrev pub is_empty : EventRingBuffer T → Bool
  is_empty r = elim r.buffer [ [] ↦ true | _ ∷ _ ↦ false ]
