-- ===== src/Launcher/Recent.antt =====
-- terminal/ring_buffer.rs: the buffer holds exactly the newest events, as many as its capacity.
use mxdx.Prelude.{
  ℕ, zero, suc, ◌+◌, ◌-◌, ◌≤◌, ◌<◌, ◌≡◌, ◌≢◌, subst, refl, sym, ap, ◌∙◌, ◌&&◌, List, [], ◌∷◌, ◌++◌,
  if◌then◌else◌, leb, ◌==◌, length, length-append, pop_front, push_back, retain, map, arith,
  Bool-cases, inl, inr,
}
use mxdx.Launcher.RingBuffer.{EventRingBuffer, new, push, get_range}

module _ {ℓ} {T : Type ℓ} where
  -- The list without its first n items.
  abbrev pub drop : ℕ → List (ℕ × T) → List (ℕ × T)
  drop zero es = es
  drop (suc n) [] = []
  drop (suc n) (e ∷ es) = drop n es

  abbrev pub push_all : List (ℕ × T) → EventRingBuffer T → EventRingBuffer T
  push_all [] r = r
  push_all ((seq, event) ∷ es) r = push_all es (push seq event r)

  length-drop : (n : ℕ) (es : List (ℕ × T)) → length (drop n es) ≡ length es - n
  length-drop zero es = omega arith
  length-drop (suc n) [] = omega arith
  length-drop (suc n) (e ∷ es) = length-drop n es ∙ omega arith

  drop-push_back :
      (n : ℕ) (es : List (ℕ × T)) (e : ℕ × T)
      → n ≤ length es
      → drop n (push_back es e) ≡ push_back (drop n es) e
  drop-push_back zero es e h = refl
  drop-push_back (suc n) [] e h = absurd (omega (arith, h))
  drop-push_back (suc n) (d ∷ es) e h = drop-push_back n es e (omega (arith, h))

  pop_front-drop : (n : ℕ) (es : List (ℕ × T)) → pop_front (drop n es) ≡ drop (suc n) es
  pop_front-drop zero [] = refl
  pop_front-drop zero (e ∷ es) = refl
  pop_front-drop (suc n) [] = refl
  pop_front-drop (suc n) (e ∷ es) = pop_front-drop n es

  -- The newest events of a list, at most so many.
  abbrev pub newest : ℕ → List (ℕ × T) → List (ℕ × T)
  newest capacity es = drop (length es - capacity) es

  append_nil : (es : List (ℕ × T)) → es ++ [] ≡ es
  append_nil [] = refl
  append_nil (e ∷ es) = ap (λ t. e ∷ t) (append_nil es)

  push_back-append : (xs ys : List (ℕ × T)) (e : ℕ × T) → push_back xs e ++ ys ≡ xs ++ (e ∷ ys)
  push_back-append [] ys e = refl
  push_back-append (x ∷ xs) ys e = ap (λ t. x ∷ t) (push_back-append xs ys e)

  drop-nil : (n : ℕ) → ◌≡◌ {A = List (ℕ × T)} (drop n []) []
  drop-nil zero = refl
  drop-nil (suc n) = refl

  -- What is left before the push.
  room-newest :
      (all buffer : List (ℕ × T)) (capacity : ℕ)
      → 0 < capacity
      → buffer ≡ newest capacity all
      → (if length buffer == capacity then pop_front buffer else buffer)
        ≡ drop ((length all + 1) - capacity) all
  room-newest all buffer capacity c h = elim (Bool-cases (length buffer == capacity)) [
    | inl q ↦
        let full : length buffer ≡ capacity = ground arith in
        subst
          (λ x. (if x then pop_front buffer else buffer) ≡ drop ((length all + 1) - capacity) all)
          (sym q)
          (ap pop_front h
            ∙ (pop_front-drop (length all - capacity) all
                ∙ ap (λ n. drop n all) {x = suc (length all - capacity)}
                    (omega (arith, full, size))))
    | inr q ↦
        let short : length buffer ≢ capacity = ground arith in
        subst
          (λ x. (if x then pop_front buffer else buffer) ≡ drop ((length all + 1) - capacity) all)
          (sym q) (h ∙ ap (λ n. drop n all) (omega (arith, short, size)))
  ]
    where
      size : length buffer ≡ length all - (length all - capacity)
      size = ap length h ∙ length-drop (length all - capacity) all

  newest-push_back :
      (capacity : ℕ) (all : List (ℕ × T)) (e : ℕ × T)
      → 0 < capacity
      → push_back (drop ((length all + 1) - capacity) all) e ≡ newest capacity (push_back all e)
  newest-push_back capacity all e c = sym (
      ap (λ n. drop (n - capacity) (push_back all e)) (length-append all (e ∷ []))
      ∙ drop-push_back ((length all + 1) - capacity) all e (omega (arith, c)))

  push-newest :
      (all : List (ℕ × T)) (seq : ℕ) (event : T) (r : EventRingBuffer T)
      → 0 < r.capacity
      → r.buffer ≡ newest r.capacity all
      → (push seq event r).buffer ≡ newest r.capacity (push_back all (seq, event))
  unfolding push
  push-newest all seq event r c h =
      ap (λ t. push_back t (seq, event)) (room-newest all r.buffer r.capacity c h)
      ∙ newest-push_back r.capacity all (seq, event) c

  push_all-newest :
      (es all : List (ℕ × T)) (r : EventRingBuffer T)
      → 0 < r.capacity
      → r.buffer ≡ newest r.capacity all
      → (push_all es r).buffer ≡ newest r.capacity (all ++ es)
  unfolding push
  push_all-newest [] all r c h = h ∙ ap (newest r.capacity) (sym (append_nil all))
  push_all-newest ((seq, event) ∷ es) all r c h =
      push_all-newest es (push_back all (seq, event)) (push seq event r) c
        (push-newest all seq event r c h)
      ∙ ap (newest r.capacity) (push_back-append all es (seq, event))

  -- With a capacity above zero: after any pushes into a new buffer, a range holds exactly those
  -- of the newest events, as many as the capacity, whose numbers lie in it, in their order.
  pub get_range-push_all :
      (capacity from to : ℕ) (es : List (ℕ × T))
      → 0 < capacity
      → get_range from to (push_all es (new capacity))
        ≡ map (λ e. e.1) (retain (λ e. leb from e.0 && leb e.0 to) (newest capacity es))
  unfolding get_range
  get_range-push_all capacity from to es c =
      ap (λ b. map (λ e. e.1) (retain (λ e. leb from e.0 && leb e.0 to) b))
        (push_all-newest es [] (new capacity) c (sym (drop-nil (0 - capacity))))
