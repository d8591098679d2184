-- ===== src/Homeservers/Seen.antt =====
-- multi_hs.rs, `is_duplicate`: how many events are remembered, and for how long.
use mxdx.Prelude.{
  ℕ, zero, suc, ◌-◌, ◌≤◌, ◌≡◌, refl, inl, inr, sym, ◌∙◌, String, true, false, List, [], ◌∷◌, arith,
  Bool-cases, length, length-append, take, drop, push_back, ltb, str_eq_iff, str_eq_refl,
}
use mxdx.Prelude.Dict.{Dict, insert, remove, contains_key}
use mxdx.Prelude.Maps.{
  Unique, insert-Unique, remove-Unique, contains_key-insert, contains_key-remove,
}
use mxdx.Prelude.Texts.{contains, contains-push_back}
use mxdx.Homeservers.Pool.{MultiHsClient, is_single_server}
use mxdx.Homeservers.Collect.{
  max_seen_events, evict_batch, remove_all, evict, note_seen, is_duplicate,
}

-- No text occurs twice.
abbrev pub Nodup : List String → Type 0
Nodup [] = Unit
Nodup (x ∷ xs) = (contains xs x ≡ false) × Nodup xs

-- The map and the order hold the same events, each once.
pub record Same (order : List String) (seen : Dict ℕ) : Type 0 where
  pub nodup : Nodup order
  pub unique : Unique seen
  pub keys : (k : String) → contains_key k seen ≡ contains order k
  pub sizes : length seen ≡ length order

push_back-Nodup :
    (xs : List String) (x : String) → contains xs x ≡ false → Nodup xs → Nodup (push_back xs x)
unfolding contains
push_back-Nodup [] x h n = (refl, tt)
push_back-Nodup (y ∷ ys) x h (a, n) =
    ground (arith, push_back-Nodup ys x, contains-push_back ys x y, str_eq_iff x y, str_eq_iff y x)

length-insert :
    (k : String) (v : ℕ) (m : Dict ℕ)
    → contains_key k m ≡ false
    → length (insert k v m) ≡ suc (length m)
unfolding insert contains_key
length-insert k v [] h = refl
length-insert k v ((j, w) ∷ m) h = ground (arith, length-insert k v m)

remove-absent : (k : String) (m : Dict ℕ) → contains_key k m ≡ false → remove k m ≡ m
unfolding remove contains_key
remove-absent k [] h = refl
remove-absent k ((j, w) ∷ m) h = ground (arith, remove-absent k m)

length-remove :
    (k : String) (m : Dict ℕ)
    → Unique m
    → contains_key k m ≡ true
    → suc (length (remove k m)) ≡ length m
unfolding remove contains_key
length-remove k [] u h = cc
length-remove k ((j, w) ∷ m) (a, u) h =
    ground (arith, length-remove k m, remove-absent k m, str_eq_iff j k)

pub insert-Same :
    (now : ℕ) (k : String) (order : List String) (seen : Dict ℕ)
    → Same order seen
    → contains_key k seen ≡ false
    → Same (push_back order k) (insert k now seen)
insert-Same now k order seen s h = record {
  nodup = push_back-Nodup order k (sym (s.keys k) ∙ h) s.nodup;
  unique = insert-Unique k now seen s.unique;
  keys =
      λ j. ground (arith, contains_key-insert k j now seen, contains-push_back order k j, s.keys j);
  sizes = omega (arith, length-insert k now seen h, length-append order (k ∷ []), s.sizes);
}

remove-Same :
    (x : String) (xs : List String) (seen : Dict ℕ) → Same (x ∷ xs) seen → Same xs (remove x seen)
unfolding contains
remove-Same x xs seen s = record {
  nodup = s.nodup.1;
  unique = remove-Unique x seen s.unique;
  keys = λ j. ground (arith, contains_key-remove x j seen, s.keys j, str_eq_iff x j, s.nodup.0);
  sizes =
      omega
        (arith, length-remove x seen s.unique (ground (arith, s.keys x, str_eq_refl x)), s.sizes);
}

drain-Same :
    (n : ℕ) (order : List String) (seen : Dict ℕ)
    → Same order seen
    → Same (drop n order) (remove_all (take n order) seen)
unfolding remove_all
drain-Same zero order seen s = s
drain-Same (suc n) [] seen s = s
drain-Same (suc n) (x ∷ xs) seen s = drain-Same n xs (remove x seen) (remove-Same x xs seen s)

length-drop : (n : ℕ) (xs : List String) → length (drop n xs) ≡ length xs - n
length-drop zero xs = omega arith
length-drop (suc n) [] = omega arith
length-drop (suc n) (x ∷ xs) = omega (arith, length-drop n xs)

-- The seen events of a pool, with the order that they came in, and at most as many as the limit.
pub record Remembers (c : MultiHsClient) : Type 0 where
  pub same : Same c.seen_order c.seen_events
  pub bounded : length c.seen_events ≤ max_seen_events

evict-Remembers :
    (c : MultiHsClient)
    → Same c.seen_order c.seen_events
    → length c.seen_events ≤ suc max_seen_events
    → Remembers (evict c)
unfolding evict
evict-Remembers c s h = elim (Bool-cases (ltb max_seen_events (length c.seen_events))) [
  | inl t ↦ rw t (record {
    same = drain-Same evict_batch c.seen_order c.seen_events s;
    bounded = omega (
      arith,
      (drain-Same evict_batch c.seen_order c.seen_events s).sizes,
      length-drop evict_batch c.seen_order,
      s.sizes,
    );
  })
  | inr t ↦ rw t (record { same = s; bounded = ground arith })
]

note_seen-Remembers :
    (now : ℕ) (id : String) (c : MultiHsClient)
    → Remembers c
    → contains_key id c.seen_events ≡ false
    → Remembers (note_seen now id c)
unfolding note_seen
note_seen-Remembers now id c r h =
    evict-Remembers _ (insert-Same now id c.seen_order c.seen_events r.same h)
      (omega (arith, length-insert id now c.seen_events h, r.bounded))

pub is_duplicate-Remembers :
    (now : ℕ) (id : String) (c : MultiHsClient) → Remembers c → Remembers (is_duplicate now id c).0
unfolding is_duplicate
is_duplicate-Remembers now id c r = elim (Bool-cases (is_single_server c)) [
  | inl m ↦ rw m r
  | inr m ↦ elim (Bool-cases (contains_key id c.seen_events)) [
    | inl t ↦ rw (m, t) r
    | inr t ↦ rw (m, t) (note_seen-Remembers now id c r t)
  ]
]
