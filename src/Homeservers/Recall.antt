-- ===== src/Homeservers/Recall.antt =====
-- multi_hs.rs, `is_duplicate`: an event that was seen stays so through many new ones.
use mxdx.Prelude.{
  ℕ, zero, suc, ◌+◌, ◌≤◌, ◌<◌, ◌≡◌, refl, inl, inr, ap, ◌∙◌, String, true, false, List, [], ◌∷◌,
  ◌++◌, Option, arith, Bool-cases, length, length-append, drop, push_back, ltb, leb, ltb→lt,
  str_eq_refl,
}
use mxdx.Prelude.Dict.{contains_key, insert}
use mxdx.Prelude.Texts.{contains}
use mxdx.Homeservers.Pool.{MultiHsClient, ServerEntry, from_clients, is_single_server}
use mxdx.Homeservers.Collect.{max_seen_events, evict_batch, evict, note_seen, is_duplicate}
use mxdx.Homeservers.Seen.{Remembers, insert-Same, is_duplicate-Remembers}

-- The event came, and at most n others after it.
pub record Within (id : String) (n : ℕ) (order : List String) : Type 0 where
  pub before : List String
  pub after : List String
  pub splits : order ≡ before ++ id ∷ after
  pub recent : length after ≤ n

push_back-append :
    (xs ys : List String) (x y : String) → push_back (xs ++ x ∷ ys) y ≡ xs ++ x ∷ push_back ys y
push_back-append [] ys x y = refl
push_back-append (z ∷ xs) ys x y = ap (λ l. z ∷ l) (push_back-append xs ys x y)

drop-append : (n : ℕ) (xs ys : List String) → n ≤ length xs → drop n (xs ++ ys) ≡ drop n xs ++ ys
drop-append zero xs ys h = refl
drop-append (suc n) [] ys h = absurd (omega arith)
drop-append (suc n) (x ∷ xs) ys h = drop-append n xs ys (omega arith)

contains-append : (id : String) (xs ys : List String) → contains (xs ++ id ∷ ys) id ≡ true
unfolding contains
contains-append id [] ys = ground (arith, str_eq_refl id)
contains-append id (x ∷ xs) ys = ground (arith, contains-append id xs ys)

evict-Within :
    (id : String) (n : ℕ) (c : MultiHsClient)
    → length c.seen_events ≡ length c.seen_order
    → n ≤ 8000
    → Within id n c.seen_order
    → Within id n (evict c).seen_order
unfolding evict
evict-Within id n c s m w = elim (Bool-cases (ltb max_seen_events (length c.seen_events))) [
  | inl t ↦ rw t (record {
    before = drop evict_batch w.before;
    after = w.after;
    splits =
        ap (drop evict_batch) w.splits
        ∙ drop-append evict_batch w.before (id ∷ w.after) (
            omega (
              arith,
              ltb→lt max_seen_events (length c.seen_events) t,
              ap length w.splits,
              length-append w.before (id ∷ w.after),
            ));
    recent = w.recent;
  })
  | inr t ↦ rw t w
]

abbrev pub pushed : ℕ → String → MultiHsClient → MultiHsClient
pushed now id c = record c {
  seen_events = insert id now c.seen_events;
  seen_order = push_back c.seen_order id;
}

pub pushed-sizes :
    (now : ℕ) (id : String) (c : MultiHsClient)
    → Remembers c
    → contains_key id c.seen_events ≡ false
    → length (pushed now id c).seen_events ≡ length (pushed now id c).seen_order
pushed-sizes now id c r h = (insert-Same now id c.seen_order c.seen_events r.same h).sizes

weaken : (id : String) (n m : ℕ) (xs : List String) → n ≤ m → Within id n xs → Within id m xs
weaken id n m xs h w = record {
  before = w.before;
  after = w.after;
  splits = w.splits;
  recent = omega (arith, w.recent);
}

-- Checking another event moves this one back by one at most.
is_duplicate-Within :
    (now : ℕ) (k id : String) (n : ℕ) (c : MultiHsClient)
    → Remembers c
    → n < 8000
    → Within id n c.seen_order
    → Within id (suc n) (is_duplicate now k c).0.seen_order
unfolding is_duplicate note_seen
is_duplicate-Within now k id n c r h w = elim (Bool-cases (is_single_server c)) [
  | inl m ↦ rw m (weaken id n (suc n) c.seen_order (omega arith) w)
  | inr m ↦ elim (Bool-cases (contains_key k c.seen_events)) [
    | inl t ↦ rw (m, t) (weaken id n (suc n) c.seen_order (omega arith) w)
    | inr t ↦
        rw (m, t)
          (evict-Within id (suc n) (pushed now k c) (pushed-sizes now k c r t) (omega arith)
            (record {
              before = w.before;
              after = push_back w.after k;
              splits = ap (λ l. push_back l k) w.splits ∙ push_back-append w.before w.after id k;
              recent = omega (arith, length-append w.after (k ∷ []), w.recent);
            }))
  ]
]

-- An event that is new is the newest one then.
first_Within :
    (now : ℕ) (id : String) (c : MultiHsClient)
    → Remembers c
    → is_single_server c ≡ false
    → (is_duplicate now id c).1 ≡ false
    → Within id 0 (is_duplicate now id c).0.seen_order
unfolding is_duplicate note_seen
first_Within now id c r m f = elim (Bool-cases (contains_key id c.seen_events)) [
  | inl t ↦ absurd (ground arith)
  | inr t ↦
      rw (m, t)
        (evict-Within id 0 (pushed now id c) (pushed-sizes now id c r t) (omega arith)
          (record { before = c.seen_order; after = []; splits = refl; recent = omega arith }))
]

pub is_duplicate-entries :
    (now : ℕ) (id : String) (c : MultiHsClient) → (is_duplicate now id c).0.entries ≡ c.entries
unfolding is_duplicate note_seen evict
is_duplicate-entries now id c = ground arith

-- Checks of events, with their times.
unfoldable pub check_events : List (ℕ × String) → MultiHsClient → MultiHsClient
check_events [] c = c
check_events ((now, id) ∷ xs) c = check_events xs (is_duplicate now id c).0

Within-is_duplicate :
    (now : ℕ) (id : String) (n : ℕ) (c : MultiHsClient)
    → Remembers c
    → is_single_server c ≡ false
    → Within id n c.seen_order
    → (is_duplicate now id c).1 ≡ true
unfolding is_duplicate
Within-is_duplicate now id n c r m w =
    rw (m, r.same.keys id ∙ ap (λ l. contains l id) w.splits ∙ contains-append id w.before w.after)
      refl

still_duplicate :
    (now : ℕ) (id : String) (xs : List (ℕ × String)) (n : ℕ) (c : MultiHsClient)
    → Remembers c
    → is_single_server c ≡ false
    → Within id n c.seen_order
    → n + length xs ≤ 8000
    → (is_duplicate now id (check_events xs c)).1 ≡ true
unfolding check_events
still_duplicate now id [] n c r m w h = Within-is_duplicate now id n c r m w
still_duplicate now id ((t, k) ∷ xs) n c r m w h =
    still_duplicate now id xs (suc n) (is_duplicate t k c).0 (is_duplicate-Remembers t k c r)
      (ap (λ l. leb (length l) 1) (is_duplicate-entries t k c) ∙ m)
      (is_duplicate-Within t k id n c r (omega arith) w) (omega arith)

-- In a pool of several servers whose records of seen events agree and are within their limit: an
-- event that was accepted as new is a duplicate if it comes again after at most 8000 checks of
-- other events, whatever those are.
pub is_duplicate-check_events :
    (t now : ℕ) (id : String) (xs : List (ℕ × String)) (c : MultiHsClient)
    → Remembers c
    → is_single_server c ≡ false
    → (is_duplicate t id c).1 ≡ false
    → length xs ≤ 8000
    → (is_duplicate now id (check_events xs (is_duplicate t id c).0)).1 ≡ true
is_duplicate-check_events t now id xs c r m f h =
    still_duplicate now id xs 0 (is_duplicate t id c).0 (is_duplicate-Remembers t id c r)
      (ap (λ l. leb (length l) 1) (is_duplicate-entries t id c) ∙ m) (first_Within t id c r m f)
      (omega arith)

none_yet : (k : String) → contains_key {V = ℕ} k [] ≡ contains [] k
unfolding contains_key contains
none_yet k = refl

check_events-Remembers :
    (xs : List (ℕ × String)) (c : MultiHsClient) → Remembers c → Remembers (check_events xs c)
unfolding check_events
check_events-Remembers [] c r = r
check_events-Remembers ((t, k) ∷ xs) c r =
    check_events-Remembers xs (is_duplicate t k c).0 (is_duplicate-Remembers t k c r)

-- From the connection on, after any checks of events, the map and the order of the seen events
-- hold the same events, each once, and at most 10000.
pub seen_is_bounded :
    (entries : List ServerEntry) (preferred_server : Option String) (xs : List (ℕ × String))
    → Remembers (check_events xs (from_clients entries preferred_server))
unfolding from_clients
seen_is_bounded entries preferred_server xs = check_events-Remembers xs _ (record {
  same = record { nodup = tt; unique = tt; keys = λ k. none_yet k; sizes = refl };
  bounded = omega arith;
})
