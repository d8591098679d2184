-- ===== src/Homeservers/Deliver.antt =====
-- multi_hs.rs, `sync_and_collect_events`: what is delivered of the events of a server.
use mxdx.Prelude.{
  ℕ, suc, ◌+◌, ◌≤◌, ◌≡◌, refl, inl, inr, sym, ap, ◌∙◌, String, true, false, List, [], ◌∷◌, ◌++◌,
  Option, some, none, arith, Bool-cases, Option-cases, length, length-append, push_back,
}
use mathlib.Core.List.{append-nil}
use mxdx.Prelude.Dict.{contains_key}
use mxdx.Prelude.Texts.{contains}
use mxdx.Homeservers.Pool.{MultiHsClient, is_single_server}
use mxdx.Homeservers.Collect.{max_seen_events, evict, note_seen, is_duplicate, deliver_one, deliver}
use mxdx.Homeservers.Seen.{insert-Same, Remembers}
use mxdx.Homeservers.Recall.{pushed, pushed-sizes}

note_seen-pushed :
    (now : ℕ) (id : String) (c : MultiHsClient)
    → length (pushed now id c).seen_events ≤ max_seen_events
    → note_seen now id c ≡ pushed now id c
unfolding note_seen evict
note_seen-pushed now id c h = ground arith

push_Remembers :
    (now : ℕ) (id : String) (c : MultiHsClient)
    → Remembers c
    → contains_key id c.seen_events ≡ false
    → suc (length c.seen_order) ≤ max_seen_events
    → Remembers (pushed now id c)
push_Remembers now id c r t h = record {
  same = insert-Same now id c.seen_order c.seen_events r.same t;
  bounded = omega (arith, pushed-sizes now id c r t, length-append c.seen_order (id ∷ []));
}

append-push_back : {A : Type 0} (xs ys : List A) (x : A) → push_back xs x ++ ys ≡ xs ++ x ∷ ys
append-push_back [] ys x = refl
append-push_back (y ∷ xs) ys x = ap (λ l. y ∷ l) (append-push_back xs ys x)

module _ {Value : Type 0} (event_id : Value → Option String) where
  -- The events without those whose identifier is among the seen ones, or came before.
  unfoldable pub first_of_each : List String → List Value → List Value
  first_of_each seen [] = []
  first_of_each seen (e ∷ es) = elim (event_id e) [
    | none ↦ e ∷ first_of_each seen es
    | some id ↦ elim (contains seen id) [
      | true ↦ first_of_each seen es
      | false ↦ e ∷ first_of_each (push_back seen id) es
    ]
  ]

  module _ (now : ℕ) (e : Value) (id : String) (c : MultiHsClient) (out : List Value) where
    known :
        is_single_server c ≡ false
        → contains_key id c.seen_events ≡ true
        → deliver_one event_id now e (some id) c out ≡ (c, out)
    unfolding deliver_one is_duplicate
    known m t = rw (m, t) refl

    unknown :
        is_single_server c ≡ false
        → contains_key id c.seen_events ≡ false
        → length (pushed now id c).seen_events ≤ max_seen_events
        → deliver_one event_id now e (some id) c out ≡ (pushed now id c, push_back out e)
    unfolding deliver_one is_duplicate
    unknown m t h = rw (m, t, note_seen-pushed now id c h) refl

  -- In a pool of several servers whose records of seen events agree and have room for all of the
  -- events: of the events of a server exactly those without an identifier and the first of each
  -- new identifier are delivered, in their order.
  pub deliver_lem :
      (now : ℕ) (es : List Value) (c : MultiHsClient) (out : List Value)
      → Remembers c
      → is_single_server c ≡ false
      → length c.seen_order + length es ≤ max_seen_events
      → (deliver event_id now es c out).1 ≡ out ++ first_of_each c.seen_order es
  unfolding deliver deliver_one first_of_each
  deliver_lem now [] c out r m h = sym (append-nil out)
  deliver_lem now (e ∷ es) c out r m h = elim (Option-cases (event_id e)) [
    | inl q ↦
        rw (deliver, first_of_each, q)
          (deliver_lem now es c (push_back out e) r m (omega arith) ∙ append-push_back out _ e)
    | inr (id, q) ↦ elim (Bool-cases (contains_key id c.seen_events)) [
      | inl t ↦
          rw (deliver, first_of_each, q, known now e id c out m t, sym (r.same.keys id) ∙ t)
            (deliver_lem now es c out r m (omega arith))
      | inr t ↦
          let r' = push_Remembers now id c r t (omega arith) in
          rw
            (
              deliver,
              first_of_each,
              q,
              unknown now e id c out m t r'.bounded,
              sym (r.same.keys id) ∙ t,
            )
            (deliver_lem now es (pushed now id c) (push_back out e) r' m
                (omega (arith, length-append c.seen_order (id ∷ [])))
              ∙ append-push_back out _ e)
    ]
  ]
