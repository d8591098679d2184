-- ===== src/Policy/Tests.antt =====
-- The policy engine with a concrete cache.
use mxdx.Prelude.{
  ℕ, zero, suc, ◌≡◌, ◌≢◌, refl, sym, subst, ap, ◌∙◌, inl, inr, String, str_eq_iff, str_eq_refl,
  true, List, [], ◌∷◌, Option, some, none, take, arith, Option-cases,
}
use mxdx.Prelude.Results.{ok, err}
use mxdx.Prelude.Dict.{Dict, get, remove, get-remove}
use mxdx.Prelude.Maps.{keys}
use mxdx.Prelude.Texts.{contains}
use mxdx.Policy.Engine.{
  LruCache, PolicyEngine, replay, check_found, check_replay, is_authorized, evaluate,
}
use mxdx.Policy.Recency.{Laws, within, without}
use mxdx.Policy.Replay.{PolicyCall, revoked, evaluated, after_all}
use mxdx.Policy.Once.{accepted_once}

-- The entries, the most recent first.
unfoldable use_key : String → Dict ℕ → Dict ℕ × Option ℕ
use_key k m = elim (get k m) [ none ↦ (m, none) | some t ↦ ((k, t) ∷ remove k m, some t) ]

abbrev listed : LruCache (Dict ℕ)
listed = record {
  with_capacity = λ n. [];
  get = use_key;
  put = λ k t m. take 4 ((k, t) ∷ remove k m);
  pop = remove;
}

keys-remove : (k : String) (m : Dict ℕ) → keys (remove k m) ≡ without k (keys m)
unfolding remove
keys-remove k [] = refl
keys-remove k ((j, t) ∷ m) = ground (arith, keys-remove k m)

keys-take : (n : ℕ) (m : Dict ℕ) → keys (take n m) ≡ take n (keys m)
keys-take zero m = refl
keys-take (suc n) [] = refl
keys-take (suc n) ((j, t) ∷ m) = ap (λ ks. j ∷ ks) (keys-take n m)

get-take :
    (n : ℕ) (j : String) (m : Dict ℕ) → within n j (keys m) ≡ true → get j (take n m) ≡ get j m
unfolding within get
get-take zero j m h = cc
get-take (suc n) j [] h = refl
get-take (suc n) j ((i, t) ∷ m) h = ground (arith, get-take n j m)

used : (k j : String) (m : Dict ℕ) → get j (use_key k m).0 ≡ get j m
unfolding use_key get
used k j m = elim (Option-cases (get k m)) [
  | inl q ↦ rw (use_key, q) refl
  | inr (t, q) ↦ rw (use_key, q) (ground (arith, get-remove k j m, str_eq_iff k j))
]

found : (k : String) (m : Dict ℕ) → (use_key k m).1 ≡ get k m
unfolding use_key
found k m = ground arith

used_order :
    (k : String) (m : Dict ℕ)
    → keys (use_key k m).0 ≡ (elim (get k m) [ none ↦ keys m | some t ↦ k ∷ without k (keys m) ])
unfolding use_key
used_order k m = elim (Option-cases (get k m)) [
  | inl q ↦ rw (use_key, q) refl
  | inr (t, q) ↦ rw (use_key, q) (ap (λ ks. k ∷ ks) (keys-remove k m))
]

put_other :
    (k j : String) (t : ℕ) (m : Dict ℕ)
    → k ≢ j
    → within 4 j (k ∷ without k (keys m)) ≡ true
    → get j (take 4 ((k, t) ∷ remove k m)) ≡ get j m
unfolding get
put_other k j t m d h =
    get-take 4 j ((k, t) ∷ remove k m)
      (subst (λ ks. within 4 j (k ∷ ks) ≡ true) (sym (keys-remove k m)) h)
    ∙ ground (arith, get-remove k j m, str_eq_iff k j)

put_first : (k : String) (t : ℕ) (m : Dict ℕ) → get k (take 4 ((k, t) ∷ remove k m)) ≡ some t
unfolding get
put_first k t m = ground (arith, str_eq_refl k)

listed-Laws : Laws listed 4
listed-Laws = record {
  peek = get;
  order = keys;
  get-peek = found;
  peek-get = used;
  order-get = used_order;
  peek-pop = λ k j m d. ground (arith, get-remove k j m, str_eq_iff k j);
  order-pop = keys-remove;
  peek-put = put_first;
  peek-put-other = put_other;
  order-put =
      λ k t m. keys-take 4 ((k, t) ∷ remove k m) ∙ ap (λ ks. take 4 (k ∷ ks)) (keys-remove k m);
}

abbrev engine : PolicyEngine (Dict ℕ)
engine = record { replay_cache = []; ttl = 100; authorized_users = "@a:x" ∷ [] }

accepts : (evaluate listed 5 "$1" "@a:x" "exec" engine).1 ≡ ok tt
unfolding evaluate check_replay check_found use_key get is_authorized contains
accepts = refl

abbrev between : List PolicyCall
between = evaluated 6 "$2" "@a:x" "exec" ∷ revoked "@a:x" ∷ evaluated 7 "$1" "@b:x" "exec" ∷ []

accepted_once_example :
    (evaluate listed 104 "$1" "@b:x" "exec"
      (after_all listed between (evaluate listed 5 "$1" "@a:x" "exec" engine).0)).1
    ≡ err replay
accepted_once_example =
    accepted_once listed 4 listed-Laws 5 104 "$1" "@a:x" "exec" "@b:x" "exec" between engine accepts
      (omega arith, (tt, (omega arith, tt))) (omega arith) (omega arith)
