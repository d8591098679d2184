-- ===== src/Trust/Chain.antt =====
-- keychain_chain.rs: what a chain of two keychains answers after a write and after a deletion.
use mxdx.Prelude.{
  ◌≡◌, String, str_eq, str_eq_refl, str_eq_iff, false, Bool-cases, inl, inr, Option, some, none,
  if◌then◌else◌, arith,
}
use mxdx.Prelude.Bytes.{Bytes}
use mxdx.Prelude.Dict.{get-insert, get-remove}
use mxdx.Prelude.Results.{ok, err}
use mxdx.Trust.Keychain.{
  Outcome, KeychainBackend, in_memory, first_answer, chain_get, chain_set, chain_delete,
}

-- A keychain that does what it says: a call that succeeds has its effect, one that fails has none.
pub record Storing {Contents : Type 0} (kc : KeychainBackend Contents) : Type 0 where
  pub get-set :
      (k j : String) (v : Bytes) (c : Contents)
      → kc.get j (kc.set k v c).0 ≡ (elim (kc.set k v c).1 [
        | ok u ↦ if str_eq k j then ok (some v) else kc.get j c
        | err e ↦ kc.get j c
      ])
  pub get-delete :
      (k j : String) (c : Contents)
      → kc.get j (kc.delete k c).0 ≡ (elim (kc.delete k c).1 [
        | ok u ↦ if str_eq k j then ok none else kc.get j c
        | err e ↦ kc.get j c
      ])

pub in_memory-Storing : Storing in_memory
in_memory-Storing = record {
  get-set = λ k j v m. ground (arith, get-insert k j v m);
  get-delete = λ k j m. ground (arith, get-remove k j m);
}

-- What is left under the key after a deletion with this result.
abbrev pub left : Outcome Unit → Outcome (Option Bytes) → Outcome (Option Bytes)
left (ok u) before = ok none
left (err e) before = before

-- What is read after a write of v that the fallback took: the new value, unless the primary one refused
-- it and holds an older value.
abbrev pub read_after : Outcome Unit → Outcome (Option Bytes) → Bytes → Outcome (Option Bytes)
read_after (ok u) before v = ok (some v)
read_after (err e) (ok (some old)) v = ok (some old)
read_after (err e) (ok none) v = ok (some v)
read_after (err e) (err f) v = ok (some v)

-- What is there under the key after a write with this result.
abbrev pub written : Outcome Unit → Bytes → Outcome (Option Bytes) → Outcome (Option Bytes)
written (ok u) v before = ok (some v)
written (err e) v before = before

set_own :
    {Contents : Type 0} (kc : KeychainBackend Contents)
    → Storing kc
    → (k : String) (v : Bytes) (c : Contents)
    → kc.get k (kc.set k v c).0 ≡ written (kc.set k v c).1 v (kc.get k c)
set_own kc s k v c = ground (arith, s.get-set k k v c, str_eq_refl k)

set_other :
    {Contents : Type 0} (kc : KeychainBackend Contents)
    → Storing kc
    → (k j : String) (v : Bytes) (c : Contents) → str_eq k j ≡ false
    → kc.get j (kc.set k v c).0 ≡ kc.get j c
set_other kc s k j v c n = ground (arith, s.get-set k j v c, n)

delete_own :
    {Contents : Type 0} (kc : KeychainBackend Contents)
    → Storing kc
    → (k : String) (c : Contents) → kc.get k (kc.delete k c).0 ≡ left (kc.delete k c).1 (kc.get k c)
delete_own kc s k c = ground (arith, s.get-delete k k c, str_eq_refl k)

module _ {Primary Fallback : Type 0} (primary : KeychainBackend Primary)
    (fallback : KeychainBackend Fallback) (ps : Storing primary) (fs : Storing fallback) where
  -- For two keychains in which a call that succeeds has its effect and one that fails has none:
  -- after a write to the chain that succeeds, a read of its key gives the new value, unless the
  -- write to the primary one failed while that holds an older value, which is read then; a read
  -- of another key gives what it gave before.
  pub chain_get-chain_set :
      (k j : String) (v : Bytes) (p : Primary) (f : Fallback)
      → let (c, result) = chain_set primary fallback k v (p, f) in
        result ≡ ok tt
        → chain_get primary fallback j c ≡ (
            if str_eq k j
            then read_after (primary.set k v p).1 (primary.get k p) v
            else chain_get primary fallback j (p, f))
  unfolding chain_get chain_set
  chain_get-chain_set k j v p f h = elim (Bool-cases (str_eq k j)) [
    | inl y ↦
        let same : k ≡ j = (str_eq_iff k j).0 y in
        ground (arith, same, set_own primary ps k v p, set_own fallback fs k v f)
    | inr n ↦ ground (arith, n, set_other primary ps k j v p n, set_other fallback fs k j v f n)
  ]

  pub chain_get-chain_delete :
      (k : String) (p : Primary) (f : Fallback)
      → chain_get primary fallback k (chain_delete primary fallback k (p, f)).0
        ≡ first_answer
            (left (primary.delete k p).1 (primary.get k p))
            (left (fallback.delete k f).1 (fallback.get k f))
  unfolding chain_get chain_delete
  chain_get-chain_delete k p f =
      ground (arith, delete_own primary ps k p, delete_own fallback fs k f)
