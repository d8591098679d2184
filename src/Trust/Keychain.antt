-- ===== src/Trust/Keychain.antt =====
-- identity.rs and keychain_chain.rs: a keychain, the one in memory, and two of them in a chain.
use mxdx.Prelude.{String, Option, some, none, str_append}
use mxdx.Prelude.Bytes.{Bytes}
use mxdx.Prelude.Dict.{Dict, get, insert, remove}
use mxdx.Prelude.Results.{Result, ok, err}

abbrev pub keychain_key : String → String → String
keychain_key user_id device_id = str_append "mxdx/" (str_append user_id (str_append "/" device_id))

abbrev pub trust_store_key : String → String
trust_store_key user_id = str_append "mxdx/" (str_append user_id "/trust-store")

abbrev pub Outcome : Type 0 → Type 0
Outcome = Result {0, 0} String

-- The trait, with the contents of the keychain as a state.
pub record KeychainBackend (Contents : Type 0) : Type 0 where
  pub get : String → Contents → Outcome (Option Bytes)
  pub set : String → Bytes → Contents → Contents × Outcome Unit
  pub delete : String → Contents → Contents × Outcome Unit

-- `InMemoryKeychain`; its lock is never poisoned here.
abbrev pub in_memory : KeychainBackend (Dict Bytes)
in_memory = record {
  get = λ key m. ok (get key m);
  set = λ key value m. (insert key value m, ok tt);
  delete = λ key m. (remove key m, ok tt);
}

-- What the primary one has, and otherwise what the fallback answers.
abbrev pub first_answer : Outcome (Option Bytes) → Outcome (Option Bytes) → Outcome (Option Bytes)
first_answer (ok (some value)) fallback = ok (some value)
first_answer (ok none) fallback = fallback
first_answer (err e) fallback = fallback

abbrev pub both_failed : Outcome Unit → Outcome Unit → Outcome Unit
both_failed (err e) (err f) = err f
both_failed (err e) (ok u) = ok tt
both_failed (ok u) fallback = ok tt

module _ {Primary Fallback : Type 0} (primary : KeychainBackend Primary)
    (fallback : KeychainBackend Fallback) where
  unfoldable pub chain_get : String → Primary × Fallback → Outcome (Option Bytes)
  chain_get key (p, f) = first_answer (primary.get key p) (fallback.get key f)

  unfoldable pub chain_set :
      String → Bytes → Primary × Fallback → (Primary × Fallback) × Outcome Unit
  chain_set key value (p, f) =
      let (p', ignored) = primary.set key value p in
      let (f', result) = fallback.set key value f in ((p', f'), result)

  unfoldable pub chain_delete : String → Primary × Fallback → (Primary × Fallback) × Outcome Unit
  chain_delete key (p, f) =
      let (p', primary_result) = primary.delete key p in
      let (f', fallback_result) = fallback.delete key f in
      ((p', f'), both_failed primary_result fallback_result)

  -- `ChainedKeychain`
  abbrev pub chained : KeychainBackend (Primary × Fallback)
  chained = record { get = chain_get; set = chain_set; delete = chain_delete }
