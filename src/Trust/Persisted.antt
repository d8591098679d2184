-- ===== src/Trust/Persisted.antt =====
-- trust.rs of the worker and of the client: what is loaded again is what was there.
use mxdx.Prelude.{◌≡◌, refl, inl, inr, String, str_eq_refl, List, some, arith}
use mxdx.Prelude.Bytes.{Bytes}
use mxdx.Prelude.Results.{ok, Result-cases}
use mxdx.Trust.Keychain.{Outcome, KeychainBackend, trust_store_key}
use mxdx.Trust.Chain.{Storing}
use mxdx.Trust.Store.{TrustStore, TrustedDevice, CrossSigningMode}
use mxdx.Trust.Device.{
  Codec, DeviceTrust, load_store, load_or_create, persist, add_trusted_device, merge_trust_list,
  remove_device, set_trust_anchor,
}

-- What can be asked of the trust of a user.
pub data TrustCall : Type 0 where
  add : TrustedDevice → TrustCall
  merge : List TrustedDevice → CrossSigningMode → TrustCall
  take_out : String → TrustCall
  anchor : String → TrustCall

module _ (codec : Codec) {Contents : Type 0} (kc : KeychainBackend Contents) where
  unfoldable pub run_call : TrustCall → DeviceTrust Contents → DeviceTrust Contents × Outcome Unit
  run_call (add d) t = add_trusted_device codec kc d t
  run_call (merge ds mode) t = merge_trust_list codec kc ds mode t
  run_call (take_out id) t = remove_device codec kc id t
  run_call (anchor user_id) t = set_trust_anchor codec kc user_id t

-- What is encoded is decoded to the same store.
abbrev pub Decodes : Codec → Type 0
Decodes codec =
    (s : TrustStore) (bytes : Bytes) → codec.to_vec s ≡ ok bytes → codec.from_slice bytes ≡ ok s

module _ (codec : Codec) (decodes : Decodes codec) {Contents : Type 0}
    (kc : KeychainBackend Contents) (storing : Storing kc) where
  read_back :
      (k : String) (v : Bytes) (c : Contents)
      → (kc.set k v c).1 ≡ ok tt
      → kc.get k (kc.set k v c).0 ≡ ok (some v)
  read_back k v c h = ground (arith, storing.get-set k k v c, str_eq_refl k)

  load_or_create-persist :
      (t : DeviceTrust Contents) (trust_anchor : String)
      → (persist codec kc t).1 ≡ ok tt
      → load_or_create codec kc
          (persist codec kc t).0.keychain
          (persist codec kc t).0.user_id
          trust_anchor
        ≡ ok (persist codec kc t).0
  unfolding persist load_or_create load_store
  load_or_create-persist t trust_anchor = elim (Result-cases (codec.to_vec t.store)) [
    | inr (e, q) ↦ rw (persist, q) (λ h. cc)
    | inl (bytes, q) ↦
        rw (persist, q)
          (λ h.
            rw
              (
                load_store,
                read_back (trust_store_key t.user_id) bytes t.keychain h,
                decodes t.store bytes q,
              )
              refl)
  ]

  -- If the JSON library decodes what it has encoded, and in the keychain a write that succeeds
  -- has its effect and one that fails has none: after any call that succeeds, loading from the
  -- keychain gives exactly the trust that was in memory, whatever anchor is offered.
  pub load_or_create-run_call :
      (x : TrustCall) (t : DeviceTrust Contents) (trust_anchor : String)
      → (run_call codec kc x t).1 ≡ ok tt
      → load_or_create codec kc
          (run_call codec kc x t).0.keychain
          (run_call codec kc x t).0.user_id
          trust_anchor
        ≡ ok (run_call codec kc x t).0
  unfolding run_call add_trusted_device merge_trust_list remove_device set_trust_anchor
  load_or_create-run_call (add d) t a = load_or_create-persist _ a
  load_or_create-run_call (merge ds mode) t a = load_or_create-persist _ a
  load_or_create-run_call (take_out id) t a = load_or_create-persist _ a
  load_or_create-run_call (anchor user_id) t a = load_or_create-persist _ a
