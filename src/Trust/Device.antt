-- ===== src/Trust/Device.antt =====
-- trust.rs of the worker and of the client: the trust store of one user, kept in a keychain.
use mxdx.Prelude.{String, str_eq, Bool, List, [], ◌∷◌, Option, some, none}
use mxdx.Prelude.Bytes.{Bytes}
use mxdx.Prelude.Dict.{Dict}
use mxdx.Prelude.Results.{ok, err}
use mxdx.Trust.Keychain.{Outcome, KeychainBackend, trust_store_key}
use mxdx.Trust.Store.{TrustStore, TrustedDevice, CrossSigningMode, new, is_trusted, add_device}
use mxdx.Trust.Store

-- The library serde_json at the trust store.
pub record Codec : Type 0 where
  pub to_vec : TrustStore → Outcome Bytes
  pub from_slice : Bytes → Outcome TrustStore

-- `WorkerTrust` and `ClientTrust`, which have the same fields.
pub record DeviceTrust (Contents : Type 0) : Type 0 where
  pub store : TrustStore
  pub keychain : Contents
  pub user_id : String

-- `trusted_devices.retain(|k, _| k != device_id)`
abbrev pub retain_others : String → Dict TrustedDevice → Dict TrustedDevice
retain_others device_id [] = []
retain_others device_id ((k, d) ∷ m) = elim (str_eq k device_id) [
  | Bool.true ↦ retain_others device_id m
  | Bool.false ↦ (k, d) ∷ retain_others device_id m
]

abbrev pub values : Dict TrustedDevice → List TrustedDevice
values [] = []
values ((k, d) ∷ m) = d ∷ values m

module _ (codec : Codec) {Contents : Type 0} (kc : KeychainBackend Contents) where
  -- The trust of the user with what the keychain holds.
  unfoldable pub load_store :
      Contents → String → String → Outcome (Option Bytes) → Outcome (DeviceTrust Contents)
  load_store keychain user_id trust_anchor (err e) = err e
  load_store keychain user_id trust_anchor (ok none) =
      ok (record { store = new trust_anchor; keychain = keychain; user_id = user_id })
  load_store keychain user_id trust_anchor (ok (some data_)) = elim (codec.from_slice data_) [
    | err e ↦ err e
    | ok store ↦ ok (record { store = store; keychain = keychain; user_id = user_id })
  ]

  unfoldable pub load_or_create : Contents → String → String → Outcome (DeviceTrust Contents)
  load_or_create keychain user_id trust_anchor =
      load_store keychain user_id trust_anchor (kc.get (trust_store_key user_id) keychain)

  unfoldable pub persist : DeviceTrust Contents → DeviceTrust Contents × Outcome Unit
  persist t = elim (codec.to_vec t.store) [
    | err e ↦ (t, err e)
    | ok bytes ↦
        let (keychain, result) = kc.set (trust_store_key t.user_id) bytes t.keychain in
        (record t { keychain = keychain }, result)
  ]

  abbrev pub is_device_trusted : String → DeviceTrust Contents → Bool
  is_device_trusted device_id t = is_trusted device_id t.store

  unfoldable pub add_trusted_device :
      TrustedDevice → DeviceTrust Contents → DeviceTrust Contents × Outcome Unit
  add_trusted_device device t = persist (record t { store = add_device device t.store })

  unfoldable pub merge_trust_list :
      List TrustedDevice
      → CrossSigningMode
      → DeviceTrust Contents
      → DeviceTrust Contents × Outcome Unit
  merge_trust_list devices mode t =
      persist (record t { store = Store.merge_trust_list devices mode t.store })

  abbrev pub trust_anchor : DeviceTrust Contents → String
  trust_anchor t = t.store.trust_anchor

  -- The client's own operations.
  unfoldable pub list_trusted : DeviceTrust Contents → List TrustedDevice
  list_trusted t = values t.store.trusted_devices

  unfoldable pub remove_device : String → DeviceTrust Contents → DeviceTrust Contents × Outcome Unit
  remove_device device_id t = persist (record t {
    store = record t.store { trusted_devices = retain_others device_id t.store.trusted_devices };
  })

  unfoldable pub set_trust_anchor :
      String → DeviceTrust Contents → DeviceTrust Contents × Outcome Unit
  set_trust_anchor user_id t =
      persist (record t { store = record t.store { trust_anchor = user_id } })
