-- ===== src/Trust/Manual.antt =====
-- trust.rs: who is trusted after any calls, with every merge in manual mode.
use mxdx.Prelude.{
  ◌≡◌, refl, ap, ◌∙◌, String, str_eq, str_eq_iff, Bool, not, ◌&&◌, ◌||◌, List, [], ◌∷◌, arith,
}
use mxdx.Prelude.Dict.{Dict, contains_key}
use mxdx.Prelude.Maps.{contains_key-insert}
use mxdx.Trust.Keychain.{KeychainBackend}
use mxdx.Trust.Store.{TrustedDevice, manual, is_trusted, add_device, merge_trust_list}
use mxdx.Trust.Device.{
  Codec, DeviceTrust, persist, add_trusted_device, remove_device, retain_others, set_trust_anchor,
}
use mxdx.Trust.Device
use mxdx.Trust.Persisted.{TrustCall, add, merge, take_out, anchor, run_call}

-- Whether the device is trusted after a call in manual mode, from whether it was before.
abbrev pub trusted_then : String → TrustCall → Bool → Bool
trusted_then id (add d) before = str_eq d.device_id id || before
trusted_then id (merge ds mode) before = before
trusted_then id (take_out gone) before = not (str_eq gone id) && before
trusted_then id (anchor user_id) before = before

abbrev pub trusted_after : String → List TrustCall → Bool → Bool
trusted_after id [] before = before
trusted_after id (x ∷ xs) before = trusted_after id xs (trusted_then id x before)

-- Every merge is in manual mode.
abbrev pub IsManual : List TrustCall → Type 0
IsManual [] = Unit
IsManual (merge ds mode ∷ xs) = (mode ≡ manual) × IsManual xs
IsManual (add d ∷ xs) = IsManual xs
IsManual (take_out id ∷ xs) = IsManual xs
IsManual (anchor user_id ∷ xs) = IsManual xs

contains_key-retain_others :
    (gone id : String) (m : Dict TrustedDevice)
    → contains_key id (retain_others gone m) ≡ (not (str_eq gone id) && contains_key id m)
unfolding contains_key
contains_key-retain_others gone id [] = ground arith
contains_key-retain_others gone id ((k, d) ∷ m) = ground (
  arith,
  str_eq_iff k gone,
  str_eq_iff k id,
  str_eq_iff gone id,
  contains_key-retain_others gone id m,
)

module _ (codec : Codec) {Contents : Type 0} (kc : KeychainBackend Contents) where
  unfoldable pub run_calls : List TrustCall → DeviceTrust Contents → DeviceTrust Contents
  run_calls [] t = t
  run_calls (x ∷ xs) t = run_calls xs (run_call codec kc x t).0

  persist-store : (t : DeviceTrust Contents) → (persist codec kc t).0.store ≡ t.store
  unfolding persist
  persist-store t = ground arith

  call_trusts :
      (id : String) (x : TrustCall) (xs : List TrustCall) (t : DeviceTrust Contents)
      → IsManual (x ∷ xs)
      → (is_trusted id (run_call codec kc x t).0.store ≡ trusted_then id x (is_trusted id t.store))
        × IsManual xs
  unfolding run_call add_trusted_device remove_device set_trust_anchor is_trusted add_device
      merge_trust_list Device.merge_trust_list
  call_trusts id (add d) xs t h = (
    ground (
      arith,
      persist-store (record t { store = add_device d t.store }),
      contains_key-insert d.device_id id d t.store.trusted_devices,
    ),
    h,
  )
  call_trusts id (merge ds mode) xs t (q, h) = (rw q (ground (arith, persist-store t)), h)
  call_trusts id (take_out gone) xs t h = (
    ap (is_trusted id) (persist-store _)
        ∙ contains_key-retain_others gone id t.store.trusted_devices,
    h,
  )
  call_trusts id (anchor user_id) xs t h = (ap (is_trusted id) (persist-store _), h)

  -- If every merge is in manual mode: after any calls, whether they could be persisted or not, a
  -- device is trusted exactly if it was added, or was trusted from the start, and has not been
  -- taken out since; no merged list adds one.
  pub run_calls-is_trusted :
      (id : String) (xs : List TrustCall) (t : DeviceTrust Contents)
      → IsManual xs
      → is_trusted id (run_calls xs t).store ≡ trusted_after id xs (is_trusted id t.store)
  unfolding run_calls
  run_calls-is_trusted id [] t h = refl
  run_calls-is_trusted id (x ∷ xs) t h =
      let (q, h') = call_trusts id x xs t h in
      run_calls-is_trusted id xs (run_call codec kc x t).0 h' ∙ ap (trusted_after id xs) q
