-- ===== src/Trust/Tests.antt =====
-- Trust and keychains at concrete inputs.
use mxdx.Prelude.{
  ◌≡◌, refl, ap, String, str_eq, str_eq_iff, Bool, ◌&&◌, List, [], ◌∷◌, if◌then◌else◌, ◌==◌, arith,
}
use mxdx.Prelude.Bytes.{Bytes}
use mxdx.Prelude.Dict.{Dict, get, insert}
use mxdx.Prelude.Results.{ok, err}
use mxdx.Trust.Keychain.{Outcome, KeychainBackend, in_memory, chain_get, chain_set}
use mxdx.Trust.Chain.{in_memory-Storing, read_after, chain_get-chain_set}
use mxdx.Trust.Store.{TrustStore, TrustedDevice, manual, is_trusted, add_device, new}
use mxdx.Trust.Device.{Codec, DeviceTrust, load_or_create, persist, add_trusted_device}
use mxdx.Trust.Persisted.{
  TrustCall, add, merge, take_out, Decodes, run_call, load_or_create-run_call,
}
use mxdx.Trust.Manual.{trusted_after, run_calls, run_calls-is_trusted}

abbrev laptop : TrustedDevice
laptop = record { device_id = "D1"; user_id = "@u:x"; ed25519_key = "k"; cross_signed_at = 7 }

abbrev with_laptop : TrustStore
with_laptop = record { trust_anchor = "@u:x"; trusted_devices = ("D1", laptop) ∷ [] }

-- A codec of just one store.
unfoldable is_laptop : String → TrustedDevice → Bool
is_laptop k d =
    str_eq k "D1"
    && str_eq d.device_id "D1"
    && str_eq d.user_id "@u:x"
    && str_eq d.ed25519_key "k"
    && d.cross_signed_at == 7

unfoldable encode_parts : String → Dict TrustedDevice → Outcome Bytes
encode_parts a [] = err "no device"
encode_parts a ((k, d) ∷ []) =
    if str_eq a "@u:x" && is_laptop k d then ok (1 ∷ []) else err "another device"
encode_parts a (x ∷ y ∷ m) = err "too many"

abbrev encode : TrustStore → Outcome Bytes
encode s = encode_parts s.trust_anchor s.trusted_devices

abbrev codec : Codec
codec = record { to_vec = encode; from_slice = λ bytes. ok with_laptop }

parts_decode :
    (a : String) (m : Dict TrustedDevice) (bytes : Bytes)
    → encode_parts a m ≡ ok bytes
    → with_laptop ≡ record { trust_anchor = a; trusted_devices = m }
unfolding encode_parts is_laptop
parts_decode a [] bytes h = cc
parts_decode a ((k, d) ∷ []) bytes h = ground (
  arith,
  str_eq_iff a "@u:x",
  str_eq_iff k "D1",
  str_eq_iff d.device_id "D1",
  str_eq_iff d.user_id "@u:x",
  str_eq_iff d.ed25519_key "k",
)
parts_decode a (x ∷ y ∷ m) bytes h = cc

codec-Decodes : Decodes codec
codec-Decodes s bytes h = ap ok (parts_decode s.trust_anchor s.trusted_devices bytes h)

abbrev fresh : DeviceTrust (Dict Bytes)
fresh = record { store = new "@u:x"; keychain = []; user_id = "@u:x" }

load_or_create-run_call_example :
    load_or_create codec in_memory
      (run_call codec in_memory (add laptop) fresh).0.keychain
      (run_call codec in_memory (add laptop) fresh).0.user_id
      "@other:x"
    ≡ ok (run_call codec in_memory (add laptop) fresh).0
unfolding run_call add_trusted_device persist encode_parts is_laptop add_device insert
load_or_create-run_call_example =
    load_or_create-run_call codec codec-Decodes in_memory in_memory-Storing (add laptop) fresh
      "@other:x" refl

abbrev asked : List TrustCall
asked = merge (laptop ∷ []) manual ∷ add laptop ∷ take_out "D2" ∷ []

run_calls-is_trusted_example :
    is_trusted "D1" (run_calls codec in_memory asked fresh).store
    ≡ trusted_after "D1" asked (is_trusted "D1" fresh.store)
run_calls-is_trusted_example = run_calls-is_trusted codec in_memory "D1" asked fresh (refl, tt)

-- A keychain that refuses to write.
abbrev read_only : KeychainBackend (Dict Bytes)
read_only = record {
  get = λ key m. ok (get key m);
  set = λ key value m. (m, err "locked");
  delete = λ key m. (m, err "locked");
}

chain_get-chain_set_example :
    chain_get read_only in_memory "k"
      (chain_set read_only in_memory "k" (2 ∷ []) (("k", 1 ∷ []) ∷ [], [])).0
    ≡ (if str_eq "k" "k"
        then read_after (err "locked") (ok (get "k" (("k", 1 ∷ []) ∷ []))) (2 ∷ [])
        else chain_get read_only in_memory "k" (("k", 1 ∷ []) ∷ [], []))
unfolding chain_set
chain_get-chain_set_example =
    chain_get-chain_set read_only in_memory
      (record { get-set = λ k j v m. refl; get-delete = λ k j m. refl }) in_memory-Storing "k" "k"
      (2 ∷ []) (("k", 1 ∷ []) ∷ []) [] refl
