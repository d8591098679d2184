-- ===== src/Trust/Store.antt =====
-- mxdx-types, trust.rs: the trusted devices.
use mxdx.Prelude.{ℕ, String, Bool, List, [], ◌∷◌}
use mxdx.Prelude.Dict.{Dict, insert, remove, contains_key}
use mxdx.Prelude.Maps.{keys}

pub data CrossSigningMode : Type 0 where
  auto : CrossSigningMode
  manual : CrossSigningMode

pub record TrustedDevice : Type 0 where
  pub device_id : String
  pub user_id : String
  pub ed25519_key : String
  pub cross_signed_at : ℕ

pub record TrustStore : Type 0 where
  pub trust_anchor : String
  pub trusted_devices : Dict TrustedDevice

abbrev pub new : String → TrustStore
new trust_anchor = record { trust_anchor = trust_anchor; trusted_devices = [] }

unfoldable pub is_trusted : String → TrustStore → Bool
is_trusted device_id s = contains_key device_id s.trusted_devices

unfoldable pub add_device : TrustedDevice → TrustStore → TrustStore
add_device device s = record s {
  trusted_devices = insert device.device_id device s.trusted_devices;
}

unfoldable pub remove_device : String → TrustStore → TrustStore
remove_device device_id s = record s { trusted_devices = remove device_id s.trusted_devices }

unfoldable pub trusted_device_ids : TrustStore → List String
trusted_device_ids s = keys s.trusted_devices

unfoldable pub add_devices : List TrustedDevice → TrustStore → TrustStore
add_devices [] s = s
add_devices (d ∷ ds) s = add_devices ds (add_device d s)

unfoldable pub merge_trust_list : List TrustedDevice → CrossSigningMode → TrustStore → TrustStore
merge_trust_list devices auto s = add_devices devices s
merge_trust_list devices manual s = s
