-- ===== src/Secrets/Store.antt =====
-- store.rs: values that are kept encrypted to the holder's own key. A text is the list of its bytes
-- where it is a value, and a text where it is a key.
use mxdx.Prelude.{String, Bool, List, [], ◌∷◌, Option, some, none, if◌then◌else◌}
use mxdx.Prelude.Bytes.{Bytes}
use mxdx.Prelude.Dict.{Dict, get, insert}
use mxdx.Prelude.Results.{Result, ok, err}

-- An error is the text that it displays, which is that of its outermost context.
abbrev pub Outcome : Type 0 → Type 0
Outcome = Result {0, 0} String

-- The libraries age, base64 and serde_json, and the test of the encoding of a text.
pub record Library (Identity Recipient : Type 0) : Type 0 where
  pub to_public : Identity → Recipient
  pub parse : String → Outcome Recipient
  pub encrypt : Recipient → Bytes → Outcome Bytes
  pub decrypt : Identity → Bytes → Outcome Bytes
  pub is_utf8 : Bytes → Bool
  pub encode : Bytes → Bytes
  pub decode : Bytes → Option Bytes
  pub to_vec : List (String × Bytes) → Outcome Bytes
  pub from_slice : Bytes → Outcome (List (String × Bytes))

pub record SecretStore (Identity Recipient : Type 0) : Type 0 where
  pub identity : Identity
  pub recipient : Recipient
  pub entries : Dict Bytes

module _ {Identity Recipient : Type 0} (lib : Library Identity Recipient) where
  unfoldable pub new : Identity → SecretStore Identity Recipient
  new identity = record { identity = identity; recipient = lib.to_public identity; entries = [] }

  unfoldable pub add :
      String
      → Bytes
      → SecretStore Identity Recipient
      → SecretStore Identity Recipient × Outcome Unit
  add key value s = elim (lib.encrypt s.recipient value) [
    | err e ↦ (s, err "failed to encrypt secret")
    | ok encrypted ↦ (record s { entries = insert key encrypted s.entries }, ok tt)
  ]

  unfoldable pub read_plaintext : Outcome Bytes → Outcome (Option Bytes)
  read_plaintext (err e) = err "failed to decrypt secret"
  read_plaintext (ok decrypted) =
      if lib.is_utf8 decrypted
      then ok (some decrypted)
      else err "decrypted value is not valid UTF-8"

  unfoldable pub find : String → SecretStore Identity Recipient → Outcome (Option Bytes)
  find key s = elim (get key s.entries) [
    | none ↦ ok none
    | some encrypted ↦ read_plaintext (lib.decrypt s.identity encrypted)
  ]

  unfoldable pub serialize : SecretStore Identity Recipient → Outcome Bytes
  serialize s = elim (lib.to_vec s.entries) [
    | err e ↦ err "failed to serialize store"
    | ok bytes ↦ ok bytes
  ]

  -- `collect` into a map: of two entries with one key the later one stays.
  unfoldable pub collect_entries : List (String × Bytes) → Dict Bytes → Dict Bytes
  collect_entries [] m = m
  collect_entries ((k, v) ∷ es) m = collect_entries es (insert k v m)

  unfoldable pub deserialize : Bytes → Identity → Outcome (SecretStore Identity Recipient)
  deserialize data_ identity = elim (lib.from_slice data_) [
    | err e ↦ err "failed to deserialize store"
    | ok entries ↦ ok (record {
      identity = identity;
      recipient = lib.to_public identity;
      entries = collect_entries entries [];
    })
  ]
