-- ===== src/Secrets/Coordinator.antt =====
-- coordinator.rs of the secrets: the answer to a worker that asks for a secret.
use mxdx.Prelude.{
  ℕ, String, str_append, Bool, true, false, not, List, Option, some, none, if◌then◌else◌,
}
use mxdx.Prelude.Bytes.{Bytes}
use mxdx.Prelude.Texts.{contains}
use mxdx.Prelude.Results.{ok, err}
use mxdx.Secrets.Store.{Outcome, Library, SecretStore, find}

pub record SecretRequestEvent : Type 0 where
  pub request_id : String
  pub scope : String
  pub ttl_seconds : ℕ
  pub reason : String
  pub ephemeral_public_key : String

pub record SecretResponseEvent : Type 0 where
  pub request_id : String
  pub granted : Bool
  pub encrypted_value : Option Bytes
  pub error : Option String

pub record SecretCoordinator (Identity Recipient : Type 0) : Type 0 where
  pub store : SecretStore Identity Recipient
  pub authorized_scopes : List String

abbrev pub refuse : SecretRequestEvent → String → SecretResponseEvent
refuse request error = record {
  request_id = request.request_id;
  granted = false;
  encrypted_value = none;
  error = some error;
}

module _ {Identity Recipient : Type 0} (lib : Library Identity Recipient) where
  unfoldable pub answer_encrypted : SecretRequestEvent → Outcome Bytes → SecretResponseEvent
  answer_encrypted request (err e) = refuse request (str_append "encryption failed: " e)
  answer_encrypted request (ok ciphertext) = record {
    request_id = request.request_id;
    granted = true;
    encrypted_value = some (lib.encode ciphertext);
    error = none;
  }

  unfoldable pub answer_to : SecretRequestEvent → Bytes → Outcome Recipient → SecretResponseEvent
  answer_to request plaintext (err e) =
      refuse request (str_append "invalid ephemeral public key: " e)
  answer_to request plaintext (ok recipient) =
      answer_encrypted request (lib.encrypt recipient plaintext)

  unfoldable pub answer_found : SecretRequestEvent → Outcome (Option Bytes) → SecretResponseEvent
  answer_found request (err e) = refuse request (str_append "store error: " e)
  answer_found request (ok none) = refuse request (str_append "secret not found: " request.scope)
  answer_found request (ok (some plaintext)) =
      answer_to request plaintext (lib.parse request.ephemeral_public_key)

  unfoldable pub handle_secret_request :
      SecretRequestEvent → SecretCoordinator Identity Recipient → SecretResponseEvent
  handle_secret_request request c =
      if not (contains c.authorized_scopes request.scope)
      then refuse request (str_append "unauthorized scope: " request.scope)
      else answer_found request (find lib request.scope c.store)
