-- ===== src/Secrets/Tests.antt =====
-- Secrets with a toy library.
use mxdx.Prelude.{◌≡◌, refl, sym, ap, true, false, [], ◌∷◌, some, none, ℕ}
use mxdx.Prelude.Bytes.{Bytes}
use mxdx.Prelude.Dict.{get, insert}
use mxdx.Prelude.Texts.{contains}
use mxdx.Prelude.Results.{ok, err, ok-injective}
use mxdx.Secrets.Store.{Outcome, Library, add, find, read_plaintext}
use mxdx.Secrets.Coordinator.{
  SecretRequestEvent, SecretCoordinator, handle_secret_request, answer_found, answer_to,
  answer_encrypted,
}
use mxdx.Secrets.Release.{Grant, Decrypts, handle_secret_request-Grant, worker_reads_secret}

-- Sealing puts the recipient in front of the value.
abbrev unseal : Bytes → Outcome Bytes
unseal [] = err "empty"
unseal (x ∷ b) = ok b

-- An identity is its own public key, and every text is that of the key 7.
abbrev toy : Library ℕ ℕ
toy = record {
  to_public = λ id. id;
  parse = λ t. ok 7;
  encrypt = λ r v. ok (r ∷ v);
  decrypt = λ id b. unseal b;
  is_utf8 = λ b. true;
  encode = λ b. b;
  decode = λ b. some b;
  to_vec = λ es. err "not needed";
  from_slice = λ b. err "not needed";
}

unseals : (r : ℕ) (v ct : Bytes) → ◌≡◌ {A = Outcome Bytes} (ok (r ∷ v)) (ok ct) → unseal ct ≡ ok v
unseals r v ct h = ap unseal (sym (ok-injective (r ∷ v) ct h))

toy-Decrypts : Decrypts toy
toy-Decrypts = record { decrypt-encrypt = unseals; decode-encode = λ b. refl }

abbrev desk : SecretCoordinator ℕ ℕ
desk = record {
  store = record { identity = 3; recipient = 3; entries = [] };
  authorized_scopes = "db" ∷ [];
}

abbrev request : SecretRequestEvent
request = record {
  request_id = "r1";
  scope = "db";
  ttl_seconds = 60;
  reason = "deploy";
  ephemeral_public_key = "age1";
}

-- The value comes sealed to the key 7 of the worker.
released :
    (handle_secret_request toy request
      (record desk { store = (add toy "db" (5 ∷ []) desk.store).0 })).encrypted_value
    ≡ some (7 ∷ 5 ∷ [])
unfolding handle_secret_request contains add insert find get read_plaintext answer_found answer_to
    answer_encrypted
released = refl

worker_reads_secret_example :
    (text : Bytes) × ((handle_secret_request toy request
        (record desk { store = (add toy "db" (5 ∷ []) desk.store).0 })).encrypted_value
      ≡ some text)
    × (sealed : Bytes) × (toy.decode text ≡ some sealed)
    × (toy.decrypt 7 sealed ≡ ok (5 ∷ []))
unfolding contains add
worker_reads_secret_example =
    worker_reads_secret toy desk request 7 (5 ∷ []) (7 ∷ 5 ∷ []) toy-Decrypts refl refl refl refl
      refl refl

handle_secret_request-Grant_example :
    let response = handle_secret_request toy request desk in
    (response.request_id ≡ request.request_id)
    × (response.granted ≡ true
        → (contains desk.authorized_scopes request.scope ≡ true)
          × Grant toy request (find toy request.scope desk.store) response)
    × (response.granted ≡ false → response.encrypted_value ≡ none)
handle_secret_request-Grant_example = handle_secret_request-Grant toy request desk
