-- ===== src/Secrets/Release.antt =====
-- coordinator.rs of the secrets: what a response gives away, and to whom.
use mxdx.Prelude.{
  String, ◌≡◌, refl, sym, ap, ◌∙◌, inl, inr, true, false, Option, some, none, arith, Bool-cases,
  str_eq_refl,
}
use mxdx.Prelude.Bytes.{Bytes}
use mxdx.Prelude.Dict.{Dict, get, get-insert, insert}
use mxdx.Prelude.Texts.{contains}
use mxdx.Prelude.Results.{ok, err, Result-cases}
use mxdx.Secrets.Store.{Outcome, Library, SecretStore, add, find, read_plaintext}
use mxdx.Secrets.Coordinator.{
  SecretRequestEvent, SecretResponseEvent, SecretCoordinator, answer_encrypted, answer_to,
  answer_found, handle_secret_request,
}

get_own : (k : String) (v : Bytes) (m : Dict Bytes) → get k (insert k v m) ≡ some v
get_own k v m = ground (arith, get-insert k k v m, str_eq_refl k)

module _ {Identity Recipient : Type 0} (lib : Library Identity Recipient) where
  -- What a granted response holds: the value of the store, encrypted to the key of the request.
  pub record Grant (request : SecretRequestEvent) (found : Outcome (Option Bytes))
      (response : SecretResponseEvent) : Type 0 where
    pub plaintext : Bytes
    pub recipient : Recipient
    pub ciphertext : Bytes
    pub stored : found ≡ ok (some plaintext)
    pub key : lib.parse request.ephemeral_public_key ≡ ok recipient
    pub sealed : lib.encrypt recipient plaintext ≡ ok ciphertext
    pub sent : response.encrypted_value ≡ some (lib.encode ciphertext)

  abbrev pub Answered : SecretRequestEvent → Outcome (Option Bytes) → SecretResponseEvent → Type 0
  Answered request found response =
      (response.request_id ≡ request.request_id)
      × (response.granted ≡ true → Grant request found response)
      × (response.granted ≡ false → response.encrypted_value ≡ none)

  found-Answered :
      (request : SecretRequestEvent) (found : Outcome (Option Bytes))
      → Answered request found (answer_found lib request found)
  unfolding answer_found answer_to answer_encrypted
  found-Answered request (err e) = (refl, (λ h. cc), λ h. refl)
  found-Answered request (ok none) = (refl, (λ h. cc), λ h. refl)
  found-Answered request (ok (some v)) =
      elim (Result-cases (lib.parse request.ephemeral_public_key)) [
        | inr (e, q) ↦ rw (answer_to, q) (refl, (λ h. cc), λ h. refl)
        | inl (r, q) ↦ elim (Result-cases (lib.encrypt r v)) [
          | inr (e, p) ↦ rw (answer_to, q, answer_encrypted, p) (refl, (λ h. cc), λ h. refl)
          | inl (ct, p) ↦
              rw (answer_to, q, answer_encrypted, p)
                (
                  refl,
                  (λ h. record {
                    plaintext = v;
                    recipient = r;
                    ciphertext = ct;
                    stored = refl;
                    key = q;
                    sealed = p;
                    sent = refl;
                  }),
                  λ h. cc,
                )
        ]
      ]

  -- Every response names the request; a granted one is for an authorised scope, and what it sends
  -- is the value that the store holds for the scope, encrypted to the key of the request; any
  -- other sends no value.
  pub handle_secret_request-Grant :
      (request : SecretRequestEvent) (c : SecretCoordinator Identity Recipient)
      → let response = handle_secret_request lib request c in
        (response.request_id ≡ request.request_id)
        × (response.granted ≡ true
            → (contains c.authorized_scopes request.scope ≡ true)
              × Grant request (find lib request.scope c.store) response)
        × (response.granted ≡ false → response.encrypted_value ≡ none)
  unfolding handle_secret_request
  handle_secret_request-Grant request c =
      elim (Bool-cases (contains c.authorized_scopes request.scope)) [
        | inr n ↦ rw (handle_secret_request, n) (refl, (λ h. cc), λ h. refl)
        | inl y ↦
            let (i, g, f) = found-Answered request (find lib request.scope c.store) in
            rw (handle_secret_request, y) (i, (λ h. (refl, g h)), f)
      ]

  -- What is encrypted to the public key of an identity is decrypted by it, and base64 is undone.
  pub record Decrypts : Type 0 where
    pub decrypt-encrypt :
        (id : Identity) (v ct : Bytes)
        → lib.encrypt (lib.to_public id) v ≡ ok ct
        → lib.decrypt id ct ≡ ok v
    pub decode-encode : (b : Bytes) → lib.decode (lib.encode b) ≡ some b

  find-add :
      (s : SecretStore Identity Recipient) (key : String) (value : Bytes)
      → Decrypts
      → s.recipient ≡ lib.to_public s.identity
      → lib.is_utf8 value ≡ true
      → (add lib key value s).1 ≡ ok tt
      → find lib key (add lib key value s).0 ≡ ok (some value)
  unfolding add find read_plaintext
  find-add s key value d own u = elim (Result-cases (lib.encrypt s.recipient value)) [
    | inr (e, q) ↦ rw (add, q) (λ h. cc)
    | inl (ct, q) ↦
        rw (add, q)
          (λ h.
            rw
              (
                find,
                get_own key ct s.entries,
                d.decrypt-encrypt s.identity value ct (ap (λ r. lib.encrypt r value) (sym own) ∙ q),
                read_plaintext,
                u,
              )
              refl)
  ]

  -- If what is encrypted to the public key of an identity is decrypted by it, and base64 is
  -- undone: once a secret, a valid UTF-8 text, was added under an authorised scope of a store
  -- that has its own public key, a worker that asks with its public key, to which the library
  -- then encrypts the secret without an error, gets a response that decodes and decrypts, with
  -- its identity, to the value of the secret.
  pub worker_reads_secret :
      (c : SecretCoordinator Identity Recipient) (request : SecretRequestEvent) (w : Identity)
      (value ct : Bytes)
      → Decrypts
      → c.store.recipient ≡ lib.to_public c.store.identity
      → lib.is_utf8 value ≡ true
      → contains c.authorized_scopes request.scope ≡ true
      → lib.parse request.ephemeral_public_key ≡ ok (lib.to_public w)
      → lib.encrypt (lib.to_public w) value ≡ ok ct
      → let (store, added) = add lib request.scope value c.store in
        let response = handle_secret_request lib request (record c { store = store }) in
        added ≡ ok tt
        → (text : Bytes) × (response.encrypted_value ≡ some text)
          × (sealed : Bytes) × (lib.decode text ≡ some sealed)
          × (lib.decrypt w sealed ≡ ok value)
  unfolding handle_secret_request answer_found answer_to answer_encrypted
  worker_reads_secret c request w value ct d own u a k e h = (
    lib.encode ct,
    rw
        (
          handle_secret_request,
          a,
          find-add c.store request.scope value d own u h,
          answer_found,
          k,
          answer_to,
          e,
        )
        refl,
    ct,
    d.decode-encode ct,
    d.decrypt-encrypt w value ct e,
  )
