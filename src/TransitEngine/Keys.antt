-- ===== src/TransitEngine/Keys.antt =====
-- coordinator/internal/transitengineapi: who may use a key, and that what is encrypted with it comes
-- back.
use contrast.Prelude.{
  some_or, some_or-eq-ok, guard-eq-ok, Bytes, bytes_equal, eq_of_bytes_equal, Result, ok, err,
  ◌>>=◌, >>=-eq-ok, Option, none, some, ℕ, ◌<◌, List, [], ◌∷◌, length, ◌≡◌, refl, sym, ap, subst,
  arith,
}
use contrast.Store.{Store}
use contrast.Guard.{Env, Guard}
use contrast.TransitEngine.{
  Aead, CiphertextContainer, EncryptionRequest, DecryptionRequest, Request, Response, answered,
  refused, HttpError, forbidden, bad_request, internal_server_error, ◌>>>=◌, or_refused,
  aes_gcm_nonce_size, validate_content_type, parse_request, authorize_workload_secret, authorized,
  derive_encryption_key, symmetric_encrypt_raw, symmetric_decrypt_raw, marshal_container,
  unmarshal_container, encrypt, decrypt, named, open_container, decrypt_request, decrypt_named,
  seal_with, encrypt_request, encrypt_named,
}
use contrast.TransitEngine.Derivation.{IsKeyOf, derive_encryption_key-IsKeyOf}
use contrast.TransitEngine.Containers.{AeadLaws, unmarshal-marshal_container}

-- The first extension of the client's first certificate is the name in the path.
pub record IsAuthorized {B : Type 0} (r : Request B) : Type 0 where
  pub extensions : List (Option Bytes)
  pub certificates : List (List (Option Bytes))
  pub presented : r.client_certificates ≡ (some r.name ∷ extensions) ∷ certificates

-- What a client sends to have a container decrypted that it got for a request.
abbrev pub decryption_of :
    Request EncryptionRequest → EncryptionRequest → CiphertextContainer → Request DecryptionRequest
decryption_of r req c = record {
  name = r.name;
  content_type = r.content_type;
  body = some (record { ciphertext_container = some c; associated_data = req.associated_data });
  client_certificates = r.client_certificates;
}

>>>=-eq-answered :
    {A B : Type 0} (m : Response A) (f : A → Response B) {b : B}
    → m >>>= f ≡ answered b
    → (a : A) × (m ≡ answered a) × (f a ≡ answered b)
>>>=-eq-answered (answered a) f h = (a, refl, h)
>>>=-eq-answered (refused e) f h = cc

or_refused-eq-answered :
    {A : Type 0} (e : HttpError) (m : Result A) {a : A} → or_refused e m ≡ answered a → m ≡ ok a
or_refused-eq-answered e (ok a) h = cc
or_refused-eq-answered e (err x) h = cc

-- Both at once: an answer has passed the step.
step_passed :
    {A B : Type 0} (e : HttpError) (m : Result A) (f : A → Response B) {b : B}
    → or_refused e m >>>= f ≡ answered b
    → (a : A) × (m ≡ ok a) × (f a ≡ answered b)
step_passed e m f h =
    let (a, p, q) = >>>=-eq-answered (or_refused e m) f h in (a, or_refused-eq-answered e m p, q)

authorize_inv :
    (name : Bytes) (certs : List (List (Option Bytes))) {u : Unit {0}}
    → authorize_workload_secret name certs ≡ ok u
    → (exts : List (Option Bytes)) × (more : List (List (Option Bytes))) × (certs
        ≡ (some name ∷ exts) ∷ more)
unfolding authorize_workload_secret
authorize_inv name [] h = cc
authorize_inv name ([] ∷ more) h = cc
authorize_inv name ((none ∷ exts) ∷ more) h = cc
authorize_inv name ((some id ∷ exts) ∷ more) h = (
  exts,
  more,
  ap (λ x. (some x ∷ exts) ∷ more)
      (sym (eq_of_bytes_equal name id (guard-eq-ok (bytes_equal name id) _ h))),
)

authorized_inv :
    {A B : Type 0} (r : Request B) (next : Request B → Response A) {a : A}
    → authorized r next ≡ answered a
    → IsAuthorized r × (next r ≡ answered a)
unfolding authorized
authorized_inv r next h =
    let (u, p, q) =
      step_passed forbidden (authorize_workload_secret r.name r.client_certificates) (λ _. next r)
        h in
    let (exts, more, e) = authorize_inv r.name r.client_certificates p in
    (record { extensions = exts; certificates = more; presented = e }, q)

module _ (aead : Aead) {S : Type 0} (store : Store S) (env : Env)
    (random_bytes : ℕ → ℕ → Option Bytes) where
  -- What a successful encryption has done, step by step.
  record Encryption (rand : ℕ) (g : Guard S) (r : Request EncryptionRequest)
      (req : EncryptionRequest) (c : CiphertextContainer) : Type 0 where
    pub permitted : authorize_workload_secret r.name r.client_certificates ≡ ok tt
    pub has_name : named aead store env random_bytes r ≡ ok tt
    pub is_json : validate_content_type r.content_type ≡ ok tt
    pub key : Bytes
    pub derived :
        derive_encryption_key aead store env random_bytes g req.key_version r.name ≡ ok key
    pub drawn : random_bytes rand aes_gcm_nonce_size ≡ some c.nonce
    pub sealed : aead.seal key c.nonce req.plaintext req.associated_data ≡ some c.ciphertext
    pub versioned : c.key_version ≡ req.key_version

  -- The last step, by what was drawn and what was sealed.
  text_inv :
      (nonce : Bytes) (version : ℕ) (text : Option Bytes) {c : CiphertextContainer}
      → or_refused internal_server_error
            (some_or text >>= λ t. ok (record { nonce = nonce; ciphertext = t; key_version = 0 }))
          >>>= (λ (c : CiphertextContainer). answered (record c { key_version = version }))
        ≡ answered c
      → (nonce ≡ c.nonce) × (text ≡ some c.ciphertext) × (c.key_version ≡ version)
  text_inv nonce version none h = cc
  text_inv nonce version (some t) h = ground arith

  nonce_inv :
      (random : Option Bytes) (req : EncryptionRequest) (key : Bytes) {c : CiphertextContainer}
      → or_refused internal_server_error
            (symmetric_encrypt_raw aead random key req.plaintext req.associated_data)
          >>>= (λ (c : CiphertextContainer). answered (record c { key_version = req.key_version }))
        ≡ answered c
      → (random ≡ some c.nonce)
        × (aead.seal key c.nonce req.plaintext req.associated_data ≡ some c.ciphertext)
        × (c.key_version ≡ req.key_version)
  unfolding symmetric_encrypt_raw
  nonce_inv none req key h = cc
  nonce_inv (some nonce) req key {c} h =
      let (n, t, v) =
        text_inv nonce req.key_version (aead.seal key nonce req.plaintext req.associated_data) h in
      (
        ap some n,
        subst (λ m. aead.seal key m req.plaintext req.associated_data ≡ some c.ciphertext) n t,
        v,
      )

  encryption :
      (rand : ℕ) (g : Guard S) (r : Request EncryptionRequest) (req : EncryptionRequest)
      {c : CiphertextContainer}
      → r.body ≡ some req
      → encrypt aead store env random_bytes rand g r ≡ answered c
      → Encryption rand g r req c
  unfolding encrypt authorized parse_request
  encryption rand g r req {c} body h =
      let named_part = named aead store env random_bytes r in
      let rest = encrypt_named aead store env random_bytes rand g r in
      let request = encrypt_request aead store env random_bytes rand g r.name in
      let derive = derive_encryption_key aead store env random_bytes g req.key_version r.name in
      let (a, permitted, h1) =
        step_passed forbidden (authorize_workload_secret r.name r.client_certificates)
          (λ _. or_refused bad_request named_part >>>= λ _. rest) h in
      let (b, has_name, h2) = step_passed bad_request named_part (λ _. rest) h1 in
      let (parsed, p, h3) = step_passed bad_request (parse_request r) request h2 in
      let (d, is_json, p1) =
        >>=-eq-ok (validate_content_type r.content_type) (λ _. some_or r.body) p in
      let e : parsed ≡ req = cc (some_or-eq-ok r.body p1) in
      let h4 = subst (λ q. request q ≡ answered c) e h3 in
      let (key, derived, h5) =
        step_passed internal_server_error derive (seal_with aead store env random_bytes rand req)
          h4 in
      let (drawn, sealed, versioned) =
        nonce_inv (random_bytes rand aes_gcm_nonce_size) req key h5 in
      record {
        permitted = permitted;
        has_name = has_name;
        is_json = is_json;
        key = key;
        derived = derived;
        drawn = drawn;
        sealed = sealed;
        versioned = versioned;
      }

  -- The encryption handler answers only a client whose certificate has, as its first workload secret
  -- extension, the name in the path. The container's text is the plaintext, sealed under the key of
  -- that name and of the requested version, which HKDF makes from the transit engine's seed of the
  -- current state. The container is read back from its text, and what it holds is decrypted for the
  -- same client with the same associated data at the same state of the Coordinator. Versions are
  -- below 2^32, and a nonce that is drawn has its length.
  pub decrypt-encrypt :
      AeadLaws aead
      → ((r n : ℕ) (b : Bytes) → random_bytes r n ≡ some b → length b ≡ n)
      → (rand : ℕ) (g : Guard S) (r : Request EncryptionRequest) (req : EncryptionRequest)
        {c : CiphertextContainer}
      → r.body ≡ some req
      → req.key_version < 4_294_967_296
      → encrypt aead store env random_bytes rand g r ≡ answered c
      → IsAuthorized r
        × ((key : Bytes) × IsKeyOf aead store env random_bytes g req.key_version r.name key
            × (aead.seal key c.nonce req.plaintext req.associated_data ≡ some c.ciphertext))
        × (unmarshal_container aead (marshal_container aead c) ≡ ok c)
        × (decrypt aead store env random_bytes g (decryption_of r req c) ≡ answered req.plaintext)
  unfolding decrypt parse_request symmetric_decrypt_raw authorized encrypt
  decrypt-encrypt laws random rand g r req {c} body small h =
      let e = encryption rand g r req body h in
      let (exts, more, presented) = authorize_inv r.name r.client_certificates e.permitted in
      let version : c.key_version < 4_294_967_296 = omega (arith, e.versioned) in
      let derived' : derive_encryption_key aead store env random_bytes g c.key_version r.name
          ≡ ok e.key =
        rw e.versioned e.derived in
      let opened =
        laws.open-seal e.key c.nonce req.plaintext req.associated_data c.ciphertext e.sealed in
      (
        record { extensions = exts; certificates = more; presented = presented },
        (
          e.key,
          derive_encryption_key-IsKeyOf aead store env random_bytes g req.key_version r.name
              e.derived,
          e.sealed,
        ),
        unmarshal-marshal_container aead laws c (random rand aes_gcm_nonce_size c.nonce e.drawn)
            version,
        rw (e.permitted, e.has_name, e.is_json, derived', opened) refl,
      )

  -- What a container was opened with.
  pub record IsOpened (g : Guard S) (r : Request DecryptionRequest) (plaintext : Bytes)
      : Type 0 where
    pub req : DecryptionRequest
    pub c : CiphertextContainer
    pub key : Bytes
    pub asked : r.body ≡ some req
    pub given : req.ciphertext_container ≡ some c
    pub derived : derive_encryption_key aead store env random_bytes g c.key_version r.name ≡ ok key
    pub is_key : IsKeyOf aead store env random_bytes g c.key_version r.name key
    pub opened : aead.open_sealed key c.nonce c.ciphertext req.associated_data ≡ some plaintext

  -- The decryption handler answers only a client whose certificate has, as its first workload secret
  -- extension, the name in the path, and only with what the key of that name and of the container's
  -- version opens, under the associated data of the request.
  pub decrypt-IsOpened :
      (g : Guard S) (r : Request DecryptionRequest) {plaintext : Bytes}
      → decrypt aead store env random_bytes g r ≡ answered plaintext
      → IsAuthorized r × IsOpened g r plaintext
  unfolding decrypt parse_request symmetric_decrypt_raw
  decrypt-IsOpened g r {plaintext} h =
      let named_part = named aead store env random_bytes r in
      let rest = decrypt_named aead store env random_bytes g r in
      let (authorised, h1) =
        authorized_inv r (λ _. or_refused bad_request named_part >>>= λ _. rest) h in
      let (b, has_name, h2) = step_passed bad_request named_part (λ _. rest) h1 in
      let (req, p, h3) =
        step_passed bad_request (parse_request r)
          (decrypt_request aead store env random_bytes g r.name) h2 in
      let (d, is_json, p1) =
        >>=-eq-ok (validate_content_type r.content_type) (λ _. some_or r.body) p in
      let (c, given, h4) =
        step_passed bad_request (some_or req.ciphertext_container)
          (open_container aead store env random_bytes g r.name req.associated_data) h3 in
      let (key, derived, h5) =
        step_passed internal_server_error
          (derive_encryption_key aead store env random_bytes g c.key_version r.name)
          (λ key. or_refused bad_request (symmetric_decrypt_raw aead key c req.associated_data))
          h4 in
      let opened =
        or_refused-eq-answered bad_request (symmetric_decrypt_raw aead key c req.associated_data)
          h5 in
      (
        authorised,
        record {
          req = req;
          c = c;
          key = key;
          asked = some_or-eq-ok r.body p1;
          given = some_or-eq-ok req.ciphertext_container given;
          derived = derived;
          is_key =
              derive_encryption_key-IsKeyOf aead store env random_bytes g c.key_version r.name
                derived;
          opened =
              some_or-eq-ok (aead.open_sealed key c.nonce c.ciphertext req.associated_data) opened;
        },
      )
