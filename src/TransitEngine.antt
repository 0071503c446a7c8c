-- ===== src/TransitEngine.antt =====
-- coordinator/internal/transitengineapi/crypto.go and transitengineapi.go: encryption for workloads.
-- The JSON text of a ciphertext is a string in quotes; what stands here is the string. The server's
-- TLS settings and the logging are not modelled.
pub mod Containers
pub mod Derivation
pub mod Keys
use contrast.Prelude.{
  some_or, has_prefix, is_empty, Bytes, codes, bytes_equal, Result, ok, err, other, ◌>>=◌, Option,
  none, some, Bool, true, false, not, ℕ, ◌+◌, List, [], ◌∷◌, ◌++◌, length, take, drop, ltb, leb,
  ◌==◌, if◌then◌else◌, guard, get_elem?,
}
use contrast.Prelude.Decimals.{format_decimal, parse_decimal, is_digit}
use contrast.Store.{Store}
use contrast.SeedEngine
use contrast.Guard.{Env, State, Guard, Answer, fresh, failed}
use contrast.Guard.Methods.{get_state}

-- crypto/aes with crypto/cipher's GCM, of a key, a nonce, and associated data; encoding/base64.
pub record Aead : Type 0 where
  pub seal : Bytes → Bytes → Bytes → Bytes → Option Bytes
  pub open_sealed : Bytes → Bytes → Bytes → Bytes → Option Bytes
  pub to_base64 : Bytes → Bytes
  pub from_base64 : Bytes → Option Bytes

abbrev pub aes_gcm_nonce_size : ℕ
aes_gcm_nonce_size = 12

abbrev pub aes_gcm_key_size : ℕ
aes_gcm_key_size = 32

pub record CiphertextContainer : Type 0 where
  pub nonce : Bytes
  pub ciphertext : Bytes
  pub key_version : ℕ

pub record EncryptionRequest : Type 0 where
  pub plaintext : Bytes
  pub key_version : ℕ
  pub associated_data : Bytes

pub record DecryptionRequest : Type 0 where
  pub ciphertext_container : Option CiphertextContainer
  pub associated_data : Bytes

-- What the handlers read of an HTTP request: the `{name}` of the path, the Content-Type, the body as
-- encoding/json reads it, and the workload secret extensions of the client's certificates, as
-- encoding/asn1 reads them.
pub record Request (B : Type 0) : Type 0 where
  pub name : Bytes
  pub content_type : Bytes
  pub body : Option B
  pub client_certificates : List (List (Option Bytes))

pub data HttpError : Type 0 where
  bad_request forbidden internal_server_error : HttpError

pub data Response (A : Type 0) : Type 0 where
  answered : A → Response A
  refused : HttpError → Response A

infixl 5 ◌>>>=◌
abbrev pub ◌>>>=◌ : {A B : Type 0} → Response A → (A → Response B) → Response B
answered a >>>= f = f a
refused e >>>= f = refused e

abbrev pub or_refused : {A : Type 0} → HttpError → Result A → Response A
or_refused e (ok a) = answered a
or_refused e (err x) = refused e

-- validateContentType
unfoldable pub validate_content_type : Bytes → Result (Unit {0})
validate_content_type [] = ok tt
validate_content_type (c ∷ s) = guard (has_prefix (codes "application/json") (c ∷ s)) (other 0)

-- parseRequest
unfoldable pub parse_request : {B : Type 0} → Request B → Result B
unfolding validate_content_type
parse_request r = do _ ← validate_content_type r.content_type; some_or r.body

-- extractWorkloadSecretExtension: the first extension counts.
unfoldable pub extract_workload_secret_extension : List (Option Bytes) → Result Bytes
extract_workload_secret_extension [] = err (other 1)
extract_workload_secret_extension (ext ∷ exts) = some_or ext

-- authorizeWorkloadSecret
unfoldable pub authorize_workload_secret : Bytes → List (List (Option Bytes)) → Result (Unit {0})
unfolding extract_workload_secret_extension
authorize_workload_secret name [] = err (other 2)
authorize_workload_secret name (cert ∷ certs) = do
  id ← extract_workload_secret_extension cert
  guard (bytes_equal name id) (other 3)

-- authorizationMiddleware
unfoldable pub authorized : {A B : Type 0} → Request B → (Request B → Response A) → Response A
unfolding authorize_workload_secret
authorized r next =
    or_refused forbidden (authorize_workload_secret r.name r.client_certificates) >>>= λ _. next r

-- The text before and after the first colon.
abbrev after_colon : Bool → ℕ → Bytes → Option (Bytes × Bytes) → Option (Bytes × Bytes)
after_colon true c s rest = some ([], s)
after_colon false c s none = none
after_colon false c s (some (a, b)) = some (c ∷ a, b)

unfoldable pub split_colon : Bytes → Option (Bytes × Bytes)
split_colon [] = none
split_colon (c ∷ s) = after_colon (c == b':') c s (split_colon s)

-- strconv.ParseUint(digits, 10, 32) where the text is `v` and digits.
abbrev in_32_bits : Option ℕ → Result ℕ
in_32_bits none = err (other 4)
in_32_bits (some n) = if ltb n 4_294_967_296 then ok n else err (other 5)

-- extractVersion
unfoldable pub extract_version : Bytes → Result ℕ
extract_version [] = err (other 4)
extract_version (c ∷ digits) =
    if c == b'v' then in_32_bits (parse_decimal digits) else err (other 4)

module _ (aead : Aead) where
  -- MarshalJSON
  unfoldable pub marshal_container : CiphertextContainer → Bytes
  marshal_container c =
      codes "vault:"
      ++ (b'v' ∷ format_decimal c.key_version ++ (b':' ∷ aead.to_base64 (c.nonce ++ c.ciphertext)))

  abbrev pub cut_nonce : ℕ → Bytes → Result CiphertextContainer
  cut_nonce version full =
      if ltb (length full) aes_gcm_nonce_size
      then err (other 6)
      else ok (record {
        nonce = take aes_gcm_nonce_size full;
        ciphertext = drop aes_gcm_nonce_size full;
        key_version = version;
      })

  -- UnmarshalJSON: strings.SplitN(encoded, ":", 3), of which the first part is not looked at.
  unfoldable pub unmarshal_container : Bytes → Result CiphertextContainer
  unfolding extract_version split_colon
  unmarshal_container encoded = do
    first ← some_or (split_colon encoded)
    second ← some_or (split_colon first.1)
    version ← extract_version second.0
    full ← some_or (aead.from_base64 second.1)
    cut_nonce version full

  -- symmetricEncryptRaw; the version is filled in by the handler.
  unfoldable pub symmetric_encrypt_raw :
      Option Bytes → Bytes → Bytes → Bytes → Result CiphertextContainer
  symmetric_encrypt_raw random key plaintext associated_data = do
    nonce ← some_or random
    text ← some_or (aead.seal key nonce plaintext associated_data)
    ok (record { nonce = nonce; ciphertext = text; key_version = 0 })

  -- symmetricDecryptRaw
  unfoldable pub symmetric_decrypt_raw : Bytes → CiphertextContainer → Bytes → Result Bytes
  symmetric_decrypt_raw key c associated_data =
      some_or (aead.open_sealed key c.nonce c.ciphertext associated_data)

  module _ {S : Type 0} (store : Store S) (env : Env)
      -- crypto/rand.Read into a slice of a length
      (random_bytes : ℕ → ℕ → Option Bytes) where
    abbrev pub state_at : Guard S → Answer → Result State
    state_at g (fresh p) = some_or (get_elem? g.states p)
    state_at g _ = err (other 7)

    abbrev pub cut_key : Bytes → Result Bytes
    cut_key key =
        if ltb (length key) aes_gcm_key_size then err (other 8) else ok (take aes_gcm_key_size key)

    -- deriveEncryptionKey
    unfoldable pub derive_encryption_key : Guard S → ℕ → Bytes → Result Bytes
    derive_encryption_key g version name = do
      s ← state_at g (get_state store env g)
      key ← SeedEngine.derive_transit_engine_key env.crypto s.seed_engine version name
      cut_key key

    abbrev pub named : {B : Type 0} → Request B → Result (Unit {0})
    named r = guard (not (is_empty r.name)) (other 9)

    abbrev pub seal_with : ℕ → EncryptionRequest → Bytes → Response CiphertextContainer
    seal_with rand req key =
        or_refused internal_server_error (
          symmetric_encrypt_raw (random_bytes rand aes_gcm_nonce_size) key req.plaintext
            req.associated_data)
        >>>= λ c. answered (record c { key_version = req.key_version })

    abbrev pub encrypt_request :
        ℕ → Guard S → Bytes → EncryptionRequest → Response CiphertextContainer
    encrypt_request rand g name req =
        or_refused internal_server_error (derive_encryption_key g req.key_version name)
        >>>= seal_with rand req

    abbrev pub encrypt_named :
        ℕ → Guard S → Request EncryptionRequest → Response CiphertextContainer
    encrypt_named rand g r =
        or_refused bad_request (parse_request r) >>>= encrypt_request rand g r.name

    -- getEncryptHandler behind the middleware
    unfoldable pub encrypt : ℕ → Guard S → Request EncryptionRequest → Response CiphertextContainer
    unfolding authorized parse_request derive_encryption_key symmetric_encrypt_raw
    encrypt rand g r =
        authorized r λ r. or_refused bad_request (named r) >>>= λ _. encrypt_named rand g r

    abbrev pub open_container : Guard S → Bytes → Bytes → CiphertextContainer → Response Bytes
    open_container g name associated_data c =
        or_refused internal_server_error (derive_encryption_key g c.key_version name) >>>= λ key.
        or_refused bad_request (symmetric_decrypt_raw key c associated_data)

    abbrev pub decrypt_request : Guard S → Bytes → DecryptionRequest → Response Bytes
    decrypt_request g name req =
        or_refused bad_request (some_or req.ciphertext_container)
        >>>= open_container g name req.associated_data

    abbrev pub decrypt_named : Guard S → Request DecryptionRequest → Response Bytes
    decrypt_named g r = or_refused bad_request (parse_request r) >>>= decrypt_request g r.name

    -- getDecryptHandler behind the middleware
    unfoldable pub decrypt : Guard S → Request DecryptionRequest → Response Bytes
    unfolding authorized parse_request derive_encryption_key symmetric_decrypt_raw
    decrypt g r = authorized r λ r. or_refused bad_request (named r) >>>= λ _. decrypt_named g r
