-- ===== src/UserApi.antt =====
-- coordinator/internal/userapi/userapi.go: the RPCs of the user API.
pub mod Authorizer
pub mod Handlers
pub mod Panics
pub mod Recovery
pub mod Update
pub mod Access
pub mod Security
use contrast.Prelude.{
  Bytes, bytes_equal, Map, Result, ok, err, Error, no_keys, no_signature, invalid_signature,
  bad_key, no_peer, peer_not_authorized, mixed_manifest, insecure_not_allowed, secure_not_allowed,
  concurrent_update, no_peers, Option, none, some, Bool, true, false, not, ◌&&◌, ℕ, ◌+◌, List, [],
  ◌∷◌, if◌then◌else◌, length, ltb, get_elem?, guard, map, is_some,
}
use contrast.Prelude.Execs.{Exec, lift}
use contrast.Crypto.{Crypto}
use contrast.Store.{Store}
use contrast.History.{History}
use contrast.History.Encoding.{
  LatestTransition, Transition, zero_hash, hex_encode, digest, digest_transition, transition_to,
}
use contrast.SeedEngine
use contrast.SeedEngine.{SeedEngine}
use contrast.Manifest.{
  Manifest, SeedShare, has_insecure_platforms, has_secure_platforms,
  parse_workload_owner_public_key, encrypt_seed_shares,
}
use contrast.Manifest.Hex.{hex_decode}
use contrast.Guard.{
  Env, State, Guard, Json, malformed, null, document, Answer, fresh, stale_state, no_state, failed,
}
use contrast.Guard.Methods.{Collected, get_state, update_state, reset_state, get_history}

pub record SetManifestRequest : Type 0 where
  pub manifest : Bytes
  pub policies : List Bytes
  -- nil is not an empty slice
  pub previous_transition_hash : Option Bytes
  pub signature : Option Bytes

pub record SeedShareDocument : Type 0 where
  pub salt : Bytes
  pub seed_shares : List SeedShare

pub record SetManifestResponse : Type 0 where
  pub root_ca : Bytes
  pub mesh_ca : Bytes
  pub seed_shares_doc : Option SeedShareDocument

pub record GetManifestsResponse : Type 0 where
  pub manifests : List Bytes
  pub policies : Map Bytes
  pub root_ca : Bytes
  pub mesh_ca : Bytes
  pub latest_transition : LatestTransition

pub record RecoverRequest : Type 0 where
  pub seed : Bytes
  pub salt : Bytes
  pub force : Bool

-- google.golang.org/grpc/codes
pub data Code : Type 0 where
  invalid_argument permission_denied failed_precondition internal : Code

-- How a handler ends: with a reply, a status, another error, or a panic.
pub data Outcome {ℓ} (A : Type ℓ) : Type ℓ where
  reply : A → Outcome A
  status : Code → Outcome A
  returned : Error → Outcome A
  panic : Outcome A

infixl 5 ◌>>=◌ ◌>>◌
abbrev pub ◌>>=◌ {ℓ κ} : {A : Type ℓ} {B : Type κ} → Outcome A → (A → Outcome B) → Outcome B
reply a >>= f = f a
status c >>= f = status c
returned e >>= f = returned e
panic >>= f = panic

abbrev ◌>>◌ {ℓ} : {B : Type ℓ} → Outcome (Unit {0}) → Outcome B → Outcome B
m >> k = m >>= λ _. k

-- An error that the handler turns into a status.
abbrev pub or_status {ℓ} : {A : Type ℓ} → Code → Result A → Outcome A
or_status c (ok a) = reply a
or_status c (err e) = status c

abbrev pub require : Bool → Code → Outcome (Unit {0})
require true c = reply tt
require false c = status c

-- A pointer that the code dereferences.
abbrev pub deref {ℓ} : {A : Type ℓ} → Option A → Outcome A
deref none = panic
deref (some a) = reply a

-- peer.FromContext and the first peer certificate's public key, with its serialised form:
-- x509.MarshalPKCS1PublicKey cannot fail, x509.MarshalPKIXPublicKey can.
pub data Peer : Type 0 where
  no_context not_tls no_certificate : Peer
  rsa_key : Bytes → Peer
  ecdsa_key : Option Bytes → Peer
  other_key : Peer

abbrev pub get_peer_public_key : Peer → Result Bytes
get_peer_public_key (rsa_key b) = ok b
get_peer_public_key (ecdsa_key (some b)) = ok b
get_peer_public_key (ecdsa_key none) = err bad_key
get_peer_public_key _ = err no_peer

abbrev pub match_key : Bytes → Option Bytes → Result (Unit {0}) → Result (Unit {0})
match_key peer none rest = err bad_key
match_key peer (some b) rest = if bytes_equal peer b then ok tt else rest

-- The loop of validatePeer over the keys.
unfoldable pub peer_matches : Bytes → List Bytes → Result (Unit {0})
peer_matches peer [] = err peer_not_authorized
peer_matches peer (hex ∷ keys) = match_key peer (hex_decode hex) (peer_matches peer keys)

abbrev pub match_peer : List Bytes → Result Bytes → Result (Unit {0})
match_peer keys (err e) = err e
match_peer keys (ok peer) = peer_matches peer keys

-- validatePeer
unfoldable pub validate_peer : Peer → List Bytes → Result (Unit {0})
validate_peer peer [] = err no_keys
validate_peer peer (k ∷ keys) = match_peer (k ∷ keys) (get_peer_public_key peer)

-- checkManifestSecurity
unfoldable pub check_manifest_security : Bool → Manifest → Result (Unit {0})
check_manifest_security allow_insecure m =
    if has_insecure_platforms m && has_secure_platforms m
    then err mixed_manifest
    else if has_insecure_platforms m && not allow_insecure
    then err insecure_not_allowed
    else if not (has_insecure_platforms m) && allow_insecure
    then err secure_not_allowed
    else ok tt

-- slices.Compare(a, b) == 0 on HexStrings
unfoldable pub same_keys : List Bytes → List Bytes → Bool
same_keys [] [] = true
same_keys [] (b ∷ bs) = false
same_keys (a ∷ l) [] = false
same_keys (a ∷ l) (b ∷ bs) = bytes_equal a b && same_keys l bs

-- `req.GetPreviousTransitionHash() != nil && !bytes.Equal(...)` refuses.
unfoldable pub matches_previous : Option Bytes → Bytes → Bool
matches_previous none hash = true
matches_previous (some b) hash = bytes_equal b hash

-- json.Unmarshal into a *manifest.Manifest, which null leaves nil.
abbrev pub unmarshal_pointer : Json → Outcome (Option Manifest)
unmarshal_pointer malformed = status invalid_argument
unmarshal_pointer null = reply none
unmarshal_pointer (document m) = reply (some m)

-- What SetManifest has decided when it calls UpdateState.
pub record Decision : Type 0 where
  pub old_state : Option ℕ
  pub seed_engine : SeedEngine
  pub seed_shares_doc : Option SeedShareDocument

abbrev pub signature_of : Option Bytes → Bytes
signature_of none = []
signature_of (some b) = b

module _ (crypto : Crypto) where
  -- The digest that a workload owner signs.
  unfoldable pub signed_hash : Bytes → Bytes → Bytes
  signed_hash latest_hash manifest =
      digest crypto
        (hex_encode (digest_transition crypto (transition_to crypto latest_hash manifest)))

  abbrev pub verify_key : Bytes → Bytes → Result Bytes → Result (Unit {0}) → Result (Unit {0})
  verify_key hash sig (err e) rest = err bad_key
  verify_key hash sig (ok key) rest = if crypto.verify_asn1 key hash sig then ok tt else rest

  -- The loop of validateSignature over the keys.
  unfoldable pub signature_matches : Bytes → Bytes → List Bytes → Result (Unit {0})
  signature_matches hash sig [] = err invalid_signature
  signature_matches hash sig (hex ∷ keys) =
      verify_key hash sig (parse_workload_owner_public_key crypto hex)
        (signature_matches hash sig keys)

  abbrev pub match_signature : Bytes → Bytes → List Bytes → Result (Unit {0})
  match_signature hash [] keys = err no_signature
  match_signature hash (b ∷ sig) keys = signature_matches hash (b ∷ sig) keys

  -- validateSignature
  unfoldable pub validate_signature : List Bytes → Bytes → SetManifestRequest → Result (Unit {0})
  validate_signature [] latest_hash req = err no_keys
  validate_signature (k ∷ keys) latest_hash req =
      match_signature (signed_hash latest_hash req.manifest) (signature_of req.signature) (k ∷ keys)

  -- Only without a signature the peer is asked.
  abbrev pub or_peer : Peer → List Bytes → Result (Unit {0}) → Outcome (Unit {0})
  or_peer peer keys (ok _) = reply tt
  or_peer peer keys (err no_signature) = or_status permission_denied (validate_peer peer keys)
  or_peer peer keys (err e) = status permission_denied

  unfoldable pub authorize_caller :
      Peer → List Bytes → Bytes → SetManifestRequest → Outcome (Unit {0})
  authorize_caller peer keys latest_hash req =
      or_peer peer keys (validate_signature keys latest_hash req)
