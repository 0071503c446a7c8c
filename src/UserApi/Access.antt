-- ===== src/UserApi/Access.antt =====
-- coordinator/internal/userapi/userapi.go: who may set a manifest or recover.
use contrast.Prelude.{
  Bytes, bytes_equal, bytes_equal_iff, Result, ok, err, no_signature, Option, none, some, Bool,
  true, false, ℕ, suc, List, [], ◌∷◌, get_elem?, ◌≡◌, ◌≢◌, if◌then◌else◌, ◌⊎◌, inl, inr, refl, sym,
  subst, ◌++◌, arith, ◌∙◌, ap,
}
use contrast.Crypto.{Crypto}
use contrast.History.Encoding.{hex_encode, digest, digest_transition, marshal_transition}
use contrast.Manifest.{parse_workload_owner_public_key}
use contrast.Manifest.Hex.{hex_decode}
use contrast.UserApi.{
  SetManifestRequest, reply, permission_denied, or_status, Peer, get_peer_public_key, peer_matches,
  match_key, verify_key, Code, match_peer, validate_peer, signature_of, signed_hash,
  signature_matches, match_signature, validate_signature, or_peer, authorize_caller,
}

-- One of the keys verifies the signature.
pub record IsSigned (crypto : Crypto) (keys : List Bytes) (hash sig : Bytes) : Type 0 where
  pub index : ℕ
  pub hex : Bytes
  pub key : Bytes
  pub listed : get_elem? keys index ≡ some hex
  pub parsed : parse_workload_owner_public_key crypto hex ≡ ok key
  pub verified : crypto.verify_asn1 key hash sig ≡ true

-- The peer's key is one of the keys.
pub record IsOwner (peer : Peer) (keys : List Bytes) : Type 0 where
  pub index : ℕ
  pub hex : Bytes
  pub key : Bytes
  pub listed : get_elem? keys index ≡ some hex
  pub decoded : hex_decode hex ≡ some key
  pub presented : get_peer_public_key peer ≡ ok key

peer_matches_ok :
    (peer : Peer) (b : Bytes) (keys : List Bytes)
    → get_peer_public_key peer ≡ ok b
    → peer_matches b keys ≡ ok tt
    → IsOwner peer keys
unfolding peer_matches
peer_matches_ok peer b [] p e = cc
peer_matches_ok peer b (hex ∷ keys) p e = go (peer_matches_ok peer b keys p) (hex_decode hex) refl e
  where
    last :
        (peer_matches b keys ≡ ok tt → IsOwner peer keys)
        → (x : Bytes) (same : Bool) → hex_decode hex ≡ some x
        → bytes_equal b x ≡ same
        → (if same then ok tt else peer_matches b keys) ≡ ok tt
        → IsOwner peer (hex ∷ keys)
    last ih x true q s e' = record {
      index = 0;
      hex = hex;
      key = x;
      listed = refl;
      decoded = q;
      presented = p ∙ ap ok ((bytes_equal_iff b x).0 s);
    }
    last ih x false q s e' =
        let r = ih e' in
        record {
          index = suc r.index;
          hex = r.hex;
          key = r.key;
          listed = r.listed;
          decoded = r.decoded;
          presented = r.presented;
        }

    go :
        (peer_matches b keys ≡ ok tt → IsOwner peer keys)
        → (o : Option Bytes) → hex_decode hex ≡ o
        → match_key b o (peer_matches b keys) ≡ ok tt
        → IsOwner peer (hex ∷ keys)
    go ih none q e' = cc
    go ih (some x) q e' = last ih x (bytes_equal b x) q refl e'

match_peer_ok :
    (peer : Peer) (keys : List Bytes) (r : Result Bytes)
    → get_peer_public_key peer ≡ r
    → match_peer keys r ≡ ok tt
    → IsOwner peer keys
match_peer_ok peer keys (ok b) p e = peer_matches_ok peer b keys p e
match_peer_ok peer keys (err x) p e = cc

-- validatePeer accepts only a peer whose key is one of the keys.
pub validate_peer_ok :
    (peer : Peer) (keys : List Bytes) → validate_peer peer keys ≡ ok tt → IsOwner peer keys
unfolding validate_peer
validate_peer_ok peer [] e = cc
validate_peer_ok peer (k ∷ keys) e = match_peer_ok peer (k ∷ keys) (get_peer_public_key peer) refl e

module _ (crypto : Crypto) where
  signature_matches_ok :
      (hash sig : Bytes) (keys : List Bytes)
      → signature_matches crypto hash sig keys ≡ ok tt
      → IsSigned crypto keys hash sig
  unfolding signature_matches
  signature_matches_ok hash sig [] e = cc
  signature_matches_ok hash sig (hex ∷ keys) e =
      go (signature_matches_ok hash sig keys) (parse_workload_owner_public_key crypto hex) refl e
    where
      last :
          (signature_matches crypto hash sig keys ≡ ok tt → IsSigned crypto keys hash sig)
          → (key : Bytes) (good : Bool) → parse_workload_owner_public_key crypto hex ≡ ok key
          → crypto.verify_asn1 key hash sig ≡ good
          → (if good then ok tt else signature_matches crypto hash sig keys) ≡ ok tt
          → IsSigned crypto (hex ∷ keys) hash sig
      last ih key true q s e' = record {
        index = 0;
        hex = hex;
        key = key;
        listed = refl;
        parsed = q;
        verified = s;
      }
      last ih key false q s e' =
          let r = ih e' in
          record {
            index = suc r.index;
            hex = r.hex;
            key = r.key;
            listed = r.listed;
            parsed = r.parsed;
            verified = r.verified;
          }

      go :
          (signature_matches crypto hash sig keys ≡ ok tt → IsSigned crypto keys hash sig)
          → (o : Result Bytes) → parse_workload_owner_public_key crypto hex ≡ o
          → verify_key crypto hash sig o (signature_matches crypto hash sig keys) ≡ ok tt
          → IsSigned crypto (hex ∷ keys) hash sig
      go ih (err x) q e' = cc
      go ih (ok key) q e' = last ih key (crypto.verify_asn1 key hash sig) q refl e'

  match_signature_ok :
      (hash sig : Bytes) (keys : List Bytes)
      → match_signature crypto hash sig keys ≡ ok tt
      → IsSigned crypto keys hash sig
  match_signature_ok hash [] keys e = cc
  match_signature_ok hash (b ∷ sig) keys e = signature_matches_ok hash (b ∷ sig) keys e

  match_given :
      (hash : Bytes) (o : Option Bytes) (keys : List Bytes)
      → match_signature crypto hash (signature_of o) keys ≡ ok tt
      → (sig : Bytes) × (o ≡ some sig) × (sig ≢ []) × IsSigned crypto keys hash sig
  match_given hash none keys e = cc
  match_given hash (some []) keys e = cc
  match_given hash (some (b ∷ sig)) keys e =
      (b ∷ sig, refl, (λ h. cc), match_signature_ok hash (b ∷ sig) keys e)

  -- What a workload owner signs: the digest of the hex form of the digest of the transition, which is
  -- the manifest's digest and the hash of the transition before.
  abbrev pub transition_text : Bytes → SetManifestRequest → Bytes
  transition_text latest_hash req =
      hex_encode (crypto.sum256 (crypto.sum256 req.manifest ++ latest_hash))

  -- validateSignature accepts only a signature that one of the keys verifies, of the digest of the
  -- hex form of the transition from the given one to the manifest, and no signature that is missing
  -- or empty.
  pub validate_signature_ok :
      (keys : List Bytes) (latest_hash : Bytes) (req : SetManifestRequest)
      → validate_signature crypto keys latest_hash req ≡ ok tt
      → (sig : Bytes) × (req.signature ≡ some sig)
        × (sig ≢ [])
        × IsSigned crypto keys (crypto.sum256 (transition_text latest_hash req)) sig
  unfolding validate_signature signed_hash digest digest_transition marshal_transition
  validate_signature_ok [] latest_hash req e = cc
  validate_signature_ok (k ∷ keys) latest_hash req e =
      match_given (signed_hash crypto latest_hash req.manifest) req.signature (k ∷ keys) e

  verify_key_ne :
      (hash sig : Bytes) (o : Result Bytes) (rest : Result (Unit {0}))
      → verify_key crypto hash sig o rest ≡ err no_signature
      → rest ≡ err no_signature
  verify_key_ne hash sig (err x) rest e = cc
  verify_key_ne hash sig (ok key) rest e = ground arith

  signature_matches_ne :
      (hash sig : Bytes) (keys : List Bytes)
      → signature_matches crypto hash sig keys ≢ err no_signature
  unfolding signature_matches
  signature_matches_ne hash sig [] e = cc
  signature_matches_ne hash sig (hex ∷ keys) e =
      signature_matches_ne hash sig keys
        (verify_key_ne hash sig (parse_workload_owner_public_key crypto hex) _ e)

  match_signature_none :
      (hash sig : Bytes) (keys : List Bytes)
      → match_signature crypto hash sig keys ≡ err no_signature
      → sig ≡ []
  match_signature_none hash [] keys e = refl
  match_signature_none hash (b ∷ sig) keys e = absurd (signature_matches_ne hash (b ∷ sig) keys e)

  validate_signature_none :
      (keys : List Bytes) (latest_hash : Bytes) (req : SetManifestRequest)
      → validate_signature crypto keys latest_hash req ≡ err no_signature
      → signature_of req.signature ≡ []
  unfolding validate_signature
  validate_signature_none [] latest_hash req e = cc
  validate_signature_none (k ∷ keys) latest_hash req e =
      match_signature_none (signed_hash crypto latest_hash req.manifest)
        (signature_of req.signature) (k ∷ keys) e

  -- The caller signed the transition with a workload owner's key, or, without a signature, is the
  -- owner of one.
  abbrev pub IsAllowed : Peer → List Bytes → Bytes → SetManifestRequest → Type 0
  IsAllowed peer keys latest_hash req =
      IsSigned crypto keys (crypto.sum256 (transition_text latest_hash req))
        (signature_of req.signature)
      ⊎ ((signature_of req.signature ≡ []) × IsOwner peer keys)

  or_status_ok : (c : Code) (r : Result (Unit {0})) → or_status c r ≡ reply tt → r ≡ ok tt
  or_status_ok c (ok _) e = refl
  or_status_ok c (err x) e = cc

  or_peer_reply :
      (peer : Peer) (keys : List Bytes) (latest_hash : Bytes) (req : SetManifestRequest)
      (r : Result (Unit {0}))
      → validate_signature crypto keys latest_hash req ≡ r
      → or_peer crypto peer keys r ≡ reply tt
      → IsAllowed peer keys latest_hash req
  or_peer_reply peer keys latest_hash req (ok _) v e =
      let (sig, given, nonempty, signed) = validate_signature_ok keys latest_hash req v in
      inl (
        subst (λ s. IsSigned crypto keys (crypto.sum256 (transition_text latest_hash req)) s)
          (ap signature_of (sym given)) signed)
  or_peer_reply peer keys latest_hash req (err no_signature) v e = inr (
    validate_signature_none keys latest_hash req v,
    validate_peer_ok peer keys (or_status_ok permission_denied (validate_peer peer keys) e),
  )
  or_peer_reply peer keys latest_hash req (err x) v e = cc

  pub authorize_caller_reply :
      (peer : Peer) (keys : List Bytes) (latest_hash : Bytes) (req : SetManifestRequest)
      → authorize_caller crypto peer keys latest_hash req ≡ reply tt
      → IsAllowed peer keys latest_hash req
  unfolding authorize_caller
  authorize_caller_reply peer keys latest_hash req e =
      or_peer_reply peer keys latest_hash req (validate_signature crypto keys latest_hash req) refl
        e
