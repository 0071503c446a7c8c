-- ===== src/MeshApi.antt =====
-- coordinator/internal/meshapi/meshapi.go: the RPCs for workloads and for other Coordinators.
pub mod Issued
use contrast.Prelude.{
  if◌then◌else◌, Bool, guard-eq-ok, Bytes, bytes_equal, bytes_equal_iff, lookup, Result, ok, err,
  no_peer, bad_key, no_policy, peer_not_authorized, bad_ca, >>=-eq-ok, ok-injective, ◌>>=◌, Option,
  none, some, ℕ, List, [], ◌∷◌, ◌++◌, ◌≡◌, sym, ◌∙◌, ap, guard,
}
use contrast.Crypto.{Crypto}
use contrast.History.Encoding.{hex_encode}
use contrast.SeedEngine
use contrast.Ca
use contrast.Ca.{X509}
use contrast.Manifest.{PolicyEntry, role_coordinator}
use contrast.Guard.{State}

-- stateguard.AuthInfo, with what the handlers read of it: the report's host data and certificate
-- extensions, the keys of the peer's certificates in PKIX form, and the host of its address.
pub record AuthInfo : Type 0 where
  pub state : State
  pub host_data : Bytes
  pub claims : Option (List Bytes)
  pub peer_certificates : List (Option Bytes)
  pub host : Option Bytes

-- peer.FromContext and its AuthInfo.
pub data Peer : Type 0 where
  no_context other_auth_info : Peer
  authenticated : AuthInfo → Peer

abbrev pub auth_info : Peer → Result AuthInfo
auth_info (authenticated a) = ok a
auth_info _ = err no_peer

abbrev pub peer_key : List (Option Bytes) → Result Bytes
peer_key [] = err no_peer
peer_key (none ∷ l) = err bad_key
peer_key (some b ∷ l) = ok b

abbrev or_denied : Bytes → Option PolicyEntry → Result PolicyEntry
or_denied hex none = err (no_policy hex)
or_denied hex (some entry) = ok entry

-- The policy entry of the peer.
unfoldable pub entry_of : AuthInfo → Result PolicyEntry
entry_of a =
    or_denied (hex_encode a.host_data) (lookup (hex_encode a.host_data) a.state.manifest.policies)

-- The array behind an entry's SANs may have room after them, which append then uses, and calls for the
-- same entry share it: what the place holds when the certificate is made, after this call has put its
-- host there, depends on the calls that run at the same time.
pub record Sharing : Type 0 where
  pub has_room : List Bytes → Bool
  pub left : Bytes → Bytes

abbrev pub with_host : Sharing → List Bytes → Option Bytes → List Bytes
with_host sharing sans none = sans
with_host sharing sans (some host) =
    sans ++ (if sharing.has_room sans then sharing.left host else host) ∷ []

abbrev or_bad_key : Option Bytes → Result Bytes
or_bad_key none = err bad_key
or_bad_key (some b) = ok b

abbrev or_bad_claims : Option (List Bytes) → Result (List Bytes)
or_bad_claims none = err bad_ca
or_bad_claims (some l) = ok l

pub record NewMeshCertResponse : Type 0 where
  pub mesh_ca_cert : Bytes
  pub cert_chain : Bytes
  pub root_ca_cert : Bytes
  pub workload_secret : Bytes

pub record RecoverResponse : Type 0 where
  pub seed : Bytes
  pub salt : Bytes
  pub mesh_ca_key : Bytes
  pub latest_manifest : Bytes

module _ (x509 : X509) (crypto : Crypto)
    -- x509.ParsePKIXPublicKey, the encoding/asn1 form of the workload secret's certificate extension,
    -- and x509.MarshalECPrivateKey in PEM
    (parse_public_key secret_extension encode_ec_key : Bytes → Option Bytes) where
  unfoldable pub extensions_with : Bytes → List Bytes → Result (List Bytes)
  extensions_with [] l = ok l
  extensions_with (c ∷ id) l = do
    ext ← or_bad_claims (elim (secret_extension (c ∷ id)) [ none ↦ none | some b ↦ some (b ∷ []) ])
    ok (l ++ ext)

  -- An entry without a secret's name gets none.
  unfoldable pub secret_of : State → Bytes → Result Bytes
  secret_of s [] = ok []
  secret_of s (c ∷ id) = SeedEngine.derive_workload_secret crypto s.seed_engine (c ∷ id)

  unfoldable pub issue_for :
      Sharing → ℕ → AuthInfo → Bytes → PolicyEntry → Result NewMeshCertResponse
  unfolding extensions_with secret_of
  issue_for sharing rand a key_bytes entry = do
    key ← or_bad_key (parse_public_key key_bytes)
    claims ← or_bad_claims a.claims
    extensions ← extensions_with entry.workload_secret_id claims
    cert ←
        Ca.new_attested_mesh_cert x509 crypto rand a.state.ca (with_host sharing entry.sans a.host)
          extensions key
    secret ← secret_of a.state entry.workload_secret_id
    ok (record {
      mesh_ca_cert = a.state.ca.mesh_ca_pem;
      cert_chain = cert ++ a.state.ca.interm_ca_pem;
      root_ca_cert = a.state.ca.root_ca_pem;
      workload_secret = secret;
    })

  -- NewMeshCert
  unfoldable pub new_mesh_cert : Sharing → ℕ → Peer → Result NewMeshCertResponse
  unfolding entry_of issue_for
  new_mesh_cert sharing rand peer = do
    a ← auth_info peer
    key ← peer_key a.peer_certificates
    entry ← entry_of a
    issue_for sharing rand a key entry

  -- Recover
  unfoldable pub recover : Peer → Result RecoverResponse
  unfolding entry_of
  recover peer = do
    a ← auth_info peer
    entry ← entry_of a
    _ ← guard (bytes_equal entry.role role_coordinator) peer_not_authorized
    key ← or_bad_key (encode_ec_key a.state.ca.interm_priv_key)
    ok (record {
      seed = a.state.seed_engine.seed;
      salt = a.state.seed_engine.salt;
      mesh_ca_key = key;
      latest_manifest = a.state.manifest_bytes;
    })

  -- The peer that gets the seed.
  pub record IsGranted (a : AuthInfo) (r : RecoverResponse) : Type 0 where
    pub entry : PolicyEntry
    pub listed : lookup (hex_encode a.host_data) a.state.manifest.policies ≡ some entry
    pub is_coordinator : entry.role ≡ role_coordinator
    pub same_seed : r.seed ≡ a.state.seed_engine.seed
    pub same_salt : r.salt ≡ a.state.seed_engine.salt
    pub same_manifest : r.latest_manifest ≡ a.state.manifest_bytes

  pub or_denied_ok :
      (hex : Bytes) (o : Option PolicyEntry) {e : PolicyEntry} → or_denied hex o ≡ ok e → o ≡ some e
  or_denied_ok hex none e = cc
  or_denied_ok hex (some x) e = ap some (ok-injective e)

  -- Recover hands out the seed, the salt and the manifest of the peer's state only to a peer whose
  -- host data is, in hex, a policy of the manifest with the role of a Coordinator.
  pub recover-IsGranted :
      (a : AuthInfo) (r : RecoverResponse) → recover (authenticated a) ≡ ok r → IsGranted a r
  unfolding recover entry_of
  recover-IsGranted a r e =
      let (entry, e1, r1) = >>=-eq-ok (entry_of a) _ e in
      let (_, e2, r2) =
        >>=-eq-ok (guard (bytes_equal entry.role role_coordinator) peer_not_authorized) _ r1 in
      let (key, e3, r3) = >>=-eq-ok (or_bad_key (encode_ec_key a.state.ca.interm_priv_key)) _ r2 in
      let same = sym (ok-injective r3) in
      record {
        entry = entry;
        listed = or_denied_ok _ _ e1;
        is_coordinator = (bytes_equal_iff entry.role role_coordinator).0 (guard-eq-ok _ _ e2);
        same_seed = ap (λ (x : RecoverResponse). x.seed) same;
        same_salt = ap (λ (x : RecoverResponse). x.salt) same;
        same_manifest = ap (λ (x : RecoverResponse). x.latest_manifest) same;
      }
