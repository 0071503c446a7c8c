-- ===== src/MeshApi/Issued.antt =====
-- coordinator/internal/meshapi/meshapi.go: what NewMeshCert hands out.
use contrast.Prelude.{
  Bytes, codes, lookup, ok, Option, none, some, true, false, ℕ, List, [], ◌∷◌, ◌++◌, ◌≡◌, ◌≢◌, ◌⊎◌,
}
use contrast.Crypto.{Crypto}
use contrast.History.Encoding.{hex_encode}
use contrast.SeedEngine
use contrast.Ca
use contrast.Ca.{X509}
use contrast.Manifest.{PolicyEntry}
use contrast.MeshApi.{AuthInfo, Sharing, NewMeshCertResponse}

module _ (x509 : X509) (crypto : Crypto)
    (parse_public_key secret_extension encode_ec_key : Bytes → Option Bytes) where
  -- The names in the certificate: those of the policy, and the host of the peer's address, if that
  -- was read, unless another call's host has taken its place.
  pub record IsNamed (sharing : Sharing) (sans : List Bytes) (host : Option Bytes)
      (names : List Bytes) : Type 0 where
    pub no_host : host ≡ none → names ≡ sans
    pub own_host :
        (h : Bytes)
        → host ≡ some h
        → (sharing.has_room sans ≡ false) ⊎ (sharing.left h ≡ h)
        → names ≡ sans ++ (h ∷ [])
    pub shared_host :
        (h : Bytes)
        → host ≡ some h
        → sharing.has_room sans ≡ true
        → names ≡ sans ++ (sharing.left h ∷ [])

  -- The certificate and the secret of a workload.
  pub record IsIssued (sharing : Sharing) (rand : ℕ) (a : AuthInfo) (r : NewMeshCertResponse)
      : Type 0 where
    pub entry : PolicyEntry
    pub listed : lookup (hex_encode a.host_data) a.state.manifest.policies ≡ some entry
    pub key_bytes : Bytes
    pub chain : List (Option Bytes)
    pub presented : a.peer_certificates ≡ some key_bytes ∷ chain
    pub key : Bytes
    pub parsed : parse_public_key key_bytes ≡ some key
    pub claims : List Bytes
    pub claimed : a.claims ≡ some claims
    pub extensions : List Bytes
    pub extended :
        ((entry.workload_secret_id ≡ []) × (extensions ≡ claims))
        ⊎ ((ext : Bytes) × (secret_extension entry.workload_secret_id ≡ some ext)
            × (extensions ≡ claims ++ (ext ∷ [])))
    pub names : List Bytes
    pub named : IsNamed sharing entry.sans a.host names
    pub cert : Bytes
    pub certified :
        Ca.new_attested_mesh_cert x509 crypto rand a.state.ca names extensions key ≡ ok cert
    pub cert_chain : r.cert_chain ≡ cert ++ a.state.ca.interm_ca_pem
    pub mesh_ca : r.mesh_ca_cert ≡ a.state.ca.mesh_ca_pem
    pub root_ca : r.root_ca_cert ≡ a.state.ca.root_ca_pem
    pub secret :
        ((entry.workload_secret_id ≡ []) × (r.workload_secret ≡ []))
        ⊎ ((entry.workload_secret_id ≢ [])
            × (crypto.hkdf a.state.seed_engine.pod_state_seed a.state.seed_engine.salt
                  (codes "WORKLOAD SECRET ID: " ++ entry.workload_secret_id)
                ≡ some r.workload_secret))
