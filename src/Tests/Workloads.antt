-- ===== src/Tests/Workloads.antt =====
-- The mesh API, at concrete inputs.
use contrast.Prelude.{
  Bytes, codes, lookup, ok, Option, some, [], ◌∷◌, ◌++◌, ◌≡◌, refl, replicate, false, true,
}
use contrast.History.Encoding.{hex_encode}
use contrast.Ca
use contrast.Guard.{State}
use contrast.MeshApi
use contrast.MeshApi.{
  AuthInfo, authenticated, RecoverResponse, NewMeshCertResponse, recover, IsGranted, Sharing,
  recover-IsGranted,
}
use contrast.Tests.Toys.{toy_ca, toy_x509, toy_crypto, toy_engine, toy_seed, toy_salt, toy_manifest}

abbrev state : State
state = record {
  seed_engine = toy_engine;
  manifest = toy_manifest [];
  manifest_bytes = 1 ∷ [];
  ca = toy_ca;
  latest = record { transition_hash = replicate 32 1; signature = 1 ∷ [] };
  generation = 1;
  stale = false;
}

-- A peer with the policy of the manifest, which has the role of a Coordinator.
abbrev peer : AuthInfo
peer = record {
  state = state;
  host_data = 1 ∷ 7 ∷ replicate 30 0;
  claims = some [];
  peer_certificates = some (6 ∷ []) ∷ [];
  host = some (codes "10.0.0.1");
}

abbrev encoded : Bytes → Option Bytes
encoded b = some b

abbrev granted : RecoverResponse
granted = record {
  seed = toy_seed;
  salt = toy_salt;
  mesh_ca_key = 1 ∷ [];
  latest_manifest = 1 ∷ [];
}

recovered : recover toy_x509 toy_crypto encoded encoded encoded (authenticated peer) ≡ ok granted
unfolding recover MeshApi.entry_of lookup hex_encode
recovered = refl

recover-IsGranted_example : IsGranted toy_x509 toy_crypto encoded encoded encoded peer granted
recover-IsGranted_example =
    recover-IsGranted toy_x509 toy_crypto encoded encoded encoded peer granted recovered

abbrev issued : NewMeshCertResponse
issued = record {
  mesh_ca_cert = toy_ca.mesh_ca_pem;
  cert_chain = codes "web" ++ 6 ∷ toy_ca.interm_ca_pem;
  root_ca_cert = toy_ca.root_ca_pem;
  workload_secret = [];
}

-- Another call's host has taken the place of this one's.
abbrev sharing : Sharing
sharing = record { has_room = λ sans. true; left = λ host. codes "10.0.0.2" }
