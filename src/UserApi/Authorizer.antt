-- ===== src/UserApi/Authorizer.antt =====
-- coordinator/internal/userapi/userapi.go: the authorizer of Recover.
use contrast.Prelude.{Bytes, Result, ok, ◌>>=◌, Bool, ℕ}
use contrast.Crypto.{Crypto}
use contrast.SeedEngine
use contrast.SeedEngine.{SeedEngine}
use contrast.Manifest.{Manifest}
use contrast.UserApi.{RecoverRequest, Peer, validate_peer, check_manifest_security}

module _ (crypto : Crypto) where
  -- seedAuthorizer.AuthorizeByManifest
  unfoldable pub authorize_by_manifest :
      Bool → Peer → ℕ → RecoverRequest → Manifest → Result (SeedEngine × Bytes)
  authorize_by_manifest allow_insecure peer rand req mnfst = do
    _ ← check_manifest_security allow_insecure mnfst
    _ ← validate_peer peer mnfst.seedshare_owner_pub_keys
    se ← SeedEngine.new crypto req.seed req.salt
    key ← SeedEngine.generate_mesh_ca_key crypto rand
    ok (se, key)
