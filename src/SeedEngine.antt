-- ===== src/SeedEngine.antt =====
-- internal/seedengine/seedengine.go: key derivation from a secret seed.
use contrast.Prelude.{
  Bytes, codes, Result, ok, err, bad_seed, key_generation, ◌>>=◌, if◌then◌else◌, ◌==◌, ltb, length,
  Option, none, some, ◌≡◌, arith, ℕ, ◌≤◌, [], ◌∷◌, ◌++◌, not,
}
use contrast.Prelude.Decimals.{format_decimal}
use contrast.Crypto.{Crypto}

pub record SeedEngine : Type 0 where
  pub seed : Bytes
  pub salt : Bytes
  pub pod_state_seed : Bytes
  pub history_seed : Bytes
  pub transit_engine_seed : Bytes
  pub root_ca_key : Bytes
  pub transaction_signing_key : Bytes

abbrev pub or_error : Option Bytes → Result Bytes
or_error none = err key_generation
or_error (some b) = ok b

pub or_error-eq-ok : (o : Option Bytes) {b : Bytes} → or_error o ≡ ok b → o ≡ some b
or_error-eq-ok none h = cc
or_error-eq-ok (some x) h = cc

module _ (crypto : Crypto) where
  -- hkdfDerive: as many bytes as the secret has.
  unfoldable pub hkdf_derive : Bytes → Bytes → Bytes → Result Bytes
  hkdf_derive salt secret info = or_error (crypto.hkdf secret salt info)

  unfoldable pub derive_all : Bytes → Bytes → Result SeedEngine
  derive_all secret_seed salt = do
    pod ← hkdf_derive salt secret_seed (codes "POD STATE SECRET")
    hist ← hkdf_derive salt secret_seed (codes "HISTORY SECRET")
    transit ← hkdf_derive salt secret_seed (codes "TRANSIT ENGINE SECRET")
    signing_seed ← hkdf_derive salt secret_seed (codes "TRANSACTION SIGNING SECRET")
    root_seed ← hkdf_derive salt secret_seed (codes "ROOT CA SEED")
    signing ← or_error (crypto.keygen signing_seed)
    root ← or_error (crypto.keygen root_seed)
    ok (record {
      seed = secret_seed;
      salt = salt;
      pod_state_seed = pod;
      history_seed = hist;
      transit_engine_seed = transit;
      root_ca_key = root;
      transaction_signing_key = signing;
    })

  -- New
  unfoldable pub new : Bytes → Bytes → Result SeedEngine
  unfolding derive_all hkdf_derive
  new secret_seed salt =
      if not (length salt == 32)
      then err bad_seed
      else if ltb (length secret_seed) 32
      then err bad_seed
      else derive_all secret_seed salt

  -- DeriveWorkloadSecret
  unfoldable pub derive_workload_secret : SeedEngine → Bytes → Result Bytes
  unfolding hkdf_derive
  derive_workload_secret se [] = err bad_seed
  derive_workload_secret se (c ∷ id) =
      hkdf_derive se.salt se.pod_state_seed (codes "WORKLOAD SECRET ID: " ++ c ∷ id)

  -- DeriveTransitEngineKey
  unfoldable pub derive_transit_engine_key : SeedEngine → ℕ → Bytes → Result Bytes
  unfolding hkdf_derive
  derive_transit_engine_key se key_version [] = err bad_seed
  derive_transit_engine_key se key_version (c ∷ name) =
      hkdf_derive se.salt se.transit_engine_seed
        (codes "TRANSIT ENGINE KEY: " ++ format_decimal key_version ++ codes " " ++ c ∷ name)

  -- GenerateMeshCAKey
  unfoldable pub generate_mesh_ca_key : ℕ → Result Bytes
  generate_mesh_ca_key rand = or_error (crypto.generate_key rand)

  -- An engine of a seed and a salt of the right sizes.
  pub record IsEngine (seed salt : Bytes) (se : SeedEngine) : Type 0 where
    pub same_seed : se.seed ≡ seed
    pub same_salt : se.salt ≡ salt
    pub salt_size : length salt ≡ 32
    pub seed_size : 32 ≤ length seed

  -- A new engine holds the seed and the salt that it was made from, a salt of 32 bytes and a seed of
  -- at least 32.
  pub new-IsEngine :
      (seed salt : Bytes) (se : SeedEngine) → new seed salt ≡ ok se → IsEngine seed salt se
  unfolding new
  new-IsEngine seed salt se e = ground arith
