-- ===== src/TransitEngine/Derivation.antt =====
-- coordinator/internal/transitengineapi/crypto.go and internal/seedengine/seedengine.go: the key of a
-- name and a version.
use contrast.Prelude.{
  some_or-eq-ok, Bytes, codes, ok, >>=-eq-ok, Option, some, ℕ, ◌≤◌, length, take, [], ◌∷◌, ◌++◌,
  get_elem?, ◌≡◌, refl, arith,
}
use contrast.Prelude.Decimals.{format_decimal}
use contrast.Store.{Store}
use contrast.SeedEngine
use contrast.SeedEngine.{SeedEngine, or_error-eq-ok}
use contrast.Guard.{Env, State, Guard, Answer, fresh, stale_state, no_state, failed}
use contrast.Guard.Methods.{get_state}
use contrast.TransitEngine.{Aead, state_at, cut_key, derive_encryption_key}

module _ (aead : Aead) {S : Type 0} (store : Store S) (env : Env)
    (random_bytes : ℕ → ℕ → Option Bytes) where
  -- The key is the first 32 bytes that HKDF makes from the transit engine's seed and the salt of the
  -- current state, which is not stale, for a text with the version and the name.
  pub record IsKeyOf (g : Guard S) (version : ℕ) (name key : Bytes) : Type 0 where
    pub pointer : ℕ
    pub state : State
    pub material : Bytes
    pub is_fresh : get_state store env g ≡ fresh pointer
    pub is_state : get_elem? g.states pointer ≡ some state
    pub expanded :
        env.crypto.hkdf state.seed_engine.transit_engine_seed state.seed_engine.salt
          (codes "TRANSIT ENGINE KEY: " ++ format_decimal version ++ codes " " ++ name)
        ≡ some material
    pub long_enough : 32 ≤ length material
    pub cut : key ≡ take 32 material

  state_at_inv :
      (g : Guard S) (a : Answer) {s : State}
      → state_at aead store env random_bytes g a ≡ ok s
      → (p : ℕ) × (a ≡ fresh p) × (get_elem? g.states p ≡ some s)
  state_at_inv g (fresh p) h = (p, refl, some_or-eq-ok (get_elem? g.states p) h)
  state_at_inv g (stale_state o) h = cc
  state_at_inv g no_state h = cc
  state_at_inv g (failed e) h = cc

  cut_key_inv :
      (material : Bytes) {key : Bytes}
      → cut_key aead store env random_bytes material ≡ ok key
      → (32 ≤ length material) × (key ≡ take 32 material)
  cut_key_inv material h = ground arith

  transit_engine_key_inv :
      (se : SeedEngine) (version : ℕ) (name : Bytes) {b : Bytes}
      → SeedEngine.derive_transit_engine_key env.crypto se version name ≡ ok b
      → env.crypto.hkdf se.transit_engine_seed se.salt
          (codes "TRANSIT ENGINE KEY: " ++ format_decimal version ++ codes " " ++ name)
        ≡ some b
  unfolding SeedEngine.derive_transit_engine_key SeedEngine.hkdf_derive
  transit_engine_key_inv se version [] h = cc
  transit_engine_key_inv se version (c ∷ name) h = or_error-eq-ok _ h

  pub derive_encryption_key-IsKeyOf :
      (g : Guard S) (version : ℕ) (name : Bytes) {key : Bytes}
      → derive_encryption_key aead store env random_bytes g version name ≡ ok key
      → IsKeyOf g version name key
  unfolding derive_encryption_key
  derive_encryption_key-IsKeyOf g version name h =
      let (s, at, h1) =
        >>=-eq-ok (state_at aead store env random_bytes g (get_state store env g)) _ h in
      let (material, made, h2) =
        >>=-eq-ok (SeedEngine.derive_transit_engine_key env.crypto s.seed_engine version name) _
          h1 in
      let (p, is_fresh, is_state) = state_at_inv g (get_state store env g) at in
      let (long, cut) = cut_key_inv material h2 in
      record {
        pointer = p;
        state = s;
        material = material;
        is_fresh = is_fresh;
        is_state = is_state;
        expanded = transit_engine_key_inv s.seed_engine version name made;
        long_enough = long;
        cut = cut;
      }
