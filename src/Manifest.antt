-- ===== src/Manifest.antt =====
-- internal/manifest/manifest.go and internal/manifest/crypto.go: the manifest, its validation, and
-- the public keys that it holds.
pub mod Hex
pub mod Validation
pub mod Values
pub mod Owners
use contrast.Prelude.{
  Bytes, codes, bytes_equal, Map, Result, ok, err, bad_key, missing_coordinator, key_generation,
  Option, none, some, Bool, true, false, not, ◌&&◌, ◌||◌, ℕ, ◌+◌, List, [], ◌∷◌, ◌++◌,
  if◌then◌else◌, length, ◌==◌, String, ◌>>=◌, any, map, ◌≡◌,
}
use contrast.Crypto.{Crypto}
use contrast.Platforms.{Platform, from_string, is_insecure}
use Hex.{hex_decode, is_hex_string}
use Validation.{
  Fault, Faults, nil, cons, plain, at, item, append, faults_of, join, new_validation_error,
}
use Values
use Values.{ReferenceValues, SnpReferenceValues, TdxReferenceValues}

pub record PolicyEntry : Type 0 where
  pub sans : List Bytes
  pub workload_secret_id : Bytes
  pub role : Bytes

abbrev pub role_none : Bytes
role_none = []

abbrev pub role_coordinator : Bytes
role_coordinator = codes "coordinator"

-- The keys of the map and the public keys are HexStrings.
pub record Manifest : Type 0 where
  pub policies : Map PolicyEntry
  pub reference_values : ReferenceValues
  pub workload_owner_pub_keys : List Bytes
  pub seedshare_owner_pub_keys : List Bytes

-- Role.Validate
unfoldable pub is_role : Bytes → Bool
is_role r = bytes_equal r role_none || bytes_equal r role_coordinator

abbrev hash_faults : Bytes → Faults
hash_faults hash = elim (hex_decode hash) [
  | none ↦ cons plain nil
  | some b ↦ if length hash == 64 then nil else cons plain nil
]

-- PolicyEntry.Validate
unfoldable pub validate_policy : Bytes → PolicyEntry → Option Fault
unfolding is_role
validate_policy hash entry = join (
    append (hash_faults hash) (
      if is_role entry.role
      then nil
      else faults_of (new_validation_error (at "Role") (cons plain nil))))

unfoldable pub policies_faults : Map PolicyEntry → Faults
policies_faults [] = nil
policies_faults ((hash, entry) ∷ l) =
    append
      (faults_of (new_validation_error (at "Policies") (faults_of (validate_policy hash entry))))
      (policies_faults l)

-- The loop of CoordinatorPolicyHashes.
unfoldable pub coordinator_hashes : Map PolicyEntry → List Bytes
coordinator_hashes [] = []
coordinator_hashes ((hash, entry) ∷ l) =
    let rest = coordinator_hashes l in
    if bytes_equal entry.role role_coordinator then hash ∷ rest else rest

abbrev some_hash : List Bytes → Result (List Bytes)
some_hash [] = err missing_coordinator
some_hash (h ∷ l) = ok (h ∷ l)

-- CoordinatorPolicyHashes
unfoldable pub coordinator_policy_hashes : Manifest → Result (List Bytes)
unfolding coordinator_hashes
coordinator_policy_hashes m = some_hash (coordinator_hashes m.policies)

-- anyReferenceValue
unfoldable pub any_reference_value : (Result Platform → Bool) → Manifest → Bool
any_reference_value pred m =
    any (λ (v : SnpReferenceValues). pred (from_string v.platform)) m.reference_values.snp
    || any (λ (v : TdxReferenceValues). pred (from_string v.platform)) m.reference_values.tdx

abbrev pub insecure_pred : Result Platform → Bool
insecure_pred (ok p) = is_insecure p
insecure_pred (err e) = false

abbrev pub secure_pred : Result Platform → Bool
secure_pred (ok p) = not (is_insecure p)
secure_pred (err e) = true

-- HasInsecurePlatforms
unfoldable pub has_insecure_platforms : Manifest → Bool
unfolding any_reference_value
has_insecure_platforms m = any_reference_value insecure_pred m

-- HasSecurePlatforms: an unknown platform counts as secure.
unfoldable pub has_secure_platforms : Manifest → Bool
unfolding any_reference_value
has_secure_platforms m = any_reference_value secure_pred m

abbrev decoded : Option Bytes → Result Bytes
decoded none = err bad_key
decoded (some b) = ok b

-- userapi.SeedShare
pub record SeedShare : Type 0 where
  pub encrypted_seed : Bytes
  pub public_key : Bytes

module _ (crypto : Crypto) where
  -- ParseWorkloadOwnerPublicKey
  unfoldable pub parse_workload_owner_public_key : Bytes → Result Bytes
  parse_workload_owner_public_key hex = do
    b ← decoded (hex_decode hex)
    decoded (crypto.parse_pkix b)

  -- ParseSeedShareOwnerKey
  unfoldable pub parse_seed_share_owner_key : Bytes → Result Bytes
  parse_seed_share_owner_key hex = do b ← decoded (hex_decode hex); decoded (crypto.parse_pkcs1 b)

  abbrev key_faults : String → ℕ → Result Bytes → Faults
  key_faults name i (ok k) = nil
  key_faults name i (err e) = faults_of (new_validation_error (item name i) (cons plain nil))

  unfoldable pub keys_faults : String → (Bytes → Result Bytes) → ℕ → List Bytes → Faults
  keys_faults name parse i [] = nil
  keys_faults name parse i (k ∷ ks) =
      append (key_faults name i (parse k)) (keys_faults name parse (i + 1) ks)

  abbrev mixed_faults : Manifest → Faults
  mixed_faults m =
      if has_insecure_platforms m && has_secure_platforms m
      then faults_of (new_validation_error (at "ReferenceValues") (cons plain nil))
      else nil

  abbrev after_coordinators : Manifest → Result (List Bytes) → Option Fault
  after_coordinators m (err e) = some plain
  after_coordinators m (ok l) = join (
      append (policies_faults m.policies) (
        append
          (faults_of (
            new_validation_error (at "ReferenceValues")
              (faults_of (Values.validate m.reference_values))))
          (append (mixed_faults m) (
            append
              (keys_faults "WorkloadOwnerPubKeys" parse_workload_owner_public_key 0
                m.workload_owner_pub_keys)
              (keys_faults "SeedshareOwnerPubKeys" parse_seed_share_owner_key 0
                m.seedshare_owner_pub_keys)))))

  -- Manifest.Validate; without a coordinator it returns at once.
  unfoldable pub validate : Manifest → Option Fault
  validate m = after_coordinators m (coordinator_policy_hashes m)

  abbrev pub encrypted : Option Bytes → Result Bytes
  encrypted none = err key_generation
  encrypted (some b) = ok b

  -- EncryptSeedShares
  unfoldable pub encrypt_seed_shares : ℕ → Bytes → List Bytes → Result (List SeedShare)
  encrypt_seed_shares rand seed [] = ok []
  encrypt_seed_shares rand seed (hex ∷ keys) = do
    key ← parse_seed_share_owner_key hex
    text ← encrypted (crypto.encrypt_oaep rand key seed)
    rest ← encrypt_seed_shares rand seed keys
    ok (record { encrypted_seed = text; public_key = hex } ∷ rest)
