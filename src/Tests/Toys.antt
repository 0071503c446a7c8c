-- ===== src/Tests/Toys.antt =====
-- Small instances of what the program takes from other packages, for the examples.
use contrast.Prelude.{
  Bytes, codes, bytes_equal, bytes_equal_iff, Map, lookup, insert, lookup-insert,
  lookup-insert_self, Result, ok, err, not_exist, Option, none, some, ℕ, zero, suc, ◌%◌, ◌<◌, List,
  [], ◌∷◌, ◌++◌, length, All, ◌≡◌, ◌≢◌, refl, arith, ap, replicate,
}
use contrast.Crypto.{Crypto, CryptoLaws}
use contrast.Store.{Store, StoreLaws}
use contrast.Store.Afero.{FileSystem, FileSystemLaws, afero_store, afero_store-StoreLaws}
use contrast.Ca.{X509, Ca, interm_template}
use contrast.SeedEngine.{SeedEngine}
use contrast.Manifest.{Manifest, PolicyEntry}
use contrast.Guard.{Env, Json, null, document}

-- The length and the first bytes.
abbrev reduce : ℕ → Bytes → Bytes
reduce zero b = []
reduce (suc n) [] = 0 ∷ reduce n []
reduce (suc n) (x ∷ b) = x % 256 ∷ reduce n b

abbrev toy_sign : Bytes → Bytes → Bytes
toy_sign key hash = 1 ∷ key ++ hash

abbrev pub toy_crypto : Crypto
toy_crypto = record {
  sum256 = λ b. reduce 32 (length b ∷ b);
  public_key = λ k. k;
  sign_asn1 = λ r key hash. some (toy_sign key hash);
  verify_asn1 = λ key hash sig. bytes_equal sig (toy_sign key hash);
  parse_pkix = λ b. some b;
  parse_pkcs1 = λ b. some b;
  encrypt_oaep = λ r key seed. some (key ++ seed);
  hkdf = λ secret salt info. some (info ++ secret);
  keygen = λ secret. some secret;
  generate_key = λ r. some (r ∷ []);
}

length-reduce : (n : ℕ) (b : Bytes) → length (reduce n b) ≡ n
length-reduce zero b = refl
length-reduce (suc n) [] = ap suc (length-reduce n [])
length-reduce (suc n) (x ∷ b) = ap suc (length-reduce n b)

bytes-reduce : (n : ℕ) (b : Bytes) → All (λ x. x < 256) (reduce n b)
bytes-reduce zero b = tt
bytes-reduce (suc n) [] = (omega arith, bytes-reduce n [])
bytes-reduce (suc n) (x ∷ b) = (omega arith, bytes-reduce n b)

pub toy_crypto-CryptoLaws : CryptoLaws toy_crypto
toy_crypto-CryptoLaws = record {
  length-sum256 = λ b. length-reduce 32 (length b ∷ b);
  bytes-sum256 = λ b. bytes-reduce 32 (length b ∷ b);
  verify-sign = λ r key hash sig e. ground (arith, bytes_equal_iff sig (toy_sign key hash));
  sign_nonempty = λ r key hash sig e. nonempty sig (key ++ hash) e;
}
  where
    nonempty : (sig rest : Bytes) → some (1 ∷ rest) ≡ some sig → 0 < length sig
    nonempty [] rest e = cc
    nonempty (x ∷ sig) rest e = omega arith

-- A file system that keeps every file.
abbrev read : Option Bytes → Result Bytes
read none = err not_exist
read (some b) = ok b

abbrev stat_of : Option Bytes → Result (Unit {0})
stat_of none = err not_exist
stat_of (some b) = ok tt

unfoldable pub toy_files : FileSystem (Map Bytes)
unfolding lookup insert
toy_files = record {
  read_file = λ k m. read (lookup k m);
  stat = λ k m. stat_of (lookup k m);
  mkdir_all = λ d m. (ok tt, m);
  write_file = λ k v m. (ok tt, insert k v m);
}

read-insert_ne :
    (k j v : Bytes) (m : Map Bytes) → k ≢ j → read (lookup j (insert k v m)) ≡ read (lookup j m)
read-insert_ne k j v m ne = ap read (ground (arith, lookup-insert k j v m, bytes_equal_iff k j))

pub toy_files-FileSystemLaws : FileSystemLaws toy_files
unfolding toy_files
toy_files-FileSystemLaws = record {
  read-write = λ k v m e. ap read (lookup-insert_self k v m);
  read-write_ne = λ k j v m ne. read-insert_ne k j v m ne;
  read-mkdir = λ d j m. refl;
}

abbrev pub toy_store : Store (Map Bytes)
toy_store = afero_store toy_files

abbrev pub toy_store-StoreLaws : StoreLaws toy_store
toy_store-StoreLaws = afero_store-StoreLaws toy_files toy_files-FileSystemLaws

-- The manifests of the examples: `null`, and two that differ in their reference values. Their policy
-- is the digest of the text 7.
abbrev pub policy : Bytes
policy = 7 ∷ []

abbrev pub policy_hash : Bytes
policy_hash = codes "0107" ++ replicate 60 48

abbrev entry : PolicyEntry
entry = record { sans = codes "web" ∷ []; workload_secret_id = []; role = codes "coordinator" }

abbrev pub toy_manifest : List Bytes → Manifest
toy_manifest owners = record {
  policies = (policy_hash, entry) ∷ [];
  reference_values = record { snp = []; tdx = [] };
  workload_owner_pub_keys = codes "05" ∷ owners;
  seedshare_owner_pub_keys = codes "06" ∷ [];
}

abbrev pub toy_unmarshal : Bytes → Json
toy_unmarshal (suc zero ∷ []) = document (toy_manifest [])
toy_unmarshal (suc (suc zero) ∷ []) = document (toy_manifest (codes "07" ∷ []))
toy_unmarshal (zero ∷ []) = null
toy_unmarshal _ = Json.malformed

abbrev pub toy_x509 : X509
toy_x509 = record {
  create_certificate = λ r template parent pub_key key. some (template.common_name ++ pub_key);
  is_ip = λ n. bytes_equal n (codes "::1");
  is_uri = λ n. bytes_equal n (codes "spiffe://web");
}

abbrev pub toy_env : Env
toy_env = record { crypto = toy_crypto; x509 = toy_x509; unmarshal = toy_unmarshal }

abbrev pub toy_seed : Bytes
toy_seed = replicate 64 9

abbrev pub toy_salt : Bytes
toy_salt = replicate 32 8

abbrev pub toy_engine : SeedEngine
toy_engine = record {
  seed = toy_seed;
  salt = toy_salt;
  pod_state_seed = codes "POD STATE SECRET" ++ toy_seed;
  history_seed = codes "HISTORY SECRET" ++ toy_seed;
  transit_engine_seed = codes "TRANSIT ENGINE SECRET" ++ toy_seed;
  root_ca_key = codes "ROOT CA SEED" ++ toy_seed;
  transaction_signing_key = codes "TRANSACTION SIGNING SECRET" ++ toy_seed;
}

-- Enough randomness.
abbrev pub toy_random : ℕ → ℕ → Option Bytes
toy_random r n = some (replicate n r)

abbrev pub toy_ca : Ca
toy_ca = record {
  root_ca_priv_key = toy_engine.root_ca_key;
  root_ca_pem = codes "system:coordinator:root" ++ toy_engine.root_ca_key;
  interm_priv_key = 1 ∷ [];
  interm_ca_pem = codes "system:coordinator:intermediate" ++ 1 ∷ [];
  mesh_ca_cert = interm_template;
  mesh_ca_pem = codes "system:coordinator:intermediate" ++ 1 ∷ [];
}
