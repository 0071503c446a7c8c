-- ===== src/UserApi/Handlers.antt =====
-- coordinator/internal/userapi/userapi.go: SetManifest, GetManifests and Recover.
use contrast.Prelude.{
  Bytes, Result, ok, err, concurrent_update, Option, none, some, Bool, true, false, ℕ, ◌+◌, List,
  [], ◌∷◌, get_elem?,
}
use contrast.Prelude.Execs.{lift}
use contrast.Store.{Store}
use contrast.History.Encoding.{zero_hash}
use contrast.SeedEngine
use contrast.SeedEngine.{SeedEngine}
use contrast.Manifest.{Manifest, encrypt_seed_shares}
use contrast.Guard.{Env, State, Guard, Answer, fresh, failed}
use contrast.Guard.Methods.{Collected, get_state, update_state, reset_state, get_history}
use contrast.UserApi
use contrast.UserApi.Authorizer.{authorize_by_manifest}
use contrast.UserApi.{
  SetManifestRequest, SetManifestResponse, SeedShareDocument, GetManifestsResponse, RecoverRequest,
  Outcome, reply, status, returned, panic, invalid_argument, permission_denied, failed_precondition,
  internal, ◌>>=◌, or_status, require, Peer, validate_peer, check_manifest_security, same_keys,
  matches_previous, unmarshal_pointer, Decision, validate_signature, authorize_caller,
}

-- constants.SecretSeedSize and constants.SecretSeedSaltSize
abbrev pub secret_seed_size : ℕ
secret_seed_size = 64

abbrev pub secret_seed_salt_size : ℕ
secret_seed_salt_size = 32

abbrev pub random : Option Bytes → Outcome Bytes
random none = status internal
random (some b) = reply b

abbrev pub at_pointer : Option State → Outcome State
at_pointer none = panic
at_pointer (some s) = reply s

module _ {S : Type 0} (store : Store S) (env : Env)
    -- crypto/rand.Read into a slice of a length
    (random_bytes : ℕ → ℕ → Option Bytes) where
  -- SetManifest where there is a state.
  unfoldable pub decide_existing :
      Peer → ℕ → State → SetManifestRequest → Option Manifest → Outcome Decision
  decide_existing peer p s req m = do
    _ ←
        authorize_caller env.crypto peer s.manifest.workload_owner_pub_keys s.latest.transition_hash
          req
    mnfst ← UserApi.deref m
    _ ←
        require (same_keys s.manifest.seedshare_owner_pub_keys mnfst.seedshare_owner_pub_keys)
          permission_denied
    _ ←
        require (matches_previous req.previous_transition_hash s.latest.transition_hash)
          failed_precondition
    reply (record { old_state = some p; seed_engine = s.seed_engine; seed_shares_doc = none })

  -- The first manifest may be signed, but need not.
  unfoldable pub check_initial_signature :
      SetManifestRequest → Option Bytes → Option Manifest → Outcome (Unit {0})
  check_initial_signature req none m = reply tt
  check_initial_signature req (some sig) m = do
    mnfst ← UserApi.deref m
    or_status permission_denied
        (validate_signature env.crypto mnfst.workload_owner_pub_keys zero_hash req)

  unfoldable pub decide_initial : ℕ → SetManifestRequest → Option Manifest → Outcome Decision
  unfolding check_initial_signature
  decide_initial rand req m = do
    _ ← check_initial_signature req req.signature m
    _ ← require (matches_previous req.previous_transition_hash zero_hash) failed_precondition
    seed ← random (random_bytes rand secret_seed_size)
    salt ← random (random_bytes (rand + 1) secret_seed_salt_size)
    mnfst ← UserApi.deref m
    shares ←
        or_status invalid_argument
          (encrypt_seed_shares env.crypto rand seed mnfst.seedshare_owner_pub_keys)
    se ← or_status internal (SeedEngine.new env.crypto seed salt)
    reply (record {
      old_state = none;
      seed_engine = se;
      seed_shares_doc = some (record { salt = salt; seed_shares = shares });
    })

  unfoldable pub check_security : Bool → Option Manifest → Decision → Outcome Decision
  check_security allow_insecure m d = do
    mnfst ← UserApi.deref m
    _ ← or_status invalid_argument (check_manifest_security allow_insecure mnfst)
    reply d

  -- SetManifest, up to the call of UpdateState.
  unfoldable pub decide_at :
      Bool → Peer → ℕ → SetManifestRequest → Guard S → Answer → Option Manifest → Outcome Decision
  unfolding decide_existing decide_initial check_security
  decide_at allow peer rand req g (fresh p) m = do
    s ← at_pointer (get_elem? g.states p)
    d ← decide_existing peer p s req m
    check_security allow m d
  decide_at allow peer rand req g Answer.no_state m = do
    d ← decide_initial rand req m
    check_security allow m d
  decide_at allow peer rand req g (Answer.stale_state o) m = status failed_precondition
  decide_at allow peer rand req g (failed e) m = status internal

  unfoldable pub decide_parsed :
      Bool → Peer → ℕ → SetManifestRequest → Guard S → Answer → Outcome Decision
  unfolding decide_at
  decide_parsed allow peer rand req g (Answer.stale_state o) = status failed_precondition
  decide_parsed allow peer rand req g (failed e) = status internal
  decide_parsed allow peer rand req g answer = do
    m ← unmarshal_pointer (env.unmarshal req.manifest)
    decide_at allow peer rand req g answer m

  unfoldable pub respond : Decision → Result ℕ → Guard S → Outcome SetManifestResponse
  respond d (err concurrent_update) g = status failed_precondition
  respond d (err e) g = status internal
  respond d (ok p) g = do
    s ← at_pointer (get_elem? g.states p)
    reply (record {
      root_ca = s.ca.root_ca_pem;
      mesh_ca = s.ca.mesh_ca_pem;
      seed_shares_doc = d.seed_shares_doc;
    })

  unfoldable pub update :
      ℕ → SetManifestRequest → Outcome Decision → Guard S → Outcome SetManifestResponse × Guard S
  unfolding respond
  update rand req (reply d) g =
      let (r, g') =
        update_state store env rand d.old_state d.seed_engine req.manifest req.policies g in
      (respond d r g', g')
  update rand req (status c) g = (status c, g)
  update rand req (returned e) g = (returned e, g)
  update rand req panic g = (panic, g)

  -- SetManifest. `meanwhile` is what other requests do to the Guard between the reading of the state
  -- and the update.
  unfoldable pub set_manifest :
      Bool
      → (Guard S → Guard S)
      → Peer
      → ℕ
      → SetManifestRequest
      → Guard S
      → Outcome SetManifestResponse × Guard S
  unfolding decide_parsed update
  set_manifest allow_insecure meanwhile peer rand req g =
      update rand req (decide_parsed allow_insecure peer rand req g (get_state store env g))
        (meanwhile g)

  unfoldable pub describe : Option State → Result Collected → Outcome GetManifestsResponse
  describe o (err e) = status internal
  describe o (ok c) = do
    s ← at_pointer o
    reply (record {
      manifests = c.manifests;
      policies = c.policies;
      root_ca = s.ca.root_ca_pem;
      mesh_ca = s.ca.mesh_ca_pem;
      latest_transition = s.latest;
    })

  -- GetManifests
  unfoldable pub manifests_at : ℕ → Answer → Guard S → Outcome GetManifestsResponse × Guard S
  unfolding describe
  manifests_at fuel (fresh p) g =
      let (r, g') = get_history store env fuel g in (describe (get_elem? g.states p) r, g')
  manifests_at fuel (failed e) g = (status internal, g)
  manifests_at fuel _ g = (status failed_precondition, g)

  unfoldable pub get_manifests : ℕ → Guard S → Outcome GetManifestsResponse × Guard S
  unfolding manifests_at
  get_manifests fuel g = manifests_at fuel (get_state store env g) g

  unfoldable pub finish_recover : Result ℕ × Guard S → Outcome (Unit {0}) × Guard S
  finish_recover (ok p, g) = (reply tt, g)
  finish_recover (err e, g) = (returned e, g)

  -- Unless forced, no peer may be there to recover from: `peers` is what the discovery returns.
  unfoldable pub check_peers : Bool → Result (List Bytes) → Outcome (Unit {0})
  check_peers true peers = reply tt
  check_peers false (err e) = status internal
  check_peers false (ok []) = reply tt
  check_peers false (ok (p ∷ ps)) = status failed_precondition

  unfoldable pub recover_if :
      Outcome (Unit {0})
      → Bool
      → Peer
      → ℕ
      → ℕ
      → Option ℕ
      → RecoverRequest
      → Guard S
      → Outcome (Unit {0}) × Guard S
  unfolding finish_recover
  recover_if (reply _) allow peer fuel rand old req g = finish_recover (
      reset_state store env fuel rand old
        (λ m. lift (authorize_by_manifest env.crypto allow peer rand req m)) g)
  recover_if (status c) allow peer fuel rand old req g = (status c, g)
  recover_if (returned e) allow peer fuel rand old req g = (returned e, g)
  recover_if panic allow peer fuel rand old req g = (panic, g)

  unfoldable pub recover_at :
      Bool
      → Result (List Bytes)
      → Peer
      → ℕ
      → ℕ
      → RecoverRequest
      → Answer
      → Guard S
      → Outcome (Unit {0}) × Guard S
  unfolding check_peers recover_if
  recover_at allow peers peer fuel rand req (Answer.stale_state old) g =
      recover_if (check_peers req.force peers) allow peer fuel rand old req g
  recover_at allow peers peer fuel rand req (failed e) g = (status internal, g)
  recover_at allow peers peer fuel rand req _ g = (status failed_precondition, g)

  -- Recover
  unfoldable pub recover :
      Bool
      → Result (List Bytes)
      → Peer
      → ℕ
      → ℕ
      → RecoverRequest
      → Guard S
      → Outcome (Unit {0}) × Guard S
  unfolding recover_at
  recover allow_insecure peers peer fuel rand req g =
      recover_at allow_insecure peers peer fuel rand req (get_state store env g) g
