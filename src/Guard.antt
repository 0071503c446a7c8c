-- ===== src/Guard.antt =====
-- coordinator/internal/stateguard/stateguard.go: the current state of the Coordinator.
-- A *State is an index into `states`, where every State object that was made stands; an
-- atomic.Pointer is such an index. Each method is one step, but for what its arguments do meanwhile.
pub mod Methods
pub mod Provided
pub mod Persist
pub mod Recovery
pub mod Updates
pub mod Watch
pub mod Soundness
use contrast.Prelude.{
  Bytes, Map, lookup, insert, Result, ok, err, Error, has_changed, no_policy, bad_manifest,
  bad_policy_hash, concurrent_update, Option, none, some, Bool, true, false, ℕ, List, [], ◌∷◌, ◌++◌,
  if◌then◌else◌, length, ◌==◌, get_elem?, take, replicate,
}
use contrast.Prelude.Execs.{Exec, pure, lift, ◌>>=◌}
use contrast.Crypto.{Crypto}
use contrast.Store.{Store}
use contrast.History
use contrast.History.{History}
use contrast.History.Encoding.{LatestTransition, Transition, zero_hash}
use contrast.SeedEngine.{SeedEngine}
use contrast.Ca.{Ca, X509}
use contrast.Manifest.{Manifest, PolicyEntry}
use contrast.Manifest.Hex.{hex_decode}

-- encoding/json: what json.Unmarshal reads a text as.
pub data Json : Type 0 where
  malformed : Json
  null : Json
  document : Manifest → Json

-- The packages under this one that are not in the repository.
pub record Env : Type 0 where
  pub crypto : Crypto
  pub x509 : X509
  pub unmarshal : Bytes → Json

pub record State : Type 0 where
  pub seed_engine : SeedEngine
  pub manifest : Manifest
  pub manifest_bytes : Bytes
  pub ca : Ca
  pub latest : LatestTransition
  pub generation : ℕ
  pub stale : Bool

pub record Guard (S : Type 0) : Type 0 where
  pub states : List State
  pub current : Option ℕ
  pub hist : History S
  -- the Prometheus gauge manifest_generation
  pub manifest_generation : ℕ

-- What GetState returns: a state, ErrStaleState with the state if there is one, ErrNoState, or
-- another error.
pub data Answer : Type 0 where
  fresh : ℕ → Answer
  stale_state : Option ℕ → Answer
  no_state : Answer
  failed : Error → Answer

-- json.Unmarshal into a Manifest, where null leaves the zero value.
abbrev zero_manifest : Manifest
zero_manifest = record {
  policies = [];
  reference_values = record { snp = []; tdx = [] };
  workload_owner_pub_keys = [];
  seedshare_owner_pub_keys = [];
}

abbrev pub into_manifest : Json → Result Manifest
into_manifest malformed = err bad_manifest
into_manifest null = ok zero_manifest
into_manifest (document m) = ok m

-- atomic.Pointer.CompareAndSwap compares the pointers.
abbrev pub same_pointer : Option ℕ → Option ℕ → Bool
same_pointer none none = true
same_pointer (some p) (some q) = p == q
same_pointer _ _ = false

abbrev pub deref : List State → Option ℕ → Option State
deref states none = none
deref states (some p) = get_elem? states p

-- `copy(ref[:], refSlice)` into an array of HashSize bytes.
abbrev pub copy_hash : Bytes → Bytes
copy_hash b = take 32 (b ++ replicate 32 0)

abbrev pub found : Bytes → Option Bytes → Result (Unit {0})
found hex none = err (no_policy hex)
found hex (some b) = ok tt

abbrev pub check_ref : Bytes → Option Bytes → Map Bytes → Result (Unit {0})
check_ref hex none provided = err bad_policy_hash
check_ref hex (some b) provided = found hex (lookup (copy_hash b) provided)

abbrev pub and_then : Result (Unit {0}) → Result (Unit {0}) → Result (Unit {0})
and_then (ok _) r = r
and_then (err e) r = err e

-- Every policy that the manifest names was given with the request.
unfoldable pub check_policies : Map PolicyEntry → Map Bytes → Result (Unit {0})
check_policies [] provided = ok tt
check_policies ((hex, entry) ∷ l) provided =
    and_then (check_ref hex (hex_decode hex) provided) (check_policies l provided)

abbrev pub previous_hash : Option LatestTransition → Bytes
previous_hash none = zero_hash
previous_hash (some l) = l.transition_hash

-- strings.Contains(err.Error(), "has changed since last read")
abbrev pub mark_concurrent : Result LatestTransition → Result LatestTransition
mark_concurrent (ok l) = ok l
mark_concurrent (err (has_changed k)) = err concurrent_update
mark_concurrent (err e) = err e

-- What UpdateState has stored before it builds the next state.
pub record Persisted : Type 0 where
  pub manifest : Manifest
  pub provided : Map Bytes
  pub transition : Transition
  pub latest : LatestTransition

module _ {S : Type 0} (store : Store S) (env : Env) where
  unfoldable pub set_policies : List Bytes → Map Bytes → Exec (History S) (Map Bytes)
  set_policies [] provided = pure provided
  set_policies (p ∷ ps) provided = do
    hash ← History.set_policy store env.crypto p
    set_policies ps (insert hash p provided)

  unfoldable pub set_latest :
      ℕ → Option LatestTransition → Bytes → Bytes → Exec (History S) LatestTransition
  set_latest rand old hash key h =
      let (r, h') = History.set_latest store env.crypto rand old hash key h in
      (mark_concurrent r, h')

  -- UpdateState, up to the SetLatest that makes the update visible to others: one function for each
  -- step, with what follows it.
  module _ (rand : ℕ) (old : Option LatestTransition) (key manifest_bytes : Bytes) where
    abbrev pub transition_for : Bytes → Transition
    transition_for manifest_hash = record {
      manifest_hash = manifest_hash;
      previous_transition_hash = previous_hash old;
    }

    unfoldable pub link_latest :
        Manifest → Map Bytes → Transition → Bytes → Exec (History S) Persisted
    unfolding set_latest
    link_latest mnfst provided t hash = do
      latest ← set_latest rand old hash key
      pure (record { manifest = mnfst; provided = provided; transition = t; latest = latest })

    unfoldable pub link_transition : Manifest → Map Bytes → Bytes → Exec (History S) Persisted
    unfolding link_latest
    link_transition mnfst provided manifest_hash = do
      hash ← History.set_transition store env.crypto (transition_for manifest_hash)
      link_latest mnfst provided (transition_for manifest_hash) hash

    unfoldable pub link_manifest : Manifest → Map Bytes → Unit {0} → Exec (History S) Persisted
    unfolding link_transition
    link_manifest mnfst provided _ = do
      manifest_hash ← History.set_manifest store env.crypto manifest_bytes
      link_transition mnfst provided manifest_hash

    unfoldable pub link_policies : Manifest → Map Bytes → Exec (History S) Persisted
    unfolding link_manifest
    link_policies mnfst provided = do
      done ← lift (check_policies mnfst.policies provided)
      link_manifest mnfst provided done

    unfoldable pub link_parsed : List Bytes → Manifest → Exec (History S) Persisted
    unfolding set_policies link_policies
    link_parsed policies mnfst = do
      provided ← set_policies policies []
      link_policies mnfst provided

    unfoldable pub persist : List Bytes → Exec (History S) Persisted
    unfolding link_parsed
    persist policies = do
      mnfst ← lift (into_manifest (env.unmarshal manifest_bytes))
      link_parsed policies mnfst

  -- The new State object, and the CompareAndSwap of the pointer, which may fail: then the state is
  -- returned and neither the pointer nor the gauge changes.
  unfoldable pub publish : Option ℕ → State → Guard S → Result ℕ × Guard S
  publish old next g =
      let p = length g.states in
      (
        ok p,
        if same_pointer g.current old
            then record g {
              states = g.states ++ next ∷ [];
              current = some p;
              manifest_generation = next.generation;
            }
            else record g { states = g.states ++ next ∷ [] },
      )
