-- ===== src/Guard/Methods.antt =====
-- coordinator/internal/stateguard/stateguard.go: the methods of Guard.
use contrast.Prelude.{
  Bytes, bytes_equal, Map, lookup, insert, Result, ok, err, Error, bad_policy_hash,
  concurrent_update, nil_dereference, Option, none, some, Bool, true, false, ◌||◌, ℕ, ◌+◌, List, [],
  ◌∷◌, ◌++◌, if◌then◌else◌, length, get_elem?, set, reverse, guard,
}
use contrast.Prelude.Execs.{Exec, pure, lift, asks, ◌>>=◌}
use contrast.Store.{Store}
use contrast.History
use contrast.History.{History, Consumer, walk_transitions}
use contrast.History.Chain.{collecting}
use contrast.History.Encoding.{LatestTransition, Transition}
use contrast.SeedEngine
use contrast.SeedEngine.{SeedEngine}
use contrast.Ca
use contrast.Ca.{Ca}
use contrast.Manifest.{Manifest, PolicyEntry}
use contrast.Manifest.Hex.{hex_decode}
use contrast.Guard.{
  Env, same_pointer, State, Guard, Answer, fresh, stale_state, no_state, failed, into_manifest,
  deref, copy_hash, Persisted, persist, publish,
}

abbrev marked : Result Bool → Answer
marked (err e) = failed e
marked (ok true) = stale_state none
marked (ok false) = no_state

abbrev of_state : ℕ → Option State → Answer
of_state p none = failed nil_dereference
of_state p (some s) = if s.stale then stale_state (some p) else fresh p

abbrev pub latest_of : Option State → Option LatestTransition
latest_of none = none
latest_of (some s) = some s.latest

abbrev pub generation_of : Option State → ℕ
generation_of none = 0
generation_of (some s) = s.generation

-- A visit that counts.
abbrev pub count : Bytes → Transition → ℕ → ℕ
count hash t n = n + 1

-- A visit that looks for a hash.
abbrev pub look_for : Bytes → Bytes → Transition → Bool → Bool
look_for wanted hash t seen = bytes_equal hash wanted || seen

-- What GetHistory collects: the manifests, the newest first as Go appends them, and the policies.
pub record Collected : Type 0 where
  pub manifests : List Bytes
  pub policies : Map Bytes

abbrev decoded : Option Bytes → Result Bytes
decoded none = err bad_policy_hash
decoded (some b) = ok b

-- What ResetState has read before it replaces the state.
pub record Recovered : Type 0 where
  pub state : State
  pub transition : Transition

module _ {S : Type 0} (store : Store S) (env : Env) where
  unfoldable pub state_of : Option ℕ → Guard S → Answer
  state_of none g = marked (History.has_latest store env.crypto g.hist)
  state_of (some p) g = of_state p (get_elem? g.states p)

  -- GetState
  unfoldable pub get_state : Guard S → Answer
  unfolding state_of
  get_state g = state_of g.current g

  -- The rest of UpdateState, once the new transition is the latest one.
  unfoldable pub next_state : ℕ → ℕ → SeedEngine → Bytes → Persisted → Exec (History S) State
  next_state rand old_generation se manifest_bytes p = do
    key ← lift (SeedEngine.generate_mesh_ca_key env.crypto rand)
    ca ← lift (Ca.new env.x509 env.crypto rand se.root_ca_key key)
    pure (record {
      seed_engine = se;
      manifest = p.manifest;
      manifest_bytes = manifest_bytes;
      ca = ca;
      latest = p.latest;
      generation = old_generation + 1;
      stale = false;
    })

  unfoldable pub advance :
      ℕ → Option State → SeedEngine → Bytes → List Bytes → Exec (History S) State
  unfolding next_state
  advance rand old se manifest_bytes policies = do
    p ← persist store env rand (latest_of old) se.transaction_signing_key manifest_bytes policies
    next_state rand (generation_of old) se manifest_bytes p

  unfoldable pub finish_update : Option ℕ → Result State → Guard S → Result ℕ × Guard S
  finish_update old (err e) g = (err e, g)
  finish_update old (ok next) g = publish store env old next g

  -- UpdateState; one number stands for all the randomness of the call.
  unfoldable pub update_state :
      ℕ → Option ℕ → SeedEngine → Bytes → List Bytes → Guard S → Result ℕ × Guard S
  unfolding advance finish_update
  update_state rand old se manifest_bytes policies g =
      let (r, h) = advance rand (deref g.states old) se manifest_bytes policies g.hist in
      finish_update old r (record g { hist = h })

  -- ResetState, up to the replacement of the state. The authorizer asks users or other Coordinators,
  -- and others may change the store while it waits.
  unfoldable pub recover :
      ℕ → ℕ → (Manifest → Exec (History S) (SeedEngine × Bytes)) → Exec (History S) Recovered
  recover fuel rand authorize = do
    insecure ← asks (History.get_latest_insecure store env.crypto)
    transition ← History.get_transition store env.crypto insecure.transition_hash
    manifest_bytes ← History.get_manifest store env.crypto transition.manifest_hash
    mnfst ← lift (into_manifest (env.unmarshal manifest_bytes))
    secrets ← authorize mnfst
    latest ← asks (
        History.get_latest store env.crypto
          (env.crypto.public_key (secrets.0).transaction_signing_key))
    _ ← lift (guard (bytes_equal insecure.transition_hash latest.transition_hash) concurrent_update)
    ca ← lift (Ca.new env.x509 env.crypto rand (secrets.0).root_ca_key secrets.1)
    generation ← walk_transitions store env.crypto fuel (collecting count) latest.transition_hash 0
    pure (record {
      state = record {
        seed_engine = secrets.0;
        manifest = mnfst;
        manifest_bytes = manifest_bytes;
        ca = ca;
        latest = latest;
        generation = generation;
        stale = false;
      };
      transition = transition;
    })

  unfoldable pub finish_reset : Option ℕ → Result Recovered → Guard S → Result ℕ × Guard S
  finish_reset old (err e) g = (err e, g)
  finish_reset old (ok r) g =
      if same_pointer g.current old
      then (
        ok (length g.states),
        record g {
          states = g.states ++ r.state ∷ [];
          current = some (length g.states);
          manifest_generation = r.state.generation;
        },
      )
      else (err concurrent_update, g)

  -- ResetState
  unfoldable pub reset_state :
      ℕ
      → ℕ
      → Option ℕ
      → (Manifest → Exec (History S) (SeedEngine × Bytes))
      → Guard S
      → Result ℕ × Guard S
  unfolding recover finish_reset
  reset_state fuel rand old authorize g =
      let (r, h) = recover fuel rand authorize g.hist in finish_reset old r (record g { hist = h })

  unfoldable pub fetch_policy : Bytes → Option Bytes → Map Bytes → Exec (History S) (Map Bytes)
  fetch_policy hex (some b) collected = pure collected
  fetch_policy hex none collected = do
    hash ← lift (decoded (hex_decode hex))
    policy ← History.get_policy store env.crypto (copy_hash hash)
    pure (insert hex policy collected)

  unfoldable pub fetch_policies : Map PolicyEntry → Map Bytes → Exec (History S) (Map Bytes)
  unfolding fetch_policy
  fetch_policies [] collected = pure collected
  fetch_policies ((hex, entry) ∷ l) collected = do
    collected' ← fetch_policy hex (lookup hex collected) collected
    fetch_policies l collected'

  -- The closure that GetHistory passes to WalkTransitions.
  unfoldable pub collect : Consumer S Collected
  unfolding fetch_policies
  collect hash t c = do
    manifest_bytes ← History.get_manifest store env.crypto t.manifest_hash
    mnfst ← lift (into_manifest (env.unmarshal manifest_bytes))
    found ← fetch_policies mnfst.policies c.policies
    pure (record { manifests = c.manifests ++ manifest_bytes ∷ []; policies = found })

  unfoldable pub history_of : ℕ → Option State → Exec (History S) Collected
  unfolding collect
  history_of fuel none = lift (err nil_dereference)
  history_of fuel (some s) = do
    c ←
        walk_transitions store env.crypto fuel collect s.latest.transition_hash
          (record { manifests = []; policies = [] })
    pure (record c { manifests = reverse c.manifests })

  unfoldable pub history_for : ℕ → Answer → Guard S → Exec (History S) Collected
  unfolding history_of
  history_for fuel (fresh p) g = history_of fuel (get_elem? g.states p)
  history_for fuel (stale_state o) g = lift (err Error.stale_state)
  history_for fuel no_state g = lift (err Error.no_state)
  history_for fuel (failed e) g = lift (err e)

  -- GetHistory
  unfoldable pub get_history : ℕ → Guard S → Result Collected × Guard S
  unfolding history_for
  get_history fuel g =
      let (r, h) = history_for fuel (get_state g) g g.hist in (r, record g { hist = h })

  unfoldable pub mark_unless : ℕ → State → Result Bool × History S → Guard S → Guard S
  mark_unless p s (ok false, h) g = record g {
    hist = h;
    states = set g.states p (record s { stale = true });
  }
  mark_unless p s (_, h) g = record g { hist = h }

  unfoldable pub watch_state : ℕ → Bytes → Option ℕ → Option State → Guard S → Guard S
  unfolding mark_unless
  watch_state fuel hash (some p) (some s) g =
      mark_unless p s
        (walk_transitions store env.crypto fuel (collecting (look_for hash))
          s.latest.transition_hash false g.hist)
        g
  watch_state fuel hash _ _ g = g

  -- The body of the loop of WatchHistory, for a latest transition that was received: the state
  -- becomes stale unless the transition is an ancestor of its own.
  unfoldable pub on_transition : ℕ → Bytes → Guard S → Guard S
  unfolding watch_state
  on_transition fuel hash g = watch_state fuel hash g.current (deref g.states g.current) g
