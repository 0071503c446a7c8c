-- ===== src/UserApi/Panics.antt =====
-- coordinator/internal/userapi/userapi.go: SetManifest where the manifest is the JSON text `null`,
-- which leaves its pointer nil.
use contrast.Prelude.{
  Bytes, Result, ok, err, no_signature, Option, none, some, Bool, ℕ, List, get_elem?, ◌≡◌, ◌↔◌, ◌⊎◌,
  inl, inr, refl, sym, ◌∙◌, ap, subst,
}
use contrast.Crypto.{Crypto}
use contrast.Store.{Store}
use contrast.Guard.{Env, State, Guard, null, fresh}
use contrast.Guard.Methods.{get_state}
use contrast.UserApi.{
  SetManifestRequest, Outcome, Code, reply, status, panic, permission_denied, ◌>>=◌, or_status,
  unmarshal_pointer, Decision, Peer, validate_peer, validate_signature, or_peer, authorize_caller,
}
use contrast.UserApi.Handlers.{
  at_pointer, decide_existing, check_security, decide_at, decide_parsed, update, set_manifest,
}

or_status_cases :
    (c : Code) (r : Result (Unit {0})) → (or_status c r ≡ reply tt) ⊎ (or_status c r ≡ status c)
or_status_cases c (ok _) = inl refl
or_status_cases c (err x) = inr refl

module _ (crypto : Crypto) where
  or_peer_cases :
      (peer : Peer) (keys : List Bytes) (r : Result (Unit {0}))
      → (or_peer crypto peer keys r ≡ reply tt)
        ⊎ (or_peer crypto peer keys r ≡ status permission_denied)
  or_peer_cases peer keys (ok _) = inl refl
  or_peer_cases peer keys (err no_signature) =
      or_status_cases permission_denied (validate_peer peer keys)
  or_peer_cases peer keys (err x) = inr refl

  authorize_caller_cases :
      (peer : Peer) (keys : List Bytes) (hash : Bytes) (req : SetManifestRequest)
      → (authorize_caller crypto peer keys hash req ≡ reply tt)
        ⊎ (authorize_caller crypto peer keys hash req ≡ status permission_denied)
  unfolding authorize_caller
  authorize_caller_cases peer keys hash req =
      or_peer_cases peer keys (validate_signature crypto keys hash req)

module _ {S : Type 0} (store : Store S) (env : Env) (random_bytes : ℕ → ℕ → Option Bytes) where
  -- The decision on a null manifest, once the state is found and the caller is checked.
  abbrev after_check : Outcome (Unit {0}) → Outcome Decision
  after_check o = o >>= λ _. panic

  decide_null :
      (allow : Bool) (peer : Peer) (rand p : ℕ) (s : State) (req : SetManifestRequest) (g : Guard S)
      → get_state store env g ≡ fresh p
      → get_elem? g.states p ≡ some s
      → env.unmarshal req.manifest ≡ null
      → decide_parsed store env random_bytes allow peer rand req g (get_state store env g) ≡ (
          after_check (
            authorize_caller env.crypto peer s.manifest.workload_owner_pub_keys
              s.latest.transition_hash req)
          >>= λ d. panic)
  unfolding decide_parsed decide_at decide_existing check_security
  decide_null allow peer rand p s req g now at is_null =
      ap (decide_parsed store env random_bytes allow peer rand req g) now
      ∙ ap
          (λ j.
            unmarshal_pointer j
            >>= decide_at store env random_bytes allow peer rand req g (fresh p))
          is_null
      ∙ ap
          (λ o. at_pointer o >>= λ t.
            decide_existing store env random_bytes peer p t req none
            >>= check_security store env random_bytes allow none)
          at

  panics_iff :
      (c : Code) (rand : ℕ) (req : SetManifestRequest) (g : Guard S) (o : Outcome (Unit {0}))
      → (o ≡ reply tt) ⊎ (o ≡ status c)
      → ((update store env random_bytes rand req (after_check o >>= λ d. panic) g).0 ≡ panic)
        ↔ (o ≡ reply tt)
  unfolding update
  panics_iff c rand req g (reply _) h = (λ e. refl, λ e. refl)
  panics_iff c rand req g (status d) h = (λ e. cc, λ e. cc)
  panics_iff c rand req g (Outcome.returned x) h = (λ e. cc, λ e. cc)
  panics_iff c rand req g panic (inl e) = (λ k. cc, λ k. cc)
  panics_iff c rand req g panic (inr e) = (λ k. cc, λ k. cc)

  -- Where the Coordinator has a state that is not stale, SetManifest with a manifest that is the JSON
  -- text null panics, by a nil dereference, exactly if the caller is authorized.
  pub set_manifest-panics_iff :
      (allow : Bool) (meanwhile : Guard S → Guard S) (peer : Peer) (rand p : ℕ) (s : State)
      (req : SetManifestRequest) (g : Guard S)
      → get_state store env g ≡ fresh p
      → get_elem? g.states p ≡ some s
      → env.unmarshal req.manifest ≡ null
      → ((set_manifest store env random_bytes allow meanwhile peer rand req g).0 ≡ panic) ↔ (
          authorize_caller env.crypto peer s.manifest.workload_owner_pub_keys
            s.latest.transition_hash req
          ≡ reply tt)
  unfolding set_manifest
  set_manifest-panics_iff allow meanwhile peer rand p s req g now at is_null =
      subst
        (λ d. ((update store env random_bytes rand req d (meanwhile g)).0 ≡ panic) ↔ (
          authorize_caller env.crypto peer s.manifest.workload_owner_pub_keys
            s.latest.transition_hash req
          ≡ reply tt))
        (sym (decide_null allow peer rand p s req g now at is_null))
        (panics_iff permission_denied rand req (meanwhile g) _ (
          authorize_caller_cases env.crypto peer s.manifest.workload_owner_pub_keys
            s.latest.transition_hash req))
