-- ===== src/UserApi/Recovery.antt =====
-- coordinator/internal/userapi/userapi.go: who may recover a Coordinator.
use contrast.Prelude.{
  Bytes, Result, ok, err, >>=-eq-ok, ok-injective, Option, Bool, true, false, ℕ, List, [], ◌∷◌, ◌≡◌,
  refl, sym, ap, subst,
}
use contrast.Prelude.Execs.{lift}
use contrast.Store.{Store}
use contrast.History.Content.{CacheIsSound}
use contrast.SeedEngine
use contrast.SeedEngine.{SeedEngine, IsEngine, new-IsEngine}
use contrast.Manifest.{Manifest}
use contrast.Guard.{Env, Guard, Answer, fresh, failed}
use contrast.Guard.Methods.{Recovered, get_state, reset_state}
use contrast.Guard.Recovery.{IsRecovered, IsReset, reset_state_lem}
use contrast.UserApi.{
  RecoverRequest, Outcome, reply, status, returned, panic, Peer, validate_peer,
  check_manifest_security,
}
use contrast.UserApi.Access.{IsOwner, validate_peer_ok}
use contrast.UserApi.Security.{platform_names, is_acceptable, check_manifest_security_iff}
use contrast.UserApi.Authorizer.{authorize_by_manifest}
use contrast.UserApi.Handlers.{finish_recover, check_peers, recover_if, recover_at, recover}

module _ {S : Type 0} (store : Store S) (env : Env) (random_bytes : ℕ → ℕ → Option Bytes) where
  -- A manifest authorizes the recovery.
  pub record IsAuthorized (allow_insecure : Bool) (peer : Peer) (req : RecoverRequest)
      (m : Manifest) (se : SeedEngine) : Type 0 where
    pub security : check_manifest_security allow_insecure m ≡ ok tt
    pub acceptable : is_acceptable allow_insecure (platform_names m) ≡ true
    pub owner : IsOwner peer m.seedshare_owner_pub_keys
    pub engine : IsEngine env.crypto req.seed req.salt se

  authorize_by_manifest_ok :
      (allow : Bool) (peer : Peer) (rand : ℕ) (req : RecoverRequest) (m : Manifest)
      (se : SeedEngine) (key : Bytes)
      → authorize_by_manifest env.crypto allow peer rand req m ≡ ok (se, key)
      → IsAuthorized allow peer req m se
  unfolding authorize_by_manifest
  authorize_by_manifest_ok allow peer rand req m se key e =
      let (_, e1, r1) = >>=-eq-ok (check_manifest_security allow m) _ e in
      let (_, e2, r2) = >>=-eq-ok (validate_peer peer m.seedshare_owner_pub_keys) _ r1 in
      let (se', e3, r3) = >>=-eq-ok (SeedEngine.new env.crypto req.seed req.salt) _ r2 in
      let (k, e4, r4) = >>=-eq-ok (SeedEngine.generate_mesh_ca_key env.crypto rand) _ r3 in
      let same : se' ≡ se = ap (λ x. x.0) (ok-injective r4) in
      record {
        security = e1;
        acceptable = (check_manifest_security_iff allow m).0 e1;
        owner = validate_peer_ok peer m.seedshare_owner_pub_keys e2;
        engine =
            subst (IsEngine env.crypto req.seed req.salt) same
              (new-IsEngine env.crypto req.seed req.salt se' e3);
      }

  -- A recovery by a user, as the Guard shows it afterwards.
  pub record IsUserRecovery (allow_insecure : Bool) (peers : Result (List Bytes)) (peer : Peer)
      (rand : ℕ) (req : RecoverRequest) (old : Option ℕ) (p : ℕ) (r : Recovered) (g g' : Guard S)
      : Type 0 where
    pub was_stale : get_state store env g ≡ Answer.stale_state old
    pub alone : req.force ≡ false → peers ≡ ok []
    pub authorized : IsAuthorized allow_insecure peer req r.state.manifest r.state.seed_engine
    pub recovered :
        IsRecovered store env
          (λ m. lift (authorize_by_manifest env.crypto allow_insecure peer rand req m))
          g.hist.store
          r
    pub reset :
        IsReset store env
          (λ m. lift (authorize_by_manifest env.crypto allow_insecure peer rand req m))
          old
          p
          r
          g
          g'

  finish_recover_reply :
      (x : Result ℕ × Guard S)
      → (finish_recover store env random_bytes x).0 ≡ reply tt
      → (p : ℕ) × (x.0 ≡ ok p) × ((finish_recover store env random_bytes x).1 ≡ x.1)
  unfolding finish_recover
  finish_recover_reply (ok p, g) e = (p, refl, refl)
  finish_recover_reply (err x, g) e = cc

  check_peers_reply :
      (force : Bool) (peers : Result (List Bytes))
      → check_peers store env random_bytes force peers ≡ reply tt
      → force ≡ false
      → peers ≡ ok []
  unfolding check_peers
  check_peers_reply true peers e f = cc
  check_peers_reply false (err x) e f = cc
  check_peers_reply false (ok []) e f = refl
  check_peers_reply false (ok (p ∷ ps)) e f = cc

  recover_if_reply :
      (o : Outcome (Unit {0})) (allow : Bool) (peer : Peer) (fuel rand : ℕ) (old : Option ℕ)
      (req : RecoverRequest) (g : Guard S)
      → CacheIsSound store env.crypto g.hist
      → (recover_if store env random_bytes o allow peer fuel rand old req g).0 ≡ reply tt
      → (o ≡ reply tt)
        × ((p : ℕ) × (r : Recovered) × IsRecovered store env
              (λ m. lift (authorize_by_manifest env.crypto allow peer rand req m))
              g.hist.store
              r
            × IsReset store env
                (λ m. lift (authorize_by_manifest env.crypto allow peer rand req m))
                old
                p
                r
                g
                (recover_if store env random_bytes o allow peer fuel rand old req g).1)
  unfolding recover_if
  recover_if_reply (reply _) allow peer fuel rand old req g sound e =
      let a = λ (m : Manifest). lift (authorize_by_manifest env.crypto allow peer rand req m) in
      let (p, done, same) = finish_recover_reply (reset_state store env fuel rand old a g) e in
      let (r, recovered, reset) = reset_state_lem store env a fuel rand old g p sound done in
      (refl, (p, r, recovered, subst (IsReset store env a old p r g) (sym same) reset))
  recover_if_reply (status c) allow peer fuel rand old req g sound e = cc
  recover_if_reply (returned x) allow peer fuel rand old req g sound e = cc
  recover_if_reply panic allow peer fuel rand old req g sound e = cc

  recover_at_reply :
      (allow : Bool) (peers : Result (List Bytes)) (peer : Peer) (fuel rand : ℕ)
      (req : RecoverRequest) (answer : Answer) (g : Guard S)
      → CacheIsSound store env.crypto g.hist
      → get_state store env g ≡ answer
      → (recover_at store env random_bytes allow peers peer fuel rand req answer g).0 ≡ reply tt
      → (old : Option ℕ) × (p : ℕ) × (r : Recovered) × IsUserRecovery allow peers peer rand req old
          p r g
          (recover_at store env random_bytes allow peers peer fuel rand req answer g).1
  unfolding recover_at
  recover_at_reply allow peers peer fuel rand req (Answer.stale_state old) g sound s e =
      let (checked, (p, r, recovered, reset)) =
        recover_if_reply (check_peers store env random_bytes req.force peers) allow peer fuel rand
          old req g sound e in
      (
        old,
        p,
        r,
        record {
          was_stale = s;
          alone = check_peers_reply req.force peers checked;
          authorized =
              authorize_by_manifest_ok allow peer rand req r.state.manifest r.state.seed_engine
                recovered.mesh_ca_key recovered.authorized;
          recovered = recovered;
          reset = reset;
        },
      )
  recover_at_reply allow peers peer fuel rand req (failed x) g sound s e = cc
  recover_at_reply allow peers peer fuel rand req (fresh p) g sound s e = cc
  recover_at_reply allow peers peer fuel rand req Answer.no_state g sound s e = cc

  -- Recover succeeds only where the state is stale or is only in the store, and, unless forced, where
  -- there is no peer to recover from. The caller owns a seedshare key of the manifest that the latest
  -- transition names, which the store holds under transitions/latest, and whose security level is
  -- right, and the engine is made from the given seed and salt and verifies that transition. The state
  -- of that transition replaces the old state. The cache was sound.
  pub recover_authorized :
      (allow : Bool) (peers : Result (List Bytes)) (peer : Peer) (fuel rand : ℕ)
      (req : RecoverRequest) (g : Guard S)
      → CacheIsSound store env.crypto g.hist
      → (recover store env random_bytes allow peers peer fuel rand req g).0 ≡ reply tt
      → (old : Option ℕ) × (p : ℕ) × (r : Recovered) × IsUserRecovery allow peers peer rand req old
          p r g
          (recover store env random_bytes allow peers peer fuel rand req g).1
  unfolding recover
  recover_authorized allow peers peer fuel rand req g sound e =
      recover_at_reply allow peers peer fuel rand req (get_state store env g) g sound refl e
