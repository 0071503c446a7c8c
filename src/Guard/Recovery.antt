-- ===== src/Guard/Recovery.antt =====
-- ResetState of coordinator/internal/stateguard/stateguard.go.
use contrast.Prelude.{
  guard-eq-ok, Bytes, codes, bytes_equal, bytes_equal_iff, Result, ok, err, >>=-eq-ok, ok-injective,
  Option, some, true, false, ℕ, [], ◌∷◌, ◌++◌, length, ◌≡◌, refl, arith, ◌∙◌, ap, subst, guard,
  concurrent_update,
}
use contrast.Prelude.Execs.{Exec, continue_rest}
use contrast.Store.{Store}
use contrast.History
use contrast.History.{
  History, latest_key, get_latest_insecure, get_transition, get_latest, verify, walk_transitions,
}
use contrast.History.Content.{CacheIsSound, get_contentaddressed-IsRead, get_contentaddressed-store}
use contrast.History.Encoding.{
  LatestTransition, Transition, digest, digest_transition, unmarshal_transition, unmarshal_latest,
  marshal-unmarshal_transition,
}
use contrast.Ca
use contrast.History.Chain.{collecting}
use contrast.SeedEngine.{SeedEngine}
use contrast.Manifest.{Manifest}
use contrast.Guard.{Env, Guard, into_manifest, same_pointer}
use contrast.Guard.Methods.{Recovered, count, recover, finish_reset, reset_state}

module _ {S : Type 0} (store : Store S) (env : Env)
    (authorize : Manifest → Exec (History S) (SeedEngine × Bytes)) where
  -- The latest transition that a store holds.
  pub record IsStored (s : S) (l : LatestTransition) : Type 0 where
    pub text : Bytes
    pub under_latest : store.get (codes "transitions/latest") s ≡ ok text
    pub read : unmarshal_latest text ≡ ok l

  -- The state that ResetState restores from a store. The authorizer is asked at the history `during`.
  pub record IsRecovered (s : S) (r : Recovered) : Type 0 where
    pub mesh_ca_key : Bytes
    pub during : History S
    pub before : LatestTransition
    pub stored_before : IsStored s before
    pub same_hash : before.transition_hash ≡ r.state.latest.transition_hash
    pub store_kept : during.store ≡ s
    pub stored_after : IsStored (authorize r.state.manifest during).1.store r.state.latest
    pub authorized : (authorize r.state.manifest during).0 ≡ ok (r.state.seed_engine, mesh_ca_key)
    pub parsed : into_manifest (env.unmarshal r.state.manifest_bytes) ≡ ok r.state.manifest
    pub manifest_hash : digest env.crypto r.state.manifest_bytes ≡ r.transition.manifest_hash
    pub transition_hash : digest_transition env.crypto r.transition ≡ r.state.latest.transition_hash
    pub signed :
        env.crypto.verify_asn1
          (env.crypto.public_key r.state.seed_engine.transaction_signing_key)
          r.state.latest.transition_hash
          r.state.latest.signature
        ≡ true
    pub not_stale : r.state.stale ≡ false

  verify_ok :
      (key : Bytes) (l l' : LatestTransition)
      → verify store env.crypto key l ≡ ok l'
      → (l ≡ l') × (env.crypto.verify_asn1 key l'.transition_hash l'.signature ≡ true)
  unfolding verify
  verify_ok key l l' e = ground arith

  get_latest_insecure_ok :
      (h : History S) (l : LatestTransition)
      → get_latest_insecure store env.crypto h ≡ ok l
      → IsStored h.store l
  unfolding get_latest_insecure
  get_latest_insecure_ok h l e =
      let (b, found, read) = >>=-eq-ok (store.get latest_key h.store) unmarshal_latest e in
      record { text = b; under_latest = found; read = read }

  get_latest_ok :
      (key : Bytes) (h : History S) (l : LatestTransition)
      → get_latest store env.crypto key h ≡ ok l
      → (env.crypto.verify_asn1 key l.transition_hash l.signature ≡ true) × IsStored h.store l
  unfolding get_latest
  get_latest_ok key h l e =
      let (l0, e0, e1) = >>=-eq-ok (get_latest_insecure store env.crypto h) _ e in
      let (same, verified) = verify_ok key l0 l e1 in
      (verified, get_latest_insecure_ok h l (e0 ∙ ap ok same))

  get_transition-store :
      (hash : Bytes) (h : History S) → (get_transition store env.crypto hash h).1.store ≡ h.store
  unfolding get_transition
  get_transition-store hash h =
      get_contentaddressed-store store env.crypto History.transitions hash h

  get_transition_content :
      (hash : Bytes) (t : Transition) (h : History S)
      → CacheIsSound store env.crypto h
      → (get_transition store env.crypto hash h).0 ≡ ok t
      → (digest_transition env.crypto t ≡ hash)
        × CacheIsSound store env.crypto (get_transition store env.crypto hash h).1
  unfolding get_transition digest_transition
  get_transition_content hash t h sound e =
      let (b, found, read) = >>=-eq-ok _ unmarshal_transition e in
      let r = get_contentaddressed-IsRead store env.crypto History.transitions hash h sound in
      (
        ap (digest env.crypto) (marshal-unmarshal_transition b t read) ∙ r.content b found,
        r.cache_sound,
      )

  -- A recovery that succeeds has authorized the engine by the manifest. The manifest is the one that
  -- the latest transition in the store names, by its digest, before and after the authorizer was
  -- asked, and the engine's key verifies that transition.
  pub recover_lem :
      (fuel rand : ℕ) (h : History S) (r : Recovered)
      → CacheIsSound store env.crypto h
      → (recover store env fuel rand authorize h).0 ≡ ok r
      → IsRecovered h.store r
  unfolding recover
  recover_lem fuel rand h r sound e =
      let (insecure, e1, rest1) = continue_rest _ (get_latest_insecure store env.crypto h, h) e in
      let hash = insecure.transition_hash in
      let (t, e2, rest2) = continue_rest _ (get_transition store env.crypto hash h) rest1 in
      let h2 = (get_transition store env.crypto hash h).1 in
      let (digest_t, sound2) = get_transition_content hash t h sound e2 in
      let (bytes, e3, rest3) =
        continue_rest _ (History.get_manifest store env.crypto t.manifest_hash h2) rest2 in
      let h3 = (History.get_manifest store env.crypto t.manifest_hash h2).1 in
      let (m, e4, rest4) = continue_rest _ (into_manifest (env.unmarshal bytes), h3) rest3 in
      let (secrets, e5, rest5) = continue_rest _ (authorize m h3) rest4 in
      let h5 = (authorize m h3).1 in
      let key = env.crypto.public_key (secrets.0).transaction_signing_key in
      let (latest, e6, rest6) = continue_rest _ (get_latest store env.crypto key h5, h5) rest5 in
      let (_, e7, rest7) =
        continue_rest _ (guard (bytes_equal hash latest.transition_hash) concurrent_update, h5)
          rest6 in
      let (ca, e8, rest8) =
        continue_rest _ (Ca.new env.x509 env.crypto rand (secrets.0).root_ca_key secrets.1, h5)
          rest7 in
      let (n, e9, rest9) =
        continue_rest _
          (walk_transitions store env.crypto fuel (collecting count) latest.transition_hash 0 h5)
          rest8 in
      let (verified, stored_after) = get_latest_ok key h5 latest e6 in
      let same = (bytes_equal_iff hash latest.transition_hash).0 (guard-eq-ok _ _ e7) in
      subst (IsRecovered h.store) (ok-injective rest9) (record {
        before = insecure;
        stored_before = get_latest_insecure_ok h insecure e1;
        same_hash = same;
        store_kept =
            get_contentaddressed-store store env.crypto History.manifests t.manifest_hash h2
            ∙ get_transition-store hash h;
        stored_after = stored_after;
        mesh_ca_key = secrets.1;
        during = h3;
        authorized = e5;
        parsed = e4;
        manifest_hash =
            (get_contentaddressed-IsRead store env.crypto History.manifests t.manifest_hash h2
                sound2).content
              bytes e3;
        transition_hash = digest_t ∙ same;
        signed = verified;
        not_stale = refl;
      })

  -- What ResetState does to the Guard.
  pub record IsReset (old : Option ℕ) (p : ℕ) (r : Recovered) (g g' : Guard S) : Type 0 where
    pub pointer_kept : same_pointer g.current old ≡ true
    pub new_pointer : p ≡ length g.states
    pub all_states : g'.states ≡ g.states ++ r.state ∷ []
    pub new_current : g'.current ≡ some p
    pub gauge : g'.manifest_generation ≡ r.state.generation

  finish_reset_lem :
      (old : Option ℕ) (o : Result Recovered) (g : Guard S) (p : ℕ)
      → (finish_reset store env old o g).0 ≡ ok p
      → (r : Recovered) × (o ≡ ok r) × IsReset old p r g (finish_reset store env old o g).1
  unfolding finish_reset
  finish_reset_lem old (err x) g p e = cc
  finish_reset_lem old (ok r) g p e = (r, refl, ground arith)

  -- A successful ResetState has found the latest transition, which the store held under
  -- transitions/latest when the authorizer had returned, signed by the key of the engine that the
  -- authorizer returned for the manifest that this transition names; the transition stored before was
  -- the same one. The state that it was called with, which still was the current one, is replaced by
  -- the state of that transition. The cache was sound.
  pub reset_state_lem :
      (fuel rand : ℕ) (old : Option ℕ) (g : Guard S) (p : ℕ)
      → CacheIsSound store env.crypto g.hist
      → (reset_state store env fuel rand old authorize g).0 ≡ ok p
      → (r : Recovered) × IsRecovered g.hist.store r
        × IsReset old p r g (reset_state store env fuel rand old authorize g).1
  unfolding reset_state
  reset_state_lem fuel rand old g p sound e =
      let (o, h) = recover store env fuel rand authorize g.hist in
      let (r, done, reset) = finish_reset_lem old o (record g { hist = h }) p e in
      (
        r,
        recover_lem fuel rand g.hist r sound done,
        record {
          pointer_kept = reset.pointer_kept;
          new_pointer = reset.new_pointer;
          all_states = reset.all_states;
          new_current = reset.new_current;
          gauge = reset.gauge;
        },
      )
