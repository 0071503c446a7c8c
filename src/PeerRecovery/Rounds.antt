-- ===== src/PeerRecovery/Rounds.antt =====
-- coordinator/internal/peerrecovery/recovery.go: what a round of recovery does.
use contrast.Prelude.{
  Bytes, Result, ok, err, Error, nil_dereference, Option, some, ℕ, List, [], ◌∷◌, ◌++◌, length,
  >>=-eq-ok, ok-injective, Bool-cases, inl, inr, ◌≡◌, refl, ◌∙◌, ap, subst, true,
}
use contrast.Store.{Store}
use contrast.History.Content.{CacheIsSound}
use contrast.SeedEngine
use contrast.Manifest.{Manifest}
use contrast.MeshApi.{RecoverResponse}
use contrast.Guard.{Env, Guard, Answer, stale_state, fresh, no_state, failed, same_pointer}
use contrast.Guard.Methods.{Recovered, get_state, recover, finish_reset, reset_state}
use contrast.Guard.Recovery.{IsRecovered, reset_state_lem}
use contrast.Guard.Soundness.{recover-Keeps}
use contrast.PeerRecovery.{
  Peers, RoundOutcome, recovered, block_key, authorizer, authorize_by_manifest, recover_from_peer,
  after_attempt, try_peers, with_peers, if_stale, recover_once,
}

module _ {S : Type 0} (store : Store S) (env : Env) (peers : Peers) where
  -- A round that has recovered a state: the old one was stale, and was still the current one; the new
  -- one is made from the seed and salt that a peer sent, over a connection that the manifest's
  -- validator accepted, and stands for the latest transition, which its engine verifies.
  pub record IsPeerRecovered (g : Guard S) (p : ℕ) (g' : Guard S) : Type 0 where
    pub old : Option ℕ
    pub stale : get_state store env g ≡ stale_state old
    pub before : List Bytes
    pub peer : Bytes
    pub after : List Bytes
    pub discovered : peers.get_peers ≡ ok (before ++ (peer ∷ after))
    pub r : Recovered
    pub resp : RecoverResponse
    pub answered : peers.ask r.state.manifest peer ≡ ok resp
    pub engine : SeedEngine.new env.crypto resp.seed resp.salt ≡ ok r.state.seed_engine
    pub restored : IsRecovered store env (authorizer store env peers peer) g.hist.store r
    pub pointer_kept : same_pointer g.current old ≡ true
    pub new_pointer : p ≡ length g.states
    pub all_states : g'.states ≡ g.states ++ r.state ∷ []
    pub new_current : g'.current ≡ some p

  -- What attempts that failed leave of a Guard.
  record IsKept (g g' : Guard S) : Type 0 where
    pub states : g'.states ≡ g.states
    pub current : g'.current ≡ g.current
    pub sound : CacheIsSound store env.crypto g'.hist
    pub store_kept : g'.hist.store ≡ g.hist.store

  finish_reset-IsKept :
      (old : Option ℕ) (o : Result Recovered) (g : Guard S) (e : Error)
      → CacheIsSound store env.crypto g.hist
      → (finish_reset store env old o g).0 ≡ err e
      → IsKept g (finish_reset store env old o g).1
  unfolding finish_reset
  finish_reset-IsKept old (err x) g e s h = record {
    states = refl;
    current = refl;
    sound = s;
    store_kept = refl;
  }
  finish_reset-IsKept old (ok r) g e s h = elim (Bool-cases (same_pointer g.current old)) [
    | inl same ↦ absurd (let h' = rw same at h in cc)
    | inr differs ↦
        rw differs (record { states = refl; current = refl; sound = s; store_kept = refl })
  ]

  -- An attempt that fails.
  recover_from_peer-IsKept :
      (fuel rand : ℕ) (old : Option ℕ) (peer : Bytes) (g : Guard S) (e : Error)
      → CacheIsSound store env.crypto g.hist
      → (recover_from_peer store env peers fuel rand old peer g).0 ≡ err e
      → IsKept g (recover_from_peer store env peers fuel rand old peer g).1
  unfolding recover_from_peer reset_state
  recover_from_peer-IsKept fuel rand old peer g e s h =
      let ask = authorizer store env peers peer in
      let (r, h1) = recover store env fuel rand ask g.hist in
      let after =
        recover-Keeps store env g.hist.store fuel rand ask (λ m h s. s) g.hist (s, refl) in
      let kept = finish_reset-IsKept old r (record g { hist = h1 }) e after.0 h in
      record {
        states = kept.states;
        current = kept.current;
        sound = kept.sound;
        store_kept = kept.store_kept ∙ after.1;
      }

  -- A successful round, from the loop on.
  record IsAttempt (old : Option ℕ) (discovered : List Bytes) (g : Guard S) (p : ℕ) (g' : Guard S)
      : Type 0 where
    pub before : List Bytes
    pub peer : Bytes
    pub after : List Bytes
    pub among : discovered ≡ before ++ (peer ∷ after)
    pub r : Recovered
    pub restored : IsRecovered store env (authorizer store env peers peer) g.hist.store r
    pub pointer_kept : same_pointer g.current old ≡ true
    pub new_pointer : p ≡ length g.states
    pub all_states : g'.states ≡ g.states ++ (r.state ∷ [])
    pub new_current : g'.current ≡ some p

  -- The first attempt succeeds.
  first-IsAttempt :
      (fuel rand : ℕ) (old : Option ℕ) (peer : Bytes) (rest : List Bytes) (g : Guard S) (p : ℕ)
      → CacheIsSound store env.crypto g.hist
      → (recover_from_peer store env peers fuel rand old peer g).0 ≡ ok p
      → IsAttempt old (peer ∷ rest) g p (recover_from_peer store env peers fuel rand old peer g).1
  unfolding recover_from_peer
  first-IsAttempt fuel rand old peer rest g p s h =
      let (r, restored, reset) =
        reset_state_lem store env (authorizer store env peers peer) fuel rand old g p s h in
      record {
        before = [];
        peer = peer;
        after = rest;
        among = refl;
        r = r;
        restored = restored;
        pointer_kept = reset.pointer_kept;
        new_pointer = reset.new_pointer;
        all_states = reset.all_states;
        new_current = reset.new_current;
      }

  later-IsAttempt :
      (old : Option ℕ) (peer : Bytes) (rest : List Bytes) (g g1 : Guard S) (p : ℕ) (g' : Guard S)
      → IsKept g g1
      → IsAttempt old rest g1 p g'
      → IsAttempt old (peer ∷ rest) g p g'
  later-IsAttempt old peer rest g g1 p g' kept a = record {
    before = peer ∷ a.before;
    peer = a.peer;
    after = a.after;
    among = ap (λ l. peer ∷ l) a.among;
    r = a.r;
    restored =
        subst (λ s. IsRecovered store env (authorizer store env peers a.peer) s a.r) kept.store_kept
          a.restored;
    new_pointer = a.new_pointer ∙ ap length kept.states;
    pointer_kept = subst (λ c. same_pointer c old ≡ true) kept.current a.pointer_kept;
    all_states = a.all_states ∙ ap (λ l. l ++ (a.r.state ∷ [])) kept.states;
    new_current = a.new_current;
  }

  try_peers-IsAttempt :
      (fuel rand : ℕ) (old : Option ℕ) (l : List Bytes) (errs : List Error) (g : Guard S) (p : ℕ)
      → CacheIsSound store env.crypto g.hist
      → (try_peers store env peers fuel rand old l errs g).0 ≡ recovered p
      → IsAttempt old l g p (try_peers store env peers fuel rand old l errs g).1
  unfolding try_peers
  try_peers-IsAttempt fuel rand old [] errs g p s h = cc
  try_peers-IsAttempt fuel rand old (peer ∷ rest) errs g p s h =
      by (recover_from_peer store env peers fuel rand old peer g).0
        (λ p h. first-IsAttempt fuel rand old peer rest g p s h)
        (λ e h. recover_from_peer-IsKept fuel rand old peer g e s h)
        (λ errs g p s h. try_peers-IsAttempt fuel rand old rest errs g p s h) refl h
    where
      g1 : Guard S
      g1 = (recover_from_peer store env peers fuel rand old peer g).1

      go : List Error → Guard S → RoundOutcome × Guard S
      go errs g = try_peers store env peers fuel rand old rest errs g

      by :
          (o : Result ℕ)
          → ((p : ℕ)
              → (recover_from_peer store env peers fuel rand old peer g).0 ≡ ok p
              → IsAttempt old (peer ∷ rest) g p g1)
          → ((e : Error)
              → (recover_from_peer store env peers fuel rand old peer g).0 ≡ err e
              → IsKept g g1)
          → ((errs : List Error) (g : Guard S) (p : ℕ)
              → CacheIsSound store env.crypto g.hist
              → (try_peers store env peers fuel rand old rest errs g).0 ≡ recovered p
              → IsAttempt old rest g p (try_peers store env peers fuel rand old rest errs g).1)
          → (recover_from_peer store env peers fuel rand old peer g).0 ≡ o
          → (after_attempt (o, g1) errs go).0 ≡ recovered p
          → IsAttempt old (peer ∷ rest) g p (after_attempt (o, g1) errs go).1
      by (ok q) first kept ih e h =
          let same : q ≡ p = cc in subst (λ x. IsAttempt old (peer ∷ rest) g x g1) same (first q e)
      by (err nil_dereference) first kept ih e h = cc
      by (err x) first kept ih e h = later (x ∷ errs) (kept x e) h
        where
          later :
              (errs : List Error)
              → IsKept g g1
              → (go errs g1).0 ≡ recovered p
              → IsAttempt old (peer ∷ rest) g p (go errs g1).1
          later errs k h =
              later-IsAttempt old peer rest g g1 p (go errs g1).1 k (ih errs g1 p k.sound h)

  -- From what was authorized to what the peer sent.
  authorized_inv :
      (peer : Bytes) (m : Manifest) (se : SeedEngine.SeedEngine) (key : Bytes)
      → authorize_by_manifest store env peers peer m ≡ ok (se, key)
      → (resp : RecoverResponse) × (peers.ask m peer ≡ ok resp)
        × (SeedEngine.new env.crypto resp.seed resp.salt ≡ ok se)
  unfolding authorize_by_manifest
  authorized_inv peer m se key h =
      let (resp, p, h1) = >>=-eq-ok (peers.ask m peer) _ h in
      let (x, q, h2) = >>=-eq-ok (SeedEngine.new env.crypto resp.seed resp.salt) _ h1 in
      let (k, r, h3) =
        >>=-eq-ok (block_key store env peers (peers.decode_pem resp.mesh_ca_key)) _ h2 in
      let same : x ≡ se = ap (λ (y : SeedEngine.SeedEngine × Bytes). y.0) (ok-injective h3) in
      (resp, p, q ∙ ap ok same)

  recovered_of :
      (old : Option ℕ) (l : List Bytes) (g : Guard S) (p : ℕ) (g' : Guard S)
      → get_state store env g ≡ stale_state old
      → peers.get_peers ≡ ok l
      → IsAttempt old l g p g'
      → IsPeerRecovered g p g'
  recovered_of old l g p g' stale found a =
      let (resp, answered, engine) =
        authorized_inv a.peer a.r.state.manifest a.r.state.seed_engine a.restored.mesh_ca_key
          a.restored.authorized in
      record {
        old = old;
        stale = stale;
        before = a.before;
        peer = a.peer;
        after = a.after;
        discovered = found ∙ ap ok a.among;
        r = a.r;
        resp = resp;
        answered = answered;
        engine = engine;
        restored = a.restored;
        pointer_kept = a.pointer_kept;
        new_pointer = a.new_pointer;
        all_states = a.all_states;
        new_current = a.new_current;
      }

  with_peers-IsPeerRecovered :
      (fuel rand : ℕ) (old : Option ℕ) (r : Result (List Bytes)) (g : Guard S) (p : ℕ)
      → CacheIsSound store env.crypto g.hist
      → get_state store env g ≡ stale_state old
      → peers.get_peers ≡ r
      → (with_peers store env peers fuel rand old r g).0 ≡ recovered p
      → IsPeerRecovered g p (with_peers store env peers fuel rand old r g).1
  with_peers-IsPeerRecovered fuel rand old (err e) g p s stale found h = cc
  with_peers-IsPeerRecovered fuel rand old (ok []) g p s stale found h = cc
  with_peers-IsPeerRecovered fuel rand old (ok (peer ∷ rest)) g p s stale found h =
      recovered_of old (peer ∷ rest) g p
        (try_peers store env peers fuel rand old (peer ∷ rest) [] g).1 stale found
        (try_peers-IsAttempt fuel rand old (peer ∷ rest) [] g p s h)

  -- A round that recovers a state found the old one to be stale, and one of the peers that were
  -- discovered answered, over a connection that the validator of the latest transition's manifest
  -- accepted, with the seed and salt of the new state's engine. That engine verifies the latest
  -- transition, which is the one that the store held under transitions/latest. The state of that
  -- transition was added to those of before and replaced the old one, which was still the current
  -- one. Attempts that failed before have left no state behind. The cache was sound.
  pub recover_once-IsPeerRecovered :
      (fuel rand : ℕ) (g : Guard S) (p : ℕ)
      → CacheIsSound store env.crypto g.hist
      → (recover_once store env peers fuel rand g).0 ≡ recovered p
      → IsPeerRecovered g p (recover_once store env peers fuel rand g).1
  unfolding recover_once
  recover_once-IsPeerRecovered fuel rand g p s h = by (get_state store env g) refl h
    where
      by :
          (a : Answer)
          → get_state store env g ≡ a
          → (if_stale store env peers fuel rand a g).0 ≡ recovered p
          → IsPeerRecovered g p (if_stale store env peers fuel rand a g).1
      by (stale_state old) e h =
          with_peers-IsPeerRecovered fuel rand old peers.get_peers g p s e refl h
      by (fresh q) e h = cc
      by no_state e h = cc
      by (failed x) e h = cc
