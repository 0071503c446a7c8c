-- ===== src/Guard/Updates.antt =====
-- UpdateState of coordinator/internal/stateguard/stateguard.go.
use contrast.Prelude.{
  Bytes, Result, ok, err, ◌≡◌, ◌≢◌, refl, sym, ◌∙◌, ap, arith, get_elem?, ℕ, ◌+◌, length, Option,
  some, List, [], ◌∷◌, ◌++◌, true, false, subst, ok-injective,
}
use contrast.Prelude.Execs.{bind_ok}
use contrast.Crypto.{CryptoLaws}
use contrast.Store.{Store, StoreLaws, current}
use contrast.History.{History, latest_key}
use contrast.History.Encoding.{LatestTransition, marshal_latest}
use contrast.SeedEngine.{SeedEngine}
use contrast.Guard.{
  Env, State, Guard, Persisted, into_manifest, check_policies, same_pointer, deref, persist,
  publish,
}
use contrast.Guard.Provided.{IsProvided}
use contrast.Manifest.{PolicyEntry}
use contrast.Guard.Methods.{
  latest_of, generation_of, next_state, advance, finish_update, update_state,
}
use contrast.Guard.Persist.{IsPersisted, persist_lem}

-- The state that UpdateState makes from what it has stored.
pub record IsNext (old : Option State) (se : SeedEngine) (bytes : Bytes) (p : Persisted)
    (next : State) : Type 0 where
  pub same_engine : next.seed_engine ≡ se
  pub same_manifest : next.manifest ≡ p.manifest
  pub same_bytes : next.manifest_bytes ≡ bytes
  pub same_latest : next.latest ≡ p.latest
  pub one_more : next.generation ≡ generation_of old + 1
  pub not_stale : next.stale ≡ false

module _ {S : Type 0} (store : Store S) (env : Env) where
  next_state_lem :
      (rand : ℕ) (old : Option State) (se : SeedEngine) (bytes : Bytes) (p : Persisted)
      (h : History S) (next : State)
      → (next_state store env rand (generation_of old) se bytes p h).0 ≡ ok next
      → IsNext old se bytes p next
        × ((next_state store env rand (generation_of old) se bytes p h).1 ≡ h)
  unfolding next_state
  next_state_lem rand old se bytes p h next e = ground arith

  -- What UpdateState does to the Guard: the new state is a new object, and becomes the current one
  -- if the pointer is still the old state's. Otherwise neither the pointer nor the gauge changes.
  pub record IsPublished (old : Option ℕ) (next : State) (p : ℕ) (g g' : Guard S) : Type 0 where
    pub new_pointer : p ≡ length g.states
    pub all_states : g'.states ≡ g.states ++ next ∷ []
    pub swapped :
        same_pointer g.current old ≡ true
        → (g'.current ≡ some p) × (g'.manifest_generation ≡ next.generation)
    pub not_swapped :
        same_pointer g.current old ≡ false
        → (g'.current ≡ g.current) × (g'.manifest_generation ≡ g.manifest_generation)

  publish_lem :
      (old : Option ℕ) (next : State) (g : Guard S) (p : ℕ)
      → (publish store env old next g).0 ≡ ok p
      → IsPublished old next p g (publish store env old next g).1
        × ((publish store env old next g).1.hist ≡ g.hist)
  unfolding publish
  publish_lem old next g p e = ground arith

  module _ (laws : StoreLaws store) (crypto_laws : CryptoLaws env.crypto) where
    -- A successful UpdateState, as the Guard and the store show it afterwards.
    pub record IsUpdate (rand : ℕ) (old : Option ℕ) (se : SeedEngine) (bytes : Bytes)
        (ps : List Bytes) (p : ℕ) (next : State) (stored : Persisted) (g g' : Guard S)
        : Type 0 where
      pub published : IsPublished old next p g g'
      pub is_next : IsNext (deref g.states old) se bytes stored next
      pub parsed : into_manifest (env.unmarshal bytes) ≡ ok stored.manifest
      pub checked : check_policies stored.manifest.policies stored.provided ≡ ok tt
      pub all_provided :
          (i : ℕ) (hex : Bytes) (entry : PolicyEntry)
          → get_elem? stored.manifest.policies i ≡ some (hex, entry)
          → IsProvided store env ps hex
      pub persisted :
          IsPersisted store env laws crypto_laws rand
            (latest_of (deref g.states old))
            se.transaction_signing_key
            bytes
            stored.manifest
            stored.provided
            stored
            (store.get latest_key g.hist.store)
            g'.hist

    finish_update_lem :
        (rand : ℕ) (old : Option ℕ) (se : SeedEngine) (bytes : Bytes) (ps : List Bytes)
        (g : Guard S) (r : Result State) (h : History S) {p : ℕ}
        → advance store env rand (deref g.states old) se bytes ps g.hist ≡ (r, h)
        → (finish_update store env old r (record g { hist = h })).0 ≡ ok p
        → (next : State) × (stored : Persisted) × IsUpdate rand old se bytes ps p next stored g
            (finish_update store env old r (record g { hist = h })).1
    unfolding finish_update advance
    finish_update_lem rand old se bytes ps g (err x) h a e = cc
    finish_update_lem rand old se bytes ps g (ok next) h {p} a e =
        let o = deref g.states old in
        let key = se.transaction_signing_key in
        let (stored, e1, q1) =
          bind_ok (persist store env rand (latest_of o) key bytes ps)
            (next_state store env rand (generation_of o) se bytes) g.hist (ap (λ r. r.0) a) in
        let h1 = (persist store env rand (latest_of o) key bytes ps g.hist).1 in
        let (is_next, kept) =
          next_state_lem rand o se bytes stored h1 next (ap (λ r. r.0) (sym q1 ∙ a)) in
        let same : h1 ≡ h = sym kept ∙ ap (λ r. r.1) (sym q1 ∙ a) in
        let (parsed, checked, all_provided, done) =
          persist_lem store env laws crypto_laws rand (latest_of o) key bytes ps g.hist e1 in
        let (published, hist_kept) = publish_lem old next (record g { hist = h }) p e in
        (
          next,
          stored,
          record {
            published = record {
              new_pointer = published.new_pointer;
              all_states = published.all_states;
              swapped = published.swapped;
              not_swapped = published.not_swapped;
            };
            is_next = is_next;
            parsed = parsed;
            checked = checked;
            all_provided = all_provided;
            persisted =
                subst
                  (λ k.
                    IsPersisted store env laws crypto_laws rand (latest_of o) key bytes
                      stored.manifest stored.provided stored (store.get latest_key g.hist.store) k)
                  (same ∙ sym hist_kept) done;
          },
        )

    -- A successful UpdateState has read the manifest and found each of its policies among those given,
    -- as one with the policy's hash, filled up or cut to 32 bytes, for its digest. It has
    -- stored a signed transition from the old state's transition to the manifest as the latest one,
    -- in the place of the old state's, and has made a state of one more generation from it, which is
    -- current if the old state was.
    pub update_state_lem :
        (rand : ℕ) (old : Option ℕ) (se : SeedEngine) (bytes : Bytes) (ps : List Bytes)
        (g : Guard S) {p : ℕ}
        → (update_state store env rand old se bytes ps g).0 ≡ ok p
        → (next : State) × (stored : Persisted) × IsUpdate rand old se bytes ps p next stored g
            (update_state store env rand old se bytes ps g).1
    unfolding update_state
    update_state_lem rand old se bytes ps g e =
        let (r, h) = advance store env rand (deref g.states old) se bytes ps g.hist in
        finish_update_lem rand old se bytes ps g r h refl e

    -- Of two updates from one old state only one succeeds: once the first has, another one from the
    -- same old state fails, in this or in another Coordinator, for as long as the latest transition
    -- in the store is the first one's, if that differs from the old state's.
    pub update_state_once :
        (rand rand' : ℕ) (old old' : Option ℕ) (se se' : SeedEngine) (bytes bytes' : Bytes)
        (ps ps' : List Bytes) (g g2 : Guard S) {p q : ℕ}
        → (update_state store env rand old se bytes ps g).0 ≡ ok p
        → store.get latest_key g2.hist.store
          ≡ store.get latest_key (update_state store env rand old se bytes ps g).1.hist.store
        → latest_of (deref g2.states old') ≡ latest_of (deref g.states old)
        → ((l : LatestTransition)
            → store.get latest_key g2.hist.store ≡ ok (marshal_latest (some l))
            → marshal_latest (some l) ≢ marshal_latest (latest_of (deref g.states old)))
        → (update_state store env rand' old' se' bytes' ps' g2).0 ≢ ok q
    update_state_once rand rand' old old' se se' bytes bytes' ps ps' g g2 e same same_old differs
          e' =
        let (next, stored, u) = update_state_lem rand old se bytes ps g e in
        let (next', stored', u') = update_state_lem rand' old' se' bytes' ps' g2 e' in
        let now = same ∙ u.persisted.latest_stored in
        differs stored.latest now (
          ok-injective (
            ap current (sym now)
            ∙ u'.persisted.expected
            ∙ ap (λ o. ok (marshal_latest o)) same_old))
