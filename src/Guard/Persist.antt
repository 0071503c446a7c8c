-- ===== src/Guard/Persist.antt =====
-- What UpdateState of coordinator/internal/stateguard/stateguard.go has stored.
use contrast.Prelude.{
  Bytes, Result, ok, err, has_changed, ◌≡◌, ◌≢◌, refl, sym, ◌∙◌, ap, ℕ, ◌<◌, length, Option, some,
  get_elem?, List, [], ◌∷◌, Map, true, insert, subst, ok-injective,
}
use contrast.Prelude.Execs.{lift, pure, continue, bind_ok}
use contrast.Crypto.{CryptoLaws}
use contrast.Store.{Store, StoreLaws, current}
use contrast.History
use contrast.History.{History, content_key, manifests, policies, transitions, latest_key}
use contrast.History.Content.{set_contentaddressed_lem, get-set_contentaddressed_ne}
use contrast.History.Latest.{IsLatestSet, set_latest_lem, set_latest-get_ne}
use contrast.History.Keys.{
  manifests_ne_transitions, manifests_ne_latest, policies_ne_latest, transitions_ne_latest,
}
use contrast.History.Encoding.{
  LatestTransition, Transition, marshal_latest, marshal_transition, digest, digest_transition,
}
use contrast.Manifest.{Manifest, PolicyEntry}
use contrast.Guard.Provided.{IsProvided, set_policies-IsGiven_empty, check_policies-IsProvided}
use contrast.Guard.{
  Env, Persisted, into_manifest, check_policies, previous_hash, mark_concurrent, set_policies,
  set_latest, transition_for, link_latest, link_transition, link_manifest, link_policies,
  link_parsed, persist,
}

mark_concurrent_ok :
    (r : Result LatestTransition) {l : LatestTransition} → mark_concurrent r ≡ ok l → r ≡ ok l
mark_concurrent_ok (ok l') e = e
mark_concurrent_ok (err (has_changed k)) e = cc
mark_concurrent_ok (err x) e = cc

digest_ne_latest :
    (env : Env)
    → CryptoLaws env.crypto
    → (b : Bytes) → content_key transitions (digest env.crypto b) ≢ latest_key
unfolding digest
digest_ne_latest env laws b =
    transitions_ne_latest (digest env.crypto b) (laws.length-sum256 b) (laws.bytes-sum256 b)

module _ {S : Type 0} (store : Store S) (env : Env) (laws : StoreLaws store)
    (crypto_laws : CryptoLaws env.crypto) (rand : ℕ) (old : Option LatestTransition)
    (key bytes : Bytes) where
  -- The new transition is signed, stored as the latest one in the place of the old one.
  pub record IsLinked (mnfst : Manifest) (provided : Map Bytes) (t : Transition) (hash : Bytes)
      (p : Persisted) (h h' : History S) : Type 0 where
    pub latest : IsLatestSet store env.crypto old hash key p.latest h h'
    pub same_manifest : p.manifest ≡ mnfst
    pub same_provided : p.provided ≡ provided
    pub same_transition : p.transition ≡ t
    pub others_kept : (k : Bytes) → k ≢ latest_key → store.get k h'.store ≡ store.get k h.store

  link_latest_lem :
      (mnfst : Manifest) (provided : Map Bytes) (t : Transition) (hash : Bytes) (h : History S)
      {p : Persisted}
      → (link_latest store env rand old key bytes mnfst provided t hash h).0 ≡ ok p
      → IsLinked mnfst provided t hash p h
          (link_latest store env rand old key bytes mnfst provided t hash h).1
  unfolding link_latest set_latest
  link_latest_lem mnfst provided t hash h {p} e =
      let (l, e1, q1) =
        bind_ok (set_latest store env rand old hash key)
          (λ l. pure (record { manifest = mnfst; provided = provided; transition = t; latest = l }))
          h e in
      subst
        (λ q.
          IsLinked mnfst provided t hash q h
            (link_latest store env rand old key bytes mnfst provided t hash h).1)
        (ok-injective (ap (λ r. r.0) (sym q1) ∙ e))
        (record {
          latest =
              subst (λ k. IsLatestSet store env.crypto old hash key l h k) (sym (ap (λ r. r.1) q1))
                (set_latest_lem store env.crypto laws crypto_laws rand old hash key h
                  (mark_concurrent_ok _ e1));
          same_manifest = refl;
          same_provided = refl;
          same_transition = refl;
          others_kept = λ k ne.
              ap (λ r. store.get k r.1.store) q1
              ∙ set_latest-get_ne store env.crypto laws crypto_laws rand old hash key k h ne;
        })

  -- What a successful UpdateState has stored, from the manifest on.
  pub record IsPersisted (mnfst : Manifest) (provided : Map Bytes) (p : Persisted)
      (before : Result Bytes) (h' : History S) : Type 0 where
    pub same_manifest : p.manifest ≡ mnfst
    pub same_provided : p.provided ≡ provided
    pub same_transition : p.transition ≡ record {
      manifest_hash = digest env.crypto bytes;
      previous_transition_hash = previous_hash old;
    }
    pub same_hash : p.latest.transition_hash ≡ digest_transition env.crypto p.transition
    pub signed :
        env.crypto.verify_asn1
          (env.crypto.public_key key)
          p.latest.transition_hash
          p.latest.signature
        ≡ true
    pub nonempty : 0 < length p.latest.signature
    pub expected : current before ≡ ok (marshal_latest old)
    pub latest_stored : store.get latest_key h'.store ≡ ok (marshal_latest (some p.latest))
    pub transition_stored :
        store.get (content_key transitions p.latest.transition_hash) h'.store
        ≡ ok (marshal_transition p.transition)
    pub manifest_stored :
        store.get (content_key manifests (digest env.crypto bytes)) h'.store ≡ ok bytes

  as_persisted :
      (mnfst : Manifest) (provided : Map Bytes) (p : Persisted) (b : Result Bytes) (h : History S)
      → IsPersisted mnfst provided p b h
      → IsPersisted p.manifest p.provided p b h
  as_persisted mnfst provided p b h d = record {
    same_manifest = refl;
    same_provided = refl;
    same_transition = d.same_transition;
    same_hash = d.same_hash;
    signed = d.signed;
    nonempty = d.nonempty;
    expected = d.expected;
    latest_stored = d.latest_stored;
    transition_stored = d.transition_stored;
    manifest_stored = d.manifest_stored;
  }

  link_transition_lem :
      (mnfst : Manifest) (provided : Map Bytes) (h : History S) {p : Persisted}
      → (link_transition store env rand old key bytes mnfst provided (digest env.crypto bytes) h).0
        ≡ ok p
      → store.get (content_key manifests (digest env.crypto bytes)) h.store ≡ ok bytes
      → IsPersisted mnfst provided p
          (store.get latest_key h.store)
          (link_transition store env rand old key bytes mnfst provided
            (digest env.crypto bytes)
            h).1
  unfolding link_transition History.set_transition digest_transition
  link_transition_lem mnfst provided h {p} e m =
      let t = transition_for store env rand old key bytes (digest env.crypto bytes) in
      let (hash, e1, q1) =
        bind_ok (History.set_transition store env.crypto t)
          (link_latest store env rand old key bytes mnfst provided t) h e in
      let h1 = (History.set_transition store env.crypto t h).1 in
      let (same, cached, stored) =
        set_contentaddressed_lem store env.crypto laws transitions (marshal_transition t) h e1 in
      let linked = link_latest_lem mnfst provided t hash h1 (ap (λ r. r.0) (sym q1) ∙ e) in
      let d = digest env.crypto bytes in
      let h2 = (link_latest store env rand old key bytes mnfst provided t hash h1).1 in
      subst (λ r. IsPersisted mnfst provided p (store.get latest_key h.store) r.1) (sym q1)
        (record {
          same_manifest = linked.same_manifest;
          same_provided = linked.same_provided;
          same_transition = linked.same_transition;
          same_hash =
              linked.latest.hash_set
              ∙ same
              ∙ ap (λ u. digest env.crypto (marshal_transition u)) (sym linked.same_transition);
          signed =
              subst
                (λ k.
                  env.crypto.verify_asn1 (env.crypto.public_key key) k p.latest.signature ≡ true)
                (sym linked.latest.hash_set) linked.latest.signed;
          nonempty = linked.latest.nonempty;
          expected =
              ap current (
                sym (
                  get-set_contentaddressed_ne store env.crypto laws transitions
                    (marshal_transition t) latest_key h
                    (λ x. digest_ne_latest env crypto_laws (marshal_transition t) (sym x))))
              ∙ linked.latest.expected;
          latest_stored = linked.latest.stored;
          transition_stored =
              ap (λ k. store.get (content_key transitions k) h2.store)
                (linked.latest.hash_set ∙ same)
              ∙ linked.others_kept
                  (content_key transitions (digest env.crypto (marshal_transition t)))
                  (digest_ne_latest env crypto_laws (marshal_transition t))
              ∙ ap (λ k. store.get (content_key transitions k) h1.store) (sym same)
              ∙ stored
              ∙ ap (λ u. ok (marshal_transition u)) (sym linked.same_transition);
          manifest_stored =
              linked.others_kept (content_key manifests d) (manifests_ne_latest d)
              ∙ get-set_contentaddressed_ne store env.crypto laws transitions (marshal_transition t)
                  (content_key manifests d) h (manifests_ne_transitions d _)
              ∙ m;
        })

  link_manifest_lem :
      (mnfst : Manifest) (provided : Map Bytes) (h : History S) {p : Persisted}
      → (link_manifest store env rand old key bytes mnfst provided tt h).0 ≡ ok p
      → IsPersisted mnfst provided p
          (store.get latest_key h.store)
          (link_manifest store env rand old key bytes mnfst provided tt h).1
  unfolding link_manifest
  link_manifest_lem mnfst provided h {p} e =
      let (mh, e1, q1) =
        bind_ok (History.set_manifest store env.crypto bytes)
          (link_transition store env rand old key bytes mnfst provided) h e in
      let h1 = (History.set_manifest store env.crypto bytes h).1 in
      let (same, cached, stored) =
        set_contentaddressed_lem store env.crypto laws manifests bytes h e1 in
      let q =
        q1 ∙ ap (λ k. link_transition store env rand old key bytes mnfst provided k h1) same in
      subst (λ r. IsPersisted mnfst provided p (store.get latest_key h.store) r.1) (sym q)
        (subst
          (λ b.
            IsPersisted mnfst provided p b
              (link_transition store env rand old key bytes mnfst provided (digest env.crypto bytes)
                h1).1)
          (get-set_contentaddressed_ne store env.crypto laws manifests bytes latest_key h
            (λ x. manifests_ne_latest _ (sym x)))
          (link_transition_lem mnfst provided h1 (ap (λ r. r.0) (sym q) ∙ e)
            (subst (λ k. store.get (content_key manifests k) h1.store ≡ ok bytes) same stored)))

  link_policies_lem :
      (mnfst : Manifest) (provided : Map Bytes) (h : History S) {p : Persisted}
      → (link_policies store env rand old key bytes mnfst provided h).0 ≡ ok p
      → (check_policies mnfst.policies provided ≡ ok tt)
        × IsPersisted mnfst provided p
            (store.get latest_key h.store)
            (link_policies store env rand old key bytes mnfst provided h).1
  unfolding link_policies
  link_policies_lem mnfst provided h {p} e =
      let (_, e1, q1) =
        bind_ok (lift (check_policies mnfst.policies provided))
          (link_manifest store env rand old key bytes mnfst provided) h e in
      (
        e1,
        subst (λ r. IsPersisted mnfst provided p (store.get latest_key h.store) r.1) (sym q1)
            (link_manifest_lem mnfst provided h (ap (λ r. r.0) (sym q1) ∙ e)),
      )

  set_policies-get_latest :
      (ps : List Bytes) (provided : Map Bytes) (h : History S)
      → store.get latest_key (set_policies store env ps provided h).1.store
        ≡ store.get latest_key h.store
  unfolding set_policies
  set_policies-get_latest [] provided h = refl
  set_policies-get_latest (b ∷ ps) provided h =
      go (History.set_policy store env.crypto b h)
        (get-set_contentaddressed_ne store env.crypto laws policies b latest_key h
          (λ x. policies_ne_latest _ (sym x)))
        (λ hash. set_policies-get_latest ps (insert hash b provided))
    where
      go :
          (r : Result Bytes × History S)
          → store.get latest_key r.1.store ≡ store.get latest_key h.store
          → ((hash : Bytes) (h' : History S)
              → store.get latest_key (set_policies store env ps (insert hash b provided) h').1.store
                ≡ store.get latest_key h'.store)
          → store.get latest_key
              (continue (λ hash. set_policies store env ps (insert hash b provided)) r).1.store
            ≡ store.get latest_key h.store
      go (ok hash, h') e ih = ih hash h' ∙ e
      go (err x, h') e ih = e

  -- Every policy of a manifest is among those given.
  abbrev pub AreProvided : List Bytes → Manifest → Type 0
  AreProvided ps m =
      (i : ℕ) (hex : Bytes) (entry : PolicyEntry)
      → get_elem? m.policies i ≡ some (hex, entry)
      → IsProvided store env ps hex

  -- An UpdateState that succeeds in its first part has read the manifest and found each of its
  -- policies among those given. The latest transition was the one of the old state, and is now a
  -- signed transition from there to the manifest, and the store holds the manifest and the
  -- transition under their digests.
  pub persist_lem :
      (ps : List Bytes) (h : History S) {p : Persisted}
      → (persist store env rand old key bytes ps h).0 ≡ ok p
      → (into_manifest (env.unmarshal bytes) ≡ ok p.manifest)
        × (check_policies p.manifest.policies p.provided ≡ ok tt)
        × AreProvided ps p.manifest
        × IsPersisted p.manifest p.provided p
            (store.get latest_key h.store)
            (persist store env rand old key bytes ps h).1
  unfolding persist link_parsed
  persist_lem ps h {p} e =
      let (m, e1, q1) =
        bind_ok (lift (into_manifest (env.unmarshal bytes)))
          (link_parsed store env rand old key bytes ps) h e in
      let (provided, e2, q2) =
        bind_ok (set_policies store env ps []) (link_policies store env rand old key bytes m) h
          (ap (λ r. r.0) (sym q1) ∙ e) in
      let h1 = (set_policies store env ps [] h).1 in
      let (checked, done) = link_policies_lem m provided h1 (ap (λ r. r.0) (sym (q1 ∙ q2)) ∙ e) in
      let same = done.same_manifest in
      (
        e1 ∙ ap ok (sym same),
        subst (λ n. check_policies n.policies p.provided ≡ ok tt) (sym same)
            (subst (λ n. check_policies m.policies n ≡ ok tt) (sym done.same_provided) checked),
        subst (AreProvided ps) (sym same) (
            check_policies-IsProvided store env ps m.policies provided
              (set_policies-IsGiven_empty store env laws ps h e2) checked),
        subst (λ r. IsPersisted p.manifest p.provided p (store.get latest_key h.store) r.1)
            (sym (q1 ∙ q2))
            (subst
              (λ b.
                IsPersisted p.manifest p.provided p b
                  (link_policies store env rand old key bytes m provided h1).1)
              (set_policies-get_latest ps [] h) (as_persisted m provided p _ _ done)),
      )
