-- ===== src/History/Chain.antt =====
-- WalkTransitions against BuildTransitionChain, of internal/history/history.go.
use contrast.Prelude.{
  Bytes, ok, ◌≡◌, ◌≢◌, refl, ap, ◌∙◌, arith, ℕ, suc, ◌+◌, ◌<◌, List, [], ◌∷◌, ◌++◌, map, length,
  All, append-nil,
}
use contrast.Crypto.{Crypto}
use contrast.Store.{Store}
use contrast.History.Encoding.{
  Transition, zero_hash, digest, digest_transition, transition_to, build_from,
  build_transition_chain,
}
use contrast.History.{History, Consumer, get_transition, walk_transitions}
use contrast.History.Walk.{IsChain, IsChain-get, Visits, walk_transitions_total}

-- A closure that only collects.
abbrev pub collecting : {S X : Type 0} → (Bytes → Transition → X → X) → Consumer S X
collecting f hash t x h = (ok (f hash t x), h)

-- What such a closure collects over a chain.
abbrev pub collected : {X : Type 0} → (Bytes → Transition → X → X) → Bytes → List Transition → X → X
collected f hash [] x = x
collected f hash (t ∷ ts) x = collected f t.previous_transition_hash ts (f hash t x)

module _ {S : Type 0} (store : Store S) (crypto : Crypto) where
  module _ {X : Type 0} (f : Bytes → Transition → X → X) where
    abbrev Collects : X → Bytes → List Transition → X → History S → Type 0
    Collects y hash ts x h = IsChain store crypto h hash ts × (collected f hash ts x ≡ y)

    Collects-Visits : (y : X) → Visits store crypto (collecting f) (Collects y)
    Collects-Visits y = record {
      at_end = λ hash x h r. r.0;
      advance = λ hash t ts x h r.
          let ((ne, e, c), same) = r in
          (
            ne,
            e,
            (
              f hash t x,
              refl,
              (IsChain-get store crypto hash t.previous_transition_hash h ts c, same),
            ),
          );
    }

    -- Over a chain that can be read, with fuel for each transition, the walk ends without an error
    -- and its closure has seen each transition of the chain once, from the newest to the oldest.
    pub walk_transitions-collected :
        (fuel : ℕ) (hash : Bytes) (ts : List Transition) (x : X) (h : History S)
        → IsChain store crypto h hash ts
        → length ts < fuel
        → (walk_transitions store crypto fuel (collecting f) hash x h).0
          ≡ ok (collected f hash ts x)
    walk_transitions-collected fuel hash ts x h c l =
        let (x', done, (end, same)) =
          walk_transitions_total store crypto (collecting f) (Collects (collected f hash ts x))
            (Collects-Visits (collected f hash ts x)) fuel hash ts x h l (c, refl) in
        done ∙ ap ok same

-- The transitions of a list onto another one, the last first.
abbrev rev_onto : List Transition → List Transition → List Transition
rev_onto [] acc = acc
rev_onto (t ∷ ts) acc = rev_onto ts (t ∷ acc)

-- A closure that puts the manifest's hash in front.
abbrev pub add_manifest : Bytes → Transition → List Bytes → List Bytes
add_manifest hash t hashes = t.manifest_hash ∷ hashes

any_hash :
    (hash hash' : Bytes) (ts : List Transition) (x : List Bytes)
    → collected add_manifest hash ts x ≡ collected add_manifest hash' ts x
any_hash hash hash' [] x = refl
any_hash hash hash' (t ∷ ts) x = refl

collected-rev_onto :
    (hash hash' : Bytes) (ts acc : List Transition) (x : List Bytes)
    → collected add_manifest hash (rev_onto ts acc) x
      ≡ collected add_manifest hash' acc (map (λ t. t.manifest_hash) ts ++ x)
collected-rev_onto hash hash' [] [] x = refl
collected-rev_onto hash hash' [] (t ∷ acc) x = refl
collected-rev_onto hash hash' (t ∷ ts) acc x =
    collected-rev_onto hash hash' ts (t ∷ acc) x
    ∙ any_hash t.previous_transition_hash hash' acc
        (t.manifest_hash ∷ (map (λ (u : Transition). u.manifest_hash) ts ++ x))

length-rev_onto : (ts acc : List Transition) → length (rev_onto ts acc) ≡ length ts + length acc
length-rev_onto [] acc = omega arith
length-rev_onto (t ∷ ts) acc = omega (arith, length-rev_onto ts (t ∷ acc))

module _ (crypto : Crypto) where
  -- The hash of the last transition of a chain.
  abbrev pub last_hash : Bytes → List Bytes → Bytes
  last_hash last [] = last
  last_hash last (m ∷ ms) = last_hash (digest_transition crypto (transition_to crypto last m)) ms

  manifest_hashes-build_from :
      (last : Bytes) (ms : List Bytes)
      → map (λ t. t.manifest_hash) (build_from crypto last ms) ≡ map (digest crypto) ms
  unfolding build_from
  manifest_hashes-build_from last [] = refl
  manifest_hashes-build_from last (m ∷ ms) =
      ap (λ l. digest crypto m ∷ l)
        (manifest_hashes-build_from (digest_transition crypto (transition_to crypto last m)) ms)

  length-build_from :
      (last : Bytes) (ms : List Bytes) → length (build_from crypto last ms) ≡ length ms
  unfolding build_from
  length-build_from last [] = refl
  length-build_from last (m ∷ ms) =
      ap suc (length-build_from (digest_transition crypto (transition_to crypto last m)) ms)

module _ {S : Type 0} (store : Store S) (crypto : Crypto) where
  -- A transition that is stored under its digest.
  abbrev pub IsStored : History S → Transition → Type 0
  IsStored h t =
      (digest_transition crypto t ≢ zero_hash)
      × ((get_transition store crypto (digest_transition crypto t) h).0 ≡ ok t)

  IsChain-build_from :
      (h : History S) (last : Bytes) (ms : List Bytes) (acc : List Transition)
      → IsChain store crypto h last acc
      → All (IsStored h) (build_from crypto last ms)
      → IsChain store crypto h (last_hash crypto last ms) (rev_onto (build_from crypto last ms) acc)
  unfolding build_from
  IsChain-build_from h last [] acc c s = c
  IsChain-build_from h last (m ∷ ms) acc c ((ne, found), s) =
      let t = transition_to crypto last m in
      IsChain-build_from h (digest_transition crypto t) ms (t ∷ acc) (ne, found, c) s

  -- Once the transitions of BuildTransitionChain are stored under their digests, none of which is
  -- zero, a walk from the last of them, with more fuel than there are manifests, succeeds and finds
  -- the digests of the manifests that the chain was built from, in their order.
  pub walk_transitions-build :
      (fuel : ℕ) (ms : List Bytes) (h : History S)
      → All (IsStored h) (build_transition_chain crypto ms)
      → length ms < fuel
      → (walk_transitions store crypto fuel
          (collecting add_manifest)
          (last_hash crypto zero_hash ms)
          []
          h).0
        ≡ ok (map (digest crypto) ms)
  unfolding build_transition_chain
  walk_transitions-build fuel ms h s l =
      let last = last_hash crypto zero_hash ms in
      let ts = build_from crypto zero_hash ms in
      walk_transitions-collected store crypto add_manifest fuel last (rev_onto ts []) [] h
        (IsChain-build_from h zero_hash ms [] refl s)
        (omega (arith, l, length-rev_onto ts [], length-build_from crypto zero_hash ms))
      ∙ ap ok (
          collected-rev_onto last zero_hash ts [] []
          ∙ append-nil _
          ∙ manifest_hashes-build_from crypto zero_hash ms)
