-- ===== src/History/Walk.antt =====
-- WalkTransitions of internal/history/history.go: the walk visits the chain of a transition and ends.
use contrast.Prelude.{
  Bytes, bytes_equal_of_ne, Result, ok, err, ◌≡◌, ◌≢◌, refl, ◌∙◌, arith, ℕ, zero, suc, ◌<◌, List,
  [], ◌∷◌, length, >>=-eq-ok, subst,
}
use contrast.Crypto.{Crypto}
use contrast.Store.{Store}
use contrast.History.Encoding.{Transition, zero_hash, unmarshal_transition}
use contrast.History.{
  History, Consumer, transitions, get_transition, step_back, visit, walk_transitions,
}
use contrast.History.Content.{Finds, get_contentaddressed-Finds}

module _ {S : Type 0} (store : Store S) (crypto : Crypto) where
  -- The transitions that can be read from `hash` back to the root, the newest first.
  abbrev pub IsChain : History S → Bytes → List Transition → Type 0
  IsChain h hash [] = hash ≡ zero_hash
  IsChain h hash (t ∷ ts) =
      (hash ≢ zero_hash)
      × ((get_transition store crypto hash h).0 ≡ ok t)
      × IsChain h t.previous_transition_hash ts

  get_transition_inv :
      (hash : Bytes) (t : Transition) (h : History S)
      → (get_transition store crypto hash h).0 ≡ ok t
      → (b : Bytes) × Finds store crypto transitions hash b h × (unmarshal_transition b ≡ ok t)
  unfolding get_transition
  get_transition_inv hash t h e = >>=-eq-ok _ unmarshal_transition e

  -- Reading one transition leaves every other one readable.
  pub get_transition_keeps :
      (hash hash' : Bytes) (t : Transition) (h : History S)
      → (get_transition store crypto hash' h).0 ≡ ok t
      → (get_transition store crypto hash' (get_transition store crypto hash h).1).0 ≡ ok t
  unfolding get_transition
  get_transition_keeps hash hash' t h e =
      let (b, found, read) = get_transition_inv hash' t h e in
      rw (get_contentaddressed-Finds store crypto transitions hash hash' b h found) read

  pub IsChain-get :
      (hash hash' : Bytes) (h : History S) (ts : List Transition)
      → IsChain h hash' ts
      → IsChain (get_transition store crypto hash h).1 hash' ts
  IsChain-get hash hash' h [] c = c
  IsChain-get hash hash' h (t ∷ ts) (ne, e, c) = (
    ne,
    get_transition_keeps hash hash' t h e,
    IsChain-get hash t.previous_transition_hash h ts c,
  )

  module _ {X : Type 0} (consume : Consumer S X) where
    visit_ok :
        (next : Bytes → X → History S → Result X × History S) (hash : Bytes) (x : X)
        (t : Transition) (p : Result Transition × History S)
        → p.0 ≡ ok t
        → visit store crypto consume next hash x p
          ≡ step_back store crypto next t (consume hash t x p.1)
    unfolding visit
    visit_ok next hash x t (ok t', h) e = ground arith
    visit_ok next hash x t (err _, h) e = cc

    step_back_ok :
        (next : Bytes → X → History S → Result X × History S) (t : Transition) (x : X)
        (p : Result X × History S)
        → p.0 ≡ ok x
        → step_back store crypto next t p ≡ next t.previous_transition_hash x p.1
    unfolding step_back
    step_back_ok next t x (ok x', h) e = ground arith
    step_back_ok next t x (err _, h) e = cc

    -- One step of the loop, for a closure that succeeds.
    walk_transitions_step :
        (fuel : ℕ) (hash : Bytes) (x x' : X) (t : Transition) (h : History S)
        → hash ≢ zero_hash
        → (get_transition store crypto hash h).0 ≡ ok t
        → (consume hash t x (get_transition store crypto hash h).1).0 ≡ ok x'
        → walk_transitions store crypto (suc fuel) consume hash x h
          ≡ walk_transitions store crypto fuel consume t.previous_transition_hash x'
              (consume hash t x (get_transition store crypto hash h).1).1
    unfolding walk_transitions
    walk_transitions_step fuel hash x x' t h ne e c =
        rw (bytes_equal_of_ne hash zero_hash ne, walk_transitions)
          (visit_ok (walk_transitions store crypto fuel consume) hash x t
              (get_transition store crypto hash h) e
            ∙ step_back_ok (walk_transitions store crypto fuel consume) t x'
                (consume hash t x (get_transition store crypto hash h).1) c)

    walk_transitions_end :
        (fuel : ℕ) (x : X) (h : History S)
        → walk_transitions store crypto (suc fuel) consume zero_hash x h ≡ (ok x, h)
    unfolding walk_transitions
    walk_transitions_end fuel x h = refl

    -- What a caller shows of its closure: a relation between the hash, the transitions still to be
    -- visited, what was collected and the history, which each visit hands on.
    pub record Visits (R : Bytes → List Transition → X → History S → Type 0) : Type 0 where
      pub at_end : (hash : Bytes) (x : X) (h : History S) → R hash [] x h → hash ≡ zero_hash
      pub advance :
          (hash : Bytes) (t : Transition) (ts : List Transition) (x : X) (h : History S)
          → R hash (t ∷ ts) x h
          → (hash ≢ zero_hash)
            × ((get_transition store crypto hash h).0 ≡ ok t)
            × ((x' : X) × ((consume hash t x (get_transition store crypto hash h).1).0 ≡ ok x')
                × R t.previous_transition_hash ts x'
                    (consume hash t x (get_transition store crypto hash h).1).1)

    -- The walk ends, without an error, after the last transition of the chain.
    pub walk_transitions_total :
        (R : Bytes → List Transition → X → History S → Type 0)
        → Visits R
        → (fuel : ℕ) (hash : Bytes) (ts : List Transition) (x : X) (h : History S)
        → length ts < fuel
        → R hash ts x h
        → (x' : X) × ((walk_transitions store crypto fuel consume hash x h).0 ≡ ok x')
          × R zero_hash [] x' (walk_transitions store crypto fuel consume hash x h).1
    walk_transitions_total R v zero hash ts x h l r = absurd (omega arith)
    walk_transitions_total R v (suc fuel) hash [] x h l r =
        let z = v.at_end hash x h r in
        rw z (rw (walk_transitions_end fuel x h) (x, refl, subst (λ k. R k [] x h) z r))
    walk_transitions_total R v (suc fuel) hash (t ∷ ts) x h l r =
        let (ne, e, (x', c, r')) = v.advance hash t ts x h r in
        rw (walk_transitions_step fuel hash x x' t h ne e c)
          (walk_transitions_total R v fuel t.previous_transition_hash ts x' _ (omega arith) r')
