-- ===== src/Guard/Watch.antt =====
-- WatchHistory of coordinator/internal/stateguard/stateguard.go: when a state becomes stale.
use contrast.Prelude.{
  Bytes, bytes_equal, Result, ok, err, some, Bool, true, false, ◌||◌, ℕ, zero, suc, List, [], ◌∷◌,
  length, get_elem?, set, any, ◌<◌, ◌≡◌, refl, arith, ◌∙◌, ap, if◌then◌else◌,
}
use contrast.Store.{Store}
use contrast.History.{History, walk_transitions}
use contrast.History.Encoding.{Transition}
use contrast.History.Walk.{IsChain}
use contrast.History.Chain.{collecting, collected, walk_transitions-collected}
use contrast.Guard.{Env, State, Guard, Answer, fresh, stale_state, deref}
use contrast.Guard.Methods.{look_for, state_of, get_state, mark_unless, watch_state, on_transition}

-- The hashes that a walk over a chain visits.
abbrev pub visited : Bytes → List Transition → List Bytes
visited hash [] = []
visited hash (t ∷ ts) = hash ∷ visited t.previous_transition_hash ts

abbrev pub is_ancestor : Bytes → Bytes → List Transition → Bool
is_ancestor hash latest ts = any (λ h. bytes_equal h hash) (visited latest ts)

or_comm_left : (a b c : Bool) → (a || (b || c)) ≡ ((b || a) || c)
or_comm_left a b c = ground arith

collected-look_for :
    (hash latest : Bytes) (ts : List Transition) (seen : Bool)
    → collected (look_for hash) latest ts seen ≡ (is_ancestor hash latest ts || seen)
collected-look_for hash latest [] seen = refl
collected-look_for hash latest (t ∷ ts) seen =
    collected-look_for hash t.previous_transition_hash ts (bytes_equal latest hash || seen)
    ∙ or_comm_left (is_ancestor hash t.previous_transition_hash ts) (bytes_equal latest hash) seen

get_elem?-set :
    {A : Type 0} (l : List A) (i : ℕ) (a b : A)
    → get_elem? l i ≡ some a
    → get_elem? (set l i b) i ≡ some b
get_elem?-set [] i a b e = cc
get_elem?-set (x ∷ l) zero a b e = refl
get_elem?-set (x ∷ l) (suc i) a b e = get_elem?-set l i a b e

module _ {S : Type 0} (store : Store S) (env : Env) where
  -- The answer of GetState once a transition was looked for among the state's own.
  abbrev pub answer_after : Bool → ℕ → Answer
  answer_after found p = if found then fresh p else stale_state (some p)

  mark_unless_lem :
      (p : ℕ) (s : State) (w : Result Bool × History S) (g : Guard S) (found : Bool)
      → g.current ≡ some p
      → get_elem? g.states p ≡ some s
      → s.stale ≡ false
      → w.0 ≡ ok found
      → get_state store env (mark_unless store env p s w g) ≡ answer_after found p
  unfolding mark_unless get_state state_of
  mark_unless_lem p s (ok true, h) g true c at fresh_s e = rw (c, at, fresh_s)
  mark_unless_lem p s (ok false, h) g false c at fresh_s e =
      rw (c, get_elem?-set g.states p s (record s { stale = true }) at)
  mark_unless_lem p s (ok true, h) g false c at fresh_s e = cc
  mark_unless_lem p s (ok false, h) g true c at fresh_s e = cc
  mark_unless_lem p s (err x, h) g found c at fresh_s e = cc

  -- After a latest transition was received, the Coordinator's state, which was not stale, is still
  -- used if the transition is one of those on the state's own chain, and is stale otherwise. The
  -- chain can be read from the store, and the walk has fuel for it.
  pub on_transition-get_state :
      (fuel p : ℕ) (hash : Bytes) (s : State) (ts : List Transition) (g : Guard S)
      → g.current ≡ some p
      → get_elem? g.states p ≡ some s
      → s.stale ≡ false
      → IsChain store env.crypto g.hist s.latest.transition_hash ts
      → length ts < fuel
      → get_state store env (on_transition store env fuel hash g)
        ≡ answer_after (is_ancestor hash s.latest.transition_hash ts) p
  unfolding on_transition watch_state
  on_transition-get_state fuel p hash s ts g c at fresh_s chain enough =
      ap (λ o. get_state store env (watch_state store env fuel hash o (deref g.states o) g)) c
      ∙ ap (λ o. get_state store env (watch_state store env fuel hash (some p) o g)) at
      ∙ mark_unless_lem p s
          (walk_transitions store env.crypto fuel (collecting (look_for hash))
            s.latest.transition_hash false g.hist)
          g (is_ancestor hash s.latest.transition_hash ts) c at fresh_s
          (walk_transitions-collected store env.crypto (look_for hash) fuel s.latest.transition_hash
              ts false g.hist chain enough
            ∙ ap ok (
                collected-look_for hash s.latest.transition_hash ts false
                ∙ or_false (is_ancestor hash s.latest.transition_hash ts)))
    where
      or_false : (b : Bool) → (b || false) ≡ b
      or_false b = ground arith
