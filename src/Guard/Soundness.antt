-- ===== src/Guard/Soundness.antt =====
-- coordinator/internal/stateguard/stateguard.go: a recovery, also one that fails, leaves a sound
-- cache and the store as its authorizer does.
use contrast.Prelude.{
  Bytes, bytes_equal, Result, ok, err, Bool, true, false, ℕ, zero, suc, guard, concurrent_update,
  ◌≡◌, ◌∙◌,
}
use contrast.Prelude.Execs.{Exec, continue}
use contrast.Store.{Store}
use contrast.History
use contrast.History.{
  History, get_contentaddressed, get_latest_insecure, get_transition, get_latest, walk_transitions,
  visit, step_back,
}
use contrast.History.Content.{CacheIsSound, get_contentaddressed-IsRead, get_contentaddressed-store}
use contrast.History.Encoding.{Transition, zero_hash}
use contrast.History.Chain.{collecting}
use contrast.Ca
use contrast.SeedEngine.{SeedEngine}
use contrast.Manifest.{Manifest}
use contrast.Guard.{Env, into_manifest}
use contrast.Guard.Methods.{count, recover}

module _ {S : Type 0} (store : Store S) (env : Env) (s0 : S) where
  -- A sound cache over an unchanged store.
  abbrev pub Sound : History S → Type 0
  Sound h = CacheIsSound store env.crypto h × (h.store ≡ s0)

  -- A step that leaves both, whether it succeeds or not.
  abbrev pub Keeps : {A : Type 0} → Exec (History S) A → Type 0
  Keeps m = (h : History S) → Sound h → Sound (m h).1

  continue-Keeps :
      {A B : Type 0} (f : A → Exec (History S) B) (p : Result A × History S)
      → Sound p.1
      → ((a : A) → Keeps (f a))
      → Sound (continue f p).1
  continue-Keeps f (ok a, h) s k = k a h s
  continue-Keeps f (err e, h) s k = s

  read-Keeps : (path hash : Bytes) → Keeps (get_contentaddressed store env.crypto path hash)
  read-Keeps path hash h (sound, same) = (
    (get_contentaddressed-IsRead store env.crypto path hash h sound).cache_sound,
    get_contentaddressed-store store env.crypto path hash h ∙ same,
  )

  get_transition-Keeps : (hash : Bytes) → Keeps (get_transition store env.crypto hash)
  unfolding get_transition
  get_transition-Keeps hash h s = read-Keeps History.transitions hash h s

  get_manifest-Keeps : (hash : Bytes) → Keeps (History.get_manifest store env.crypto hash)
  get_manifest-Keeps hash h s = read-Keeps History.manifests hash h s

  walk_transitions-Keeps :
      {X : Type 0} (f : Bytes → Transition → X → X) (fuel : ℕ) (hash : Bytes) (x : X)
      → Keeps (walk_transitions store env.crypto fuel (collecting f) hash x)
  unfolding walk_transitions visit step_back
  walk_transitions-Keeps f zero hash x h s = s
  walk_transitions-Keeps {X} f (suc fuel) hash x h s =
      at (bytes_equal hash zero_hash) (λ hash x. walk_transitions-Keeps f fuel hash x)
    where
      visited :
          (p : Result Transition × History S)
          → ((hash : Bytes) (x : X)
              → Keeps (walk_transitions store env.crypto fuel (collecting f) hash x))
          → Sound p.1
          → Sound
              (visit store env.crypto
                (collecting f)
                (walk_transitions store env.crypto fuel (collecting f))
                hash
                x
                p).1
      visited (ok t, h) ih s = ih t.previous_transition_hash (f hash t x) h s
      visited (err e, h) ih s = s

      at :
          (b : Bool)
          → ((hash : Bytes) (x : X)
              → Keeps (walk_transitions store env.crypto fuel (collecting f) hash x))
          → (let next : Result X × History S = elim b [
            | true ↦ (ok x, h)
            | false ↦
                visit store env.crypto
                  (collecting f)
                  (walk_transitions store env.crypto fuel (collecting f))
                  hash
                  x
                  (get_transition store env.crypto hash h)
          ] in
              Sound next.1)
      at true ih = s
      at false ih =
          visited (get_transition store env.crypto hash h) ih (get_transition-Keeps hash h s)

  pub recover-Keeps :
      (fuel rand : ℕ) (authorize : Manifest → Exec (History S) (SeedEngine × Bytes))
      → ((m : Manifest) → Keeps (authorize m))
      → Keeps (recover store env fuel rand authorize)
  unfolding recover
  recover-Keeps fuel rand authorize k h s =
      continue-Keeps _ (get_latest_insecure store env.crypto h, h) s
        λ insecure h s.
          continue-Keeps _ (get_transition store env.crypto insecure.transition_hash h)
            (get_transition-Keeps insecure.transition_hash h s)
            λ t h s.
              continue-Keeps _ (History.get_manifest store env.crypto t.manifest_hash h)
                (get_manifest-Keeps t.manifest_hash h s)
                λ bytes h s.
                  continue-Keeps _ (into_manifest (env.unmarshal bytes), h) s
                    λ m h s. continue-Keeps _ (authorize m h) (k m h s) λ secrets h s.
                      let key = env.crypto.public_key (secrets.0).transaction_signing_key in
                      continue-Keeps _ (get_latest store env.crypto key h, h) s
                        λ latest h s.
                          continue-Keeps _
                            (
                              guard (bytes_equal insecure.transition_hash latest.transition_hash)
                                  concurrent_update,
                              h,
                            )
                            s
                            λ u h s.
                              continue-Keeps _
                                (
                                  Ca.new env.x509 env.crypto rand (secrets.0).root_ca_key secrets.1,
                                  h,
                                )
                                s
                                λ ca h s.
                                  continue-Keeps _
                                    (walk_transitions store env.crypto fuel (collecting count)
                                      latest.transition_hash 0 h)
                                    (walk_transitions-Keeps count fuel latest.transition_hash 0 h s)
                                    λ n h s. s
