-- ===== src/Tests/Manifests.antt =====
-- The user API of a Coordinator that has a state, at concrete inputs.
use contrast.Prelude.{
  Bytes, codes, lookup, insert, none, some, false, ℕ, [], ◌∷◌, ◌++◌, get_elem?, ap, arith, ◌≡◌, ◌↔◌,
  ◌⊎◌, refl, replicate,
}
use contrast.Store.Keys
use contrast.Store.Afero
use contrast.History
use contrast.History.{History}
use contrast.History.Encoding
use contrast.History.Encoding.{Transition, LatestTransition}
use contrast.SeedEngine
use contrast.SeedEngine.{SeedEngine}
use contrast.Ca
use contrast.Manifest.{Manifest}
use contrast.Manifest.Hex
use contrast.Guard
use contrast.Guard.{Guard, State, Answer, null, fresh}
use contrast.Guard.Methods
use contrast.Guard.Methods.{Recovered, get_state, reset_state, on_transition}
use contrast.History.Walk.{IsChain}
use contrast.Guard.Watch.{answer_after, is_ancestor, on_transition-get_state}
use contrast.UserApi.{SetManifestRequest, reply, panic, Peer, rsa_key, authorize_caller}
use contrast.UserApi.Handlers.{set_manifest}
use contrast.UserApi.Update.{IsApproved, IsRefused, updated, set_manifest-IsApproved}
use contrast.UserApi.Panics.{set_manifest-panics_iff}
use contrast.Tests.Toys
use contrast.Tests.Toys.{
  toy_ca, toy_crypto, toy_crypto-CryptoLaws, toy_store, toy_store-StoreLaws, toy_env, toy_engine,
  toy_seed, toy_salt, toy_random, toy_manifest, policy,
}
use contrast.Tests.Updates.{first_guard}

-- The state after the first manifest, and its transition.
abbrev first_transition : Transition
first_transition = Encoding.transition_to toy_crypto Encoding.zero_hash (1 ∷ [])

abbrev first_latest : LatestTransition
first_latest = record {
  transition_hash = 64 ∷ 1 ∷ 1 ∷ replicate 29 0;
  signature = 1 ∷ codes "TRANSACTION SIGNING SECRET" ++ toy_seed ++ 64 ∷ 1 ∷ 1 ∷ replicate 29 0;
}

abbrev first_state : State
first_state = record {
  seed_engine = toy_engine;
  manifest = toy_manifest [];
  manifest_bytes = 1 ∷ [];
  ca = toy_ca;
  latest = first_latest;
  generation = 1;
  stale = false;
}

first_current : get_elem? first_guard.states 0 ≡ some first_state
unfolding lookup insert Keys.is_key Toys.toy_files Afero.get Afero.set Afero.write_after
    Afero.swap_read Afero.compare_and_swap Afero.afero_store Encoding.hex_encode
    Encoding.marshal_transition Encoding.marshal_latest Encoding.digest History.add_to_cache
    History.finish_set History.set_contentaddressed History.set_transition History.swap_latest
    History.set_latest SeedEngine.generate_mesh_ca_key Ca.create_cert Ca.new Hex.hex_decode
    Guard.check_policies Guard.set_policies Guard.set_latest Guard.link_latest Guard.link_transition
    Guard.link_manifest Guard.link_policies Guard.link_parsed Guard.persist Guard.publish
    Methods.next_state Methods.advance Methods.finish_update Methods.update_state Methods.state_of
    get_state Methods.recover Methods.finish_reset reset_state History.has_latest History.get_latest
    History.get_latest_insecure History.verify History.get_transition History.get_contentaddressed
    History.or_fetch History.check_content History.walk_transitions History.visit History.step_back
    Encoding.unmarshal_transition Encoding.unmarshal_latest Afero.has Afero.has_stat
first_current = refl

first_pointer : first_guard.current ≡ some 0
unfolding lookup insert Keys.is_key Toys.toy_files Afero.get Afero.set Afero.write_after
    Afero.swap_read Afero.compare_and_swap Afero.afero_store Encoding.hex_encode
    Encoding.marshal_transition Encoding.marshal_latest Encoding.digest History.add_to_cache
    History.finish_set History.set_contentaddressed History.set_transition History.swap_latest
    History.set_latest SeedEngine.generate_mesh_ca_key Ca.create_cert Ca.new Hex.hex_decode
    Guard.check_policies Guard.set_policies Guard.set_latest Guard.link_latest Guard.link_transition
    Guard.link_manifest Guard.link_policies Guard.link_parsed Guard.persist Guard.publish
    Methods.next_state Methods.advance Methods.finish_update Methods.update_state Methods.state_of
    get_state Methods.recover Methods.finish_reset reset_state History.has_latest History.get_latest
    History.get_latest_insecure History.verify History.get_transition History.get_contentaddressed
    History.or_fetch History.check_content History.walk_transitions History.visit History.step_back
    Encoding.unmarshal_transition Encoding.unmarshal_latest Afero.has Afero.has_stat
first_pointer = refl

first_fresh : get_state toy_store toy_env first_guard ≡ fresh 0
unfolding lookup insert Keys.is_key Toys.toy_files Afero.get Afero.set Afero.write_after
    Afero.swap_read Afero.compare_and_swap Afero.afero_store Encoding.hex_encode
    Encoding.marshal_transition Encoding.marshal_latest Encoding.digest History.add_to_cache
    History.finish_set History.set_contentaddressed History.set_transition History.swap_latest
    History.set_latest SeedEngine.generate_mesh_ca_key Ca.create_cert Ca.new Hex.hex_decode
    Guard.check_policies Guard.set_policies Guard.set_latest Guard.link_latest Guard.link_transition
    Guard.link_manifest Guard.link_policies Guard.link_parsed Guard.persist Guard.publish
    Methods.next_state Methods.advance Methods.finish_update Methods.update_state Methods.state_of
    get_state Methods.recover Methods.finish_reset reset_state History.has_latest History.get_latest
    History.get_latest_insecure History.verify History.get_transition History.get_contentaddressed
    History.or_fetch History.check_content History.walk_transitions History.visit History.step_back
    Encoding.unmarshal_transition Encoding.unmarshal_latest Afero.has Afero.has_stat
first_fresh = refl

abbrev head : Bytes → ℕ
head [] = 0
head (b ∷ bs) = b

first-IsChain :
    IsChain toy_store toy_crypto first_guard.hist first_latest.transition_hash
      (first_transition ∷ [])
unfolding lookup insert Keys.is_key Toys.toy_files Afero.get Afero.set Afero.write_after
    Afero.swap_read Afero.compare_and_swap Afero.afero_store Encoding.hex_encode
    Encoding.marshal_transition Encoding.marshal_latest Encoding.digest History.add_to_cache
    History.finish_set History.set_contentaddressed History.set_transition History.swap_latest
    History.set_latest SeedEngine.generate_mesh_ca_key Ca.create_cert Ca.new Hex.hex_decode
    Guard.check_policies Guard.set_policies Guard.set_latest Guard.link_latest Guard.link_transition
    Guard.link_manifest Guard.link_policies Guard.link_parsed Guard.persist Guard.publish
    Methods.next_state Methods.advance Methods.finish_update Methods.update_state Methods.state_of
    get_state Methods.recover Methods.finish_reset reset_state History.has_latest History.get_latest
    History.get_latest_insecure History.verify History.get_transition History.get_contentaddressed
    History.or_fetch History.check_content History.walk_transitions History.visit History.step_back
    Encoding.unmarshal_transition Encoding.unmarshal_latest Afero.has Afero.has_stat
first-IsChain = (λ e. absurd (omega (arith, ap head e)), refl, refl)

on_transition-get_state_example :
    get_state toy_store toy_env (on_transition toy_store toy_env 2 (replicate 32 9) first_guard)
    ≡ answer_after toy_store toy_env
        (is_ancestor (replicate 32 9) first_latest.transition_hash (first_transition ∷ []))
        0
on_transition-get_state_example =
    on_transition-get_state toy_store toy_env 2 0 (replicate 32 9) first_state
      (first_transition ∷ []) first_guard first_pointer first_current refl first-IsChain
      (omega arith)

-- A workload owner sets the second manifest without a signature.
abbrev owner : Peer
owner = rsa_key (5 ∷ [])

abbrev second_request : SetManifestRequest
second_request = record {
  manifest = 2 ∷ [];
  policies = policy ∷ [];
  previous_transition_hash = some first_latest.transition_hash;
  signature = none;
}

set_manifest-IsApproved_example :
    IsRefused toy_store toy_env toy_random first_guard
      (set_manifest toy_store toy_env toy_random false (λ g. g) owner 3 second_request first_guard)
    ⊎ ((m : Manifest) × IsApproved toy_store toy_env toy_random false owner first_state
          second_request m
        × (set_manifest toy_store toy_env toy_random false
              (λ g. g)
              owner
              3
              second_request
              first_guard
            ≡ updated toy_store toy_env toy_random 3 0 first_state second_request first_guard))
set_manifest-IsApproved_example =
    set_manifest-IsApproved toy_store toy_env toy_random false (λ g. g) owner 3 0 first_state
      second_request first_guard first_fresh first_current

-- The same owner sends the text null.
abbrev null_request : SetManifestRequest
null_request = record {
  manifest = 0 ∷ [];
  policies = [];
  previous_transition_hash = none;
  signature = none;
}

set_manifest-panics_iff_example :
    ((set_manifest toy_store toy_env toy_random false (λ g. g) owner 3 null_request first_guard).0
      ≡ panic)
    ↔ (authorize_caller toy_crypto owner (codes "05" ∷ []) first_latest.transition_hash null_request
        ≡ reply tt)
set_manifest-panics_iff_example =
    set_manifest-panics_iff toy_store toy_env toy_random false (λ g. g) owner 3 0 first_state
      null_request first_guard first_fresh first_current refl
