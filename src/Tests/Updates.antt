-- ===== src/Tests/Updates.antt =====
-- Updates of the Coordinator's state, at concrete inputs.
use contrast.Prelude.{
  Bytes, Map, lookup, insert, Result, ok, err, length, arith, ap, ◌∙◌, none, some, ℕ, [], ◌∷◌, ◌≡◌,
  ◌≢◌, refl,
}
use contrast.Store.Keys
use contrast.Store.Afero
use contrast.History
use contrast.History.{History}
use contrast.History.Encoding
use contrast.SeedEngine
use contrast.Ca
use contrast.Manifest.Hex
use contrast.Guard
use contrast.Guard.{Guard, State, Persisted}
use contrast.Guard.Methods
use contrast.Guard.Methods.{update_state}
use contrast.History.Encoding.{LatestTransition, marshal_latest}
use contrast.History.{latest_key}
use contrast.Guard.Updates.{IsUpdate, update_state_lem, update_state_once}
use contrast.Tests.Toys
use contrast.Tests.Toys.{
  toy_crypto, toy_crypto-CryptoLaws, toy_store, toy_store-StoreLaws, toy_env, toy_engine, policy,
}

abbrev empty_guard : Guard (Map Bytes)
empty_guard = record {
  states = [];
  current = none;
  hist = record { store = []; cache = [] };
  manifest_generation = 0;
}

first_update :
    (update_state toy_store toy_env 1 none toy_engine (1 ∷ []) (policy ∷ []) empty_guard).0 ≡ ok 0
unfolding lookup insert Keys.is_key Toys.toy_files Afero.get Afero.set Afero.write_after
    Afero.swap_read Afero.compare_and_swap Afero.afero_store Encoding.hex_encode
    Encoding.marshal_transition Encoding.marshal_latest Encoding.digest History.add_to_cache
    History.finish_set History.set_contentaddressed History.set_transition History.swap_latest
    History.set_latest SeedEngine.generate_mesh_ca_key Ca.create_cert Ca.new Hex.hex_decode
    Guard.check_policies Guard.set_policies Guard.set_latest Guard.link_latest Guard.link_transition
    Guard.link_manifest Guard.link_policies Guard.link_parsed Guard.persist Guard.publish
    Methods.next_state Methods.advance Methods.finish_update update_state
first_update = refl

-- The Coordinator after its first manifest.
abbrev pub first_guard : Guard (Map Bytes)
first_guard =
    (update_state toy_store toy_env 1 none toy_engine (1 ∷ []) (policy ∷ []) empty_guard).1

update_state_lem_example :
    (next : State) × (stored : Persisted) × IsUpdate toy_store toy_env toy_store-StoreLaws
      toy_crypto-CryptoLaws 1 none toy_engine
      (1 ∷ [])
      (policy ∷ [])
      0
      next
      stored
      empty_guard
      first_guard
update_state_lem_example =
    update_state_lem toy_store toy_env toy_store-StoreLaws toy_crypto-CryptoLaws 1 none toy_engine
      (1 ∷ []) (policy ∷ []) empty_guard first_update

-- Another Coordinator over the same store, that knows of no state.
abbrev pub other_guard : Guard (Map Bytes)
other_guard = record empty_guard { hist = record { store = first_guard.hist.store; cache = [] } }

abbrev size : Result Bytes → ℕ
size (err e) = 0
size (ok b) = length b

other_size : size (toy_store.get latest_key other_guard.hist.store) ≡ 155
unfolding lookup insert Keys.is_key Toys.toy_files Afero.get Afero.set Afero.write_after
    Afero.swap_read Afero.compare_and_swap Afero.afero_store Encoding.hex_encode
    Encoding.marshal_transition Encoding.marshal_latest Encoding.digest History.add_to_cache
    History.finish_set History.set_contentaddressed History.set_transition History.swap_latest
    History.set_latest SeedEngine.generate_mesh_ca_key Ca.create_cert Ca.new Hex.hex_decode
    Guard.check_policies Guard.set_policies Guard.set_latest Guard.link_latest Guard.link_transition
    Guard.link_manifest Guard.link_policies Guard.link_parsed Guard.persist Guard.publish
    Methods.next_state Methods.advance Methods.finish_update update_state
other_size = refl

-- The stored latest transition is not the empty text.
other_latest :
    (l : LatestTransition)
    → toy_store.get latest_key other_guard.hist.store ≡ ok (marshal_latest (some l))
    → marshal_latest (some l) ≢ marshal_latest none
unfolding marshal_latest
other_latest l e h =
    let none_left : size (toy_store.get latest_key other_guard.hist.store) ≡ 0 =
      ap size (e ∙ ap ok h) in
    omega (arith, none_left, other_size)

update_state_once_example :
    (update_state toy_store toy_env 2 none toy_engine (2 ∷ []) (policy ∷ []) other_guard).0 ≢ ok 0
update_state_once_example =
    update_state_once toy_store toy_env toy_store-StoreLaws toy_crypto-CryptoLaws 1 2 none none
      toy_engine toy_engine (1 ∷ []) (2 ∷ []) (policy ∷ []) (policy ∷ []) empty_guard other_guard
      first_update refl refl other_latest
