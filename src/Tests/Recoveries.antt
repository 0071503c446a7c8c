-- ===== src/Tests/Recoveries.antt =====
-- Recoveries of the state of a Coordinator, at concrete inputs.
use contrast.Prelude.{Bytes, Map, lookup, insert, ok, Option, none, false, ℕ, [], ◌∷◌, ◌≡◌, refl}
use contrast.Prelude.Execs.{Exec, lift}
use contrast.Store.Keys
use contrast.Store.Afero
use contrast.History
use contrast.History.{History}
use contrast.History.Encoding
use contrast.History.Encoding.{Transition}
use contrast.SeedEngine
use contrast.SeedEngine.{SeedEngine}
use contrast.Ca
use contrast.Manifest
use contrast.Manifest.{Manifest}
use contrast.Manifest.Hex
use contrast.Guard
use contrast.Guard.{Guard, State, Answer, null, fresh}
use contrast.Guard.Methods
use contrast.Guard.Methods.{Recovered, get_state, reset_state, on_transition}
use contrast.History.Content.{CacheIsSound, new_with_store-CacheIsSound}
use contrast.Guard.Recovery.{IsRecovered, IsReset, reset_state_lem}
use contrast.UserApi
use contrast.UserApi.{
  SetManifestRequest, SetManifestResponse, RecoverRequest, Outcome, reply, panic, Peer, rsa_key,
  authorize_caller,
}
use contrast.UserApi.Authorizer
use contrast.UserApi.Handlers
use contrast.UserApi.Handlers.{set_manifest, recover}
use contrast.UserApi.Recovery.{IsUserRecovery, recover_authorized}
use contrast.Tests.Toys
use contrast.Tests.Toys.{
  toy_crypto, toy_crypto-CryptoLaws, toy_store, toy_store-StoreLaws, toy_env, toy_engine, toy_seed,
  toy_salt, toy_random, toy_manifest, policy,
}
use contrast.Tests.Updates.{other_guard}

-- The authorizer that knows the engine.
abbrev known : Manifest → Exec (History (Map Bytes)) (SeedEngine × Bytes)
known m = lift (ok (toy_engine, 1 ∷ []))

other_reset : (reset_state toy_store toy_env 2 1 none known other_guard).0 ≡ ok 0
unfolding lookup insert Keys.is_key Toys.toy_files Afero.get Afero.set Afero.write_after
    Afero.swap_read Afero.compare_and_swap Afero.afero_store Encoding.hex_encode
    Encoding.marshal_transition Encoding.marshal_latest Encoding.digest History.add_to_cache
    History.finish_set History.set_contentaddressed History.set_transition History.swap_latest
    History.set_latest SeedEngine.generate_mesh_ca_key Ca.create_cert Ca.new Hex.hex_decode
    Guard.check_policies Guard.set_policies Guard.set_latest Guard.link_latest Guard.link_transition
    Guard.link_manifest Guard.link_policies Guard.link_parsed Guard.persist Guard.publish
    Methods.next_state Methods.advance Methods.finish_update Methods.update_state Methods.state_of
    get_state Methods.recover Methods.finish_reset reset_state History.has_latest History.get_latest
    History.get_latest_insecure History.verify History.get_transition History.get_contentaddressed
    History.or_fetch History.check_content History.walk_transitions History.visit History.step_back
    Encoding.unmarshal_transition Encoding.unmarshal_latest Afero.has Afero.has_stat
other_reset = refl

pub other_sound : CacheIsSound toy_store toy_crypto other_guard.hist
unfolding History.new_with_store
other_sound = new_with_store-CacheIsSound toy_store toy_crypto other_guard.hist.store

reset_state_lem_example :
    (r : Recovered) × IsRecovered toy_store toy_env known other_guard.hist.store r
    × IsReset toy_store toy_env known none 0 r other_guard
        (reset_state toy_store toy_env 2 1 none known other_guard).1
reset_state_lem_example =
    reset_state_lem toy_store toy_env known 2 1 none other_guard 0 other_sound other_reset

-- The Coordinator whose state is only in the store is recovered with its seed.
abbrev seed_owner : Peer
seed_owner = rsa_key (6 ∷ [])

abbrev recover_request : RecoverRequest
recover_request = record { seed = toy_seed; salt = toy_salt; force = false }

other_recovered :
    (recover toy_store toy_env toy_random false
      (ok [])
      seed_owner
      2
      1
      recover_request
      other_guard).0
    ≡ reply tt
unfolding lookup insert Keys.is_key Toys.toy_files Afero.get Afero.set Afero.write_after
    Afero.swap_read Afero.compare_and_swap Afero.afero_store Encoding.hex_encode
    Encoding.marshal_transition Encoding.marshal_latest Encoding.digest History.add_to_cache
    History.finish_set History.set_contentaddressed History.set_transition History.swap_latest
    History.set_latest SeedEngine.generate_mesh_ca_key Ca.create_cert Ca.new Hex.hex_decode
    Guard.check_policies Guard.set_policies Guard.set_latest Guard.link_latest Guard.link_transition
    Guard.link_manifest Guard.link_policies Guard.link_parsed Guard.persist Guard.publish
    Methods.next_state Methods.advance Methods.finish_update Methods.update_state Methods.state_of
    get_state Methods.recover Methods.finish_reset reset_state History.has_latest History.get_latest
    History.get_latest_insecure History.verify History.get_transition History.get_contentaddressed
    History.or_fetch History.check_content History.walk_transitions History.visit History.step_back
    Encoding.unmarshal_transition Encoding.unmarshal_latest Afero.has Afero.has_stat
    UserApi.peer_matches UserApi.validate_peer UserApi.check_manifest_security
    Manifest.has_insecure_platforms Manifest.any_reference_value Manifest.has_secure_platforms
    Authorizer.authorize_by_manifest SeedEngine.hkdf_derive SeedEngine.derive_all SeedEngine.new
    Handlers.finish_recover Handlers.check_peers Handlers.recover_if Handlers.recover_at recover
other_recovered = refl

recover_authorized_example :
    (old : Option ℕ) × (p : ℕ) × (r : Recovered) × IsUserRecovery toy_store toy_env toy_random false
      (ok [])
      seed_owner
      1
      recover_request
      old
      p
      r
      other_guard
      (recover toy_store toy_env toy_random false
        (ok [])
        seed_owner
        2
        1
        recover_request
        other_guard).1
recover_authorized_example =
    recover_authorized toy_store toy_env toy_random false (ok []) seed_owner 2 1 recover_request
      other_guard other_sound other_recovered
