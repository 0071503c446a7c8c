-- ===== src/Tests/Peers.antt =====
-- A round of recovery from other Coordinators, at a concrete input: the first peer cannot be reached.
use contrast.Prelude.{
  Bytes, codes, bytes_equal, lookup, insert, Result, ok, err, unavailable, some, [], ◌∷◌,
  if◌then◌else◌, ◌≡◌, refl,
}
use contrast.Store.Keys
use contrast.Store.Afero
use contrast.History
use contrast.History.Encoding
use contrast.SeedEngine
use contrast.Ca
use contrast.Manifest.{Manifest}
use contrast.Manifest.Hex
use contrast.MeshApi.{RecoverResponse}
use contrast.Guard
use contrast.Guard.Methods
use contrast.PeerRecovery
use contrast.PeerRecovery.{Peers, recovered, recover_once}
use contrast.PeerRecovery.Rounds.{IsPeerRecovered, recover_once-IsPeerRecovered}
use contrast.Tests.Toys
use contrast.Tests.Toys.{toy_store, toy_env, toy_seed, toy_salt}
use contrast.Tests.Updates.{other_guard}
use contrast.Tests.Recoveries.{other_sound}

abbrev response : RecoverResponse
response = record {
  seed = toy_seed;
  salt = toy_salt;
  mesh_ca_key = 1 ∷ [];
  latest_manifest = 1 ∷ [];
}

abbrev ask : Manifest → Bytes → Result RecoverResponse
ask m peer = if bytes_equal peer (codes "b") then ok response else err unavailable

abbrev peers : Peers
peers = record {
  get_peers = ok (codes "a" ∷ codes "b" ∷ []);
  ask = ask;
  decode_pem = λ b. some b;
  parse_ec_key = λ b. some b;
}

round : (recover_once toy_store toy_env peers 2 1 other_guard).0 ≡ recovered 0
unfolding lookup insert Keys.is_key Toys.toy_files Afero.get Afero.set Afero.write_after
    Afero.swap_read Afero.compare_and_swap Afero.afero_store Encoding.hex_encode
    Encoding.marshal_transition Encoding.marshal_latest Encoding.digest History.add_to_cache
    History.finish_set History.set_contentaddressed History.set_transition History.swap_latest
    History.set_latest SeedEngine.generate_mesh_ca_key Ca.create_cert Ca.new Hex.hex_decode
    Guard.check_policies Guard.set_policies Guard.set_latest Guard.link_latest Guard.link_transition
    Guard.link_manifest Guard.link_policies Guard.link_parsed Guard.persist Guard.publish
    Methods.next_state Methods.advance Methods.finish_update Methods.update_state Methods.state_of
    Methods.get_state Methods.recover Methods.finish_reset Methods.reset_state History.has_latest
    History.get_latest History.get_latest_insecure History.verify History.get_transition
    History.get_contentaddressed History.or_fetch History.check_content History.walk_transitions
    History.visit History.step_back Encoding.unmarshal_transition Encoding.unmarshal_latest
    Afero.has Afero.has_stat SeedEngine.hkdf_derive SeedEngine.derive_all SeedEngine.new
    PeerRecovery.authorize_by_manifest PeerRecovery.recover_from_peer PeerRecovery.try_peers
    recover_once
round = refl

recover_once-IsPeerRecovered_example :
    IsPeerRecovered toy_store toy_env peers other_guard 0
      (recover_once toy_store toy_env peers 2 1 other_guard).1
recover_once-IsPeerRecovered_example =
    recover_once-IsPeerRecovered toy_store toy_env peers 2 1 other_guard 0 other_sound round
