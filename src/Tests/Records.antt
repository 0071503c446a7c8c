-- ===== src/Tests/Records.antt =====
-- The history, at concrete inputs.
use contrast.Prelude.{
  Bytes, Map, lookup, insert, ok, length, none, some, ℕ, [], ◌∷◌, ◌≡◌, ◌≢◌, refl, ap, arith, All,
  replicate,
}
use contrast.Store.Keys
use contrast.Store.Afero
use contrast.History
use contrast.History.{
  History, latest_key, manifests, content_key, set_latest, get_latest, set_contentaddressed,
  get_contentaddressed, new_with_store, walk_transitions,
}
use contrast.History.Encoding
use contrast.History.Encoding.{
  LatestTransition, Transition, marshal_latest, unmarshal_latest, marshal_transition,
  unmarshal_transition, IsTransition, unmarshal_transition-marshal, marshal-unmarshal_transition,
  unmarshal_latest-marshal, marshal-unmarshal_latest, digest, build_transition_chain, zero_hash,
}
use contrast.History.Content.{
  IsRead, new_with_store-CacheIsSound, get_contentaddressed-IsRead, get-set_restart,
}
use contrast.History.Chain.{collecting, add_manifest, last_hash, IsStored, walk_transitions-build}
use contrast.History.Latest.{IsLatestSet, get_latest-set_latest, set_latest_lem, set_latest_twice}
use contrast.Tests.Toys
use contrast.Tests.Toys.{toy_crypto, toy_crypto-CryptoLaws, toy_store, toy_store-StoreLaws}

abbrev hash : Bytes
hash = 3 ∷ replicate 31 0

abbrev latest : LatestTransition
latest = record { transition_hash = hash; signature = 1 ∷ 5 ∷ hash }

abbrev transition : Transition
transition = record { manifest_hash = hash; previous_transition_hash = zero_hash }

abbrev empty : History (Map Bytes)
empty = record { store = []; cache = [] }

abbrev after_latest : History (Map Bytes)
after_latest = (set_latest toy_store toy_crypto 1 none hash (5 ∷ []) empty).1

first_latest : (set_latest toy_store toy_crypto 1 none hash (5 ∷ []) empty).0 ≡ ok latest
unfolding lookup insert Keys.is_key Toys.toy_files Afero.get Afero.set Afero.write_after
    Afero.swap_read Afero.compare_and_swap Afero.afero_store Encoding.hex_encode
    Encoding.marshal_transition Encoding.marshal_latest Encoding.digest History.add_to_cache
    History.finish_set History.set_contentaddressed History.set_transition History.swap_latest
    History.set_latest History.has_latest History.get_latest History.get_latest_insecure
    History.verify History.get_transition History.get_contentaddressed History.or_fetch
    History.check_content History.walk_transitions History.visit History.step_back
    Encoding.unmarshal_transition Encoding.unmarshal_latest Afero.has Afero.has_stat
first_latest = refl

get_latest-set_latest_example : get_latest toy_store toy_crypto (5 ∷ []) after_latest ≡ ok latest
get_latest-set_latest_example =
    get_latest-set_latest toy_store toy_crypto toy_store-StoreLaws toy_crypto-CryptoLaws 1 none hash
      (5 ∷ []) empty refl first_latest

set_latest_lem_example :
    IsLatestSet toy_store toy_crypto none hash (5 ∷ []) latest empty after_latest
set_latest_lem_example =
    set_latest_lem toy_store toy_crypto toy_store-StoreLaws toy_crypto-CryptoLaws 1 none hash
      (5 ∷ []) empty first_latest

latest_differs : marshal_latest none ≢ marshal_latest (some latest)
unfolding marshal_latest
latest_differs e = absurd (omega (arith, ap (λ (b : Bytes). length b) e))

set_latest_twice_example :
    (set_latest toy_store toy_crypto 2 none hash (6 ∷ []) after_latest).0 ≢ ok latest
set_latest_twice_example =
    set_latest_twice toy_store toy_crypto toy_store-StoreLaws toy_crypto-CryptoLaws 1 2 none hash
      hash (5 ∷ []) (6 ∷ []) empty after_latest first_latest latest_differs refl latest

abbrev manifest : Bytes
manifest = 1 ∷ []

abbrev manifest_hash : Bytes
manifest_hash = 1 ∷ 1 ∷ replicate 30 0

abbrev after_manifest : History (Map Bytes)
after_manifest = (set_contentaddressed toy_store toy_crypto manifests manifest empty).1

stored : (set_contentaddressed toy_store toy_crypto manifests manifest empty).0 ≡ ok manifest_hash
unfolding lookup insert Keys.is_key Toys.toy_files Afero.get Afero.set Afero.write_after
    Afero.swap_read Afero.compare_and_swap Afero.afero_store Encoding.hex_encode
    Encoding.marshal_transition Encoding.marshal_latest Encoding.digest History.add_to_cache
    History.finish_set History.set_contentaddressed History.set_transition History.swap_latest
    History.set_latest History.has_latest History.get_latest History.get_latest_insecure
    History.verify History.get_transition History.get_contentaddressed History.or_fetch
    History.check_content History.walk_transitions History.visit History.step_back
    Encoding.unmarshal_transition Encoding.unmarshal_latest Afero.has Afero.has_stat
stored = refl

-- A new process over the store in which the manifest is.
abbrev restarted : History (Map Bytes)
restarted = new_with_store toy_store toy_crypto after_manifest.store

get_contentaddressed-IsRead_example :
    IsRead toy_store toy_crypto manifest_hash
      (get_contentaddressed toy_store toy_crypto manifests manifest_hash restarted).0
      (get_contentaddressed toy_store toy_crypto manifests manifest_hash restarted).1
get_contentaddressed-IsRead_example =
    get_contentaddressed-IsRead toy_store toy_crypto manifests manifest_hash restarted
      (new_with_store-CacheIsSound toy_store toy_crypto after_manifest.store)

get-set_restart_example :
    (get_contentaddressed toy_store toy_crypto manifests manifest_hash
      (new_with_store toy_store toy_crypto after_manifest.store)).0
    ≡ ok manifest
get-set_restart_example =
    get-set_restart toy_store toy_crypto toy_store-StoreLaws manifests manifest empty stored

-- The chain of one manifest, in the store.
abbrev first_transition : Transition
first_transition = Encoding.transition_to toy_crypto zero_hash manifest

abbrev chain_history : History (Map Bytes)
chain_history = (History.set_transition toy_store toy_crypto first_transition empty).1

abbrev head : Bytes → ℕ
head [] = 0
head (b ∷ bs) = b

chain-IsStored :
    All
      (IsStored toy_store toy_crypto chain_history)
      (build_transition_chain toy_crypto (manifest ∷ []))
unfolding lookup insert Keys.is_key Toys.toy_files Afero.get Afero.set Afero.write_after
    Afero.swap_read Afero.compare_and_swap Afero.afero_store Encoding.hex_encode
    Encoding.marshal_transition Encoding.marshal_latest Encoding.digest History.add_to_cache
    History.finish_set History.set_contentaddressed History.set_transition History.swap_latest
    History.set_latest History.has_latest History.get_latest History.get_latest_insecure
    History.verify History.get_transition History.get_contentaddressed History.or_fetch
    History.check_content History.walk_transitions History.visit History.step_back
    Encoding.unmarshal_transition Encoding.unmarshal_latest Afero.has Afero.has_stat
    Encoding.digest_transition Encoding.build_from build_transition_chain
chain-IsStored = ((λ e. absurd (omega (arith, ap head e)), refl), tt)

walk_transitions-build_example :
    (walk_transitions toy_store toy_crypto 2
      (collecting add_manifest)
      (last_hash toy_crypto zero_hash (manifest ∷ []))
      []
      chain_history).0
    ≡ ok (digest toy_crypto manifest ∷ [])
walk_transitions-build_example =
    walk_transitions-build toy_store toy_crypto 2 (manifest ∷ []) chain_history chain-IsStored
      (omega arith)
