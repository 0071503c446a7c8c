-- ===== src/Tests/Transit.antt =====
-- The transit engine, at concrete inputs.
use contrast.Prelude.{
  Bytes, codes, lookup, insert, ok, none, some, ℕ, [], ◌∷◌, length, length-replicate, replicate,
  ◌≡◌, refl, sym, arith, subst,
}
use contrast.Prelude.Decimals
use contrast.Store.Keys
use contrast.Store.Afero
use contrast.History
use contrast.History.Encoding
use contrast.SeedEngine
use contrast.Ca
use contrast.Manifest.Hex
use contrast.Guard
use contrast.Guard.Methods
use contrast.TransitEngine
use contrast.TransitEngine.{
  Aead, CiphertextContainer, EncryptionRequest, DecryptionRequest, Request, Response, answered,
  encrypt, decrypt, unmarshal_container, marshal_container,
}
use contrast.TransitEngine.Containers.{AeadLaws}
use contrast.TransitEngine.Derivation.{IsKeyOf}
use contrast.TransitEngine.Keys.{
  IsAuthorized, IsOpened, decryption_of, decrypt-encrypt, decrypt-IsOpened,
}
use contrast.Tests.Toys
use contrast.Tests.Toys.{toy_store, toy_env, toy_random}
use contrast.Tests.Updates.{first_guard}

abbrev aead : Aead
aead = record {
  seal = λ key nonce plaintext associated_data. some plaintext;
  open_sealed = λ key nonce text associated_data. some text;
  to_base64 = λ b. b;
  from_base64 = λ b. some b;
}

aead-AeadLaws : AeadLaws aead
aead-AeadLaws = record {
  from-to_base64 = λ b. refl;
  open-seal = λ key nonce plaintext associated_data text e. sym e;
}

drawn : (r n : ℕ) (b : Bytes) → toy_random r n ≡ some b → length b ≡ n
drawn r n b e =
    let same : replicate n r ≡ b = cc in subst (λ c. length c ≡ n) same (length-replicate n r)

abbrev req : EncryptionRequest
req = record { plaintext = codes "text"; key_version = 3; associated_data = codes "ad" }

abbrev request : Request EncryptionRequest
request = record {
  name = codes "db";
  content_type = codes "application/json";
  body = some req;
  client_certificates = (some (codes "db") ∷ none ∷ []) ∷ [];
}

abbrev container : CiphertextContainer
container = record { nonce = replicate 12 4; ciphertext = codes "text"; key_version = 3 }

encrypted : encrypt aead toy_store toy_env toy_random 4 first_guard request ≡ answered container
unfolding lookup insert Keys.is_key Toys.toy_files Afero.get Afero.set Afero.write_after
    Afero.swap_read Afero.compare_and_swap Afero.afero_store Encoding.hex_encode
    Encoding.marshal_transition Encoding.marshal_latest Encoding.digest History.add_to_cache
    History.finish_set History.set_contentaddressed History.set_transition History.swap_latest
    History.set_latest SeedEngine.generate_mesh_ca_key Ca.create_cert Ca.new Hex.hex_decode
    Guard.check_policies Guard.set_policies Guard.set_latest Guard.link_latest Guard.link_transition
    Guard.link_manifest Guard.link_policies Guard.link_parsed Guard.persist Guard.publish
    Methods.next_state Methods.advance Methods.finish_update Methods.update_state
    SeedEngine.derive_transit_engine_key SeedEngine.hkdf_derive Methods.get_state Methods.state_of
    TransitEngine.validate_content_type TransitEngine.parse_request
    TransitEngine.extract_workload_secret_extension TransitEngine.authorize_workload_secret
    TransitEngine.authorized TransitEngine.derive_encryption_key TransitEngine.symmetric_encrypt_raw
    encrypt Decimals.digits
encrypted = refl

decrypt-encrypt_example :
    IsAuthorized request
    × ((key : Bytes) × IsKeyOf aead toy_store toy_env toy_random first_guard 3 (codes "db") key
        × (aead.seal key container.nonce (codes "text") (codes "ad") ≡ some (codes "text")))
    × (unmarshal_container aead (marshal_container aead container) ≡ ok container)
    × (decrypt aead toy_store toy_env toy_random first_guard (decryption_of request req container)
        ≡ answered (codes "text"))
decrypt-encrypt_example =
    decrypt-encrypt aead toy_store toy_env toy_random aead-AeadLaws drawn 4 first_guard request req
      refl (omega arith) encrypted

decrypted :
    decrypt aead toy_store toy_env toy_random first_guard (decryption_of request req container)
    ≡ answered (codes "text")
decrypted =
    (decrypt-encrypt aead toy_store toy_env toy_random aead-AeadLaws drawn 4 first_guard request req
      refl (omega arith) encrypted).3

decrypt-IsOpened_example :
    IsAuthorized (decryption_of request req container)
    × IsOpened aead toy_store toy_env toy_random first_guard
        (decryption_of request req container)
        (codes "text")
decrypt-IsOpened_example =
    decrypt-IsOpened aead toy_store toy_env toy_random first_guard
      (decryption_of request req container) decrypted
