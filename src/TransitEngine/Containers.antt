-- ===== src/TransitEngine/Containers.antt =====
-- coordinator/internal/transitengineapi/crypto.go: a ciphertext is read back from its text.
use contrast.Prelude.{
  Bytes, codes, ok, some, true, false, ℕ, zero, suc, ◌+◌, ◌/◌, ◌%◌, ◌<◌, [], ◌∷◌, ◌++◌, length, ltb,
  ◌==◌, Bool-cases, inl, inr, All, ◌≡◌, ◌≢◌, refl, arith, ◌∙◌, length-append, take-append,
  drop-append,
}
use contrast.Prelude.Decimals.{digits, format_decimal, parse-format_decimal}
use contrast.TransitEngine.{
  Aead, CiphertextContainer, aes_gcm_nonce_size, split_colon, extract_version, marshal_container,
  unmarshal_container, cut_nonce,
}

-- Documented behaviour of encoding/base64 and of AES-GCM.
pub record AeadLaws (aead : Aead) : Type 0 where
  pub from-to_base64 : (b : Bytes) → aead.from_base64 (aead.to_base64 b) ≡ some b
  pub open-seal :
      (key nonce plaintext associated_data text : Bytes)
      → aead.seal key nonce plaintext associated_data ≡ some text
      → aead.open_sealed key nonce text associated_data ≡ some plaintext

abbrev NoColon : Bytes → Type 0
NoColon = All (λ c. c ≢ b':')

NoColon-digits : (fuel n : ℕ) (rest : Bytes) → NoColon rest → NoColon (digits fuel n rest)
unfolding digits
NoColon-digits zero n rest h = h
NoColon-digits (suc fuel) n rest h = elim (Bool-cases (ltb n 10)) [
  | inl small ↦ let lt : n < 10 = ground arith in rw (small, digits) ((λ e. omega arith), h)
  | inr large ↦
      rw (large, digits)
        (NoColon-digits fuel (n / 10) ((48 + n % 10) ∷ rest) ((λ e. omega arith), h))
]

split_colon-append : (p s : Bytes) → NoColon p → split_colon (p ++ (b':' ∷ s)) ≡ some (p, s)
unfolding split_colon
split_colon-append [] s h = refl
split_colon-append (c ∷ p) s (hc, h) =
    let other : (c == b':') ≡ false = ground arith in rw (other, split_colon-append p s h) refl

module _ (aead : Aead) where
  unmarshal_parts :
      (version : ℕ) (full text number : Bytes)
      → NoColon number
      → extract_version number ≡ ok version
      → aead.from_base64 text ≡ some full
      → unmarshal_container aead (codes "vault:" ++ (number ++ (b':' ∷ text)))
        ≡ cut_nonce aead version full
  unfolding unmarshal_container split_colon
  unmarshal_parts version full text number h e b = rw (split_colon-append number text h, e, b) refl

  cut_nonce-append :
      (c : CiphertextContainer)
      → length c.nonce ≡ aes_gcm_nonce_size
      → cut_nonce aead c.key_version (c.nonce ++ c.ciphertext) ≡ ok c
  cut_nonce-append c h =
      let long : ltb (length (c.nonce ++ c.ciphertext)) aes_gcm_nonce_size ≡ false =
        ground (arith, length-append c.nonce c.ciphertext) in
      rw (long, take-append c.nonce c.ciphertext 12 h, drop-append c.nonce c.ciphertext 12 h) refl

  extract_version-format :
      (n : ℕ) → n < 4_294_967_296 → extract_version (b'v' ∷ format_decimal n) ≡ ok n
  unfolding extract_version
  extract_version-format n h =
      let small : ltb n 4_294_967_296 ≡ true = ground arith in
      rw (parse-format_decimal n (omega arith), small) refl

  -- The text of a ciphertext with a nonce of its size and a version of 32 bits is read back.
  pub unmarshal-marshal_container :
      AeadLaws aead
      → (c : CiphertextContainer) → length c.nonce ≡ aes_gcm_nonce_size
      → c.key_version < 4_294_967_296
      → unmarshal_container aead (marshal_container aead c) ≡ ok c
  unfolding marshal_container
  unmarshal-marshal_container laws c h v =
      unmarshal_parts c.key_version (c.nonce ++ c.ciphertext)
        (aead.to_base64 (c.nonce ++ c.ciphertext)) (b'v' ∷ format_decimal c.key_version)
        ((λ e. omega arith), NoColon-digits 20 c.key_version [] tt)
        (extract_version-format c.key_version v) (laws.from-to_base64 (c.nonce ++ c.ciphertext))
      ∙ cut_nonce-append c h
