-- ===== src/Qgs/Panics.antt =====
-- internal/attestation/tdx/qgs/qgs.go: the sizes in a response are not compared with its length.
use contrast.Prelude.Endian.{uint, capacity}
use contrast.Prelude.{
  Bytes, ok, err, other, index_out_of_range, ◌>>=◌, Bool, true, false, Bool-cases, inl, inr, ◌⊎◌,
  ◌&&◌, ◌↔◌, ◌≢◌, ℕ, zero, suc, ◌+◌, ◌-◌, ◌*◌, ◌%◌, ◌<◌, ◌≤◌, List, [], ◌∷◌, length, take, drop,
  length-take, length-drop, guard, ltb, leb, ◌==◌, ◌≡◌, refl, sym, ◌∙◌, ap, subst, arith, All,
}
use contrast.Qgs.{
  slice, read_fields, uint32_limit, response_of, unmarshal_receivers, unmarshal_response,
}

abbrev pub IsByte : ℕ → Type 0
IsByte b = b < 256

-- The size that stands for a field, and the sum of so many of them, from one on.
abbrev pub size_at : Bytes → ℕ → ℕ
unfolding uint
size_at bytes i = uint (take 4 (drop ((i + 1) * 4) bytes))

abbrev pub declared : Bytes → ℕ → ℕ → ℕ
unfolding uint
declared bytes zero i = 0
declared bytes (suc k) i = size_at bytes i + declared bytes k (i + 1)

uint-lt : (bytes : Bytes) → All IsByte bytes → uint bytes < capacity (length bytes)
unfolding uint
uint-lt [] h = omega arith
uint-lt (b ∷ bytes) (h, hs) = omega (arith, uint-lt bytes hs)

All-take : (n : ℕ) (bytes : Bytes) → All IsByte bytes → All IsByte (take n bytes)
All-take zero bytes h = tt
All-take (suc n) [] h = tt
All-take (suc n) (b ∷ bytes) (h, hs) = (h, All-take n bytes hs)

All-drop : (n : ℕ) (bytes : Bytes) → All IsByte bytes → All IsByte (drop n bytes)
All-drop zero bytes h = h
All-drop (suc n) [] h = tt
All-drop (suc n) (b ∷ bytes) (h, hs) = All-drop n bytes hs

slice-eq-ok :
    (low high : ℕ) (bytes : Bytes)
    → low ≤ high
    → high ≤ length bytes
    → slice low high bytes ≡ ok (take (high - low) (drop low bytes))
unfolding slice
slice-eq-ok low high bytes p q =
    let inside : (leb low high && leb high (length bytes)) ≡ true = ground arith in rw inside refl

slice_panics :
    (low high : ℕ) (bytes : Bytes)
    → (high < low) ⊎ (length bytes < high)
    → slice low high bytes ≡ err index_out_of_range
unfolding slice
slice_panics low high bytes (inl p) =
    let outside : (leb low high && leb high (length bytes)) ≡ false = ground arith in
    rw outside refl
slice_panics low high bytes (inr p) =
    let outside : (leb low high && leb high (length bytes)) ≡ false = ground arith in
    rw outside refl

-- What the loop over so many fields does, from one of them on.
data Outcome (bytes : Bytes) (k i offset : ℕ) : Type 0 where
  reads :
      (fields : List Bytes)
      → length fields ≡ k
      → offset + declared bytes k i ≤ length bytes
      → read_fields bytes k i offset ≡ ok (fields, offset + declared bytes k i)
      → Outcome bytes k i offset
  panics :
      length bytes < offset + declared bytes k i
      → read_fields bytes k i offset ≡ err index_out_of_range
      → Outcome bytes k i offset

module _ (bytes : Bytes) (are_bytes : All IsByte bytes) (small : length bytes < uint32_limit) where
  size_read :
      (i : ℕ)
      → (i + 2) * 4 ≤ length bytes
      → slice ((i + 1) * 4) ((i + 2) * 4) bytes ≡ ok (take 4 (drop ((i + 1) * 4) bytes))
  size_read i h =
      let four : (i + 2) * 4 - (i + 1) * 4 ≡ 4 = omega arith in
      slice-eq-ok ((i + 1) * 4) ((i + 2) * 4) bytes (omega arith) h
      ∙ ap (λ n. ok (take n (drop ((i + 1) * 4) bytes))) four

  size_at-lt :
      (i : ℕ) → (i + 2) * 4 ≤ length bytes → uint (take 4 (drop ((i + 1) * 4) bytes)) < uint32_limit
  size_at-lt i h =
      let rest = drop ((i + 1) * 4) bytes in
      let four = length-take 4 rest (omega (arith, length-drop ((i + 1) * 4) bytes)) in
      let lt = uint-lt (take 4 rest) (All-take 4 rest (All-drop ((i + 1) * 4) bytes are_bytes)) in
      subst (λ n. uint (take 4 rest) < capacity n) four lt

  outcome :
      (k i offset : ℕ)
      → (i + k + 1) * 4 ≤ length bytes
      → offset ≤ length bytes
      → Outcome bytes k i offset
  unfolding read_fields
  outcome zero i offset h at = reads [] refl (omega arith) (ap (λ n. ok ([], n)) (omega arith))
  outcome (suc k) i offset h at =
      let raw = take 4 (drop ((i + 1) * 4) bytes) in
      let size = size_read i (omega arith) in
      let lt = size_at-lt i (omega arith) in
      let end = offset + uint raw in
      let next = end % uint32_limit in
      elim (Bool-cases (leb end (length bytes))) [
        | inl fits ↦
            let le : end ≤ length bytes = ground arith in
            let same : next ≡ end = omega arith in
            let field = slice-eq-ok offset end bytes (omega arith) le in
            elim (outcome k (i + 1) end (omega arith) le) [
              | reads fields n enough read ↦
                  reads (take (end - offset) (drop offset bytes) ∷ fields) (ap suc n) (omega arith)
                    (rw (size, same, field, read)
                      (ap (λ n. ok (take (end - offset) (drop offset bytes) ∷ fields, n))
                        (omega arith)))
              | panics short read ↦ panics (omega arith) (rw (size, same, field, read) refl)
            ]
        | inr over ↦
            let gt : length bytes < end = ground arith in
            panics (omega arith)
              (rw (size, slice_panics offset next bytes (outside end gt (omega arith))) refl)
      ]
    where
      outside :
          (end : ℕ)
          → length bytes < end
          → end < offset + uint32_limit
          → (end % uint32_limit < offset) ⊎ (length bytes < end % uint32_limit)
      outside end gt lt = elim (Bool-cases (ltb end uint32_limit)) [
        | inl low ↦ let l : end < uint32_limit = ground arith in inr (omega arith)
        | inr high ↦ let l : uint32_limit ≤ end = ground arith in inl (omega arith)
      ]

response_of-ne :
    (major minor : ℕ) (fields : List Bytes)
    → response_of major minor fields ≢ err index_out_of_range
response_of-ne major minor (a ∷ b ∷ c ∷ d ∷ e ∷ f ∷ g ∷ []) h = cc
response_of-ne major minor _ h = cc

-- Past the loop nothing panics.
checked-ne :
    (t : Bool) (major minor : ℕ) (fields : List Bytes)
    → (guard t (other 3) >>= λ _. response_of major minor fields) ≢ err index_out_of_range
checked-ne true major minor fields h = response_of-ne major minor fields h
checked-ne false major minor fields h = cc

module _ (bytes : Bytes) (are_bytes : All IsByte bytes) (small : length bytes < uint32_limit) where
  unmarshal_receivers_panics_iff :
      (k : ℕ)
      → 4 + 4 * k ≤ length bytes
      → (unmarshal_receivers k bytes ≡ err index_out_of_range)
        ↔ (length bytes < 4 + 4 * k + declared bytes k 0)
  unfolding unmarshal_receivers
  unmarshal_receivers_panics_iff k long =
      let fixed = 4 + 4 * k in
      let enough : leb fixed (length bytes) ≡ true = ground arith in
      let first = slice-eq-ok 0 2 bytes (omega arith) (omega arith) in
      let second = slice-eq-ok 2 4 bytes (omega arith) (omega arith) in
      let checked = λ (fields : List Bytes × ℕ).
        (guard (fields.1 == length bytes % uint32_limit) (other 3) >>= λ _.
        response_of (uint (take 2 bytes)) (uint (take 2 (drop 2 bytes))) fields.0) in
      let begun : unmarshal_receivers k bytes ≡ (read_fields bytes k 0 fixed >>= checked) =
        rw (enough, first, second) refl in
      elim (outcome bytes are_bytes small k 0 fixed (omega arith) long) [
        | reads fields n fits read ↦ (
          (λ h. absurd (
              checked-ne (fixed + declared bytes k 0 == length bytes % uint32_limit)
                (uint (take 2 bytes)) (uint (take 2 (drop 2 bytes))) fields
                (sym (begun ∙ ap (λ r. r >>= checked) read) ∙ h))),
          λ lt. absurd (omega arith),
        )
        | panics short read ↦ ((λ h. short), λ lt. begun ∙ ap (λ r. r >>= checked) read)
      ]

-- A response of more than the 32 bytes before its fields makes unmarshalBinary panic, by a slice out
-- of its bounds, exactly if the seven sizes that it declares are together more than the bytes that
-- follow: they are compared with the length only after the fields were cut out. The message is
-- shorter than 2^32 bytes.
pub unmarshal_response_panics_iff :
    (bytes : Bytes)
    → All IsByte bytes
    → length bytes < uint32_limit
    → 32 ≤ length bytes
    → (unmarshal_response bytes ≡ err index_out_of_range) ↔ (length bytes < 32 + declared bytes 7 0)
unfolding unmarshal_response
unmarshal_response_panics_iff bytes are_bytes small long =
    unmarshal_receivers_panics_iff bytes are_bytes small 7 long
