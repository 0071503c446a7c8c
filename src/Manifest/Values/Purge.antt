-- ===== src/Manifest/Values/Purge.antt =====
-- For which reference values of internal/manifest/referencevalues.go the validation finds only expected
-- errors.
use contrast.Prelude.{
  Bytes, Option, none, some, Bool, true, false, not, ◌&&◌, ℕ, ◌+◌, List, [], ◌∷◌, String, ◌≡◌, refl,
  sym, ap, ◌∙◌, arith, Bool-cases, inl, inr, is_some, codes, bytes_equal, ◌||◌,
}
use contrast.Manifest.Hex.{is_hex_string}
use contrast.Manifest.Validation.{
  Faults, Location, nil, cons, plain, expected_missing, at, item, append, join,
  new_validation_error, as_validation, first_validation, only_expected, flatten_all, first_of_two,
  as_missing,
}
use contrast.Manifest.Values.{
  SnpTcb, SnpReferenceValues, TdxReferenceValues, names_insecure, hex_at, hex_items, tcb_faults,
  product_faults, measurement_faults, apeip_faults, snp_faults, validate_snp, tdx_faults,
  validate_tdx, is_true, expected_only,
}

abbrev Unexpected : Faults → Type 0
Unexpected fs = is_true (first_validation fs) ≡ false

first_of_unexpected :
    (a b : Option Bool) → is_true a ≡ false → is_true b ≡ false → is_true (first_of_two a b) ≡ false
first_of_unexpected none b p q = q
first_of_unexpected (some x) b p q = p

first_of_two_assoc :
    (a b c : Option Bool) → first_of_two (first_of_two a b) c ≡ first_of_two a (first_of_two b c)
first_of_two_assoc none b c = refl
first_of_two_assoc (some x) b c = refl

first_validation-append :
    (fs gs : Faults)
    → first_validation (append fs gs) ≡ first_of_two (first_validation fs) (first_validation gs)
unfolding first_validation
first_validation-append nil gs = refl
first_validation-append (cons f fs) gs =
    rw (first_validation-append fs gs)
      (sym (first_of_two_assoc (as_validation f) (first_validation fs) (first_validation gs)))

append-Unexpected : (fs gs : Faults) → Unexpected fs → Unexpected gs → Unexpected (append fs gs)
append-Unexpected fs gs p q =
    rw (first_validation-append fs gs)
      (first_of_unexpected (first_validation fs) (first_validation gs) p q)

hex_at-Unexpected : (l : Location) (s : Bytes) (n : ℕ) → Unexpected (hex_at l plain s n)
unfolding hex_at new_validation_error flatten_all first_validation as_validation only_expected
    as_missing
hex_at-Unexpected l s n = elim (Bool-cases (is_hex_string s n)) [
  | inl good ↦ rw good refl
  | inr bad ↦ rw bad refl
]

hex_items-Unexpected :
    (name : String) (i : ℕ) (l : List Bytes) (n : ℕ) → Unexpected (hex_items name i l n)
unfolding hex_items
hex_items-Unexpected name i [] n = unfold first_validation in refl
hex_items-Unexpected name i (s ∷ l) n =
    append-Unexpected (hex_at (item name i) plain s n) (hex_items name (i + 1) l n)
      (hex_at-Unexpected (item name i) s n) (hex_items-Unexpected name (i + 1) l n)

product-Unexpected : (name : Bytes) → Unexpected (product_faults name)
unfolding new_validation_error flatten_all first_validation as_validation only_expected as_missing
product-Unexpected name =
    elim (Bool-cases (bytes_equal name (codes "Milan") || bytes_equal name (codes "Genoa"))) [
      | inl good ↦ rw good refl
      | inr bad ↦ rw bad refl
    ]

measurement-Unexpected : (s : Bytes) → Unexpected (measurement_faults s)
measurement-Unexpected [] =
    unfold new_validation_error flatten_all first_validation as_validation only_expected
      as_missing in
    refl
measurement-Unexpected (c ∷ s) = hex_at-Unexpected (at "TrustedMeasurement") (c ∷ s) 48

apeip-Unexpected : (s : Bytes) → Unexpected (apeip_faults s)
apeip-Unexpected [] = unfold first_validation in refl
apeip-Unexpected (c ∷ s) = hex_at-Unexpected (at "APEIP") (c ∷ s) 4

is_true-join : (fs : Faults) → expected_only (join fs) ≡ is_true (first_validation fs)
unfolding expected_only as_validation
is_true-join nil = refl
is_true-join (cons f fs) = refl

-- All four versions are filled in.
abbrev pub is_complete : SnpTcb → Bool
is_complete tcb =
    is_some tcb.bootloader_version
    && is_some tcb.tee_version
    && is_some tcb.snp_version
    && is_some tcb.microcode_version

abbrev missing_or_none : Bool → Option Bool
missing_or_none true = none
missing_or_none false = some true

tcb_first : (tcb : SnpTcb) → first_validation (tcb_faults tcb) ≡ missing_or_none (is_complete tcb)
unfolding new_validation_error flatten_all first_validation as_validation only_expected as_missing
tcb_first tcb = ground arith

hex_first :
    (l : Location) (s : Bytes) (n : ℕ)
    → first_validation (hex_at l expected_missing s n) ≡ missing_or_none (is_hex_string s n)
unfolding hex_at new_validation_error flatten_all first_validation as_validation only_expected
    as_missing
hex_first l s n = ground arith

abbrev rest_of_snp : SnpReferenceValues → Faults
rest_of_snp v = append (product_faults v.product_name) (
    append (measurement_faults v.trusted_measurement)
      (append (apeip_faults v.apeip) (hex_items "AllowedChipIDs" 0 v.allowed_chip_ids 64)))

rest_of_snp-Unexpected : (v : SnpReferenceValues) → Unexpected (rest_of_snp v)
rest_of_snp-Unexpected v =
    append-Unexpected (product_faults v.product_name) _ (product-Unexpected v.product_name) (
      append-Unexpected (measurement_faults v.trusted_measurement) _
        (measurement-Unexpected v.trusted_measurement)
        (append-Unexpected (apeip_faults v.apeip) _ (apeip-Unexpected v.apeip)
          (hex_items-Unexpected "AllowedChipIDs" 0 v.allowed_chip_ids 64)))

missing_first :
    (b : Bool) (o : Option Bool)
    → is_true o ≡ false
    → is_true (first_of_two (missing_or_none b) o) ≡ not b
missing_first true o h = h
missing_first false o h = refl

-- The validation of an SNP reference value finds only the expected errors exactly if it is not of an
-- insecure platform and one of the four versions of its minimum TCB is not filled in.
pub validate_snp-expected_only :
    (v : SnpReferenceValues)
    → expected_only (validate_snp v)
      ≡ (not (names_insecure v.platform) && not (is_complete v.minimum_tcb))
unfolding validate_snp
validate_snp-expected_only v = elim (Bool-cases (names_insecure v.platform)) [
  | inl insecure ↦ rw insecure (unfold expected_only in refl)
  | inr secure ↦ rw secure (
      is_true-join (snp_faults v)
      ∙ ap is_true (first_validation-append (tcb_faults v.minimum_tcb) (rest_of_snp v))
      ∙ ap (λ o. is_true (first_of_two o (first_validation (rest_of_snp v))))
          (tcb_first v.minimum_tcb)
      ∙ missing_first (is_complete v.minimum_tcb) (first_validation (rest_of_snp v))
          (rest_of_snp-Unexpected v))
]

plain_first :
    (l : Location) (s : Bytes) (n : ℕ) (o : Option Bool)
    → is_true (first_of_two (first_validation (hex_at l plain s n)) o)
      ≡ (is_hex_string s n && is_true o)
unfolding hex_at new_validation_error flatten_all first_validation as_validation only_expected
    as_missing
plain_first l s n o = ground arith

abbrev rest_of_tdx : TdxReferenceValues → Faults
rest_of_tdx v = append (hex_at (at "Xfam") plain v.xfam 8) (
    append (hex_at (item "RTMR" 1) plain v.rtmr0 48) (
      append (hex_at (item "RTMR" 2) plain v.rtmr1 48) (
        append (hex_at (item "RTMR" 3) plain v.rtmr2 48)
          (hex_at (item "RTMR" 4) plain v.rtmr3 48))))

rest_of_tdx-Unexpected : (v : TdxReferenceValues) → Unexpected (rest_of_tdx v)
rest_of_tdx-Unexpected v =
    append-Unexpected (hex_at (at "Xfam") plain v.xfam 8) _ (hex_at-Unexpected (at "Xfam") v.xfam 8)
      (append-Unexpected (hex_at (item "RTMR" 1) plain v.rtmr0 48) _
        (hex_at-Unexpected (item "RTMR" 1) v.rtmr0 48)
        (append-Unexpected (hex_at (item "RTMR" 2) plain v.rtmr1 48) _
          (hex_at-Unexpected (item "RTMR" 2) v.rtmr1 48)
          (append-Unexpected (hex_at (item "RTMR" 3) plain v.rtmr2 48) _
            (hex_at-Unexpected (item "RTMR" 3) v.rtmr2 48)
            (hex_at-Unexpected (item "RTMR" 4) v.rtmr3 48))))

-- The validation of a TDX reference value finds only the expected errors exactly if it is not of an
-- insecure platform, its MrTd is well formed and its MrSeam is not.
pub validate_tdx-expected_only :
    (v : TdxReferenceValues)
    → expected_only (validate_tdx v) ≡ (
        not (names_insecure v.platform)
        && is_hex_string v.mr_td 48
        && not (is_hex_string v.mr_seam 48))
unfolding validate_tdx
validate_tdx-expected_only v = elim (Bool-cases (names_insecure v.platform)) [
  | inl insecure ↦ rw insecure (unfold expected_only in refl)
  | inr secure ↦
      let seam = hex_at (at "MrSeam") expected_missing v.mr_seam 48 in
      rw secure (
        is_true-join (tdx_faults v)
        ∙ ap is_true (
            first_validation-append (hex_at (at "MrTd") plain v.mr_td 48)
              (append seam (rest_of_tdx v)))
        ∙ plain_first (at "MrTd") v.mr_td 48 (first_validation (append seam (rest_of_tdx v)))
        ∙ ap (λ o. is_hex_string v.mr_td 48 && is_true o)
            (first_validation-append seam (rest_of_tdx v))
        ∙ ap
            (λ o.
              is_hex_string v.mr_td 48
              && is_true (first_of_two o (first_validation (rest_of_tdx v))))
            (hex_first (at "MrSeam") v.mr_seam 48)
        ∙ ap (λ b. is_hex_string v.mr_td 48 && b)
            (missing_first (is_hex_string v.mr_seam 48) (first_validation (rest_of_tdx v))
              (rest_of_tdx-Unexpected v)))
]
