-- ===== src/Manifest/Values/Purged.antt =====
-- PurgeEmpty of internal/manifest/referencevalues.go: what it keeps.
use contrast.Prelude.{
  Bool, not, ◌||◌, List, [], ◌∷◌, filter, Result, ok, err, Bytes, ◌≡◌, refl, ◌∙◌, arith,
}
use contrast.Platforms.{Platform, from_string}
use contrast.Platforms.Names.{is_insecure_name, is_insecure_result, from_string-is_insecure}
use contrast.Manifest.Hex.{is_hex_string}
use contrast.Manifest.Values.{
  SnpReferenceValues, TdxReferenceValues, ReferenceValues, names_insecure, insecure_of,
  expected_only, validate_snp, validate_tdx, purge_snp, purge_tdx, purge_empty,
}
use contrast.Manifest.Values.Purge.{
  is_complete, validate_snp-expected_only, validate_tdx-expected_only,
}

-- A value of an insecure platform, or with all four versions of its minimum TCB.
abbrev pub is_kept_snp : SnpReferenceValues → Bool
is_kept_snp v = is_insecure_name v.platform || is_complete v.minimum_tcb

-- A value of an insecure platform, or with a malformed MrTd, or with a well-formed MrSeam.
abbrev pub is_kept_tdx : TdxReferenceValues → Bool
is_kept_tdx v =
    is_insecure_name v.platform || (not (is_hex_string v.mr_td 48) || is_hex_string v.mr_seam 48)

names_insecure_lem : (name : Bytes) → names_insecure name ≡ is_insecure_name name
unfolding names_insecure
names_insecure_lem name = by (from_string name) ∙ from_string-is_insecure name
  where
    by : (r : Result Platform) → insecure_of r ≡ is_insecure_result r
    by (ok p) = refl
    by (err e) = refl

kept_snp : (v : SnpReferenceValues) → not (expected_only (validate_snp v)) ≡ is_kept_snp v
kept_snp v = ground (arith, validate_snp-expected_only v, names_insecure_lem v.platform)

kept_tdx : (v : TdxReferenceValues) → not (expected_only (validate_tdx v)) ≡ is_kept_tdx v
kept_tdx v = ground (arith, validate_tdx-expected_only v, names_insecure_lem v.platform)

purge_snp-filter : (l : List SnpReferenceValues) → purge_snp l ≡ filter is_kept_snp l
unfolding purge_snp
purge_snp-filter [] = refl
purge_snp-filter (v ∷ l) = ground (arith, kept_snp v, purge_snp-filter l)

purge_tdx-filter : (l : List TdxReferenceValues) → purge_tdx l ≡ filter is_kept_tdx l
unfolding purge_tdx
purge_tdx-filter [] = refl
purge_tdx-filter (v ∷ l) = ground (arith, kept_tdx v, purge_tdx-filter l)

-- PurgeEmpty keeps, in their order, exactly the SNP reference values that name an insecure platform
-- or have all four versions of their minimum TCB filled in, whatever else is wrong with them.
pub purge_empty-snp : (r : ReferenceValues) → (purge_empty r).snp ≡ filter is_kept_snp r.snp
unfolding purge_empty
purge_empty-snp r = purge_snp-filter r.snp

-- PurgeEmpty keeps, in their order, exactly the TDX reference values that name an insecure platform,
-- or have a malformed MrTd or a well-formed MrSeam, whatever else is wrong with them.
pub purge_empty-tdx : (r : ReferenceValues) → (purge_empty r).tdx ≡ filter is_kept_tdx r.tdx
unfolding purge_empty
purge_empty-tdx r = purge_tdx-filter r.tdx
