-- ===== src/Tests/Inputs.antt =====
-- Manifests, platforms, keys and certificates, at concrete inputs.
use contrast.Prelude.{
  Bytes, codes, ok, err, index_out_of_range, any, none, some, true, false, [], ◌∷◌, ◌≡◌, ◌↔◌, ◌≢◌,
  filter, refl, replicate,
}
use contrast.History.Encoding
use contrast.History.Encoding.{hex_encode}
use contrast.Ca.{is_dns, new_attested_mesh_cert, new_attested_mesh_cert_panics_iff}
use contrast.Manifest
use contrast.Manifest.{Manifest}
use contrast.Manifest.Hex.{hex_decode}
use contrast.Manifest.Validation.{
  Faults, nil, cons, plain, only_expected, all_expected_list, is_flat_list, only_expected_lem,
}
use contrast.Manifest.Values.{SnpReferenceValues, TdxReferenceValues, ReferenceValues, purge_empty}
use contrast.Manifest.Values.Purged.{is_kept_snp, is_kept_tdx, purge_empty-snp, purge_empty-tdx}
use contrast.UserApi
use contrast.UserApi.{
  SetManifestRequest, check_manifest_security, validate_signature, signed_hash, signature_of,
}
use contrast.UserApi.Access.{IsSigned, transition_text, validate_signature_ok}
use contrast.UserApi.Security.{platform_names, is_acceptable, check_manifest_security_iff}
use contrast.Tests.Toys.{toy_ca, toy_crypto, toy_x509, toy_manifest}

new_attested_mesh_cert_panics_iff_example :
    (new_attested_mesh_cert toy_x509 toy_crypto 1 toy_ca (codes "::1" ∷ []) [] (6 ∷ [])
      ≡ err index_out_of_range)
    ↔ (any (is_dns toy_x509 toy_crypto) (codes "::1" ∷ []) ≡ false)
new_attested_mesh_cert_panics_iff_example =
    new_attested_mesh_cert_panics_iff toy_x509 toy_crypto 1 toy_ca (codes "::1" ∷ []) [] (6 ∷ [])

abbrev snp_values : SnpReferenceValues
snp_values = record {
  platform = codes "Metal-QEMU-SNP";
  product_name = codes "Milan";
  trusted_measurement = [];
  apeip = [];
  minimum_tcb = record {
    bootloader_version = none;
    tee_version = none;
    snp_version = none;
    microcode_version = none;
  };
  guest_policy = 0;
  platform_info = 0;
  minimum_mitigation_vector = 0;
  allowed_chip_ids = [];
}

-- Without its TCB, which only the insecure one may lack.
abbrev values : ReferenceValues
values = record {
  snp = snp_values ∷ (record snp_values { platform = codes "Metal-QEMU-Insecure" }) ∷ [];
  tdx = [];
}

purge_empty-snp_example : (purge_empty values).snp ≡ filter is_kept_snp values.snp
purge_empty-snp_example = purge_empty-snp values

kept :
    filter is_kept_snp values.snp
    ≡ (record snp_values { platform = codes "Metal-QEMU-Insecure" }) ∷ []
kept = refl

abbrev tdx_values : TdxReferenceValues
tdx_values = record {
  platform = codes "Metal-QEMU-TDX";
  min_tcb_evaluation_data_number = 0;
  mr_td = replicate 96 48;
  mr_seam = [];
  rtmr0 = [];
  rtmr1 = [];
  rtmr2 = [];
  rtmr3 = [];
  xfam = [];
  allowed_piids = [];
  memory_integrity = false;
  smt_disabled = false;
  static_platform = false;
}

purge_empty-tdx_example :
    (purge_empty (record { snp = []; tdx = tdx_values ∷ [] })).tdx
    ≡ filter is_kept_tdx (tdx_values ∷ [])
purge_empty-tdx_example = purge_empty-tdx (record { snp = []; tdx = tdx_values ∷ [] })

abbrev faults : Faults
faults = cons plain nil

flat : is_flat_list faults ≡ true
unfolding is_flat_list
flat = refl

only_expected_lem_example : only_expected faults ≡ all_expected_list faults
only_expected_lem_example = only_expected_lem faults flat

abbrev secure_manifest : Manifest
secure_manifest = record (toy_manifest []) { reference_values = values }

check_manifest_security_iff_example :
    (check_manifest_security false secure_manifest ≡ ok tt)
    ↔ (is_acceptable false (platform_names secure_manifest) ≡ true)
check_manifest_security_iff_example = check_manifest_security_iff false secure_manifest

-- The owner of the key 05 signs the transition to the manifest 2.
abbrev toy_digest : Bytes
toy_digest = signed_hash toy_crypto (replicate 32 0) (2 ∷ [])

abbrev signed_request : SetManifestRequest
signed_request = record {
  manifest = 2 ∷ [];
  policies = [];
  previous_transition_hash = none;
  signature = some (1 ∷ 5 ∷ toy_digest);
}

signed : validate_signature toy_crypto (codes "05" ∷ []) (replicate 32 0) signed_request ≡ ok tt
unfolding validate_signature UserApi.signature_matches signed_hash hex_decode hex_encode
    Manifest.parse_workload_owner_public_key Encoding.digest Encoding.digest_transition
    Encoding.marshal_transition
signed = refl

validate_signature_ok_example :
    (sig : Bytes) × (signed_request.signature ≡ some sig)
    × (sig ≢ [])
    × IsSigned toy_crypto
        (codes "05" ∷ [])
        (toy_crypto.sum256 (transition_text toy_crypto (replicate 32 0) signed_request))
        sig
validate_signature_ok_example =
    validate_signature_ok toy_crypto (codes "05" ∷ []) (replicate 32 0) signed_request signed
