-- ===== src/Manifest/Values.antt =====
-- internal/manifest/referencevalues.go: the reference values and their validation.
pub mod Purge
pub mod Purged
use contrast.Prelude.{
  Bytes, codes, bytes_equal, Result, ok, err, Option, none, some, Bool, true, false, ◌||◌, ℕ, ◌+◌,
  List, [], ◌∷◌, if◌then◌else◌, length, ◌==◌, String,
}
use contrast.Platforms.{Platform, from_string, is_insecure}
use contrast.Manifest.Hex.{is_hex_string}
use contrast.Manifest.Validation.{
  Fault, Faults, Location, nil, cons, plain, expected_missing, at, item, append, faults_of, join,
  new_validation_error, as_validation,
}

-- SNPTCB; an SVN is a byte, and a missing one is nil.
pub record SnpTcb : Type 0 where
  pub bootloader_version : Option ℕ
  pub tee_version : Option ℕ
  pub snp_version : Option ℕ
  pub microcode_version : Option ℕ

-- The policy and the platform info of go-sev-guest are numbers here.
pub record SnpReferenceValues : Type 0 where
  pub platform : Bytes
  pub product_name : Bytes
  pub trusted_measurement : Bytes
  pub apeip : Bytes
  pub minimum_tcb : SnpTcb
  pub guest_policy : ℕ
  pub platform_info : ℕ
  pub minimum_mitigation_vector : ℕ
  pub allowed_chip_ids : List Bytes

pub record TdxReferenceValues : Type 0 where
  pub platform : Bytes
  pub min_tcb_evaluation_data_number : ℕ
  pub mr_td : Bytes
  pub mr_seam : Bytes
  pub rtmr0 : Bytes
  pub rtmr1 : Bytes
  pub rtmr2 : Bytes
  pub rtmr3 : Bytes
  pub xfam : Bytes
  pub allowed_piids : List Bytes
  pub memory_integrity : Bool
  pub smt_disabled : Bool
  pub static_platform : Bool

pub record ReferenceValues : Type 0 where
  pub snp : List SnpReferenceValues
  pub tdx : List TdxReferenceValues

-- platforms.FromString(v.Platform) succeeds with an insecure platform
abbrev pub insecure_of : Result Platform → Bool
insecure_of (err e) = false
insecure_of (ok p) = is_insecure p

unfoldable pub names_insecure : Bytes → Bool
names_insecure name = insecure_of (from_string name)

-- The errors of a field, if it is not filled in and if it is no hex string of so many bytes.
abbrev pub missing_at : String → Option ℕ → Faults
missing_at name (some v) = nil
missing_at name none = faults_of (new_validation_error (at name) (cons expected_missing nil))

unfoldable pub hex_at : Location → Fault → Bytes → ℕ → Faults
hex_at location fault s n =
    if is_hex_string s n then nil else faults_of (new_validation_error location (cons fault nil))

unfoldable pub hex_items : String → ℕ → List Bytes → ℕ → Faults
hex_items name i [] n = nil
hex_items name i (s ∷ l) n = append (hex_at (item name i) plain s n) (hex_items name (i + 1) l n)

abbrev pub tcb_faults : SnpTcb → Faults
tcb_faults tcb = faults_of (
    new_validation_error (at "MinimumTCB") (
      append (missing_at "BootloaderVersion" tcb.bootloader_version) (
        append (missing_at "TEEVersion" tcb.tee_version) (
          append (missing_at "SNPVersion" tcb.snp_version)
            (missing_at "MicrocodeVersion" tcb.microcode_version)))))

abbrev pub product_faults : Bytes → Faults
product_faults name =
    if bytes_equal name (codes "Milan") || bytes_equal name (codes "Genoa")
    then nil
    else faults_of (new_validation_error (at "ProductName") (cons plain nil))

abbrev pub measurement_faults : Bytes → Faults
measurement_faults [] = faults_of (new_validation_error (at "TrustedMeasurement") (cons plain nil))
measurement_faults (c ∷ s) = hex_at (at "TrustedMeasurement") plain (c ∷ s) 48

abbrev pub apeip_faults : Bytes → Faults
apeip_faults [] = nil
apeip_faults (c ∷ s) = hex_at (at "APEIP") plain (c ∷ s) 4

abbrev pub snp_faults : SnpReferenceValues → Faults
snp_faults v = append (tcb_faults v.minimum_tcb) (
    append (product_faults v.product_name) (
      append (measurement_faults v.trusted_measurement)
        (append (apeip_faults v.apeip) (hex_items "AllowedChipIDs" 0 v.allowed_chip_ids 64))))

-- SNPReferenceValues.Validate; abi.MeasurementSize is 48, and abi.ChipIDSize is 64.
unfoldable pub validate_snp : SnpReferenceValues → Option Fault
validate_snp v = if names_insecure v.platform then none else join (snp_faults v)

abbrev pub tdx_faults : TdxReferenceValues → Faults
tdx_faults v = append (hex_at (at "MrTd") plain v.mr_td 48) (
    append (hex_at (at "MrSeam") expected_missing v.mr_seam 48) (
      append (hex_at (at "Xfam") plain v.xfam 8) (
        append (hex_at (item "RTMR" 1) plain v.rtmr0 48) (
          append (hex_at (item "RTMR" 2) plain v.rtmr1 48) (
            append (hex_at (item "RTMR" 3) plain v.rtmr2 48)
              (hex_at (item "RTMR" 4) plain v.rtmr3 48))))))

-- TDXReferenceValues.Validate
unfoldable pub validate_tdx : TdxReferenceValues → Option Fault
validate_tdx v = if names_insecure v.platform then none else join (tdx_faults v)

-- errors.As(err, &ve) && ve.OnlyExpectedMissingReferenceValues(), where err may be nil
abbrev is_true : Option Bool → Bool
is_true none = false
is_true (some b) = b

unfoldable pub expected_only : Option Fault → Bool
expected_only none = false
expected_only (some f) = is_true (as_validation f)

unfoldable pub fault_of : Location → Option Fault → Faults
unfolding expected_only
fault_of location none = nil
fault_of location (some f) =
    if expected_only (some f)
    then cons expected_missing nil
    else faults_of (new_validation_error location (cons f nil))

unfoldable pub snp_list_faults : ℕ → List SnpReferenceValues → Faults
snp_list_faults i [] = nil
snp_list_faults i (v ∷ l) =
    append (fault_of (item "snp" i) (validate_snp v)) (snp_list_faults (i + 1) l)

unfoldable pub tdx_list_faults : ℕ → List TdxReferenceValues → Faults
tdx_list_faults i [] = nil
tdx_list_faults i (v ∷ l) =
    append (fault_of (item "tdx" i) (validate_tdx v)) (tdx_list_faults (i + 1) l)

abbrev empty_faults : ReferenceValues → Faults
empty_faults r = if length r.snp + length r.tdx == 0 then cons plain nil else nil

-- ReferenceValues.Validate
unfoldable pub validate : ReferenceValues → Option Fault
unfolding snp_list_faults tdx_list_faults
validate r =
    join (append (snp_list_faults 0 r.snp) (append (tdx_list_faults 0 r.tdx) (empty_faults r)))

-- The loops of PurgeEmpty.
unfoldable pub purge_snp : List SnpReferenceValues → List SnpReferenceValues
purge_snp [] = []
purge_snp (v ∷ l) =
    let rest = purge_snp l in if expected_only (validate_snp v) then rest else v ∷ rest

unfoldable pub purge_tdx : List TdxReferenceValues → List TdxReferenceValues
purge_tdx [] = []
purge_tdx (v ∷ l) =
    let rest = purge_tdx l in if expected_only (validate_tdx v) then rest else v ∷ rest

-- PurgeEmpty
unfoldable pub purge_empty : ReferenceValues → ReferenceValues
unfolding purge_snp purge_tdx
purge_empty r = record { snp = purge_snp r.snp; tdx = purge_tdx r.tdx }
