-- ===== src/Platforms/Names.antt =====
-- internal/platforms/platforms.go: parsing names of platforms and of runtime classes.
use contrast.Prelude.{
  Bytes, codes, bytes_equal, Result, err, Bool, eq_of_bytes_equal, ok, true, false, [], map, ◌++◌,
  ◌≡◌, ◌≢◌, ◌↔◌, ◌&&◌, ◌||◌, refl, arith,
}
use contrast.Platforms.{
  Platform, unknown, metal_qemu_snp, metal_qemu_tdx, metal_qemu_snp_gpu, metal_qemu_tdx_gpu,
  metal_qemu_insecure, metal_qemu_insecure_gpu, to_string, to_lower, from_lower, from_string,
  has_prefix, from_runtime_class_string, is_insecure, is_snp, is_tdx, is_gpu, with_gpu,
  insecure_variant,
}

names_iff : (t : Bytes) (p : Platform) → from_lower t ≡ ok p → t ≡ map to_lower (to_string p)
names_iff t p e = ground (
  arith,
  eq_of_bytes_equal t (codes "metal-qemu-snp"),
  eq_of_bytes_equal t (codes "metal-qemu-snp-gpu"),
  eq_of_bytes_equal t (codes "metal-qemu-tdx"),
  eq_of_bytes_equal t (codes "metal-qemu-tdx-gpu"),
  eq_of_bytes_equal t (codes "metal-qemu-insecure"),
  eq_of_bytes_equal t (codes "metal-qemu-insecure-gpu"),
)

names_back :
    (t : Bytes) (p : Platform) → p ≢ unknown → t ≡ map to_lower (to_string p) → from_lower t ≡ ok p
names_back t unknown ne e = absurd (ne refl)
names_back t metal_qemu_snp ne e = rw e
names_back t _ ne e = rw e

-- A platform is read from a text exactly when the text is its name, in any case.
pub from_string_iff :
    (s : Bytes) (p : Platform)
    → p ≢ unknown
    → (from_string s ≡ ok p) ↔ (map to_lower s ≡ map to_lower (to_string p))
unfolding from_string
from_string_iff s p ne = (names_iff (map to_lower s) p, names_back (map to_lower s) p ne)

-- The prefix of the runtime classes and handlers of a platform.
abbrev pub class_prefix : Platform → Bytes
class_prefix metal_qemu_snp = codes "contrast-cc-metal-qemu-snp-"
class_prefix metal_qemu_snp_gpu = codes "contrast-cc-metal-qemu-snp-gpu-"
class_prefix metal_qemu_tdx = codes "contrast-cc-metal-qemu-tdx-"
class_prefix metal_qemu_tdx_gpu = codes "contrast-cc-metal-qemu-tdx-gpu-"
class_prefix metal_qemu_insecure = codes "contrast-insecure-metal-qemu-"
class_prefix metal_qemu_insecure_gpu = codes "contrast-insecure-metal-qemu-gpu-"
class_prefix unknown = []

-- A runtime class is of the platform of its prefix, whatever the hash behind it, if that does not
-- itself begin like the name of a GPU platform.
pub from_runtime_class_string-prefix :
    (p : Platform) (hash : Bytes)
    → p ≢ unknown
    → has_prefix (map to_lower hash) (codes "gpu") ≡ false
    → from_runtime_class_string (class_prefix p ++ hash) ≡ ok p
unfolding from_runtime_class_string
from_runtime_class_string-prefix unknown hash ne h = absurd (ne refl)
from_runtime_class_string-prefix metal_qemu_snp hash ne h = rw h
from_runtime_class_string-prefix metal_qemu_snp_gpu hash ne h = refl
from_runtime_class_string-prefix metal_qemu_tdx hash ne h = rw h
from_runtime_class_string-prefix metal_qemu_tdx_gpu hash ne h = refl
from_runtime_class_string-prefix metal_qemu_insecure hash ne h = rw h
from_runtime_class_string-prefix metal_qemu_insecure_gpu hash ne h = refl

-- Each platform but the unknown one is of exactly one kind. Its GPU version is of the same kind and
-- has a GPU, and its insecure variant, where there is one, is insecure and keeps the GPU.
pub record IsClassified (p : Platform) : Type 0 where
  pub some_kind : (is_insecure p || is_snp p || is_tdx p) ≡ true
  pub one_kind :
      ((is_insecure p && is_snp p) || (is_insecure p && is_tdx p) || (is_snp p && is_tdx p)) ≡ false
  pub gpu_version : is_gpu (with_gpu p) ≡ true
  pub same_insecure : is_insecure (with_gpu p) ≡ is_insecure p
  pub same_snp : is_snp (with_gpu p) ≡ is_snp p
  pub same_tdx : is_tdx (with_gpu p) ≡ is_tdx p
  pub variant :
      is_insecure p ≡ false
      → (is_insecure (insecure_variant p) ≡ true) × (is_gpu (insecure_variant p) ≡ is_gpu p)

-- Every platform but the unknown one is of exactly one of the kinds SNP, TDX and insecure. Its GPU
-- version has a GPU and is of the same kind, and its insecure variant is insecure and has a GPU
-- exactly if it has one.
pub platforms-IsClassified : (p : Platform) → p ≢ unknown → IsClassified p
unfolding is_insecure is_snp is_tdx is_gpu with_gpu insecure_variant
platforms-IsClassified unknown ne = absurd (ne refl)
platforms-IsClassified metal_qemu_insecure ne = ground arith
platforms-IsClassified _ ne = ground arith

-- The names of the insecure platforms, in any case.
abbrev pub is_insecure_name : Bytes → Bool
is_insecure_name s =
    bytes_equal (map to_lower s) (codes "metal-qemu-insecure")
    || bytes_equal (map to_lower s) (codes "metal-qemu-insecure-gpu")

abbrev pub is_insecure_result : Result Platform → Bool
is_insecure_result (ok p) = is_insecure p
is_insecure_result (err e) = false

from_lower-is_insecure :
    (t : Bytes)
    → is_insecure_result (from_lower t) ≡ (
        bytes_equal t (codes "metal-qemu-insecure")
        || bytes_equal t (codes "metal-qemu-insecure-gpu"))
unfolding is_insecure
from_lower-is_insecure t = ground (
  arith,
  eq_of_bytes_equal t (codes "metal-qemu-snp"),
  eq_of_bytes_equal t (codes "metal-qemu-snp-gpu"),
  eq_of_bytes_equal t (codes "metal-qemu-tdx"),
  eq_of_bytes_equal t (codes "metal-qemu-tdx-gpu"),
  eq_of_bytes_equal t (codes "metal-qemu-insecure"),
  eq_of_bytes_equal t (codes "metal-qemu-insecure-gpu"),
)

-- A text that is read as a platform is read as an insecure one exactly if it is one of their names.
pub from_string-is_insecure : (s : Bytes) → is_insecure_result (from_string s) ≡ is_insecure_name s
unfolding from_string
from_string-is_insecure s = from_lower-is_insecure (map to_lower s)
