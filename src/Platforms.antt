-- ===== src/Platforms.antt =====
-- internal/platforms/platforms.go. Texts are the lists of their bytes.
pub mod Names
use contrast.Prelude.{
  Bytes, codes, bytes_equal, leb, if◌then◌else◌, Result, ok, err, other, Bool, true, false, ◌&&◌, ℕ,
  ◌+◌, List, [], ◌∷◌, map, ◌==◌, ◌≡◌, ◌≢◌, refl, ◌⊎◌, inl, inr, arith,
}

pub data Platform : Type 0 where
  unknown metal_qemu_snp metal_qemu_tdx metal_qemu_snp_gpu metal_qemu_tdx_gpu : Platform
  metal_qemu_insecure metal_qemu_insecure_gpu : Platform

-- All
unfoldable pub all : List Platform
all =
    metal_qemu_snp ∷ metal_qemu_tdx ∷ metal_qemu_snp_gpu ∷ metal_qemu_tdx_gpu ∷ metal_qemu_insecure
    ∷ metal_qemu_insecure_gpu ∷ []

-- Platform.String
abbrev pub to_string : Platform → Bytes
to_string metal_qemu_snp = codes "Metal-QEMU-SNP"
to_string metal_qemu_snp_gpu = codes "Metal-QEMU-SNP-GPU"
to_string metal_qemu_tdx = codes "Metal-QEMU-TDX"
to_string metal_qemu_tdx_gpu = codes "Metal-QEMU-TDX-GPU"
to_string metal_qemu_insecure = codes "Metal-QEMU-Insecure"
to_string metal_qemu_insecure_gpu = codes "Metal-QEMU-Insecure-GPU"
to_string unknown = codes "Unknown"

-- Platform.InsecureVariant
unfoldable pub insecure_variant : Platform → Platform
insecure_variant metal_qemu_snp = metal_qemu_insecure
insecure_variant metal_qemu_tdx = metal_qemu_insecure
insecure_variant metal_qemu_snp_gpu = metal_qemu_insecure_gpu
insecure_variant metal_qemu_tdx_gpu = metal_qemu_insecure_gpu
insecure_variant _ = unknown

-- strings.ToLower, on ASCII
abbrev pub to_lower : ℕ → ℕ
to_lower c = if leb b'A' c && leb c b'Z' then c + 32 else c

abbrev from_lower : Bytes → Result Platform
from_lower s =
    if bytes_equal s (codes "metal-qemu-snp")
    then ok metal_qemu_snp
    else if bytes_equal s (codes "metal-qemu-snp-gpu")
    then ok metal_qemu_snp_gpu
    else if bytes_equal s (codes "metal-qemu-tdx")
    then ok metal_qemu_tdx
    else if bytes_equal s (codes "metal-qemu-tdx-gpu")
    then ok metal_qemu_tdx_gpu
    else if bytes_equal s (codes "metal-qemu-insecure")
    then ok metal_qemu_insecure
    else if bytes_equal s (codes "metal-qemu-insecure-gpu")
    then ok metal_qemu_insecure_gpu
    else err (other 0)

-- FromString
unfoldable pub from_string : Bytes → Result Platform
from_string s = from_lower (map to_lower s)

-- FromStringOrEmpty
unfoldable pub from_string_or_empty : Bytes → Result Platform
from_string_or_empty [] = ok unknown
from_string_or_empty (c ∷ s) = from_string (c ∷ s)

-- strings.HasPrefix
abbrev pub has_prefix : Bytes → Bytes → Bool
has_prefix s [] = true
has_prefix [] (p ∷ ps) = false
has_prefix (c ∷ s) (p ∷ ps) = c == p && has_prefix s ps

abbrev from_lower_class : Bytes → Result Platform
from_lower_class s =
    if has_prefix s (codes "contrast-cc-metal-qemu-snp-gpu")
    then ok metal_qemu_snp_gpu
    else if has_prefix s (codes "contrast-cc-metal-qemu-snp")
    then ok metal_qemu_snp
    else if has_prefix s (codes "contrast-cc-metal-qemu-tdx-gpu")
    then ok metal_qemu_tdx_gpu
    else if has_prefix s (codes "contrast-cc-metal-qemu-tdx")
    then ok metal_qemu_tdx
    else if has_prefix s (codes "contrast-insecure-metal-qemu-gpu")
    then ok metal_qemu_insecure_gpu
    else if has_prefix s (codes "contrast-insecure-metal-qemu")
    then ok metal_qemu_insecure
    else err (other 0)

-- FromRuntimeClassString
unfoldable pub from_runtime_class_string : Bytes → Result Platform
from_runtime_class_string s = from_lower_class (map to_lower s)

-- DefaultMemoryInMebiBytes
unfoldable pub default_memory : Platform → ℕ
default_memory metal_qemu_snp_gpu = 1024
default_memory metal_qemu_tdx_gpu = 1024
default_memory metal_qemu_insecure_gpu = 1024
default_memory _ = 512

unfoldable pub is_insecure : Platform → Bool
is_insecure metal_qemu_insecure = true
is_insecure metal_qemu_insecure_gpu = true
is_insecure _ = false

unfoldable pub is_snp : Platform → Bool
is_snp metal_qemu_snp = true
is_snp metal_qemu_snp_gpu = true
is_snp _ = false

unfoldable pub is_tdx : Platform → Bool
is_tdx metal_qemu_tdx = true
is_tdx metal_qemu_tdx_gpu = true
is_tdx _ = false

unfoldable pub is_gpu : Platform → Bool
is_gpu metal_qemu_snp_gpu = true
is_gpu metal_qemu_tdx_gpu = true
is_gpu metal_qemu_insecure_gpu = true
is_gpu _ = false

unfoldable pub is_qemu : Platform → Bool
is_qemu unknown = false
is_qemu _ = true

-- Platform.WithGPU
unfoldable pub with_gpu : Platform → Platform
with_gpu metal_qemu_snp = metal_qemu_snp_gpu
with_gpu metal_qemu_snp_gpu = metal_qemu_snp_gpu
with_gpu metal_qemu_tdx = metal_qemu_tdx_gpu
with_gpu metal_qemu_tdx_gpu = metal_qemu_tdx_gpu
with_gpu metal_qemu_insecure = metal_qemu_insecure_gpu
with_gpu metal_qemu_insecure_gpu = metal_qemu_insecure_gpu
with_gpu unknown = unknown
