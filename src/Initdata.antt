-- ===== src/Initdata.antt =====
-- internal/initdata/initdata.go: the document with which a pod VM is started. TOML, gzip, base64 and
-- the hash functions are parameters, and a device is its content.
pub mod Devices
use contrast.Prelude.Endian.{uint}
use contrast.Prelude.{
  Bytes, codes, bytes_equal, Map, Result, ok, err, other, some_or, guard, ◌>>=◌, Option, none, some,
  Bool, ℕ, ◌+◌, List, [], ◌∷◌, length, take, drop, leb, ◌==◌, if◌then◌else◌,
}

pub record Initdata : Type 0 where
  pub version : Bytes
  pub algorithm : Bytes
  pub contents : Map Bytes

-- crypto/sha256, crypto/sha512, encoding/base64, compress/gzip and go-toml
pub record Codecs : Type 0 where
  pub sha256 : Bytes → Bytes
  pub sha384 : Bytes → Bytes
  pub sha512 : Bytes → Bytes
  pub to_base64 : Bytes → Bytes
  pub from_base64 : Bytes → Option Bytes
  pub gzip : Bytes → Option Bytes
  pub gunzip : Bytes → Option Bytes
  pub marshal : Initdata → Option Bytes
  pub unmarshal : Bytes → Option Initdata

abbrev pub initdata_version : Bytes
initdata_version = codes "0.1.0"

-- strings.Replace(s, "-", "", 1)
unfoldable pub remove_dash : Bytes → Bytes
remove_dash [] = []
remove_dash (c ∷ s) = let rest = remove_dash s in if c == b'-' then s else c ∷ rest

-- The `128 * 1024 * 1024 * 1024` bytes of FromDevice.
abbrev pub max_size : ℕ
max_size = 137_438_953_472

-- f.ReadAt into a buffer of a length: the bytes from an offset on, if there are so many.
unfoldable pub read_at : ℕ → ℕ → Bytes → Result Bytes
read_at offset n device =
    if leb (offset + n) (length device) then ok (take n (drop offset device)) else err (other 0)

module _ (codecs : Codecs) where
  -- hashAlgorithms
  unfoldable pub hash_algorithms : Bytes → Option (Bytes → Bytes)
  hash_algorithms name =
      if bytes_equal name (codes "sha256")
      then some codecs.sha256
      else if bytes_equal name (codes "sha384")
      then some codecs.sha384
      else if bytes_equal name (codes "sha512")
      then some codecs.sha512
      else none

  -- Initdata.Validate
  unfoldable pub validate : Initdata → Result (Unit {0})
  unfolding hash_algorithms
  validate i = do
    _ ← guard (bytes_equal i.version initdata_version) (other 1)
    _ ← some_or (hash_algorithms i.algorithm)
    ok tt

  -- New
  unfoldable pub new : Bytes → Map Bytes → Result Initdata
  unfolding validate
  new algorithm contents = do
    let i : Initdata = record {
      version = initdata_version;
      algorithm = algorithm;
      contents = contents;
    }
    _ ← validate i
    ok i

  -- Initdata.Encode
  unfoldable pub encode : Initdata → Result Bytes
  unfolding validate
  encode i = do _ ← validate i; some_or (codecs.marshal i)

  abbrev pub canonical : Initdata → Initdata
  canonical i = record i { algorithm = remove_dash i.algorithm }

  -- Raw.Parse
  unfoldable pub parse : Bytes → Result Initdata
  unfolding validate remove_dash
  parse raw = do i ← some_or (codecs.unmarshal raw); _ ← validate (canonical i); ok (canonical i)

  -- Raw.Digest
  unfoldable pub digest : Bytes → Result Bytes
  unfolding parse
  digest raw = do i ← parse raw; hash ← some_or (hash_algorithms i.algorithm); ok (hash raw)

  -- Raw.EncodeKataAnnotation
  unfoldable pub encode_kata_annotation : Bytes → Result Bytes
  encode_kata_annotation raw = do
    compressed ← some_or (codecs.gzip raw)
    ok (codecs.to_base64 compressed)

  -- DecodeKataAnnotation
  unfoldable pub decode_kata_annotation : Bytes → Result Bytes
  decode_kata_annotation annotation = do
    decoded ← some_or (codecs.from_base64 annotation)
    some_or (codecs.gunzip decoded)

  -- FromDevice
  unfoldable pub from_device : Bytes → Bytes → Result Bytes
  unfolding read_at uint
  from_device device magic = do
    _ ← guard (length magic == 8) (other 2)
    start ← read_at 0 8 device
    _ ← guard (bytes_equal start magic) (other 3)
    size ← read_at 8 8 device
    _ ← guard (leb (uint size) max_size) (other 4)
    compressed ← read_at 16 (uint size) device
    some_or (codecs.gunzip compressed)
