-- ===== src/Tests/Documents.antt =====
-- A document for a pod VM, at a concrete input.
use contrast.Prelude.{
  Bytes, codes, Map, ok, Option, none, some, [], ◌∷◌, ◌++◌, ◌>>=◌, ◌≡◌, refl, sym, ap, ◌∙◌, arith,
  length, take, drop, take-append, drop-append, replicate,
}
use contrast.Initdata
use contrast.Initdata.{
  Initdata, Codecs, encode, parse, digest, hash_algorithms, from_device, encode_kata_annotation,
  decode_kata_annotation,
}
use contrast.Initdata.Devices.{CodecsLaws, device_of, from_device-encode}

-- The version and the algorithm; contents are not written.
abbrev written : Bytes → Bytes → Map Bytes → Option Bytes
written version algorithm [] = some (length version ∷ (version ++ algorithm))
written version algorithm (c ∷ contents) = none

abbrev read : Bytes → Option Initdata
read [] = none
read (n ∷ b) = some (record { version = take n b; algorithm = drop n b; contents = [] })

abbrev codecs : Codecs
codecs = record {
  sha256 = λ b. take 32 b;
  sha384 = λ b. take 48 b;
  sha512 = λ b. take 64 b;
  to_base64 = λ b. b;
  from_base64 = λ b. some b;
  gzip = λ b. some b;
  gunzip = λ b. some b;
  marshal = λ i. written i.version i.algorithm i.contents;
  unmarshal = read;
}

read-written :
    (version algorithm : Bytes) (contents : Map Bytes) (raw : Bytes)
    → written version algorithm contents ≡ some raw
    → read raw ≡ some (record { version = version; algorithm = algorithm; contents = contents })
read-written version algorithm [] raw e =
    let same : length version ∷ (version ++ algorithm) ≡ raw = cc in
    ap read (sym same)
    ∙ rw
        (
          take-append version algorithm (length version) refl,
          drop-append version algorithm (length version) refl,
        )
        refl
read-written version algorithm (c ∷ contents) raw e = cc

codecs-CodecsLaws : CodecsLaws codecs
codecs-CodecsLaws = record {
  unmarshal-marshal = λ i raw e. read-written i.version i.algorithm i.contents raw e;
  gunzip-gzip = λ raw compressed e. sym e;
  from-to_base64 = λ b. refl;
}

abbrev document : Initdata
document = record { version = codes "0.1.0"; algorithm = codes "sha384"; contents = [] }

abbrev raw : Bytes
raw = 5 ∷ codes "0.1.0sha384"

abbrev magic : Bytes
magic = codes "initdata"

encoded : encode codecs document ≡ ok raw
unfolding Initdata.validate hash_algorithms encode
encoded = refl

from_device-encode_example :
    (from_device codecs (device_of magic raw (replicate 4 0)) magic ≡ ok raw)
    × ((encode_kata_annotation codecs raw >>= decode_kata_annotation codecs) ≡ ok raw)
    × (parse codecs raw ≡ ok document)
    × ((hash : Bytes → Bytes) × (hash_algorithms codecs (codes "sha384") ≡ some hash)
        × (digest codecs raw ≡ ok (hash raw)))
from_device-encode_example =
    from_device-encode codecs codecs-CodecsLaws document raw raw magic (replicate 4 0) encoded refl
      refl (omega arith)
