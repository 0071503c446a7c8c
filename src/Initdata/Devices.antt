-- ===== src/Initdata/Devices.antt =====
-- internal/initdata/initdata.go: a document that was encoded is found again by the guest.
use contrast.Prelude.Endian.{append_uint, uint, uint-append_uint, length-append_uint}
use contrast.Prelude.{
  Bytes, codes, bytes_equal, bytes_equal_refl, eq_of_bytes_equal, ok, some_or, some_or-eq-ok, ◌>>=◌,
  >>=-eq-ok, none, some, Bool, true, false, ℕ, ◌+◌, ◌≤◌, [], ◌++◌, length, take-append, drop-append,
  length-append, leb, if◌then◌else◌, guard, other, ◌≡◌, refl, sym, ◌∙◌, ap, subst, arith,
  append_assoc,
}
use contrast.Initdata.{
  Initdata, Codecs, remove_dash, max_size, read_at, hash_algorithms, validate, encode, parse,
  digest, from_device, encode_kata_annotation, decode_kata_annotation,
}

-- Documented behaviour of go-toml, gzip and base64: what was written is read back.
pub record CodecsLaws (codecs : Codecs) : Type 0 where
  pub unmarshal-marshal :
      (i : Initdata) (raw : Bytes) → codecs.marshal i ≡ some raw → codecs.unmarshal raw ≡ some i
  pub gunzip-gzip :
      (raw compressed : Bytes)
      → codecs.gzip raw ≡ some compressed
      → codecs.gunzip compressed ≡ some raw
  pub from-to_base64 : (b : Bytes) → codecs.from_base64 (codecs.to_base64 b) ≡ some b

-- What the Kata runtime prepares: the magic number, a size of eight bytes, the compressed document,
-- and what is left of the device.
abbrev pub device_of : Bytes → Bytes → Bytes → Bytes
device_of magic compressed rest =
    magic ++ (append_uint 8 (length compressed) ++ (compressed ++ rest))

-- The middle of a device.
read_at-append :
    (a b c : Bytes) (offset n : ℕ)
    → length a ≡ offset
    → length b ≡ n
    → read_at offset n (a ++ (b ++ c)) ≡ ok b
unfolding read_at
read_at-append a b c offset n p q =
    let inside : leb (offset + n) (length (a ++ (b ++ c))) ≡ true =
      ground (arith, length-append a (b ++ c), length-append b c) in
    rw (inside, drop-append a (b ++ c) offset p, take-append b c n q) refl

module _ (codecs : Codecs) where
  -- The name of an algorithm has no dash.
  remove_dash-hash_algorithms :
      (name : Bytes) (hash : Bytes → Bytes)
      → hash_algorithms codecs name ≡ some hash
      → remove_dash name ≡ name
  unfolding hash_algorithms remove_dash
  remove_dash-hash_algorithms name hash h =
      by (bytes_equal name (codes "sha256")) (bytes_equal name (codes "sha384"))
        (bytes_equal name (codes "sha512")) (eq_of_bytes_equal name (codes "sha256"))
        (eq_of_bytes_equal name (codes "sha384")) (eq_of_bytes_equal name (codes "sha512")) h
    where
      of_name : (known : Bytes) → remove_dash known ≡ known → name ≡ known → remove_dash name ≡ name
      of_name known e same = subst (λ n. remove_dash n ≡ n) (sym same) e

      by :
          (a b c : Bool)
          → (a ≡ true → name ≡ codes "sha256")
          → (b ≡ true → name ≡ codes "sha384")
          → (c ≡ true → name ≡ codes "sha512")
          → (if a
              then some codecs.sha256
              else if b
              then some codecs.sha384
              else if c
              then some codecs.sha512
              else none)
            ≡ some hash
          → remove_dash name ≡ name
      by true b c p q r h = of_name (codes "sha256") refl (p refl)
      by false true c p q r h = of_name (codes "sha384") refl (q refl)
      by false false true p q r h = of_name (codes "sha512") refl (r refl)
      by false false false p q r h = cc

  -- A document that Encode accepts is parsed as itself, and has the digest that its own algorithm
  -- gives. From the device that is prepared of it, where its size is in range, and from its
  -- annotation, the same document is read.
  pub from_device-encode :
      CodecsLaws codecs
      → (i : Initdata) (raw compressed magic rest : Bytes) → encode codecs i ≡ ok raw
      → codecs.gzip raw ≡ some compressed
      → length magic ≡ 8
      → length compressed ≤ max_size
      → (from_device codecs (device_of magic compressed rest) magic ≡ ok raw)
        × ((encode_kata_annotation codecs raw >>= decode_kata_annotation codecs) ≡ ok raw)
        × (parse codecs raw ≡ ok i)
        × ((hash : Bytes → Bytes) × (hash_algorithms codecs i.algorithm ≡ some hash)
            × (digest codecs raw ≡ ok (hash raw)))
  unfolding from_device encode validate parse digest encode_kata_annotation decode_kata_annotation
  from_device-encode laws i raw compressed magic rest h zipped eight small =
      let (v, valid, h1) = >>=-eq-ok (validate codecs i) _ h in
      let (u, version, h2) =
        >>=-eq-ok (guard (bytes_equal i.version (codes "0.1.0")) (other 1)) _ valid in
      let (hash, found, h3) = >>=-eq-ok (some_or (hash_algorithms codecs i.algorithm)) _ h2 in
      let known = some_or-eq-ok (hash_algorithms codecs i.algorithm) found in
      let marshalled = some_or-eq-ok (codecs.marshal i) h1 in
      let size = append_uint 8 (length compressed) in
      let eight' = length-append_uint 8 (length compressed) in
      let value : uint size ≡ length compressed =
        uint-append_uint 8 (length compressed) (omega arith) in
      let at0 = read_at-append [] magic (size ++ (compressed ++ rest)) 0 8 refl eight in
      let at8 = read_at-append magic size (compressed ++ rest) 8 8 eight eight' in
      let by_blob : device_of magic compressed rest ≡ (magic ++ size) ++ (compressed ++ rest) =
        simp append_assoc in
      let at16 : read_at 16 (length compressed) (device_of magic compressed rest) ≡ ok compressed =
        ap (read_at 16 (length compressed)) by_blob
        ∙ read_at-append (magic ++ size) compressed rest 16 (length compressed)
            (omega (arith, length-append magic size)) refl in
      let fits : leb (length compressed) max_size ≡ true = ground arith in
      let same_magic = bytes_equal_refl magic in
      let read_back = laws.gunzip-gzip raw compressed zipped in
      let dash = remove_dash-hash_algorithms i.algorithm hash known in
      let parsed : parse codecs raw ≡ ok i =
        rw (laws.unmarshal-marshal i raw marshalled, dash, version, known) refl in
      (
        rw (eight, at0, same_magic, at8, value, fits, at16, read_back) refl,
        rw (zipped, laws.from-to_base64 compressed, read_back) refl,
        parsed,
        (hash, known, rw (parsed, known) refl),
      )
