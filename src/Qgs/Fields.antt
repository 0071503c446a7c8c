-- ===== src/Qgs/Fields.antt =====
-- internal/attestation/tdx/qgs/qgs.go: numbers and fields in a byte string.
use contrast.Prelude.Endian.{append_uint, uint, uint-append_uint, length-append_uint}
use contrast.Prelude.{
  Bytes, ok, true, ◌&&◌, ℕ, ◌+◌, ◌-◌, ◌*◌, ◌%◌, ◌<◌, List, [], ◌∷◌, ◌++◌, length, length-append,
  take-append, drop-append, leb, ◌≡◌, refl, sym, ◌∙◌, ap, append_assoc, arith,
}
use contrast.Qgs.{slice, read_fields, uint32_limit}

-- The middle of three parts.
pub slice-append :
    (a b c : Bytes) (low high : ℕ)
    → low ≡ length a
    → high ≡ length a + length b
    → slice low high (a ++ (b ++ c)) ≡ ok b
unfolding slice
slice-append a b c low high p q =
    let inside : (leb low high && leb high (length (a ++ (b ++ c)))) ≡ true =
      ground (arith, length-append a (b ++ c), length-append b c) in
    rw (inside, drop-append a (b ++ c) low (sym p), take-append b c (high - low) (omega arith)) refl

abbrev pub sizes_of : List Bytes → Bytes
sizes_of [] = []
sizes_of (f ∷ fields) = append_uint 4 (length f) ++ sizes_of fields

abbrev pub join : List Bytes → Bytes
join [] = []
join (f ∷ fields) = f ++ join fields

pub length-sizes_of : (fields : List Bytes) → length (sizes_of fields) ≡ 4 * length fields
length-sizes_of [] = omega arith
length-sizes_of (f ∷ fields) = omega (
  arith,
  length-append (append_uint 4 (length f)) (sizes_of fields),
  length-append_uint 4 (length f),
  length-sizes_of fields,
)

-- Where the sizes of the fields that are left begin after `before`, and their contents after
-- `before` and `between`, the loop reads them.
pub read_fields-join :
    (fields : List Bytes) (before between after : Bytes) (i offset : ℕ) {bytes : Bytes}
    → bytes ≡ before ++ (sizes_of fields ++ (between ++ (join fields ++ after)))
    → (i + 1) * 4 ≡ length before
    → offset ≡ length before + 4 * length fields + length between
    → length bytes < uint32_limit
    → read_fields bytes (length fields) i offset ≡ ok (fields, offset + length (join fields))
unfolding read_fields
read_fields-join [] before between after i offset {bytes} shape start at small =
    ap (λ n. ok ([], n)) (omega arith)
read_fields-join (f ∷ fields) before between after i offset {bytes} shape start at small =
    let number = append_uint 4 (length f) in
    let tail = sizes_of fields ++ (between ++ (f ++ (join fields ++ after))) in
    let by_size : bytes ≡ before ++ (number ++ tail) = shape ∙ simp append_assoc in
    let by_field : bytes
        ≡ (before ++ (number ++ (sizes_of fields ++ between))) ++ (f ++ (join fields ++ after)) =
      shape ∙ simp append_assoc in
    let by_rest : bytes
        ≡ (before ++ number) ++ (sizes_of fields ++ ((between ++ f) ++ (join fields ++ after))) =
      shape ∙ simp append_assoc in
    let front = before ++ (number ++ (sizes_of fields ++ between)) in
    let four = length-append_uint 4 (length f) in
    let sized = length-sizes_of fields in
    let at_field : offset ≡ length front = omega (
      arith,
      length-append before (number ++ (sizes_of fields ++ between)),
      length-append number (sizes_of fields ++ between),
      length-append (sizes_of fields) between,
    ) in
    let end : length bytes ≡ length front + (length f + length (join fields ++ after)) =
      ap length by_field
      ∙ length-append front (f ++ (join fields ++ after))
      ∙ ap (λ n. length front + n) (length-append f (join fields ++ after)) in
    let size_read : slice ((i + 1) * 4) ((i + 2) * 4) bytes ≡ ok number =
      ap (slice ((i + 1) * 4) ((i + 2) * 4)) by_size
      ∙ slice-append before number tail ((i + 1) * 4) ((i + 2) * 4) (omega arith) (omega arith) in
    let size : uint number ≡ length f = uint-append_uint 4 (length f) (omega arith) in
    let next : (offset + uint number) % uint32_limit ≡ offset + length f = omega arith in
    let field_read : slice offset (offset + length f) bytes ≡ ok f =
      ap (slice offset (offset + length f)) by_field
      ∙ slice-append front f (join fields ++ after) offset (offset + length f) (omega arith)
          (omega arith) in
    let rest =
      read_fields-join fields (before ++ number) (between ++ f) after (i + 1) (offset + length f)
        by_rest (omega (arith, length-append before number))
        (omega (arith, length-append before number, length-append between f)) small in
    rw (size_read, next, field_read, rest)
      (ap (λ n. ok (f ∷ fields, n)) (omega (arith, length-append f (join fields))))
