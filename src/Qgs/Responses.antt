-- ===== src/Qgs/Responses.antt =====
-- internal/attestation/tdx/qgs: a response in the layout that the source describes is read.
use contrast.Prelude.Endian.{append_uint, uint, uint-append_uint, length-append_uint}
use contrast.Prelude.{
  Bytes, ok, true, ℕ, ◌+◌, ◌*◌, ◌%◌, ◌<◌, ◌≤◌, List, [], ◌∷◌, ◌++◌, length, length-append, leb,
  ◌==◌, ◌≡◌, refl, sym, ◌∙◌, ap, append_assoc, append-nil, arith,
}
use contrast.Qgs.{
  slice, uint32_limit, len_header, Header, marshal_header, unmarshal_header, GetCollateralResponse,
  trim_null, response_of, unmarshal_receivers, unmarshal_response, read_response,
  message_type_get_collateral_response,
}
use contrast.Qgs.Fields.{slice-append, sizes_of, join, length-sizes_of, read_fields-join}

-- Four of the fields are C strings on the wire.
abbrev pub c_string : Bytes → Bytes
c_string s = s ++ (0 ∷ [])

abbrev pub fields_of : GetCollateralResponse → List Bytes
fields_of r =
    r.pck_crl_issuer_chain
    ∷ c_string r.root_ca_crl
    ∷ c_string r.pck_crl
    ∷ r.tcb_info_issuer_chain
    ∷ c_string r.tcb_info
    ∷ r.qe_identity_issuer_chain
    ∷ c_string r.qe_identity
    ∷ []

abbrev pub encode_response : GetCollateralResponse → Bytes
encode_response r =
    append_uint 2 r.major_version
    ++ (append_uint 2 r.minor_version ++ (sizes_of (fields_of r) ++ join (fields_of r)))

abbrev pub response_header : GetCollateralResponse → Header
response_header r = record {
  major_version = 1;
  minor_version = 1;
  message_type = message_type_get_collateral_response;
  size = (length (encode_response r) + len_header) % uint32_limit;
  response_code = 0;
}

trim_null-c_string : (s : Bytes) → trim_null (c_string s) ≡ s
unfolding trim_null
trim_null-c_string [] = refl
trim_null-c_string (c ∷ []) = refl
trim_null-c_string (c ∷ d ∷ s) = ap (λ l. c ∷ l) (trim_null-c_string (d ∷ s))

length-marshal_header : (h : Header) → length (marshal_header h) ≡ 16
unfolding marshal_header append_uint
length-marshal_header h = omega arith

leb_of_le : (a b : ℕ) → a ≤ b → leb a b ≡ true
leb_of_le a b h = ground arith

eqb_of_eq : (a b : ℕ) → a ≡ b → (a == b) ≡ true
eqb_of_eq a b h = ground arith

-- The header of a message is read back.
unmarshal-marshal_header :
    (h : Header)
    → h.major_version < 65536
    → h.minor_version < 65536
    → h.message_type < uint32_limit
    → h.size < uint32_limit
    → h.response_code < uint32_limit
    → unmarshal_header (marshal_header h) ≡ ok h
unfolding unmarshal_header marshal_header append_uint uint slice
unmarshal-marshal_header h p q r s t = ground arith

-- The loop over the fields succeeds, and what is left is what they are made to.
unmarshal_receivers-join :
    (fields : List Bytes) (major minor : ℕ)
    → major < 65536
    → minor < 65536
    → length (append_uint 2 major ++ (append_uint 2 minor ++ (sizes_of fields ++ join fields)))
      < uint32_limit
    → unmarshal_receivers
        (length fields)
        (append_uint 2 major ++ (append_uint 2 minor ++ (sizes_of fields ++ join fields)))
      ≡ response_of major minor fields
unfolding unmarshal_receivers
unmarshal_receivers-join fields major minor p q small =
    let first = append_uint 2 major in
    let second = append_uint 2 minor in
    let body = sizes_of fields ++ join fields in
    let bytes = first ++ (second ++ body) in
    let fixed = 4 + 4 * length fields in
    let one = length-append_uint 2 major in
    let two = length-append_uint 2 minor in
    let whole : length bytes ≡ fixed + length (join fields) = omega (
      arith,
      length-append first (second ++ body),
      length-append second body,
      length-append (sizes_of fields) (join fields),
      length-sizes_of fields,
    ) in
    let long : leb fixed (length bytes) ≡ true = leb_of_le fixed (length bytes) (omega arith) in
    let read_major = slice-append [] first (second ++ body) 0 2 refl (omega arith) in
    let read_minor = slice-append first second body 2 4 (omega arith) (omega arith) in
    let read =
      read_fields-join fields (first ++ second) [] [] 0 fixed {bytes = bytes}
        (simp (append_assoc, append-nil)) (omega (arith, length-append first second))
        (omega (arith, length-append first second)) small in
    let trailing =
      eqb_of_eq (fixed + length (join fields)) (length bytes % uint32_limit) (omega arith) in
    rw
      (
        long,
        read_major,
        read_minor,
        read,
        trailing,
        uint-append_uint 2 major (omega arith),
        uint-append_uint 2 minor (omega arith),
      )
      refl

module _ (r : GetCollateralResponse) where
  response_of-fields_of : response_of r.major_version r.minor_version (fields_of r) ≡ ok r
  response_of-fields_of =
      rw
        (
          trim_null-c_string r.root_ca_crl,
          trim_null-c_string r.pck_crl,
          trim_null-c_string r.tcb_info,
          trim_null-c_string r.qe_identity,
        )
        refl

  unmarshal-encode_response :
      r.major_version < 65536
      → r.minor_version < 65536
      → length (encode_response r) < uint32_limit
      → unmarshal_response (encode_response r) ≡ ok r
  unfolding unmarshal_response
  unmarshal-encode_response major minor small =
      unmarshal_receivers-join (fields_of r) r.major_version r.minor_version major minor small
      ∙ response_of-fields_of

  -- A message of the header of a response of version 1.1 without an error, and of a body in the
  -- layout that the source describes, whose sizes are below 2^32 together and where the CRLs, the
  -- TCB info and the QE identity end in a null byte, is read as the response that it stands for.
  pub read-encode_response :
      r.major_version < 65536
      → r.minor_version < 65536
      → length (encode_response r) < uint32_limit
      → read_response (marshal_header (response_header r) ++ encode_response r) ≡ ok r
  unfolding read_response
  read-encode_response major minor small =
      let header = marshal_header (response_header r) in
      let body = encode_response r in
      let n = length-marshal_header (response_header r) in
      let long =
        leb_of_le len_header (length (header ++ body)) (omega (arith, length-append header body)) in
      let start = slice-append [] header body 0 len_header refl (omega arith) in
      let head =
        unmarshal-marshal_header (response_header r) (omega arith) (omega arith) (omega arith)
          (omega arith) (omega arith) in
      let rest : slice len_header (length (header ++ body)) (header ++ body) ≡ ok body =
        ap (slice len_header (length (header ++ body)))
          (ap (λ b. header ++ b) (sym (append-nil body)))
        ∙ slice-append header body [] len_header (length (header ++ body)) (omega arith)
            (length-append header body) in
      rw (long, start, head, rest) (unmarshal-encode_response major minor small)
