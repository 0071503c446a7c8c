-- ===== src/Tests/Collaterals.antt =====
-- Messages of the quote generation service, at concrete inputs.
use contrast.Prelude.Endian.{append_uint}
use contrast.Prelude.{
  Bytes, codes, ok, err, index_out_of_range, ◌+◌, ◌<◌, [], ◌∷◌, ◌++◌, length, replicate, ◌↔◌, ◌≡◌,
  arith,
}
use contrast.Qgs.{GetCollateralResponse, marshal_header, read_response, unmarshal_response}
use contrast.Qgs.Responses.{encode_response, response_header, read-encode_response}
use contrast.Qgs.Panics.{declared, unmarshal_response_panics_iff}

abbrev response : GetCollateralResponse
response = record {
  major_version = 3;
  minor_version = 1;
  pck_crl_issuer_chain = codes "chain";
  root_ca_crl = codes "30";
  pck_crl = [];
  tcb_info_issuer_chain = codes "other chain";
  tcb_info = codes "{}";
  qe_identity_issuer_chain = [];
  qe_identity = codes "{}";
}

encoded_length : length (encode_response response) < 4_294_967_296
unfolding append_uint
encoded_length = omega arith

read-encode_response_example :
    read_response (marshal_header (response_header response) ++ encode_response response)
    ≡ ok response
read-encode_response_example =
    read-encode_response response (omega arith) (omega arith) encoded_length

-- The first field is to have a byte that is not there.
abbrev short : Bytes
short = 3 ∷ 0 ∷ 1 ∷ 0 ∷ 1 ∷ replicate 27 0

unmarshal_response_panics_iff_example :
    (unmarshal_response short ≡ err index_out_of_range) ↔ (length short < 32 + declared short 7 0)
unmarshal_response_panics_iff_example =
    unmarshal_response_panics_iff short (omega arith) (omega arith) (omega arith)
