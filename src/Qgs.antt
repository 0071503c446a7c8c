-- ===== src/Qgs.antt =====
-- internal/attestation/tdx/qgs/qgs.go and client.go: the messages that are exchanged with Intel's
-- quote generation service. The connection and its deadlines are not modelled: a request is the bytes
-- that are written, and a response the bytes that were read for it.
pub mod Fields
pub mod Responses
pub mod Panics
use contrast.Prelude.Endian.{append_uint, uint}
use contrast.Prelude.{
  Bytes, Result, ok, err, other, index_out_of_range, ◌>>=◌, Bool, true, false, ◌&&◌, ℕ, zero, suc,
  ◌+◌, ◌-◌, ◌*◌, ◌/◌, ◌%◌, List, [], ◌∷◌, ◌++◌, length, take, drop, ltb, leb, ◌==◌, if◌then◌else◌,
  guard, reverse,
}

-- b[low:high], where the capacity of the slice is its length; a bad index panics.
unfoldable pub slice : ℕ → ℕ → Bytes → Result Bytes
slice low high bytes =
    if leb low high && leb high (length bytes)
    then ok (take (high - low) (drop low bytes))
    else err index_out_of_range

abbrev pub uint32_limit : ℕ
uint32_limit = 4_294_967_296

abbrev pub len_header : ℕ
len_header = 16

abbrev pub message_type_get_collateral_request : ℕ
message_type_get_collateral_request = 2

abbrev pub message_type_get_collateral_response : ℕ
message_type_get_collateral_response = 3

pub record Header : Type 0 where
  pub major_version : ℕ
  pub minor_version : ℕ
  pub message_type : ℕ
  pub size : ℕ
  pub response_code : ℕ

-- header.marshalBinary
unfoldable pub marshal_header : Header → Bytes
unfolding append_uint
marshal_header h =
    append_uint 2 h.major_version
    ++ (append_uint 2 h.minor_version
        ++ (append_uint 4 h.message_type
            ++ (append_uint 4 h.size ++ append_uint 4 h.response_code)))

-- header.unmarshalBinary
unfoldable pub unmarshal_header : Bytes → Result Header
unfolding uint slice
unmarshal_header bytes = do
  _ ← guard (length bytes == len_header) (other 0)
  major ← slice 0 2 bytes
  minor ← slice 2 4 bytes
  kind ← slice 4 8 bytes
  size ← slice 8 12 bytes
  code ← slice 12 16 bytes
  ok (record {
    major_version = uint major;
    minor_version = uint minor;
    message_type = uint kind;
    size = uint size;
    response_code = uint code;
  })

-- The FMSPC has six bytes, and the CA type is "platform" or "processor".
pub record GetCollateralRequest : Type 0 where
  pub fmspc : Bytes
  pub ca_type : Bytes

-- GetCollateralRequest.marshalBinary
unfoldable pub marshal_request : GetCollateralRequest → Bytes
unfolding append_uint
marshal_request r =
    append_uint 4 (length r.fmspc)
    ++ (append_uint 4 (length r.ca_type + 1) ++ (r.fmspc ++ (r.ca_type ++ (0 ∷ []))))

-- What Client.GetCollateral writes: a length in BigEndian, a header, and the request.
unfoldable pub request_packet : GetCollateralRequest → Bytes
unfolding marshal_header marshal_request
request_packet r =
    let size = (length (marshal_request r) + len_header) % uint32_limit in
    let header : Header = record {
      major_version = 1;
      minor_version = 1;
      message_type = message_type_get_collateral_request;
      size = size;
      response_code = 0;
    } in
    reverse (append_uint 4 size) ++ (marshal_header header ++ marshal_request r)

pub record GetCollateralResponse : Type 0 where
  pub major_version : ℕ
  pub minor_version : ℕ
  pub pck_crl_issuer_chain : Bytes
  pub root_ca_crl : Bytes
  pub pck_crl : Bytes
  pub tcb_info_issuer_chain : Bytes
  pub tcb_info : Bytes
  pub qe_identity_issuer_chain : Bytes
  pub qe_identity : Bytes

-- bytes.TrimSuffix(s, []byte{0})
unfoldable pub trim_null : Bytes → Bytes
trim_null [] = []
trim_null (c ∷ []) = if c == 0 then [] else c ∷ []
trim_null (c ∷ d ∷ s) = c ∷ trim_null (d ∷ s)

-- The loop over the receivers: so many that are left, the number of the first of them, and the offset
-- of its field, a uint32.
unfoldable pub read_fields : Bytes → ℕ → ℕ → ℕ → Result (List Bytes × ℕ)
unfolding slice uint
read_fields bytes zero i offset = ok ([], offset)
read_fields bytes (suc k) i offset = do
  size ← slice ((i + 1) * 4) ((i + 2) * 4) bytes
  let next = (offset + uint size) % uint32_limit
  field ← slice offset next bytes
  rest ← read_fields bytes k (i + 1) next
  ok (field ∷ rest.0, rest.1)

abbrev pub response_of : ℕ → ℕ → List Bytes → Result GetCollateralResponse
response_of major minor (a ∷ b ∷ c ∷ d ∷ e ∷ f ∷ g ∷ []) = ok (record {
  major_version = major;
  minor_version = minor;
  pck_crl_issuer_chain = a;
  root_ca_crl = trim_null b;
  pck_crl = trim_null c;
  tcb_info_issuer_chain = d;
  tcb_info = trim_null e;
  qe_identity_issuer_chain = f;
  qe_identity = trim_null g;
})
response_of major minor _ = err (other 1)

-- GetCollateralResponse.unmarshalBinary, for so many receivers.
unfoldable pub unmarshal_receivers : ℕ → Bytes → Result GetCollateralResponse
unfolding read_fields slice uint trim_null
unmarshal_receivers receivers bytes = do
  let fixed_data_len = 4 + 4 * receivers
  _ ← guard (leb fixed_data_len (length bytes)) (other 2)
  major ← slice 0 2 bytes
  minor ← slice 2 4 bytes
  fields ← read_fields bytes receivers 0 fixed_data_len
  _ ← guard (fields.1 == length bytes % uint32_limit) (other 3)
  response_of (uint major) (uint minor) fields.0

unfoldable pub unmarshal_response : Bytes → Result GetCollateralResponse
unfolding unmarshal_receivers
unmarshal_response bytes = unmarshal_receivers 7 bytes

-- What Client.GetCollateral does with the bytes that it has read.
unfoldable pub read_response : Bytes → Result GetCollateralResponse
read_response bytes = do
  _ ← guard (leb len_header (length bytes)) (other 4)
  start ← slice 0 len_header bytes
  h ← unmarshal_header start
  _ ← guard (h.major_version == 1 && h.minor_version == 1) (other 5)
  _ ← guard (h.response_code == 0) (other 6)
  _ ← guard (h.message_type == message_type_get_collateral_response) (other 7)
  body ← slice len_header (length bytes) bytes
  unmarshal_response body
