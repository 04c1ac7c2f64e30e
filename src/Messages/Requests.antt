-- ===== src/Messages/Requests.antt =====
-- lib/protocol/bep_request_response.go: asking for a block of a file, and the answer.
use Prim.Native.String.{String}
use vidsync_app.Base.{◌≡◌, Bool, ℤ, to_int32, IsInt32, to_int32-id}
use vidsync_app.DeviceId.Text.{Bytes}

-- An `ErrorCode` of internal/gen/bep, an `int32`.
abbrev pub ErrorCode : Type 0
ErrorCode = ℤ

pub record Request : Type 0 where
  pub id : ℤ
  pub folder : String
  pub name : String
  pub offset : ℤ
  pub size : ℤ
  pub hash : Bytes
  pub from_temporary : Bool
  pub block_no : ℤ

-- In the message, `id`, `size` and `block_no` are numbers of 32 bits.
pub record WireRequest : Type 0 where
  pub id : ℤ
  pub folder : String
  pub name : String
  pub offset : ℤ
  pub size : ℤ
  pub hash : Bytes
  pub from_temporary : Bool
  pub block_no : ℤ

unfoldable pub request_to_wire : Request → WireRequest
request_to_wire r = record {
  id = to_int32 r.id;
  folder = r.folder;
  name = r.name;
  offset = r.offset;
  size = to_int32 r.size;
  hash = r.hash;
  from_temporary = r.from_temporary;
  block_no = to_int32 r.block_no;
}

unfoldable pub request_from_wire : WireRequest → Request
request_from_wire w = record {
  id = w.id;
  folder = w.folder;
  name = w.name;
  offset = w.offset;
  size = w.size;
  hash = w.hash;
  from_temporary = w.from_temporary;
  block_no = w.block_no;
}

pub record Response : Type 0 where
  pub id : ℤ
  pub data_bytes : Bytes
  pub code : ErrorCode

pub record WireResponse : Type 0 where
  pub id : ℤ
  pub data_bytes : Bytes
  pub code : ErrorCode

unfoldable pub response_to_wire : Response → WireResponse
response_to_wire r = record { id = to_int32 r.id; data_bytes = r.data_bytes; code = r.code }

unfoldable pub response_from_wire : WireResponse → Response
response_from_wire w = record { id = w.id; data_bytes = w.data_bytes; code = w.code }

-- The numbers of a request that the message narrows fit in 32 bits.
pub record RequestFits (r : Request) : Type 0 where
  pub id_fits : IsInt32 r.id
  pub size_fits : IsInt32 r.size
  pub block_no_fits : IsInt32 r.block_no

request_arrives : (r : Request) → RequestFits r → request_from_wire (request_to_wire r) ≡ r
unfolding request_to_wire request_from_wire
request_arrives r h = λ i. record r {
  id = to_int32-id r.id h.id_fits i;
  size = to_int32-id r.size h.size_fits i;
  block_no = to_int32-id r.block_no h.block_no_fits i;
}

response_arrives : (a : Response) → IsInt32 a.id → response_from_wire (response_to_wire a) ≡ a
unfolding response_to_wire response_from_wire
response_arrives a h = λ i. record a { id = to_int32-id a.id h i }

-- A request whose numbers fit in 32 bits arrives as it was sent, and an answer that carries its id
-- comes back as it was given, so that it is matched to the request.
pub exchange_lem :
    (r : Request) (a : Response)
    → RequestFits r
    → a.id ≡ r.id
    → (request_from_wire (request_to_wire r) ≡ r) × (response_from_wire (response_to_wire a) ≡ a)
exchange_lem r a h e = (request_arrives r h, response_arrives a (rw e h.id_fits))
