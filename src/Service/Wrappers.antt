-- ===== src/Service/Wrappers.antt =====
-- src/service/wrappers.rs: requests and responses as the bytes of a DDS sample. What RustDDS and the
-- crate bytes do is a parameter, `Dds`. The encodings are the two that the adapters support.
pub mod Laws
use ros2_client.Base.{
  ℕ, Bool, List, [], ◌∷◌, ◌++◌, Option, none, some, ltb, if◌then◌else◌, length, take, drop,
}
use ros2_client.Base.Int.{ℤ, int_eq}
use ros2_client.Base.Text.{Text, codes}
use ros2_client.Base.Results.{Result, ok, err, ◌>>=◌}
use ros2_client.Service.Message.{
  Bytes, Guid, SampleIdentity, RmwRequestId, to_identity, from_identity, MessageInfo, writer_guid,
  sample_identity, ServiceMapping, basic, enhanced, cyclone,
}

pub data Encoding : Type 0 where
  cdr_be cdr_le : Encoding

-- How one type is written (`to_writer_with_rep_id`) and read (`deserialize_from_cdr_with_rep_id`, which
-- also counts the bytes that it takes).
pub record Codec (M E W : Type 0) : Type 0 where
  pub write : Encoding → M → Result Bytes W
  pub read : Encoding → Bytes → Result (M × ℕ) E

pub record BasicRequestHeader : Type 0 where
  pub request_id : SampleIdentity
  pub instance_name : Text

pub record BasicReplyHeader : Type 0 where
  pub related_request_id : SampleIdentity
  pub remote_exception_code : ℕ

pub record CycloneHeader : Type 0 where
  pub guid_second_half : Bytes
  pub sequence_number_high : ℤ
  pub sequence_number_low : ℕ

-- `E` are the read errors and `W` the write errors of RustDDS; `deserialization` and `internal` make a
-- read error of a reason. `split_off` returns what is kept and what is returned.
pub record Dds (E W : Type 0) : Type 0 where
  pub basic_request : Codec BasicRequestHeader E W
  pub basic_reply : Codec BasicReplyHeader E W
  pub cyclone_header : Codec CycloneHeader E W
  pub split_off : ℕ → Bytes → Bytes × Bytes
  pub unknown : ℤ
  pub high : ℤ → ℤ
  pub low : ℤ → ℕ
  pub from_high_low : ℤ → ℕ → ℤ
  pub deserialization : Text → E
  pub internal : Text → E

-- `RequestWrapper` and `ResponseWrapper`.
pub record Wrapper : Type 0 where
  pub serialized_message : Bytes
  pub encoding : Encoding

-- `BasicRequestHeader::new`, `BasicReplyHeader::new`.
abbrev pub basic_request_header : SampleIdentity → BasicRequestHeader
basic_request_header id = record { request_id = id; instance_name = [] }

abbrev pub basic_reply_header : SampleIdentity → BasicReplyHeader
basic_reply_header id = record { related_request_id = id; remote_exception_code = 0 }

module _ {E W : Type 0} (d : Dds E W) where
  -- `CycloneHeader::new`.
  abbrev pub cyclone_header_of : RmwRequestId → CycloneHeader
  cyclone_header_of r = record {
    guid_second_half = drop 8 r.writer_guid;
    sequence_number_high = d.high r.sequence_number;
    sequence_number_low = d.low r.sequence_number;
  }

  -- The header that `RequestWrapper::new` writes.
  abbrev pub request_header : ServiceMapping → RmwRequestId → Encoding → Result Bytes W
  request_header basic r e = d.basic_request.write e (basic_request_header (to_identity r))
  request_header enhanced r e = ok []
  request_header cyclone r e = d.cyclone_header.write e (cyclone_header_of r)

  -- The header that `ResponseWrapper::new` writes.
  abbrev pub response_header : ServiceMapping → RmwRequestId → Encoding → Result Bytes W
  response_header basic r e = d.basic_reply.write e (basic_reply_header (to_identity r))
  response_header enhanced r e = ok []
  response_header cyclone r e = d.cyclone_header.write e (cyclone_header_of r)

  -- The id of a request in the Enhanced mapping, with both fallbacks.
  abbrev pub identity_of : MessageInfo → SampleIdentity
  identity_of mi = elim mi.related_sample_identity [ none ↦ sample_identity mi | some id ↦ id ]

  unfoldable pub enhanced_request_id : MessageInfo → RmwRequestId
  enhanced_request_id mi =
      let id = from_identity (identity_of mi) in
      if int_eq id.sequence_number d.unknown
      then record id { sequence_number = mi.sequence_number }
      else id

  -- What `unwrap` and `cyclone_unwrap` do behind the header: `bytes.split_off(header_size)` leaves in
  -- `bytes` what the message is then decoded from.
  unfoldable pub behind_header :
      {H R : Type 0} → Text → Codec H E W → Codec R E W → Wrapper → Result (H × R) E
  behind_header too_short headers codec w = do
    (header, size) ← headers.read w.encoding w.serialized_message
    if ltb (length w.serialized_message) size then err (d.deserialization too_short) else do
      (message, consumed) ← codec.read w.encoding (d.split_off size w.serialized_message).0
      ok (header, message)

  -- `cyclone_unwrap`.
  abbrev pub cyclone_unwrap :
      {R : Type 0} → Codec R E W → Guid → Wrapper → Result (RmwRequestId × R) E
  cyclone_unwrap codec guid w = do
    (header, message) ← behind_header (codes "Service message too short") d.cyclone_header codec w
    ok (
      record {
        writer_guid = guid;
        sequence_number = d.from_high_low header.sequence_number_high header.sequence_number_low;
      },
      message,
    )

module _ {E W : Type 0} (d : Dds E W) {R : Type 0} (codec : Codec R E W) where
  -- `RequestWrapper::new`.
  unfoldable pub new_request : ServiceMapping → RmwRequestId → Encoding → R → Result Wrapper W
  new_request mapping r e request = do
    header ← request_header d mapping r e
    body ← codec.write e request
    ok (record { serialized_message = header ++ body; encoding = e })

  -- `RequestWrapper::unwrap`.
  unfoldable pub unwrap_request :
      ServiceMapping → MessageInfo → Wrapper → Result (RmwRequestId × R) E
  unwrap_request basic mi w = do
    (header, request) ← behind_header d (codes "Service request too short") d.basic_request codec w
    ok (from_identity header.request_id, request)
  unwrap_request enhanced mi w = do
    (request, consumed) ← codec.read w.encoding w.serialized_message
    ok (enhanced_request_id d mi, request)
  unwrap_request cyclone mi w = cyclone_unwrap d codec (writer_guid mi) w

  -- `ResponseWrapper::new`.
  unfoldable pub new_response : ServiceMapping → RmwRequestId → Encoding → R → Result Wrapper W
  new_response mapping r e response = do
    header ← response_header d mapping r e
    body ← codec.write e response
    ok (record { serialized_message = header ++ body; encoding = e })

  abbrev related_id : MessageInfo → Result RmwRequestId E
  related_id mi = elim mi.related_sample_identity [
    | none ↦ err (
        d.deserialization (
          codes
            "ServiceMapping=Enhanced, but response message did not have related_sample_identity parameter!"))
    | some id ↦ ok (from_identity id)
  ]

  -- `ResponseWrapper::unwrap`. In the Cyclone mapping the client's GUID is put together of two halves.
  unfoldable pub unwrap_response :
      ServiceMapping → MessageInfo → Guid → Wrapper → Result (RmwRequestId × R) E
  unwrap_response basic mi client_guid w = do
    (header, response) ← behind_header d (codes "Service response too short") d.basic_reply codec w
    ok (from_identity header.related_request_id, response)
  unwrap_response enhanced mi client_guid w = do
    (response, consumed) ← codec.read w.encoding w.serialized_message
    id ← related_id mi
    ok (id, response)
  unwrap_response cyclone mi client_guid w =
      cyclone_unwrap d codec (take 8 client_guid ++ drop 8 (writer_guid mi)) w

-- The raw wrappers: `encapsulation_header`, `encapsulated`, `RawRequestWrapper::unwrap_raw` and
-- `RawResponseWrapper::new_raw`.
abbrev pub encapsulation_header : Encoding → Bytes
encapsulation_header cdr_be = 0 ∷ 0 ∷ 0 ∷ 0 ∷ []
encapsulation_header cdr_le = 0 ∷ 1 ∷ 0 ∷ 0 ∷ []

unfoldable pub encapsulated : Encoding → Bytes → Bytes
encapsulated e body = encapsulation_header e ++ body

abbrev pub unwrap_raw : {E W : Type 0} → Dds E W → MessageInfo → Wrapper → RmwRequestId × Bytes
unwrap_raw d mi w = (enhanced_request_id d mi, encapsulated w.encoding w.serialized_message)

unfoldable pub new_raw : Bytes → Bytes
new_raw (b0 ∷ b1 ∷ b2 ∷ b3 ∷ body) = body
new_raw response = response
