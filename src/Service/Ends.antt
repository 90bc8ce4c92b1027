-- ===== src/Service/Ends.antt =====
-- src/service/client.rs and src/service/server.rs: the client, the server and the raw server. The
-- writer and the reader of RustDDS are parameters: what a write returns, and the samples that come in.
-- The asynchronous sends are the synchronous ones with awaits in between.
pub mod Laws
use ros2_client.Base.{ℕ, Bool, ◌&&◌, List, [], ◌∷◌, map, Option, none, some, if◌then◌else◌}
use ros2_client.Base.Int.{ℤ, pos, ◌+ℤ◌, wrap_i64, int_eq}
use ros2_client.Base.Text.{Text, codes, text_eq}
use ros2_client.Base.Results.{Result, ok, err, ◌>>=◌, map_err}
use ros2_client.Service.Message.{
  Bytes, Guid, SampleIdentity, RmwRequestId, to_identity, from_identity, CacheChange,
  message_info_of, ServiceMapping, basic, enhanced, cyclone,
}
use ros2_client.Service.Wrappers.{
  Encoding, cdr_le, Codec, Dds, Wrapper, new_request, unwrap_request, new_response, unwrap_response,
  unwrap_raw, new_raw,
}

pub record Client : Type 0 where
  pub service_mapping : ServiceMapping
  pub sequence_number_gen : ℤ
  pub client_guid : Guid

abbrev pub increment_sequence_number : Client → Client
increment_sequence_number c = record c {
  sequence_number_gen = wrap_i64 (c.sequence_number_gen +ℤ pos 1);
}

-- The id that a request is given before it is written.
abbrev pub generated_id : Client → RmwRequestId
generated_id c = record { writer_guid = c.client_guid; sequence_number = c.sequence_number_gen }

-- The related sample identity of the write options.
abbrev pub related_of : ServiceMapping → RmwRequestId → Option SampleIdentity
related_of enhanced id = none
related_of basic id = some (to_identity id)
related_of cyclone id = some (to_identity id)

-- Which id the application gets.
abbrev pub request_id_of : ServiceMapping → RmwRequestId → RmwRequestId → RmwRequestId
request_id_of enhanced sent generated = sent
request_id_of basic sent generated = generated
request_id_of cyclone sent generated = generated

-- The samples of a writer: what it is given returns the identity under which it is sent.
abbrev pub WriteWithOptions : Type 0 → Type 0 → Type 0
WriteWithOptions V W = V → Option SampleIdentity → Result SampleIdentity W

-- `CallServiceError`.
pub data CallServiceError (E W : Type 0) : Type 0 where
  write_error : W → CallServiceError E W
  read_error : E → CallServiceError E W

abbrev pub id_eq : RmwRequestId → RmwRequestId → Bool
id_eq a b = text_eq a.writer_guid b.writer_guid && int_eq a.sequence_number b.sequence_number

module _ {E W : Type 0} (d : Dds E W) {Req Resp : Type 0} (rq : Codec Req E W)
    (rs : Codec Resp E W) where
  -- `send_request` and `async_send_request`.
  unfoldable pub send_request :
      WriteWithOptions Wrapper W → Req → Client → Client × Result RmwRequestId W
  send_request write_with_options request c =
      let c' = increment_sequence_number c in
      let generated = generated_id c' in
      (
        c',
        (new_request d rq c.service_mapping generated cdr_le request >>= λ w.
            write_with_options w (related_of c.service_mapping generated) >>= λ sent.
            ok (request_id_of c.service_mapping (from_identity sent) generated)),
      )

  abbrev pub read_response : Client → CacheChange Wrapper → Result (RmwRequestId × Resp) E
  read_response c dcc =
      unwrap_response d rs c.service_mapping (message_info_of dcc) c.client_guid dcc.value

  -- `receive_response`, with what `try_take_one` returns.
  abbrev pub receive_response :
      Result (Option (CacheChange Wrapper)) E → Client → Result (Option (RmwRequestId × Resp)) E
  receive_response (err e) c = err e
  receive_response (ok none) c = ok none
  receive_response (ok (some dcc)) c = read_response c dcc >>= λ r. ok (some r)

  -- `async_receive_response`, with the samples of the stream in their order.
  unfoldable pub async_receive_response :
      RmwRequestId → List (Result (CacheChange Wrapper) E) → Client → Result Resp E
  async_receive_response id [] c =
      err (d.internal (codes "SimpleDataReader value stream unexpectedly ended!"))
  async_receive_response id (err e ∷ stream) c = err e
  async_receive_response id (ok dcc ∷ stream) c =
      let rest = async_receive_response id stream c in
      read_response c dcc >>= λ r. if id_eq r.0 id then ok r.1 else rest

  abbrev await_response :
      (RmwRequestId → List (Result (CacheChange Wrapper) E))
      → Client × Result RmwRequestId W
      → Client × Result Resp (CallServiceError E W)
  await_response stream (c, err e) = (c, err (write_error e))
  await_response stream (c, ok id) =
      (c, map_err read_error (async_receive_response id (stream id) c))

  -- `async_call_service`. The stream may depend on the id of the request.
  unfoldable pub async_call_service :
      WriteWithOptions Wrapper W
      → (RmwRequestId → List (Result (CacheChange Wrapper) E))
      → Req
      → Client
      → Client × Result Resp (CallServiceError E W)
  async_call_service write_with_options stream request c =
      await_response stream (send_request write_with_options request c)

  -- `Server::receive_request`.
  abbrev pub receive_request :
      ServiceMapping
      → Result (Option (CacheChange Wrapper)) E
      → Result (Option (RmwRequestId × Req)) E
  receive_request mapping (err e) = err e
  receive_request mapping (ok none) = ok none
  receive_request mapping (ok (some dcc)) =
      unwrap_request d rq mapping (message_info_of dcc) dcc.value >>= λ r. ok (some r)

  -- `Server::receive_request_stream`, and the item that `async_receive_request` awaits.
  abbrev pub read_request :
      ServiceMapping → Result (CacheChange Wrapper) E → Result (RmwRequestId × Req) E
  read_request mapping (err e) = err e
  read_request mapping (ok dcc) = unwrap_request d rq mapping (message_info_of dcc) dcc.value

  abbrev pub receive_request_stream :
      ServiceMapping → List (Result (CacheChange Wrapper) E) → List (Result (RmwRequestId × Req) E)
  receive_request_stream mapping = map (read_request mapping)

  abbrev pub async_receive_request :
      ServiceMapping → List (Result (CacheChange Wrapper) E) → Result (RmwRequestId × Req) E
  async_receive_request mapping [] =
      err (d.internal (codes "SimpleDataReader value stream unexpectedly ended!"))
  async_receive_request mapping (dcc ∷ stream) = read_request mapping dcc

  -- `Server::send_response` and `async_send_response`.
  unfoldable pub send_response :
      WriteWithOptions Wrapper W → ServiceMapping → RmwRequestId → Resp → Result (Unit {0}) W
  send_response write_with_options mapping id response =
      new_response d rs mapping id cdr_le response >>= λ w.
      write_with_options w (some (to_identity id)) >>= λ sent. ok tt

module _ {E W : Type 0} (d : Dds E W) where
  -- The same methods of `RawServer`.
  abbrev pub raw_receive_request :
      Result (Option (CacheChange Wrapper)) E → Result (Option (RmwRequestId × Bytes)) E
  raw_receive_request (err e) = err e
  raw_receive_request (ok none) = ok none
  raw_receive_request (ok (some dcc)) = ok (some (unwrap_raw d (message_info_of dcc) dcc.value))

  abbrev pub raw_read_request : Result (CacheChange Wrapper) E → Result (RmwRequestId × Bytes) E
  raw_read_request (err e) = err e
  raw_read_request (ok dcc) = ok (unwrap_raw d (message_info_of dcc) dcc.value)

  abbrev pub raw_receive_request_stream :
      List (Result (CacheChange Wrapper) E) → List (Result (RmwRequestId × Bytes) E)
  raw_receive_request_stream = map raw_read_request

  abbrev pub raw_async_receive_request :
      List (Result (CacheChange Wrapper) E) → Result (RmwRequestId × Bytes) E
  raw_async_receive_request [] =
      err (d.internal (codes "SimpleDataReader value stream unexpectedly ended!"))
  raw_async_receive_request (dcc ∷ stream) = raw_read_request dcc

-- The bytes that a raw wrapper holds are all that is written of it.
unfoldable pub raw_send_response :
    {W : Type 0} → WriteWithOptions Bytes W → RmwRequestId → Bytes → Result (Unit {0}) W
raw_send_response write_with_options id response =
    write_with_options (new_raw response) (some (to_identity id)) >>= λ sent. ok tt
