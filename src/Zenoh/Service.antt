-- ===== src/Zenoh/Service.antt =====
-- src/zenoh_backend/service.rs: the client, the server and the raw server of a service on Zenoh. The
-- crates that write the bytes are parameters, and so is what the zenoh session does: the replies that
-- a `get` yields, and the error with which a reply fails, if it does. The clock is an argument.
pub mod Laws
pub mod Pending
pub mod Tests
use ros2_client.Base.{
  ℕ, ◌+◌, ◌*◌, Bool, true, false, ◌&&◌, List, [], ◌∷◌, ◌++◌, Option, none, some, ◌==◌, ◌≡◌, ◌↔◌,
  arith, if◌then◌else◌,
}
use ros2_client.Base.Int.{ℤ, pos, ◌+ℤ◌, wrap_i64, int_eq, int_eq_iff}
use ros2_client.Base.Text.{Text}
use ros2_client.Base.Ordered.{Key, Map, get, insert, remove}
use ros2_client.Base.Results.{Result, ok, err, map_err, ok_or, ◌>>=◌}
use ros2_client.Zenoh.Wire.{
  Bytes, BodyCodec, CdrError, to_cdr, from_cdr, Serializer, AttachmentData, to_zbytes, from_zbytes,
}

pub record RmwRequestId : Type 0 where
  pub writer_gid : Bytes
  pub sequence_number : ℤ

-- `ServiceError`, over the errors of the codec and of zenoh.
pub data ServiceError (E Z : Type 0) : Type 0 where
  cdr : CdrError E → ServiceError E Z
  zenoh : Z → ServiceError E Z
  malformed : ServiceError E Z
  no_reply : ServiceError E Z
  unknown_request : ServiceError E Z

-- `u128::from_le_bytes`.
abbrev pub gid_key : Bytes → ℕ
gid_key [] = 0
gid_key (b ∷ bs) = b + 256 * gid_key bs

-- A zenoh query, as far as the server reads it.
pub record Query : Type 0 where
  pub key_expr : Text
  pub payload : Option Bytes
  pub attachment : Option Bytes

abbrev pub ReqKey : Type 0
ReqKey = ℕ × ℤ

abbrev key_eq : ReqKey → ReqKey → Bool
key_eq a b = a.0 == b.0 && int_eq a.1 b.1

pub key_eq_iff : (a b : ReqKey) → (key_eq a b ≡ true) ↔ (a ≡ b)
key_eq_iff (i, a) (j, b) = ground (arith, int_eq_iff a b)

-- A HashMap has no order: a new entry goes behind the others.
instance abbrev pub request_key : Key ReqKey
request_key = record { eq = key_eq; less = λ a b. false; eq_iff = key_eq_iff }

abbrev pub key_of : RmwRequestId → ReqKey
key_of id = (gid_key id.writer_gid, id.sequence_number)

-- A reply with its attachment. It goes out under the key of the query.
pub record Reply : Type 0 where
  pub to : Query
  pub payload : Bytes
  pub attachment : Bytes

-- `Server` and `RawServer`: the pending queries, and the replies that zenoh took.
pub record Server : Type 0 where
  pub pending : Map ReqKey Query
  pub sent : List Reply

module _ (z : Serializer) {E Z : Type 0} where
  -- The reads of `accept`, with how the payload is decoded.
  abbrev pub read_query :
      {R : Type 0}
      → (Bytes → Result R (CdrError E))
      → Query
      → Result (AttachmentData × R) (ServiceError E Z)
  read_query decode q = do
    payload ← ok_or malformed q.payload
    req ← map_err cdr (decode payload)
    attachment ← ok_or malformed q.attachment
    a ← ok_or malformed (from_zbytes z attachment)
    ok (a, req)

  abbrev remember :
      {R : Type 0}
      → Query
      → Server
      → Result (AttachmentData × R) (ServiceError E Z)
      → Server × Result (RmwRequestId × R) (ServiceError E Z)
  remember q s (ok (a, req)) =
      let id : RmwRequestId = record {
        writer_gid = a.source_gid;
        sequence_number = a.sequence_number;
      } in
      (record s { pending = insert (key_of id) q s.pending }, ok (id, req))
  remember q s (err e) = (s, err e)

  -- `accept` of `Server`, which decodes with `from_cdr`; `RawServer` takes the payload as it is.
  unfoldable pub accept :
      {R : Type 0}
      → (Bytes → Result R (CdrError E))
      → Query
      → Server
      → Server × Result (RmwRequestId × R) (ServiceError E Z)
  accept decode q s = remember q s (read_query decode q)

  abbrev some_of :
      {R : Type 0}
      → Server × Result (RmwRequestId × R) (ServiceError E Z)
      → Server × Result (Option (RmwRequestId × R)) (ServiceError E Z)
  some_of (s, ok r) = (s, ok (some r))
  some_of (s, err e) = (s, err e)

  -- `try_receive_request`: what `try_recv` has, where a closed channel has nothing.
  abbrev pub try_receive_request :
      {R : Type 0}
      → (Bytes → Result R (CdrError E))
      → Option Query
      → Server
      → Server × Result (Option (RmwRequestId × R)) (ServiceError E Z)
  try_receive_request decode none s = (s, ok none)
  try_receive_request decode (some q) s = some_of (accept decode q s)

  -- `async_receive_request`, once there is a query or the channel is closed.
  abbrev pub async_receive_request :
      {R : Type 0}
      → (Bytes → Result R (CdrError E))
      → Option Query
      → Server
      → Server × Result (RmwRequestId × R) (ServiceError E Z)
  async_receive_request decode none s = (s, err no_reply)
  async_receive_request decode (some q) s = accept decode q s

  abbrev pub deliver :
      (Reply → Option Z) → Reply → Server → Server × Result (Unit {0}) (ServiceError E Z)
  deliver fails r s = elim (fails r) [
    | none ↦ (record s { sent = s.sent ++ r ∷ [] }, ok tt)
    | some e ↦ (s, err (zenoh e))
  ]

  abbrev pub reply :
      (Reply → Option Z)
      → ℤ
      → RmwRequestId
      → Query
      → Result Bytes (CdrError E)
      → Server
      → Server × Result (Unit {0}) (ServiceError E Z)
  reply fails now id q (ok payload) s =
      let a : AttachmentData = record {
        sequence_number = id.sequence_number;
        source_timestamp = now;
        source_gid = id.writer_gid;
      } in
      deliver fails (record { to = q; payload = payload; attachment = to_zbytes z a }) s
  reply fails now id q (err e) s = (s, err (cdr e))

  -- `send_response`, with the encoded response: `Server` encodes with `to_cdr`, `RawServer` has the
  -- bytes. The query is taken out before the response is encoded.
  unfoldable pub send_response :
      (Reply → Option Z)
      → ℤ
      → RmwRequestId
      → Result Bytes (CdrError E)
      → Server
      → Server × Result (Unit {0}) (ServiceError E Z)
  send_response fails now id encoded s = elim (get (key_of id) s.pending) [
    | none ↦ (s, err unknown_request)
    | some q ↦ reply fails now id q encoded (record s { pending = remove (key_of id) s.pending })
  ]

-- How `RawServer` reads a payload and writes a response.
abbrev pub as_it_is : {E : Type 0} → Bytes → Result Bytes (CdrError E)
as_it_is b = ok b

-- The methods of `RawServer`.
module _ (z : Serializer) {E Z : Type 0} where
  abbrev pub raw_accept : Query → Server → Server × Result (RmwRequestId × Bytes) (ServiceError E Z)
  raw_accept = accept z as_it_is

  abbrev pub raw_try_receive_request :
      Option Query → Server → Server × Result (Option (RmwRequestId × Bytes)) (ServiceError E Z)
  raw_try_receive_request = try_receive_request z as_it_is

  abbrev pub raw_async_receive_request :
      Option Query → Server → Server × Result (RmwRequestId × Bytes) (ServiceError E Z)
  raw_async_receive_request = async_receive_request z as_it_is

  abbrev pub raw_send_response :
      (Reply → Option Z)
      → ℤ
      → RmwRequestId
      → Bytes
      → Server
      → Server × Result (Unit {0}) (ServiceError E Z)
  raw_send_response fails now id response s =
      send_response z fails now id (as_it_is {E = E} response) s

-- `Client`, with its sequence counter.
pub record Client : Type 0 where
  pub seq : ℤ
  pub client_gid : Bytes

-- `Client::new_with_timeout`.
abbrev pub new_client : Bytes → Client
new_client client_gid = record { seq = pos 0; client_gid = client_gid }

module _ (z : Serializer) {E Z : Type 0} where
  abbrev attach :
      ℤ → Client → Result Bytes (CdrError E) → Client × Result (Bytes × Bytes) (ServiceError E Z)
  attach now c (err e) = (c, err (cdr e))
  attach now c (ok payload) =
      let seq = wrap_i64 (c.seq +ℤ pos 1) in
      let a : AttachmentData = record {
        sequence_number = seq;
        source_timestamp = now;
        source_gid = c.client_gid;
      } in
      (record c { seq = seq }, ok (payload, to_zbytes z a))

  -- `request_bytes`: the counter moves on only once the request is encoded.
  unfoldable pub request_bytes :
      {Req : Type 0}
      → BodyCodec Req E
      → ℤ
      → Req
      → Client
      → Client × Result (Bytes × Bytes) (ServiceError E Z)
  request_bytes codec now req c = attach now c (to_cdr codec req)

  -- `decode_reply` and the loop of `call`. `none` is an error reply, which is skipped.
  unfoldable pub first_reply :
      {Resp : Type 0} → BodyCodec Resp E → List (Option Bytes) → Result Resp (ServiceError E Z)
  first_reply codec [] = err no_reply
  first_reply codec (none ∷ replies) = first_reply codec replies
  first_reply codec (some payload ∷ replies) = map_err cdr (from_cdr codec payload)

  abbrev ask :
      {Resp : Type 0}
      → BodyCodec Resp E
      → (Bytes → Bytes → Result (List (Option Bytes)) Z)
      → Client × Result (Bytes × Bytes) (ServiceError E Z)
      → Client × Result Resp (ServiceError E Z)
  ask codec get_replies (c, ok (payload, attachment)) =
      (c, map_err zenoh (get_replies payload attachment) >>= first_reply codec)
  ask codec get_replies (c, err e) = (c, err e)

  -- `call` and `async_call`, with what the session yields on a `get`.
  unfoldable pub call :
      {Req Resp : Type 0}
      → BodyCodec Req E
      → BodyCodec Resp E
      → (Bytes → Bytes → Result (List (Option Bytes)) Z)
      → ℤ
      → Req
      → Client
      → Client × Result Resp (ServiceError E Z)
  call request_codec response_codec get_replies now req c =
      ask response_codec get_replies (request_bytes request_codec now req c)
