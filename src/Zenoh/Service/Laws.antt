-- ===== src/Zenoh/Service/Laws.antt =====
-- How the two ends of a service on Zenoh work together (src/zenoh_backend/service.rs).
use ros2_client.Base.{ℕ, ◌<◌, ◌^◌, List, [], ◌∷◌, map, Option, none, some, ◌≡◌, refl, arith, ap}
use ros2_client.Base.Int.{ℤ, pos, negsuc, ◌+ℤ◌, wrap_i64, IsI64, residue}
use ros2_client.Base.Text.{Text}
use ros2_client.Base.Ordered.{get, insert}
use ros2_client.Base.Results.{Result, ok, err}
use ros2_client.Zenoh.Wire.{
  Bytes, BodyCodec, IsBodyCodec, CdrError, to_cdr, from_cdr, Serializer, IsGid, IsSerializer,
  to_zbytes,
}
use ros2_client.Zenoh.Wire.Laws.{from_cdr-to_cdr, from_zbytes-to_zbytes}
use ros2_client.Zenoh.Service.{
  RmwRequestId, ServiceError, Query, request_key, key_of, Server, accept, send_response, Client,
  request_bytes, first_reply, call, as_it_is,
}

residue_lt : (m : ℕ) (a : ℤ) → 0 < m → residue m a < m
residue_lt m (pos n) h = omega arith
residue_lt m (negsuc n) h = omega arith

pub wrap_i64-IsI64 : (a : ℤ) → IsI64 (wrap_i64 a)
wrap_i64-IsI64 a = ground (arith, residue_lt (2 ^ 64) a (omega arith))

-- The id and the query of the next request of a client.
abbrev pub next_id : Client → RmwRequestId
next_id c = record { writer_gid = c.client_gid; sequence_number = wrap_i64 (c.seq +ℤ pos 1) }

module _ (z : Serializer) where
  abbrev pub attachment_of : ℤ → RmwRequestId → Bytes
  attachment_of now id = to_zbytes z (record {
    sequence_number = id.sequence_number;
    source_timestamp = now;
    source_gid = id.writer_gid;
  })

  abbrev pub query_of : Text → ℤ → RmwRequestId → Bytes → Query
  query_of expr now id payload = record {
    key_expr = expr;
    payload = some payload;
    attachment = some (attachment_of now id);
  }

-- A session that delivers the query to one server, which answers it at once.
module _ (z : Serializer) {E : Type 0} (Z : Type 0) {R A : Type 0} (handler : R → A)
    (encode : A → Result Bytes (CdrError E)) where
  abbrev pub answer : Server × Result (RmwRequestId × R) (ServiceError E Z) → Server
  answer (s, ok (id, req)) =
      (send_response z {Z = Z} (λ r. none) (pos 0) id (encode (handler req)) s).0
  answer (s, err e) = s

  abbrev pub session :
      (Bytes → Result R (CdrError E)) → Text → Bytes → Bytes → Result (List (Option Bytes)) Z
  session decode expr payload attachment =
      let q : Query = record {
        key_expr = expr;
        payload = some payload;
        attachment = some attachment;
      } in
      ok (
        map (λ r. some r.payload)
          (answer (accept z decode q (record { pending = []; sent = [] }))).sent)

module _ (z : Serializer) {E Z : Type 0} (law : IsSerializer z) where
  pub accept_sent :
      {R : Type 0} (decode : Bytes → Result R (CdrError E)) (expr : Text) (now : ℤ) (c : Client)
      (payload : Bytes) (r : R) (s : Server)
      → IsI64 now
      → IsGid c.client_gid
      → decode payload ≡ ok r
      → accept z {Z = Z} decode (query_of z expr now (next_id c) payload) s ≡ (
        record s {
          pending = insert (key_of (next_id c)) (query_of z expr now (next_id c) payload) s.pending;
        },
        ok (next_id c, r),
      )
  unfolding accept
  accept_sent decode expr now c payload r s stamp gid e =
      rw
        (
          e,
          from_zbytes-to_zbytes z
              (record {
                sequence_number = (next_id c).sequence_number;
                source_timestamp = now;
                source_gid = c.client_gid;
              })
              law (wrap_i64-IsI64 (c.seq +ℤ pos 1)) stamp gid,
        )
        refl

  session-replies :
      {R A : Type 0} (decode : Bytes → Result R (CdrError E)) (handler : R → A)
      (encode : A → Result Bytes (CdrError E)) (expr : Text) (now : ℤ) (c : Client)
      (payload : Bytes) (r : R) (reply : Bytes)
      → IsI64 now
      → IsGid c.client_gid
      → decode payload ≡ ok r
      → encode (handler r) ≡ ok reply
      → session z Z handler encode decode expr payload (attachment_of z now (next_id c))
        ≡ ok (some reply ∷ [])
  unfolding send_response get insert
  session-replies decode handler encode expr now c payload r reply stamp gid d e =
      rw (accept_sent decode expr now c payload r (record { pending = []; sent = [] }) stamp gid d)
        (ground (arith, e, request_key.eq_iff (key_of (next_id c)) (key_of (next_id c))))

  pub call-first_reply :
      {Req Resp : Type 0} (rq : BodyCodec Req E) (rs : BodyCodec Resp E)
      (get_replies : Bytes → Bytes → Result (List (Option Bytes)) Z) (now : ℤ) (req : Req)
      (c : Client) (payload : Bytes) (replies : List (Option Bytes))
      → to_cdr rq req ≡ ok payload
      → get_replies payload (attachment_of z now (next_id c)) ≡ ok replies
      → call z rq rs get_replies now req c
        ≡ (record c { seq = (next_id c).sequence_number }, first_reply z rs replies)
  unfolding call request_bytes
  call-first_reply rq rs get_replies now req c payload replies p got = rw p (rw got refl)

  call-session :
      {Req Resp R A : Type 0} (rq : BodyCodec Req E) (rs : BodyCodec Resp E)
      (decode : Bytes → Result R (CdrError E)) (handler : R → A)
      (encode : A → Result Bytes (CdrError E)) (expr : Text) (now : ℤ) (req : Req) (c : Client)
      (payload : Bytes) (r : R) (reply : Bytes) (resp : Resp)
      → IsI64 now
      → IsGid c.client_gid
      → to_cdr rq req ≡ ok payload
      → decode payload ≡ ok r
      → encode (handler r) ≡ ok reply
      → from_cdr rs reply ≡ ok resp
      → call z rq rs (session z Z handler encode decode expr) now req c
        ≡ (record c { seq = (next_id c).sequence_number }, ok resp)
  unfolding first_reply
  call-session rq rs decode handler encode expr now req c payload r reply resp stamp gid p d e
        back =
      rw
        (call-first_reply rq rs (session z Z handler encode decode expr) now req c payload
          (some reply ∷ []) p
          (session-replies decode handler encode expr now c payload r reply stamp gid d e))
        (rw back refl)

  -- Where the codecs and the serializer read back what they write, and request and response can be
  -- encoded, a call that reaches a server returns what the server's handler makes of the request: with
  -- a typed server, and with a raw server whose handler turns the payload of the request into the
  -- payload of that response. The client's counter has moved on by one.
  pub call_served :
      {Req Resp : Type 0} (rq : BodyCodec Req E) (rs : BodyCodec Resp E) (handler : Req → Resp)
      (raw_handler : Bytes → Bytes) (expr : Text) (now : ℤ) (req : Req) (c : Client)
      (payload reply : Bytes)
      → IsBodyCodec rq
      → IsBodyCodec rs
      → IsI64 now
      → IsGid c.client_gid
      → to_cdr rq req ≡ ok payload
      → to_cdr rs (handler req) ≡ ok reply
      → raw_handler payload ≡ reply
      → let c' : Client = record c { seq = wrap_i64 (c.seq +ℤ pos 1) } in
        (call z rq rs (session z Z handler (to_cdr rs) (from_cdr rq) expr) now req c
          ≡ (c', ok (handler req)))
        × (call z rq rs (session z Z raw_handler (as_it_is {E = E}) as_it_is expr) now req c
            ≡ (c', ok (handler req)))
  call_served rq rs handler raw_handler expr now req c payload reply law_rq law_rs stamp gid p e
        raw =
      let back = from_cdr-to_cdr rs (handler req) reply law_rs e in
      (
        call-session rq rs (from_cdr rq) handler (to_cdr rs) expr now req c payload req reply
            (handler req) stamp gid p (from_cdr-to_cdr rq req payload law_rq p) e back,
        call-session rq rs as_it_is raw_handler as_it_is expr now req c payload payload reply
            (handler req) stamp gid p refl (ap ok raw) back,
      )
