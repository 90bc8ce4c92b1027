-- ===== src/Service/Ends/Laws.antt =====
-- A client and a server in the Enhanced mapping, typed and raw (src/service/client.rs,
-- src/service/server.rs).
use ros2_client.Base.{
  false, true, List, [], ◌∷◌, ◌++◌, map, Option, none, some, All, ◌≡◌, ◌≢◌, ◌↔◌, refl, arith, ◌∙◌,
}
use ros2_client.Base.Int.{int_eq, int_eq_iff}
use ros2_client.Base.Text.{text_eq_sound, text_eq_refl}
use ros2_client.Base.Results.{Result, ok, ◌>>=◌}
use ros2_client.Service.Message.{
  Bytes, SampleIdentity, RmwRequestId, from_identity, CacheChange, enhanced,
}
use ros2_client.Service.Wrappers.{
  cdr_le, Codec, Dds, Wrapper, enhanced_request_id, new_request, unwrap_request, new_response,
  unwrap_response, encapsulated, new_raw,
}
use ros2_client.Service.Wrappers.Laws.{IsCodec, ReadsBack, read_written}
use ros2_client.Service.Ends.{
  Client, increment_sequence_number, WriteWithOptions, id_eq, send_request, read_response,
  async_receive_response, read_request, send_response, raw_read_request, raw_send_response,
}

pub id_eq_iff : (a b : RmwRequestId) → (id_eq a b ≡ true) ↔ (a ≡ b)
id_eq_iff a b = (
  λ h.
      let guid : a.writer_guid ≡ b.writer_guid =
        text_eq_sound a.writer_guid b.writer_guid (ground (arith, h)) in
      let seq : a.sequence_number ≡ b.sequence_number =
        (int_eq_iff a.sequence_number b.sequence_number).0 (ground (arith, h)) in
      λ i. record { writer_guid = guid i; sequence_number = seq i },
  λ e. rw (e, text_eq_refl b.writer_guid) ((int_eq_iff b.sequence_number b.sequence_number).1 refl),
)

-- A sample as a reader gets it: its identity, what it relates to, and its value.
abbrev pub sample : SampleIdentity → Option SampleIdentity → Bytes → CacheChange Wrapper
sample id related bytes = record {
  source_timestamp = none;
  sequence_number = id.sequence_number;
  writer_guid = id.writer_guid;
  related_sample_identity = related;
  value = record { serialized_message = bytes; encoding = cdr_le };
}

abbrev pub wrapped : Bytes → Wrapper
wrapped bytes = record { serialized_message = bytes; encoding = cdr_le }

module _ {E W : Type 0} (d : Dds E W) {Req Resp : Type 0} (rq : Codec Req E W)
    (rs : Codec Resp E W) where
  -- A sample that the client reads as a response to another request.
  abbrev pub IsForeign : RmwRequestId → Client → CacheChange Wrapper → Type 0
  IsForeign id c dcc = (r : RmwRequestId × Resp) × (read_response d rq rs c dcc ≡ ok r) × (r.0 ≢ id)

  skip_foreign :
      (id : RmwRequestId) (c : Client) (foreign : List (CacheChange Wrapper))
      (stream : List (Result (CacheChange Wrapper) E))
      → All (IsForeign id c) foreign
      → async_receive_response d rq rs id (map ok foreign ++ stream) c
        ≡ async_receive_response d rq rs id stream c
  unfolding async_receive_response
  skip_foreign id c [] stream h = refl
  skip_foreign id c (dcc ∷ foreign) stream ((r, e, other), h) =
      rw e (ground (arith, id_eq_iff r.0 id, other, skip_foreign id c foreign stream h))

  -- The first half of an exchange: the request is written as its bytes, and read under the identity.
  pub enhanced_request :
      (c : Client) (identity : SampleIdentity) (request : Req) (q : Bytes)
      → c.service_mapping ≡ enhanced
      → ReadsBack rq request
      → rq.write cdr_le request ≡ ok q
      → identity.sequence_number ≢ d.unknown
      → ((write : WriteWithOptions Wrapper W)
          → send_request d rq rs write request c ≡ (
            increment_sequence_number c,
            write (wrapped q) none >>= λ sent. ok (from_identity sent),
          ))
        × (read_request d rq rs enhanced (ok (sample identity none q))
            ≡ ok (from_identity identity, request))
  unfolding send_request new_request unwrap_request enhanced_request_id
  enhanced_request c identity request q mapping law wq known =
      let here : int_eq identity.sequence_number d.unknown ≡ false =
        ground (arith, int_eq_iff identity.sequence_number d.unknown, known) in
      (λ write. rw (mapping, wq) refl, rw (read_written rq cdr_le request q law wq, here) refl)

  -- What the client reads of the sample of a response.
  pub read_response_enhanced :
      (c : Client) (identity answered : SampleIdentity) (response : Resp) (p : Bytes)
      → c.service_mapping ≡ enhanced
      → ReadsBack rs response
      → rs.write cdr_le response ≡ ok p
      → read_response d rq rs c (sample answered (some identity) p)
        ≡ ok (from_identity identity, response)
  unfolding unwrap_response
  read_response_enhanced c identity answered response p mapping law wp =
      rw (mapping, read_written rs cdr_le response p law wp) refl

  -- In the Enhanced mapping, where the codecs read back what they write and the identity under which a
  -- request is sent is not of the unknown sequence number: the client writes the request's bytes and
  -- gets that identity as the request's id; the server reads that id and the request; it writes the
  -- response's bytes, related to the id; and the client that awaits the response to the id returns it,
  -- whatever responses to other requests come first and whatever comes after.
  pub enhanced_exchange :
      (c : Client) (identity answered : SampleIdentity) (request : Req) (response : Resp)
      (q p : Bytes) (foreign : List (CacheChange Wrapper))
      (after : List (Result (CacheChange Wrapper) E))
      → c.service_mapping ≡ enhanced
      → IsCodec rq
      → IsCodec rs
      → rq.write cdr_le request ≡ ok q
      → rs.write cdr_le response ≡ ok p
      → identity.sequence_number ≢ d.unknown
      → All (IsForeign (from_identity identity) c) foreign
      → let id = from_identity identity in
        ((write : WriteWithOptions Wrapper W)
          → send_request d rq rs write request c ≡ (
            increment_sequence_number c,
            write (wrapped q) none >>= λ sent. ok (from_identity sent),
          ))
        × (read_request d rq rs enhanced (ok (sample identity none q)) ≡ ok (id, request))
        × ((write : WriteWithOptions Wrapper W)
            → send_response d rq rs write enhanced id response
              ≡ (write (wrapped p) (some identity) >>= λ sent. ok tt))
        × (async_receive_response d rq rs id
              (map ok foreign ++ ok (sample answered (some identity) p) ∷ after)
              c
            ≡ ok response)
  unfolding send_response new_response async_receive_response
  enhanced_exchange c identity answered request response q p foreign after mapping law_q law_p wq wp
        known others =
      let (sent, read) = enhanced_request c identity request q mapping (law_q request) wq known in
      let answer : read_response d rq rs c (sample answered (some identity) p)
          ≡ ok (from_identity identity, response) =
        read_response_enhanced c identity answered response p mapping (law_p response) wp in
      let same : id_eq (from_identity identity) (from_identity identity) ≡ true =
        (id_eq_iff (from_identity identity) (from_identity identity)).1 refl in
      (
        sent,
        read,
        λ write. rw wp refl,
        skip_foreign (from_identity identity) c foreign
              (ok (sample answered (some identity) p) ∷ after) others
            ∙ rw (answer, same) refl,
      )

-- The raw server in the same exchange: it gets the request's id and its bytes as a full CDR message,
-- and a full CDR message that it responds with is written without the header, related to the id.
pub raw_exchange :
    {E W : Type 0} (d : Dds E W) (identity : SampleIdentity) (q p : Bytes)
    → identity.sequence_number ≢ d.unknown
    → let id = from_identity identity in
      (raw_read_request d (ok (sample identity none q)) ≡ ok (id, encapsulated cdr_le q))
      × ((write : WriteWithOptions Bytes W)
          → raw_send_response write id (encapsulated cdr_le p)
            ≡ (write p (some identity) >>= λ sent. ok tt))
unfolding enhanced_request_id raw_send_response encapsulated new_raw
raw_exchange d identity q p known =
    let here : int_eq identity.sequence_number d.unknown ≡ false =
      ground (arith, int_eq_iff identity.sequence_number d.unknown, known) in
    (rw here refl, λ write. refl)
