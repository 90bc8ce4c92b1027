-- ===== src/Zenoh/PubSub/Laws.antt =====
-- What a subscription receives of a publisher (src/zenoh_backend/pubsub.rs).
use ros2_client.Base.{
  List, [], ◌∷◌, ◌++◌, map, map-append, none, some, All, append_assoc, append-nil, ◌≡◌, refl, sym,
  ◌∙◌, ap, inl, inr,
}
use ros2_client.Base.Int.{ℤ, pos, ◌+ℤ◌, wrap_i64, IsI64}
use ros2_client.Base.Text.{Text}
use ros2_client.Base.Results.{Result, ok, err, Result-cases}
use ros2_client.Zenoh.Wire.{
  Bytes, BodyCodec, IsBodyCodec, CdrError, to_cdr, Serializer, IsGid, IsSerializer, AttachmentData,
  to_zbytes,
}
use ros2_client.Zenoh.Wire.Laws.{from_cdr-to_cdr, from_zbytes-to_zbytes}
use ros2_client.Zenoh.Service.Laws.{wrap_i64-IsI64}
use ros2_client.Zenoh.PubSub.{
  MessageInfo, TakeError, Sample, Publisher, publish, publish_raw, message_info_from, decode,
}

module _ {E M : Type 0} (codec : BodyCodec M E) where
  -- What comes of them: those that can be encoded, numbered without gaps.
  abbrev numbered :
      Bytes
      → ℤ
      → ℤ
      → M
      → (ℤ → List (Result (M × MessageInfo) (TakeError E)))
      → Result Bytes (CdrError E)
      → List (Result (M × MessageInfo) (TakeError E))
  numbered gid seq now m rest (err e) = rest seq
  numbered gid seq now m rest (ok payload) =
      let next = wrap_i64 (seq +ℤ pos 1) in
      ok (m, record { source_timestamp_nanos = now; sequence_number = next; source_gid = gid })
      ∷ rest next

  abbrev pub received : Bytes → List (ℤ × M) → ℤ → List (Result (M × MessageInfo) (TakeError E))
  received gid [] seq = []
  received gid ((now, m) ∷ ms) seq = numbered gid seq now m (received gid ms) (to_cdr codec m)

module _ (z : Serializer) {E M : Type 0} (codec : BodyCodec M E) where
  -- Messages with the times at which they are published, one after the other, all taken by zenoh.
  abbrev pub publish_all : List (ℤ × M) → Publisher → Publisher
  publish_all [] p = p
  publish_all ((now, m) ∷ ms) p =
      publish_all ms (publish z {Z = Unit {0}} codec (λ s. none) now m p).0

  module _ (law : IsBodyCodec codec) (wire : IsSerializer z) where
    decode_sent :
        (topic : Text) (gid payload : Bytes) (now seq : ℤ) (m : M)
        → IsI64 now
        → IsI64 seq
        → IsGid gid
        → to_cdr codec m ≡ ok payload
        → let a : AttachmentData = record {
          sequence_number = seq;
          source_timestamp = now;
          source_gid = gid;
        } in
          decode z codec
            (record { key_expr = topic; payload = payload; attachment = some (to_zbytes z a) })
          ≡ ok (m, record { source_timestamp_nanos = now; sequence_number = seq; source_gid = gid })
    unfolding decode message_info_from
    decode_sent topic gid payload now seq m t s g e =
        let a : AttachmentData = record {
          sequence_number = seq;
          source_timestamp = now;
          source_gid = gid;
        } in
        rw (from_cdr-to_cdr codec m payload law e, from_zbytes-to_zbytes z a wire s t g) refl

    -- The sample of a message that is published with a payload.
    abbrev sample_of : Publisher → ℤ → Bytes → Sample
    sample_of p now payload = record {
      key_expr = p.topic;
      payload = payload;
      attachment = some (
          to_zbytes z (record {
            sequence_number = wrap_i64 (p.seq +ℤ pos 1);
            source_timestamp = now;
            source_gid = p.source_gid;
          }));
    }

    published :
        (p : Publisher) (now : ℤ) (m : M) (payload : Bytes)
        → to_cdr codec m ≡ ok payload
        → (publish z {Z = Unit {0}} codec (λ s. none) now m p).0 ≡ record p {
          seq = wrap_i64 (p.seq +ℤ pos 1);
          sent = p.sent ++ sample_of p now payload ∷ [];
        }
    unfolding publish publish_raw
    published p now m payload e = rw e refl

    unpublished :
        (p : Publisher) (now : ℤ) (m : M) (x : CdrError E)
        → to_cdr codec m ≡ err x
        → (publish z {Z = Unit {0}} codec (λ s. none) now m p).0 ≡ p
    unfolding publish
    unpublished p now m x e = rw e refl

    -- Where the codec and the serializer read back what they write and zenoh takes every sample, a
    -- subscription that starts with the publisher decodes its samples to the messages that can be
    -- encoded, in their order, numbered one by one from the counter on, with the publisher's id and the
    -- times. A message that cannot be encoded leaves no gap.
    pub decode-publish_all :
        (ms : List (ℤ × M)) (p : Publisher)
        → IsGid p.source_gid
        → All (λ e. IsI64 e.0) ms
        → map (decode z codec) (publish_all ms p).sent
          ≡ map (decode z codec) p.sent ++ received codec p.source_gid ms p.seq
    decode-publish_all [] p g t = sym (append-nil (map (decode z codec) p.sent))
    decode-publish_all ((now, m) ∷ ms) p g (t, ts) =
        let dec = decode z {E = E} codec in
        elim (Result-cases (to_cdr codec m)) [
          | inl (payload, e) ↦
              let next = wrap_i64 (p.seq +ℤ pos 1) in
              let sample = sample_of p now payload in
              let p1 : Publisher = record p { seq = next; sent = p.sent ++ sample ∷ [] } in
              let rest = received codec p.source_gid ms next in
              ap (λ q. map dec (publish_all ms q).sent) (published p now m payload e)
              ∙ (decode-publish_all ms p1 g ts
                  ∙ (ap (λ l. l ++ rest) (map-append dec p.sent (sample ∷ []))
                      ∙ (append_assoc (map dec p.sent) (dec sample ∷ []) rest
                          ∙ (ap (λ r. map dec p.sent ++ r ∷ rest)
                                (decode_sent p.topic p.source_gid payload now next m t
                                  (wrap_i64-IsI64 (p.seq +ℤ pos 1)) g e)
                              ∙ ap
                                  (λ r.
                                    map dec p.sent
                                    ++ numbered codec p.source_gid p.seq now m
                                        (received codec p.source_gid ms) r)
                                  (sym e)))))
          | inr (x, e) ↦
              ap (λ q. map dec (publish_all ms q).sent) (unpublished p now m x e)
              ∙ (decode-publish_all ms p g ts
                  ∙ ap
                      (λ r.
                        map dec p.sent
                        ++ numbered codec p.source_gid p.seq now m (received codec p.source_gid ms)
                            r)
                      (sym e))
        ]
