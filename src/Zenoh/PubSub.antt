-- ===== src/Zenoh/PubSub.antt =====
-- src/zenoh_backend/pubsub.rs: publishers and subscriptions on Zenoh, typed and raw. What `put` returns
-- and what the subscriber receives are parameters, the clock is an argument.
pub mod Laws
use ros2_client.Base.{ℕ, List, [], ◌∷◌, ◌++◌, Option, none, some}
use ros2_client.Base.Int.{ℤ, pos, ◌+ℤ◌, wrap_i64}
use ros2_client.Base.Text.{Text}
use ros2_client.Base.Results.{Result, ok, err, map_err, ok_or, ◌>>=◌}
use ros2_client.Zenoh.Wire.{
  Bytes, BodyCodec, CdrError, to_cdr, from_cdr, Serializer, AttachmentData, to_zbytes, from_zbytes,
}

pub record MessageInfo : Type 0 where
  pub source_timestamp_nanos : ℤ
  pub sequence_number : ℤ
  pub source_gid : Bytes

-- `MessageInfo::default`.
abbrev pub no_info : MessageInfo
no_info = record {
  source_timestamp_nanos = pos 0;
  sequence_number = pos 0;
  source_gid = 0 ∷ 0 ∷ 0 ∷ 0 ∷ 0 ∷ 0 ∷ 0 ∷ 0 ∷ 0 ∷ 0 ∷ 0 ∷ 0 ∷ 0 ∷ 0 ∷ 0 ∷ 0 ∷ [];
}

pub data PublishError (E Z : Type 0) : Type 0 where
  cdr : CdrError E → PublishError E Z
  zenoh : Z → PublishError E Z

pub data TakeError (E : Type 0) : Type 0 where
  cdr : CdrError E → TakeError E
  attachment : TakeError E
  closed : TakeError E

-- A zenoh sample, as far as a subscription reads it.
pub record Sample : Type 0 where
  pub key_expr : Text
  pub payload : Bytes
  pub attachment : Option Bytes

-- `Publisher` and `RawPublisher`: the counter, and the samples that zenoh took.
pub record Publisher : Type 0 where
  pub seq : ℤ
  pub source_gid : Bytes
  pub topic : Text
  pub sent : List Sample

-- `Publisher::new`.
abbrev pub new_publisher : Text → Bytes → Publisher
new_publisher topic source_gid = record {
  seq = pos 0;
  source_gid = source_gid;
  topic = topic;
  sent = [];
}

module _ (z : Serializer) {E Z : Type 0} where
  abbrev put :
      (Sample → Option Z) → Sample → Publisher → Publisher × Result (Unit {0}) (PublishError E Z)
  put fails sample p = elim (fails sample) [
    | none ↦ (record p { sent = p.sent ++ sample ∷ [] }, ok tt)
    | some e ↦ (p, err (zenoh e))
  ]

  -- `RawPublisher::publish`, `RawPublisher::async_publish` and `Publisher::publish_raw`.
  unfoldable pub publish_raw :
      (Sample → Option Z) → ℤ → Bytes → Publisher → Publisher × Result (Unit {0}) (PublishError E Z)
  publish_raw fails now payload p =
      let seq = wrap_i64 (p.seq +ℤ pos 1) in
      let a : AttachmentData = record {
        sequence_number = seq;
        source_timestamp = now;
        source_gid = p.source_gid;
      } in
      put fails
        (record { key_expr = p.topic; payload = payload; attachment = some (to_zbytes z a) })
        (record p { seq = seq })

  abbrev publish_encoded :
      (Sample → Option Z)
      → ℤ
      → Result Bytes (CdrError E)
      → Publisher
      → Publisher × Result (Unit {0}) (PublishError E Z)
  publish_encoded fails now (ok payload) p = publish_raw fails now payload p
  publish_encoded fails now (err e) p = (p, err (cdr e))

  -- `Publisher::publish` and `Publisher::async_publish`, with `encode`: the counter moves on only once
  -- the message is encoded.
  unfoldable pub publish :
      {M : Type 0}
      → BodyCodec M E
      → (Sample → Option Z)
      → ℤ
      → M
      → Publisher
      → Publisher × Result (Unit {0}) (PublishError E Z)
  publish codec fails now message p = publish_encoded fails now (to_cdr codec message) p

abbrev pub info_of : AttachmentData → MessageInfo
info_of a = record {
  source_timestamp_nanos = a.source_timestamp;
  sequence_number = a.sequence_number;
  source_gid = a.source_gid;
}

module _ (z : Serializer) {E : Type 0} where
  -- `message_info_from`.
  unfoldable pub message_info_from : Option Bytes → Result MessageInfo (TakeError E)
  message_info_from none = ok no_info
  message_info_from (some zbytes) = do a ← ok_or attachment (from_zbytes z zbytes); ok (info_of a)

  -- `Subscription::decode`.
  unfoldable pub decode :
      {M : Type 0} → BodyCodec M E → Sample → Result (M × MessageInfo) (TakeError E)
  decode codec sample = do
    message ← map_err cdr (from_cdr codec sample.payload)
    info ← message_info_from sample.attachment
    ok (message, info)

  -- `async_take`, once there is a sample or the channel is closed.
  abbrev pub async_take :
      {M : Type 0} → BodyCodec M E → Option Sample → Result (M × MessageInfo) (TakeError E)
  async_take codec none = err closed
  async_take codec (some sample) = decode codec sample

  -- `try_take`, with what `try_recv` returns: an error for a closed channel.
  abbrev pub try_take :
      {M C : Type 0}
      → BodyCodec M E
      → Result (Option Sample) C
      → Result (Option (M × MessageInfo)) (TakeError E)
  try_take codec (ok none) = ok none
  try_take codec (ok (some sample)) = decode codec sample >>= λ r. ok (some r)
  try_take codec (err c) = err closed

  -- `take_raw_keyed` and `take_raw`.
  unfoldable pub take_raw_keyed : Option Sample → Result (Text × Bytes × MessageInfo) (TakeError E)
  take_raw_keyed none = err closed
  take_raw_keyed (some sample) = do
    info ← message_info_from sample.attachment
    ok (sample.key_expr, sample.payload, info)

  abbrev pub take_raw : Option Sample → Result (Bytes × MessageInfo) (TakeError E)
  take_raw sample = take_raw_keyed sample >>= λ (key, bytes, info). ok (bytes, info)
