-- ===== src/PubSub.antt =====
-- src/pubsub.rs: subscriptions, and the raw ends that carry full CDR messages. The samples that a reader
-- of RustDDS holds, and what its writer does with a sample, are parameters.
pub mod Laws
pub mod Tests
use ros2_client.Base.{List, [], ◌∷◌, ◌++◌, map, Option, none, some}
use ros2_client.Base.Text.{codes}
use ros2_client.Base.Results.{Result, ok, err, ◌>>=◌}
use ros2_client.Service.Message.{Bytes, MessageInfo, CacheChange, message_info_of}
use ros2_client.Service.Wrappers.{Encoding, cdr_be, cdr_le, Dds}

abbrev pub dcc_to_value_and_messageinfo : {M : Type 0} → CacheChange M → M × MessageInfo
dcc_to_value_and_messageinfo dcc = (dcc.value, message_info_of dcc)

-- `Subscription::take`, with what `try_take_one` returns.
abbrev pub take :
    {M E : Type 0} → Result (Option (CacheChange M)) E → Result (Option (M × MessageInfo)) E
take (err e) = err e
take (ok none) = ok none
take (ok (some dcc)) = ok (some (dcc_to_value_and_messageinfo dcc))

-- The item of `Subscription::async_stream`.
abbrev pub stream_item : {M E : Type 0} → Result (CacheChange M) E → Result (M × MessageInfo) E
stream_item (err e) = err e
stream_item (ok dcc) = ok (dcc_to_value_and_messageinfo dcc)

abbrev pub async_stream :
    {M E : Type 0} → List (Result (CacheChange M) E) → List (Result (M × MessageInfo) E)
async_stream = map stream_item

-- `Subscription::async_take`, with the samples of the stream in their order.
abbrev pub async_take :
    {M E W : Type 0} → Dds E W → List (Result (CacheChange M) E) → Result (M × MessageInfo) E
async_take d [] =
    err (d.internal (codes "async_take(): SimpleDataReader value stream unexpectedly ended!"))
async_take d (sample ∷ stream) = stream_item sample

pub record RawMessageWrapper : Type 0 where
  pub serialized_message : Bytes
  pub encoding : Encoding

abbrev encapsulation_header : Encoding → Bytes
encapsulation_header cdr_be = 0 ∷ 0 ∷ 0 ∷ 0 ∷ []
encapsulation_header cdr_le = 0 ∷ 1 ∷ 0 ∷ 0 ∷ []

-- `message.get(4..).unwrap_or(message)`.
unfoldable pub without_header : Bytes → Bytes
without_header (b0 ∷ b1 ∷ b2 ∷ b3 ∷ body) = body
without_header message = message

unfoldable pub new_raw : Bytes → RawMessageWrapper
new_raw message = record { serialized_message = without_header message; encoding = cdr_le }

unfoldable pub unwrap_raw : RawMessageWrapper → Bytes
unwrap_raw w = encapsulation_header w.encoding ++ w.serialized_message

-- `RawPublisher::publish`: the writer is given the wrapper, and its error loses the data.
unfoldable pub raw_publish :
    {W : Type 0} → (RawMessageWrapper → Result (Unit {0}) W) → Bytes → Result (Unit {0}) W
raw_publish write cdr_message = write (new_raw cdr_message)

-- The value that `RawSubscription::take` and its `async_take` make of a sample.
abbrev pub raw_value_and_messageinfo : CacheChange RawMessageWrapper → Bytes × MessageInfo
raw_value_and_messageinfo dcc = (unwrap_raw dcc.value, message_info_of dcc)

abbrev pub raw_take :
    {E : Type 0}
    → Result (Option (CacheChange RawMessageWrapper)) E
    → Result (Option (Bytes × MessageInfo)) E
raw_take (err e) = err e
raw_take (ok none) = ok none
raw_take (ok (some dcc)) = ok (some (raw_value_and_messageinfo dcc))

abbrev pub raw_async_take :
    {E W : Type 0}
    → Dds E W
    → List (Result (CacheChange RawMessageWrapper) E)
    → Result (Bytes × MessageInfo) E
raw_async_take d [] =
    err (d.internal (codes "async_take(): SimpleDataReader value stream unexpectedly ended!"))
raw_async_take d (err e ∷ stream) = err e
raw_async_take d (ok dcc ∷ stream) = ok (raw_value_and_messageinfo dcc)

-- `Publisher::publish`: the time of the source is added by the writer.
abbrev pub publish : {M W : Type 0} → (M → Result (Unit {0}) W) → M → Result (Unit {0}) W
publish write message = write message
