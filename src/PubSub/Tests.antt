-- ===== src/PubSub/Tests.antt =====
-- The theorem on the raw ends of a topic at a big-endian message, which comes back as a little-endian one.
use ros2_client.Base.{[], ◌∷◌, ◌≡◌, ◌↔◌, none, some, refl}
use ros2_client.Base.Int.{pos}
use ros2_client.Base.Results.{Result, ok}
use ros2_client.Service.Message.{Bytes, CacheChange, message_info_of}
use ros2_client.Service.Tests.{Error}
use ros2_client.PubSub.{RawMessageWrapper, new_raw, raw_publish, raw_take, without_header}
use ros2_client.PubSub.Laws.{IsLittleEndian, raw_take-raw_publish}

abbrev big_endian : Bytes
big_endian = 0 ∷ 0 ∷ 0 ∷ 0 ∷ 7 ∷ []

abbrev received : CacheChange RawMessageWrapper
received = record {
  source_timestamp = none;
  sequence_number = pos 1;
  writer_guid = [];
  related_sample_identity = none;
  value = new_raw big_endian;
}

abbrev write : RawMessageWrapper → Result (Unit {0}) Error
write w = ok tt

raw_take-raw_publish_example :
    (raw_publish write big_endian ≡ write received.value)
    × (raw_take {E = Error} (ok (some received))
        ≡ ok (some (0 ∷ 1 ∷ 0 ∷ 0 ∷ 7 ∷ [], message_info_of received)))
    × ((raw_take {E = Error} (ok (some received))
          ≡ ok (some (big_endian, message_info_of received)))
        ↔ IsLittleEndian big_endian)
unfolding without_header
raw_take-raw_publish_example = raw_take-raw_publish write big_endian received refl
