-- ===== src/Service/Message.antt =====
-- src/service/request_id.rs, src/message_info.rs and the service mappings of src/service/mod.rs. A GUID
-- is the list of its 16 bytes, and a sequence number the i64 that it wraps.
use ros2_client.Base.{ℕ, List, Option}
use ros2_client.Base.Int.{ℤ, pos}

abbrev pub Bytes : Type 0
Bytes = List ℕ

abbrev pub Guid : Type 0
Guid = Bytes

-- `SampleIdentity` of RustDDS.
pub record SampleIdentity : Type 0 where
  pub writer_guid : Guid
  pub sequence_number : ℤ

pub record RmwRequestId : Type 0 where
  pub writer_guid : Guid
  pub sequence_number : ℤ

-- `From<RmwRequestId> for SampleIdentity` and `From<SampleIdentity> for RmwRequestId`.
abbrev pub to_identity : RmwRequestId → SampleIdentity
to_identity r = record { writer_guid = r.writer_guid; sequence_number = r.sequence_number }

abbrev pub from_identity : SampleIdentity → RmwRequestId
from_identity s = record { writer_guid = s.writer_guid; sequence_number = s.sequence_number }

pub record MessageInfo : Type 0 where
  pub received_timestamp : ℤ
  pub source_timestamp : Option ℤ
  pub sequence_number : ℤ
  pub publisher : Guid
  pub related_sample_identity : Option SampleIdentity

abbrev pub writer_guid : MessageInfo → Guid
writer_guid mi = mi.publisher

abbrev pub sample_identity : MessageInfo → SampleIdentity
sample_identity mi = record { writer_guid = writer_guid mi; sequence_number = mi.sequence_number }

-- `DeserializedCacheChange` of RustDDS, by what its methods return.
pub record CacheChange (W : Type 0) : Type 0 where
  pub source_timestamp : Option ℤ
  pub sequence_number : ℤ
  pub writer_guid : Guid
  pub related_sample_identity : Option SampleIdentity
  pub value : W

-- `From<&DeserializedCacheChange> for MessageInfo`.
abbrev pub message_info_of : {W : Type 0} → CacheChange W → MessageInfo
message_info_of dcc = record {
  received_timestamp = pos 0;
  source_timestamp = dcc.source_timestamp;
  sequence_number = dcc.sequence_number;
  publisher = dcc.writer_guid;
  related_sample_identity = dcc.related_sample_identity;
}

pub data ServiceMapping : Type 0 where
  basic enhanced cyclone : ServiceMapping
