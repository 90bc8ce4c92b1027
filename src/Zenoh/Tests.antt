-- ===== src/Zenoh/Tests.antt =====
-- The theorems on liveliness keys and QoS texts at the tokens of a running system.
use ros2_client.Base.{[], none, some, ◌≡◌, refl, arith}
use ros2_client.Base.Text.{Text, codes}
use ros2_client.Zenoh.KeyExpr.{
  EntityIds, publisher, strip_slashes, entity_liveliness_keyexpr, parse_liveliness_key,
}
use ros2_client.Zenoh.KeyExpr.Laws.{
  IsKeyable, topic_entity, parse_liveliness_key-entity_liveliness_keyexpr,
}
use ros2_client.Zenoh.Qos.{
  QosProfile, best_effort, transient_local, keep_last, automatic, encode_qos, decode_qos, decoded,
}
use ros2_client.Zenoh.Qos.Laws.{IsProfile, encode_qos-Lacks, decode_qos-encode_qos}

abbrev chatter_name : Text
chatter_name = codes "/chatter"

abbrev talker_ids : EntityIds
talker_ids = record {
  session_id = codes "aac3178e146ba6f1fc6e6a4085e77f21";
  node_id = 0;
  entity_id = 10;
  enclave = [];
  namespace = [];
  node_name = codes "talker";
}

talker_ids-IsKeyable : IsKeyable talker_ids
talker_ids-IsKeyable = record {
  session_fits = omega arith;
  node_fits = omega arith;
  entity_fits = omega arith;
  namespace_plain = tt;
  name_plain = omega arith;
}

abbrev profile : QosProfile
profile = record {
  reliability = best_effort;
  durability = transient_local;
  history = keep_last 7;
  deadline = none;
  lifespan = some (record { secs = 3; nanos = 500000000 });
  liveliness = automatic;
  liveliness_lease = some (record { secs = 10; nanos = 0 });
}

profile-IsProfile : IsProfile profile
profile-IsProfile = record {
  depth_fits = omega arith;
  deadline_fits = tt;
  lifespan_fits = (omega arith, omega arith);
  lease_fits = (omega arith, omega arith);
}

parse_liveliness_key-entity_liveliness_keyexpr_example :
    parse_liveliness_key (
      entity_liveliness_keyexpr 2 talker_ids publisher chatter_name
        (codes "String_")
        (codes "RIHS01_df")
        (encode_qos profile))
    ≡ some (
        topic_entity 2 talker_ids publisher chatter_name
          (codes "String_")
          (codes "RIHS01_df")
          (encode_qos profile))
parse_liveliness_key-entity_liveliness_keyexpr_example =
    parse_liveliness_key-entity_liveliness_keyexpr 2 talker_ids publisher chatter_name
      (codes "String_") (codes "RIHS01_df") (encode_qos profile) (omega arith) talker_ids-IsKeyable
      (λ e. cc) (omega arith) (omega arith) (omega arith) (encode_qos-Lacks profile)

decode_qos-encode_qos_example : decode_qos (encode_qos profile) ≡ decoded profile
decode_qos-encode_qos_example = decode_qos-encode_qos profile profile-IsProfile

robot_topic : strip_slashes (codes "/robot1/chatter") ≡ codes "robot1/chatter"
unfolding strip_slashes
robot_topic = refl
