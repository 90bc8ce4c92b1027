-- ===== src/Zenoh/Node/Tests.antt =====
-- The theorems on a node at a talker in the root namespace, and on a wait for its topic.
use ros2_client.Base.{ℕ, ◌+◌, true, List, [], ◌∷◌, Option, none, some, ◌≡◌, refl, arith}
use ros2_client.Base.Text.{Text, codes, split}
use ros2_client.Base.Decimal.{parse_uint}
use ros2_client.Base.Ordered.{text_key, get, insert}
use ros2_client.Names.Chars.{NameError}
use ros2_client.Names.NodeName.{NodeName}
use ros2_client.Names.Name.{Name}
use ros2_client.Names.TypeName.{MessageTypeName, new_message_type, new_action_type}
use ros2_client.Zenoh.Qos.{decoded}
use ros2_client.Zenoh.KeyExpr.{publisher, parse_liveliness_key, parse_chunks, parse_kind, demangle}
use ros2_client.Zenoh.GraphCache.{
  GraphCache, apply_put, publisher_count, count_kind_on_topic, empty_cache, subscribe, Sample, put,
  delete, Sender,
}
use ros2_client.Zenoh.GraphCache as Cache
use ros2_client.Zenoh.Wire.{Bytes}
use ros2_client.Zenoh.Node.{
  Declaration, Node, Topic, new_node, publisher_default, create_topic, create_publisher,
}
use ros2_client.Zenoh.Node.Distinct.{AllDistinct, all_tokens, tokens}
use ros2_client.Zenoh.Node.Run.{
  Op, publishes, subscribes, serves_action, serves_parameters, logs, run, run-AllDistinct,
}
use ros2_client.Zenoh.Node.Seen.{last_token, announced_qos, create_publisher-publisher_count}
use ros2_client.Zenoh.Context.{wait_for}
use ros2_client.Zenoh.Context.Wait.{wait_for_returns}

abbrev talker : NodeName
talker = record { namespace = codes "/"; base_name = codes "talker" }

abbrev chatter : Name
chatter = record { base_name = codes "chatter"; preceeding_tokens = []; absolute = true }

abbrev string_type : MessageTypeName
string_type = new_message_type (codes "std_msgs") (codes "String")

abbrev gid_of : Text → Bytes
gid_of key = 7 ∷ []

abbrev digest : Text → List ℕ
digest json = 1 ∷ 2 ∷ []

abbrev accepts : Declaration → Option (Unit {0})
accepts d = none

abbrev name_err : NameError → Unit {0}
name_err e = tt

abbrev talker_node : Node
talker_node = record {
  domain_id = 0;
  zid = codes "a1";
  node_name = talker;
  node_id = 3;
  next_entity_id = 5;
  node_token = none;
  declared = [];
}

abbrev topic : Topic
topic = create_topic chatter string_type publisher_default talker_node

abbrev ops : List Op
ops =
    publishes topic none
    ∷ subscribes topic (some publisher_default)
    ∷ serves_action chatter (new_action_type (codes "p") (codes "A"))
    ∷ serves_parameters
    ∷ logs
    ∷ []

run-AllDistinct_example : AllDistinct (
    all_tokens
      (run gid_of digest accepts name_err ops (new_node accepts 0 (codes "a1") talker 3)).node_token
      (tokens
        (run gid_of digest accepts name_err ops
          (new_node accepts 0 (codes "a1") talker 3)).declared))
run-AllDistinct_example =
    run-AllDistinct gid_of digest accepts name_err 0 3 (codes "a1") talker ops (omega arith)
      (omega arith)

abbrev talker_key : Text
talker_key = last_token (create_publisher gid_of digest accepts topic none talker_node).0.declared

create_publisher-publisher_count_example :
    (publisher_count topic.fully_qualified_name (apply_put talker_key empty_cache)
      ≡ publisher_count topic.fully_qualified_name empty_cache + 1)
    × (announced_qos (get talker_key (apply_put talker_key empty_cache).entities)
        ≡ some (decoded publisher_default))
unfolding get
create_publisher-publisher_count_example =
    create_publisher-publisher_count gid_of digest (Unit {0}) chatter string_type publisher_default
      talker_node empty_cache (omega arith) (record { base_ok = refl; tokens_ok = tt })
      (omega arith) tt refl

abbrev plain_key : Text
plain_key =
    codes "@ros2_lv/0/a1/3/5/MP/%/%/talker/%chatter/std_msgs::msg::dds_::String_/h/::,1:,:,:,,"

one_publisher :
    count_kind_on_topic publisher
      (codes "/chatter")
      (Cache.run (put plain_key ∷ []) (Cache.run [] (subscribe empty_cache)))
    ≡ 1
unfolding count_kind_on_topic apply_put parse_liveliness_key parse_chunks split parse_uint
    parse_kind insert subscribe demangle
one_publisher = refl

wait_for_returns_example :
    wait_for publisher (codes "/chatter") [] (put plain_key ∷ []) empty_cache ≡ true
wait_for_returns_example =
    wait_for_returns publisher (codes "/chatter") [] (put plain_key ∷ []) empty_cache tt tt
      (omega (arith, one_publisher))
