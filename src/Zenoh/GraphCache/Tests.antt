-- ===== src/Zenoh/GraphCache/Tests.antt =====
-- The theorems on the graph cache at the tokens of a talker.
use ros2_client.Base.{false, [], ◌∷◌, some, ◌≡◌, refl, arith}
use ros2_client.Base.Text.{Text, codes, text_eq_refl}
use ros2_client.Base.Ordered.{text_key, get}
use ros2_client.Zenoh.KeyExpr.{
  EntityIds, node, publisher, entity_liveliness_keyexpr, ParsedEntity, parse_liveliness_key,
}
use ros2_client.Zenoh.KeyExpr.Laws.{
  IsKeyable, topic_entity, parse_liveliness_key-entity_liveliness_keyexpr,
}
use ros2_client.Zenoh.GraphCache.{GraphCache, put, delete, run, join_fqn}
use ros2_client.Zenoh.GraphCache.Names.{Ascends, node_names, has, has_node, node_names_lem}
use ros2_client.Zenoh.GraphCache.Laws.{IsEntities, run-IsEntities, last_said, get-run}

abbrev topic : Text
topic = codes "/chatter"

abbrev ids : EntityIds
ids = record {
  session_id = codes "aac317";
  node_id = 0;
  entity_id = 10;
  enclave = [];
  namespace = codes "/robot1";
  node_name = codes "talker";
}

ids-IsKeyable : IsKeyable ids
ids-IsKeyable = record {
  session_fits = omega arith;
  node_fits = omega arith;
  entity_fits = omega arith;
  namespace_plain = omega arith;
  name_plain = omega arith;
}

abbrev token : Text
token =
    entity_liveliness_keyexpr 0 ids publisher topic (codes "String_") (codes "RIHS01")
      (codes "::,7:,:,:,,")

abbrev entity : ParsedEntity
entity = topic_entity 0 ids publisher topic (codes "String_") (codes "RIHS01") (codes "::,7:,:,:,,")

token_parsed : parse_liveliness_key token ≡ some entity
token_parsed =
    parse_liveliness_key-entity_liveliness_keyexpr 0 ids publisher topic (codes "String_")
      (codes "RIHS01") (codes "::,7:,:,:,,") (omega arith) ids-IsKeyable (λ e. cc) (omega arith)
      (omega arith) (omega arith) (omega arith)

abbrev one_entity : GraphCache
one_entity = record {
  entities = (token, entity) ∷ [];
  subscribers = record { closed = false; sent = [] } ∷ [];
}

one_entity-IsEntities : IsEntities one_entity.entities
unfolding get
one_entity-IsEntities = (token_parsed, refl, tt)

token_found : get token one_entity.entities ≡ some entity
unfolding get
token_found = rw (text_eq_refl token) refl

run-IsEntities_example :
    IsEntities (run (put token ∷ delete token ∷ put topic ∷ []) one_entity).entities
run-IsEntities_example =
    run-IsEntities (put token ∷ delete token ∷ put topic ∷ []) one_entity one_entity-IsEntities

get-run_example :
    get token (run (delete token ∷ put token ∷ []) one_entity).entities
    ≡ last_said token (delete token ∷ put token ∷ []) (get token one_entity.entities)
get-run_example = get-run token (delete token ∷ put token ∷ []) one_entity

abbrev node_called : Text → ParsedEntity
node_called name = record entity { kind = node; node_name = name }

-- Two nodes of one name and one of another, and an endpoint.
abbrev three_nodes : GraphCache
three_nodes = record {
  entities =
      (codes "a", node_called (codes "talker"))
      ∷ (codes "b", entity)
      ∷ (codes "c", node_called (codes "listener"))
      ∷ (codes "d", node_called (codes "talker"))
      ∷ [];
  subscribers = [];
}

node_names_lem_example :
    Ascends (node_names three_nodes)
    × (has (codes "/robot1/talker") (node_names three_nodes)
        ≡ has_node (codes "/robot1/talker") three_nodes.entities)
node_names_lem_example = node_names_lem three_nodes (codes "/robot1/talker")

node_names_sorted : node_names three_nodes ≡ codes "/robot1/listener" ∷ codes "/robot1/talker" ∷ []
unfolding node_names join_fqn
node_names_sorted = refl
