-- ===== src/Discovery/Context.antt =====
-- What a node tells of its endpoints (src/node.rs) and what its context publishes of all its nodes
-- (`ContextInner` of src/context.rs). A failure to publish is only logged.
pub mod Announce
use ros2_client.Base.{
  ℕ, Bool, true, false, ◌&&◌, ◌||◌, List, [], ◌∷◌, ◌++◌, map, Option, none, some, if◌then◌else◌,
  ◌==◌, contains, ◌≡◌, refl, arith, ap, sym, ◌∙◌, inl, inr, Bool-cases,
}
use ros2_client.Base.Text.{Text, text_eq, text_eq_refl, text_eq_iff}
use ros2_client.Base.Ordered.{
  Map, text_key, nat_key, get, insert, remove, contains_key, get-insert, get-remove,
}
use ros2_client.Names.NodeName.{NodeName, fully_qualified_name}
use ros2_client.Discovery.Entities.{
  Gid, NodeEntitiesInfo, new_info, push_new, add_writer, add_reader, contains-push_new,
}

pub record ParticipantEntitiesInfo : Type 0 where
  pub gid : Gid
  pub node_entities_info_seq : List NodeEntitiesInfo

pub record ContextInner : Type 0 where
  pub participant : Gid
  pub node_writer : Gid
  pub local_nodes : Map Text NodeEntitiesInfo
  pub published : List ParticipantEntitiesInfo

abbrev pub participant_entities_info : ContextInner → ParticipantEntitiesInfo
participant_entities_info c = record {
  gid = c.participant;
  node_entities_info_seq = map (λ e. e.1) c.local_nodes;
}

unfoldable pub broadcast_node_infos : ContextInner → ContextInner
broadcast_node_infos c = record c { published = participant_entities_info c ∷ c.published }

unfoldable pub update_node : NodeEntitiesInfo → ContextInner → ContextInner
update_node info c =
    let told = add_writer c.node_writer info in
    broadcast_node_infos
      (record c { local_nodes = insert (fully_qualified_name told.name) told c.local_nodes })

unfoldable pub remove_node : Text → ContextInner → ContextInner
remove_node fqn c = broadcast_node_infos (record c { local_nodes = remove fqn c.local_nodes })

-- `Drop` of the context.
abbrev pub drop_context : ContextInner → ContextInner
drop_context c = broadcast_node_infos (record c { local_nodes = [] })

-- What a node has for discovery; `readers` and `writers` are BTreeSets.
pub record NodeEndpoints : Type 0 where
  pub node_name : NodeName
  pub readers : Map Gid (Unit {0})
  pub writers : Map Gid (Unit {0})
  pub parameter_events_writer : Gid
  pub rosout_writer : Option Gid
  pub suppress : Bool

abbrev pub add_readers : Map Gid (Unit {0}) → NodeEntitiesInfo → NodeEntitiesInfo
add_readers [] info = info
add_readers ((gid, u) ∷ gids) info = add_readers gids (add_reader gid info)

abbrev pub add_writers : Map Gid (Unit {0}) → NodeEntitiesInfo → NodeEntitiesInfo
add_writers [] info = info
add_writers ((gid, u) ∷ gids) info = add_writers gids (add_writer gid info)

abbrev pub add_rosout : Option Gid → NodeEntitiesInfo → NodeEntitiesInfo
add_rosout none info = info
add_rosout (some gid) info = add_writer gid info

-- `generate_node_info`.
unfoldable pub generate_node_info : NodeEndpoints → NodeEntitiesInfo
generate_node_info n = add_writers n.writers (
    add_readers n.readers
      (add_rosout n.rosout_writer (add_writer n.parameter_events_writer (new_info n.node_name))))

-- A node with its context: the update is sent unless updates are suppressed.
abbrev pub tell : NodeEndpoints → ContextInner → NodeEndpoints × ContextInner
tell n c = (n, if n.suppress then c else update_node (generate_node_info n) c)

-- `suppress_node_info_updates`, `Node::add_reader`, `Node::add_writer`.
abbrev pub suppress_node_info_updates :
    Bool → NodeEndpoints → ContextInner → NodeEndpoints × ContextInner
suppress_node_info_updates b n c = tell (record n { suppress = b }) c

abbrev pub node_add_reader : Gid → NodeEndpoints → ContextInner → NodeEndpoints × ContextInner
node_add_reader gid n c = tell (record n { readers = insert gid tt n.readers }) c

abbrev pub node_add_writer : Gid → NodeEndpoints → ContextInner → NodeEndpoints × ContextInner
node_add_writer gid n c = tell (record n { writers = insert gid tt n.writers }) c

-- `Drop` of the node.
abbrev pub drop_node : NodeEndpoints → ContextInner → ContextInner
drop_node n c = remove_node (fully_qualified_name n.node_name) c

-- What happens to a node, and beside it to another node of the same context.
pub data Op : Type 0 where
  adds_reader : Gid → Op
  adds_writer : Gid → Op
  suppresses : Bool → Op
  other_tells : NodeEndpoints → Op
  other_drops : NodeEndpoints → Op

abbrev pub step : NodeEndpoints × ContextInner → Op → NodeEndpoints × ContextInner
step (n, c) (adds_reader gid) = node_add_reader gid n c
step (n, c) (adds_writer gid) = node_add_writer gid n c
step (n, c) (suppresses b) = suppress_node_info_updates b n c
step (n, c) (other_tells m) = (n, (tell m c).1)
step (n, c) (other_drops m) = (n, drop_node m c)

abbrev pub run : NodeEndpoints × ContextInner → List Op → NodeEndpoints × ContextInner
run s [] = s
run s (op ∷ ops) = run (step s op) ops
