-- ===== src/Zenoh/GraphCache.antt =====
-- src/zenoh_backend/graph_cache.rs: the cache of live entities, fed with the liveliness samples. A
-- HashMap is an association list whose new keys come last; a channel is what was sent on it, and
-- whether its receiver was dropped.
pub mod Laws
pub mod Counts
pub mod Names
pub mod Tests
use ros2_client.Base.{
  ℕ, ◌+◌, Bool, true, false, not, ◌&&◌, ◌||◌, List, [], ◌∷◌, ◌++◌, map, Option, none, some,
  if◌then◌else◌, ◌==◌, ltb, is_empty, ◌≡◌, ◌↔◌, length,
}
use ros2_client.Base.Text.{Text, codes, text_eq, text_eq_sound, text_eq_refl}
use ros2_client.Base.Ordered.{text_key, Map, get, insert, remove}
use ros2_client.Zenoh.KeyExpr.{
  EntityKind, node, publisher, subscription, service_server, service_client, ParsedEntity,
  parse_liveliness_key,
}

pub record GraphEntity : Type 0 where
  pub kind : EntityKind
  pub node_name : Text
  pub name : Option Text
  pub type_name : Option Text

pub data GraphEvent : Type 0 where
  entity_declared entity_undeclared : GraphEntity → GraphEvent

-- The sending end of a subscriber's channel.
pub record Sender : Type 0 where
  pub closed : Bool
  pub sent : List GraphEvent

pub record GraphCache : Type 0 where
  pub entities : Map Text ParsedEntity
  pub subscribers : List Sender

-- `join_fqn`.
unfoldable pub join_fqn : Text → Text → Text
join_fqn namespace name =
    if is_empty namespace || text_eq namespace (codes "/")
    then b'/' ∷ name
    else namespace ++ b'/' ∷ name

-- `impl From<&ParsedEntity> for GraphEntity`.
unfoldable pub graph_entity : ParsedEntity → GraphEntity
graph_entity e = record {
  kind = e.kind;
  node_name = join_fqn e.namespace e.node_name;
  name = e.topic_name;
  type_name = e.type_name;
}

-- `broadcast`: senders with a dropped receiver go, and the others get the event.
abbrev pub send_all : GraphEvent → List Sender → List Sender
send_all event [] = []
send_all event (s ∷ ss) =
    let rest = send_all event ss in
    if s.closed then rest else record s { sent = s.sent ++ event ∷ [] } ∷ rest

unfoldable pub broadcast : GraphEvent → GraphCache → GraphCache
broadcast event c = record c { subscribers = send_all event c.subscribers }

-- `apply_put`.
unfoldable pub apply_put : Text → GraphCache → GraphCache
unfolding broadcast
apply_put key c = elim (parse_liveliness_key key) [
  | none ↦ c
  | some e ↦
      broadcast (entity_declared (graph_entity e)) (record c { entities = insert key e c.entities })
]

-- `apply_delete`.
unfoldable pub apply_delete : Text → GraphCache → GraphCache
unfolding broadcast
apply_delete key c = elim (get key c.entities) [
  | none ↦ c
  | some e ↦
      broadcast (entity_undeclared (graph_entity e)) (record c { entities = remove key c.entities })
]

-- `subscribe`.
unfoldable pub subscribe : GraphCache → GraphCache
subscribe c = record c { subscribers = c.subscribers ++ record { closed = false; sent = [] } ∷ [] }

-- The derived equality of kinds.
abbrev pub kind_eq : EntityKind → EntityKind → Bool
kind_eq node node = true
kind_eq publisher publisher = true
kind_eq subscription subscription = true
kind_eq service_server service_server = true
kind_eq service_client service_client = true
kind_eq _ _ = false

-- `e.topic_name.as_deref() == Some(topic)`.
abbrev pub is_topic : Text → Option Text → Bool
is_topic topic none = false
is_topic topic (some t) = text_eq t topic

abbrev pub count : (ParsedEntity → Bool) → Map Text ParsedEntity → ℕ
count p [] = 0
count p ((k, e) ∷ m) = (if p e then 1 else 0) + count p m

abbrev pub is_on_topic : EntityKind → Text → ParsedEntity → Bool
is_on_topic kind topic e = kind_eq e.kind kind && is_topic topic e.topic_name

-- `count_kind_on_topic`, with `publisher_count`, `subscription_count` and `service_server_count`.
unfoldable pub count_kind_on_topic : EntityKind → Text → GraphCache → ℕ
count_kind_on_topic kind topic c = count (is_on_topic kind topic) c.entities

abbrev pub publisher_count : Text → GraphCache → ℕ
publisher_count = count_kind_on_topic publisher

abbrev pub subscription_count : Text → GraphCache → ℕ
subscription_count = count_kind_on_topic subscription

abbrev pub service_server_count : Text → GraphCache → ℕ
service_server_count = count_kind_on_topic service_server

-- A sample of the liveliness subscriber.
pub data Sample : Type 0 where
  put delete : Text → Sample

abbrev pub apply : Sample → GraphCache → GraphCache
apply (put key) c = apply_put key c
apply (delete key) c = apply_delete key c

abbrev pub run : List Sample → GraphCache → GraphCache
run [] c = c
run (s ∷ ss) c = run ss (apply s c)

abbrev pub empty_cache : GraphCache
empty_cache = record { entities = []; subscribers = [] }
