-- ===== src/Zenoh/Node.antt =====
-- src/zenoh_backend/node.rs: a node on a zenoh session, and how it makes publishers, subscriptions,
-- clients and servers. What the session answers to a declaration is a parameter, like the hashes of
-- keys and types. `declared` holds what the session took, the newest first.
pub mod Bundles
pub mod Keys
pub mod Distinct
pub mod Run
pub mod Seen
pub mod Tests
use ros2_client.Base.{
  ℕ, ◌+◌, ◌%◌, ◌^◌, Bool, true, false, List, [], ◌∷◌, ◌++◌, Option, none, some, if◌then◌else◌,
}
use ros2_client.Base.Text.{Text, codes, text_eq}
use ros2_client.Base.Results.{Result, ok, err}
use ros2_client.Names.NodeName.{NodeName}
use ros2_client.Names.Name.{Name, display}
use ros2_client.Names.TypeName.{MessageTypeName, dds_msg_type, ServiceTypeName, dds_service_type}
use ros2_client.Zenoh.Qos.{
  best_effort, reliable, volatile, keep_last, automatic, StdDuration, QosProfile, encode_qos,
}
use ros2_client.Zenoh.KeyExpr.{
  EntityKind, publisher, subscription, service_server, service_client, EntityIds, topic_keyexpr,
  node_liveliness_keyexpr, entity_liveliness_keyexpr,
}
use ros2_client.Zenoh.TypeHash.{wildcard, sender_hash}
use ros2_client.Zenoh.Wire.{Bytes}
use ros2_client.Zenoh.PubSub.{Publisher, new_publisher}
use ros2_client.Zenoh.Service.{Client, new_client, Server}

-- `QosProfile::subscription_default`, which is `QosProfile::default`.
abbrev pub default_qos : QosProfile
default_qos = record {
  reliability = best_effort;
  durability = volatile;
  history = keep_last 1;
  deadline = none;
  lifespan = none;
  liveliness = automatic;
  liveliness_lease = none;
}

-- `QosProfile::publisher_default`.
abbrev pub publisher_default : QosProfile
publisher_default = record default_qos { reliability = reliable }

pub record Topic : Type 0 where
  pub fully_qualified_name : Text
  pub dds_type_name : Text
  pub qos : QosProfile

-- What is declared on the session.
pub data Declaration : Type 0 where
  publisher_on subscriber_on queryable_on token_of : Text → Declaration

-- `Node`, with the domain of its context.
pub record Node : Type 0 where
  pub domain_id : ℕ
  pub zid : Text
  pub node_name : NodeName
  pub node_id : ℕ
  pub next_entity_id : ℕ
  pub node_token : Option Text
  pub declared : List Declaration

-- A subscription, a client and a server with the key on which the session has it.
pub record SubscriptionEnd : Type 0 where
  pub key : Text

pub record ClientEnd : Type 0 where
  pub selector : Text
  pub client : Client
  pub timeout : Option StdDuration

pub record ServerEnd : Type 0 where
  pub key : Text
  pub server : Server

-- A method that creates something: it may change the node and may fail.
abbrev pub Creates : Type 0 → Type 0 → Type 0
Creates Z A = Node → Node × Result A Z

abbrev pub then_on : {Z A B : Type 0} → (A → Creates Z B) → Node × Result A Z → Node × Result B Z
then_on f (n, ok a) = f a n
then_on f (n, err e) = (n, err e)

infixl 5 ◌>>=◌ ◌>>◌
unfoldable pub ◌>>=◌ : {Z A B : Type 0} → Creates Z A → (A → Creates Z B) → Creates Z B
m >>= f = λ n. then_on f (m n)

abbrev pub ◌>>◌ : {Z A B : Type 0} → Creates Z A → Creates Z B → Creates Z B
m >> k = m >>= λ _. k

abbrev pub pure : {Z A : Type 0} → A → Creates Z A
pure a n = (n, ok a)

abbrev pub reads : {Z A : Type 0} → (Node → A) → Creates Z A
reads f n = (n, ok (f n))

abbrev pub lift : {Z A : Type 0} → Result A Z → Creates Z A
lift r n = (n, r)

-- `resolve_fqn`.
unfoldable pub resolve_fqn : Name → NodeName → Text
resolve_fqn name node =
    if name.absolute
    then display name
    else if text_eq node.namespace (codes "/")
    then b'/' ∷ display name
    else node.namespace ++ b'/' ∷ display name

-- `Node::create_topic`.
unfoldable pub create_topic : Name → MessageTypeName → QosProfile → Node → Topic
create_topic name type_name qos n = record {
  fully_qualified_name = resolve_fqn name n.node_name;
  dds_type_name = dds_msg_type type_name;
  qos = qos;
}

-- The ids of an entity of the node.
abbrev pub entity_ids : ℕ → Node → EntityIds
entity_ids entity_id n = record {
  session_id = n.zid;
  node_id = n.node_id;
  entity_id = entity_id;
  enclave = [];
  namespace = n.node_name.namespace;
  node_name = n.node_name.base_name;
}

-- `Node::liveliness_key` and `Node::entity_liveliness_key`.
unfoldable pub liveliness_key : ℕ → EntityKind → Text → Text → Text → QosProfile → Node → Text
liveliness_key entity_id kind fqn dds_type hash qos n =
    entity_liveliness_keyexpr n.domain_id (entity_ids entity_id n) kind fqn dds_type hash
      (encode_qos qos)

abbrev pub or_topic_qos : Topic → Option QosProfile → QosProfile
or_topic_qos topic none = topic.qos
or_topic_qos topic (some qos) = qos

-- The fields of a node before its token is declared, and the token's key.
abbrev pub bare_node : ℕ → Text → NodeName → ℕ → Node
bare_node domain_id zid node_name node_id = record {
  domain_id = domain_id;
  zid = zid;
  node_name = node_name;
  node_id = node_id;
  next_entity_id = 0;
  node_token = none;
  declared = [];
}

abbrev pub node_key : Node → Text
node_key n = node_liveliness_keyexpr n.domain_id (entity_ids n.node_id n)

module _ {Z : Type 0} (fails : Declaration → Option Z) where
  -- A `declare_…(key).wait()?` of the session.
  unfoldable pub declare : Declaration → Creates Z (Unit {0})
  declare d n = elim (fails d) [
    | none ↦ (record n { declared = d ∷ n.declared }, ok tt)
    | some e ↦ (n, err e)
  ]

  -- `declare_liveliness`: a failure is only logged.
  unfoldable pub declare_liveliness : Text → Node → Node
  declare_liveliness key n = elim (fails (token_of key)) [
    | none ↦ record n { declared = token_of key ∷ n.declared }
    | some e ↦ n
  ]

  -- The steps that each entity goes through: it takes the next id, and declares its token.
  unfoldable pub new_entity : EntityKind → Text → Text → Text → QosProfile → Creates Z Text
  new_entity kind fqn dds_type hash qos n =
      let key = liveliness_key n.next_entity_id kind fqn dds_type hash qos n in
      (
        declare_liveliness key (record n { next_entity_id = (n.next_entity_id + 1) % 2 ^ 64 }),
        ok key,
      )

  -- `Node::new`.
  unfoldable pub new_node : ℕ → Text → NodeName → ℕ → Node
  new_node domain_id zid node_name node_id =
      let n = bare_node domain_id zid node_name node_id in
      elim (fails (token_of (node_key n))) [
        | none ↦ record n { node_token = some (node_key n) }
        | some e ↦ n
      ]

module _ (gid_from_liveliness_key : Text → Bytes) (digest : Text → List ℕ) {Z : Type 0}
    (fails : Declaration → Option Z) where
  -- `Node::create_publisher_with_type_hash`, and its raw form.
  unfoldable pub create_publisher_with_type_hash :
      Topic → Option QosProfile → Text → Creates Z Publisher
  create_publisher_with_type_hash topic qos hash = do
    key ← reads (λ n. topic_keyexpr n.domain_id topic.fully_qualified_name topic.dds_type_name hash)
    declare fails (publisher_on key)
    liveliness ←
        new_entity fails publisher topic.fully_qualified_name topic.dds_type_name hash
          (or_topic_qos topic qos)
    pure (new_publisher key (gid_from_liveliness_key liveliness))

  -- `Node::create_publisher` and `Node::create_raw_publisher`.
  abbrev pub create_publisher : Topic → Option QosProfile → Creates Z Publisher
  create_publisher topic qos =
      create_publisher_with_type_hash topic qos (sender_hash digest topic.dds_type_name)

  -- `Node::create_subscription` and `Node::create_raw_subscription`: the data key has a wildcard for the
  -- hash, the token has the sender's hash.
  unfoldable pub create_subscription : Topic → Option QosProfile → Creates Z SubscriptionEnd
  create_subscription topic qos = do
    key ←
        reads
          (λ n. topic_keyexpr n.domain_id topic.fully_qualified_name topic.dds_type_name wildcard)
    declare fails (subscriber_on key)
    liveliness ←
        new_entity fails subscription topic.fully_qualified_name topic.dds_type_name
          (sender_hash digest topic.dds_type_name) (or_topic_qos topic qos)
    pure (record { key = key })

  -- The data key of a service, with a given hash.
  abbrev pub service_key : Name → ServiceTypeName → Text → Node → Text
  service_key service service_type hash n =
      topic_keyexpr n.domain_id (resolve_fqn service n.node_name) (dds_service_type service_type)
        hash

  -- `Node::create_client_inner`.
  unfoldable pub create_client_inner :
      Name → ServiceTypeName → Option StdDuration → Creates Z ClientEnd
  create_client_inner service service_type timeout = do
    let hash = sender_hash digest (dds_service_type service_type)
    selector ← reads (service_key service service_type hash)
    fqn ← reads (λ n. resolve_fqn service n.node_name)
    liveliness ←
        new_entity fails service_client fqn (dds_service_type service_type) hash default_qos
    pure (record {
      selector = selector;
      client = new_client (gid_from_liveliness_key liveliness);
      timeout = timeout;
    })

  -- `Node::create_client`.
  abbrev pub create_client : Name → ServiceTypeName → Creates Z ClientEnd
  create_client service service_type = create_client_inner service service_type none

  -- `Node::create_raw_server_with_type_hash`.
  unfoldable pub create_raw_server_with_type_hash :
      Name → ServiceTypeName → Text → Creates Z ServerEnd
  create_raw_server_with_type_hash service service_type hash = do
    key ← reads (service_key service service_type hash)
    declare fails (queryable_on key)
    fqn ← reads (λ n. resolve_fqn service n.node_name)
    liveliness ←
        new_entity fails service_server fqn (dds_service_type service_type) hash default_qos
    pure (record { key = key; server = record { pending = []; sent = [] } })

  -- `Node::create_server` and `Node::create_raw_server`.
  abbrev pub create_server : Name → ServiceTypeName → Creates Z ServerEnd
  create_server service service_type =
      create_raw_server_with_type_hash service service_type
        (sender_hash digest (dds_service_type service_type))
