-- ===== src/Zenoh/Node/Seen.antt =====
-- What another process sees of a publisher that a node makes: its graph cache
-- (src/zenoh_backend/graph_cache.rs) reads the token that src/zenoh_backend/node.rs declares.
use ros2_client.Base.{
  ℕ, ◌+◌, ◌≤◌, List, [], ◌∷◌, ◌++◌, Option, none, some, true, false, ◌≡◌, ◌≢◌, refl, arith, ◌∙◌, ap,
  inl, inr, Bool-cases,
}
use ros2_client.Base.Text.{Text, codes, Lacks, text_eq, text_eq_refl}
use ros2_client.Base.Ordered.{text_key, get, get-insert, contains_key}
use ros2_client.Names.NodeName.{NodeName}
use ros2_client.Names.Chars.{name_chars-Lacks}
use ros2_client.Names.Name.{Name, display, slashed, token_ok}
use ros2_client.Names.Name.Laws.{IsName}
use ros2_client.Names.Name.Parts.{AllOk}
use ros2_client.Names.TypeName.{MessageTypeName, new_service_type, dds_msg_type, dds_types-Lacks}
use ros2_client.Zenoh.Qos.{QosProfile, encode_qos, decode_qos, decoded, Decoded}
use ros2_client.Zenoh.Qos.Laws.{IsProfile, encode_qos-Lacks, decode_qos-encode_qos}
use ros2_client.Zenoh.KeyExpr.{
  u16_max, u64_max, publisher, node, ParsedEntity, parse_liveliness_key,
}
use ros2_client.Zenoh.KeyExpr.Mangle.{root_if_empty}
use ros2_client.Zenoh.KeyExpr.Laws.{
  IsKeyable, topic_entity, parse_liveliness_key-entity_liveliness_keyexpr,
}
use ros2_client.Zenoh.GraphCache.{GraphCache, apply_put, publisher_count, is_on_topic}
use ros2_client.Zenoh.GraphCache.Laws.{IsEntities, put_token}
use ros2_client.Zenoh.GraphCache.Counts.{count_kind_on_topic-apply_put}
use ros2_client.Zenoh.TypeHash.{sender_hash, sender_hash-Lacks}
use ros2_client.Zenoh.Wire.{Bytes}
use ros2_client.Zenoh.Node.{
  Declaration, token_of, Node, ◌>>=◌, resolve_fqn, create_topic, entity_ids, liveliness_key,
  declare, declare_liveliness, new_entity, create_publisher_with_type_hash, create_publisher,
}

append-Lacks : (c : ℕ) (s t : Text) → Lacks c s → Lacks c t → Lacks c (s ++ t)
append-Lacks c [] t h k = k
append-Lacks c (x ∷ s) t (ne, h) k = (ne, append-Lacks c s t h k)

token_plain : (t : Text) → token_ok t ≡ true → Lacks b'%' t
token_plain t h = ground (arith, name_chars-Lacks t)

slashed-Lacks : (ts : List Text) → AllOk ts → Lacks b'%' (slashed ts)
slashed-Lacks [] h = tt
slashed-Lacks (t ∷ ts) (h, hs) =
    append-Lacks b'%' t (b'/' ∷ slashed ts) (token_plain t h) (omega arith, slashed-Lacks ts hs)

display-Lacks : (name : Name) → IsName name → Lacks b'%' (display name)
unfolding display
display-Lacks name h =
    let rest =
      append-Lacks b'%' (slashed name.preceeding_tokens) name.base_name
        (slashed-Lacks name.preceeding_tokens h.tokens_ok) (token_plain name.base_name h.base_ok) in
    elim (Bool-cases name.absolute) [ inl a ↦ rw a (omega arith, rest) | inr r ↦ rw r rest ]

resolve_fqn-Lacks :
    (name : Name) (owner : NodeName)
    → IsName name
    → Lacks b'%' owner.namespace
    → Lacks b'%' (resolve_fqn name owner)
unfolding resolve_fqn
resolve_fqn-Lacks name owner h k = ground (
  arith,
  display-Lacks name h,
  append-Lacks b'%' owner.namespace (b'/' ∷ display name) k (omega arith, display-Lacks name h),
)

root_if_empty-append : (s t : Text) → root_if_empty (s ++ b'/' ∷ t) ≡ s ++ b'/' ∷ t
root_if_empty-append [] t = refl
root_if_empty-append (c ∷ s) t = refl

-- A resolved name is not empty.
root_if_empty-resolve_fqn :
    (name : Name) (owner : NodeName)
    → root_if_empty (resolve_fqn name owner) ≡ resolve_fqn name owner
unfolding resolve_fqn display
root_if_empty-resolve_fqn name owner = elim (Bool-cases name.absolute) [
  | inl a ↦ rw a refl
  | inr r ↦ elim (Bool-cases (text_eq owner.namespace (codes "/"))) [
    | inl e ↦ rw (r, e) refl
    | inr e ↦
        rw (r, e)
          (root_if_empty-append owner.namespace (slashed name.preceeding_tokens ++ name.base_name))
  ]
]

publisher_ne_node : publisher ≢ node
publisher_ne_node e = cc

-- What a session, a node and a domain need for their keys to be read back.
pub record IsAnnounceable (n : Node) : Type 0 where
  pub domain_fits : n.domain_id ≤ u16_max
  pub zid_plain : Lacks b'/' n.zid
  pub node_fits : n.node_id ≤ u64_max
  pub entity_fits : n.next_entity_id ≤ u64_max
  pub namespace_plain : Lacks b'%' n.node_name.namespace
  pub name_plain : Lacks b'%' n.node_name.base_name

-- The key of the token that was declared last.
abbrev pub last_token : List Declaration → Text
last_token (token_of key ∷ ds) = key
last_token _ = []

-- The QoS that an entity in a cache announces.
abbrev pub announced_qos : Option ParsedEntity → Option (Decoded QosProfile)
announced_qos none = none
announced_qos (some e) = elim e.qos [ none ↦ none | some text ↦ some (decode_qos text) ]

module _ (digest : Text → List ℕ) (name : Name) (type_name : MessageTypeName) (qos : QosProfile)
    (n : Node) where
  abbrev publisher_key : Text
  publisher_key =
      liveliness_key n.next_entity_id publisher (resolve_fqn name n.node_name)
        (dds_msg_type type_name) (sender_hash digest (dds_msg_type type_name)) qos n

  abbrev publisher_entity : ParsedEntity
  publisher_entity =
      topic_entity n.domain_id (entity_ids n.next_entity_id n) publisher
        (resolve_fqn name n.node_name) (dds_msg_type type_name)
        (sender_hash digest (dds_msg_type type_name)) (encode_qos qos)

  publisher_read :
      IsAnnounceable n → IsName name → parse_liveliness_key publisher_key ≡ some publisher_entity
  unfolding liveliness_key
  publisher_read a h =
      let keyable : IsKeyable (entity_ids n.next_entity_id n) = record {
        session_fits = a.zid_plain;
        node_fits = a.node_fits;
        entity_fits = a.entity_fits;
        namespace_plain = a.namespace_plain;
        name_plain = a.name_plain;
      } in
      parse_liveliness_key-entity_liveliness_keyexpr n.domain_id (entity_ids n.next_entity_id n)
        publisher (resolve_fqn name n.node_name) (dds_msg_type type_name)
        (sender_hash digest (dds_msg_type type_name)) (encode_qos qos) a.domain_fits keyable
        publisher_ne_node (resolve_fqn-Lacks name n.node_name h a.namespace_plain)
        (dds_types-Lacks type_name (new_service_type [] [] [])).0
        (sender_hash-Lacks digest (dds_msg_type type_name)) (encode_qos-Lacks qos)

  publisher_seen :
      (c : GraphCache)
      → IsAnnounceable n
      → IsName name
      → IsProfile qos
      → IsEntities c.entities
      → contains_key publisher_key c.entities ≡ false
      → (publisher_count (resolve_fqn name n.node_name) (apply_put publisher_key c)
          ≡ publisher_count (resolve_fqn name n.node_name) c + 1)
        × (announced_qos (get publisher_key (apply_put publisher_key c).entities)
            ≡ some (decoded qos))
  publisher_seen c a h q v fresh =
      let fqn = resolve_fqn name n.node_name in
      let read = publisher_read a h in
      let on_topic : is_on_topic publisher fqn publisher_entity ≡ true =
        rw (root_if_empty-resolve_fqn name n.node_name) (text_eq_refl fqn) in
      let held : get publisher_key (apply_put publisher_key c).entities ≡ some publisher_entity =
        rw
          (
            put_token publisher_key publisher_entity c read,
            get-insert publisher_key publisher_key publisher_entity c.entities,
            text_eq_refl publisher_key,
          )
          refl in
      (
        count_kind_on_topic-apply_put publisher fqn publisher_key publisher_entity c v read
            ∙ rw (fresh, on_topic) refl,
        ap announced_qos held ∙ ap (λ d. some d) (decode_qos-encode_qos qos q),
      )

-- A node on a session that takes all declarations makes a publisher on a topic. Another process, whose
-- well-formed cache does not have the token's key, gets that token: it counts one publisher more on
-- the topic's resolved name, and has for the key an entity with the topic's QoS profile. The node's
-- names hold no percent sign, the session's id no slash, and the ids, the domain and the profile fit
-- their types.
pub create_publisher-publisher_count :
    (gid_of : Text → Bytes) (digest : Text → List ℕ) (Z : Type 0) (name : Name)
    (type_name : MessageTypeName) (qos : QosProfile) (n : Node) (c : GraphCache)
    → IsAnnounceable n
    → IsName name
    → IsProfile qos
    → IsEntities c.entities
    → let topic = create_topic name type_name qos n in
      let key =
        last_token (create_publisher gid_of digest {Z = Z} (λ d. none) topic none n).0.declared in
      contains_key key c.entities ≡ false
      → (publisher_count topic.fully_qualified_name (apply_put key c)
          ≡ publisher_count topic.fully_qualified_name c + 1)
        × (announced_qos (get key (apply_put key c).entities) ≡ some (decoded qos))
unfolding create_topic create_publisher_with_type_hash new_entity declare declare_liveliness ◌>>=◌
    liveliness_key
create_publisher-publisher_count gid_of digest Z name type_name qos n c a h q v fresh =
    publisher_seen digest name type_name qos n c a h q v fresh
