-- ===== src/Zenoh/KeyExpr/Laws.antt =====
-- Liveliness keys are read back by `parse_liveliness_key` (src/zenoh_backend/keyexpr.rs).
use ros2_client.Base.{ℕ, [], ◌∷◌, ◌≡◌, ◌≢◌, refl, arith, none, some, ◌≤◌, ◌∙◌}
use ros2_client.Base.Text.{Text, Lacks, split-join}
use ros2_client.Base.Decimal.{to_string, parse_uint-to_string, to_string-Lacks}
use ros2_client.Zenoh.KeyExpr.{
  u16_max, u64_max, admin_space, EntityKind, node, publisher, subscription, service_server,
  service_client, code_of, mangle, demangle, EntityIds, node_liveliness_keyexpr,
  entity_liveliness_keyexpr, ParsedEntity, parse_kind, with_topic, parse_chunks,
  parse_liveliness_key,
}
use ros2_client.Zenoh.KeyExpr.Mangle.{mangle-Lacks, root_if_empty, demangle-mangle}

number-Lacks : (n : ℕ) → Lacks b'/' (to_string n)
number-Lacks n = to_string-Lacks b'/' n (omega arith)

code_of-Lacks : (kind : EntityKind) → Lacks b'/' (code_of kind)
code_of-Lacks node = omega arith
code_of-Lacks _ = omega arith

pub parse_kind-code_of : (kind : EntityKind) → parse_kind (code_of kind) ≡ some kind
unfolding parse_kind
parse_kind-code_of node = refl
parse_kind-code_of _ = refl

-- What a key can carry: a session id with no slash, names with no percent sign, ids in u64.
pub record IsKeyable (ids : EntityIds) : Type 0 where
  pub session_fits : Lacks b'/' ids.session_id
  pub node_fits : ids.node_id ≤ u64_max
  pub entity_fits : ids.entity_id ≤ u64_max
  pub namespace_plain : Lacks b'%' ids.namespace
  pub name_plain : Lacks b'%' ids.node_name

-- What a node token says.
abbrev pub node_entity : ℕ → EntityIds → ParsedEntity
node_entity domain_id ids = record {
  domain_id = domain_id;
  zid = ids.session_id;
  node_id = ids.node_id;
  entity_id = ids.node_id;
  kind = node;
  namespace = root_if_empty ids.namespace;
  node_name = root_if_empty ids.node_name;
  topic_name = none;
  type_name = none;
  type_hash = none;
  qos = none;
}

-- A node's liveliness key is read back to its domain, session, ids and names, if the domain fits
-- u16, the ids fit u64, the session id holds no slash and the names no percent sign. The entity id
-- is the node's and an empty name comes back as the root.
pub parse_liveliness_key-node_liveliness_keyexpr :
    (domain_id : ℕ) (ids : EntityIds)
    → domain_id ≤ u16_max
    → IsKeyable ids
    → parse_liveliness_key (node_liveliness_keyexpr domain_id ids)
      ≡ some (node_entity domain_id ids)
unfolding parse_liveliness_key node_liveliness_keyexpr parse_chunks with_topic
parse_liveliness_key-node_liveliness_keyexpr domain_id ids d k =
    rw
      (split-join b'/' admin_space
        (to_string domain_id
          ∷ ids.session_id
          ∷ to_string ids.node_id
          ∷ to_string ids.node_id
          ∷ code_of node
          ∷ mangle ids.enclave
          ∷ mangle ids.namespace
          ∷ mangle ids.node_name
          ∷ [])
        (
          omega arith,
          (
            number-Lacks domain_id,
            (
              k.session_fits,
              (
                number-Lacks ids.node_id,
                (
                  number-Lacks ids.node_id,
                  (
                    code_of-Lacks node,
                    (
                      (mangle-Lacks ids.enclave).0,
                      ((mangle-Lacks ids.namespace).0, ((mangle-Lacks ids.node_name).0, tt)),
                    ),
                  ),
                ),
              ),
            ),
          ),
        ))
      (rw (
        parse_uint-to_string u16_max domain_id d,
        parse_uint-to_string u64_max ids.node_id k.node_fits,
        parse_kind-code_of node,
        demangle-mangle ids.namespace k.namespace_plain,
        demangle-mangle ids.node_name k.name_plain,
      ))

-- What the token of a publisher, subscription, server or client says.
abbrev pub topic_entity : ℕ → EntityIds → EntityKind → Text → Text → Text → Text → ParsedEntity
topic_entity domain_id ids kind name type_name type_hash qos = record {
  domain_id = domain_id;
  zid = ids.session_id;
  node_id = ids.node_id;
  entity_id = ids.entity_id;
  kind = kind;
  namespace = root_if_empty ids.namespace;
  node_name = root_if_empty ids.node_name;
  topic_name = some (root_if_empty name);
  type_name = some type_name;
  type_hash = some type_hash;
  qos = some qos;
}

with_topic_lem :
    (kind : EntityKind) (name ty hash qos : Text) (e : ParsedEntity)
    → kind ≢ node
    → with_topic kind (name ∷ ty ∷ hash ∷ qos ∷ []) e
      ≡ some (record e {
        topic_name = some (demangle name);
        type_name = some ty;
        type_hash = some hash;
        qos = some qos;
      })
unfolding with_topic
with_topic_lem node name ty hash qos e h = absurd (h refl)
with_topic_lem publisher name ty hash qos e h = refl
with_topic_lem subscription name ty hash qos e h = refl
with_topic_lem service_server name ty hash qos e h = refl
with_topic_lem service_client name ty hash qos e h = refl

-- The key of a publisher, subscription, server or client is read back to all its fields, if the
-- domain fits u16, the ids fit u64, its session id, type name, type hash and QoS hold no slash and
-- its names no percent sign; an empty name comes back as the root.
pub parse_liveliness_key-entity_liveliness_keyexpr :
    (domain_id : ℕ) (ids : EntityIds) (kind : EntityKind) (name type_name type_hash qos : Text)
    → domain_id ≤ u16_max
    → IsKeyable ids
    → kind ≢ node
    → Lacks b'%' name
    → Lacks b'/' type_name
    → Lacks b'/' type_hash
    → Lacks b'/' qos
    → parse_liveliness_key
        (entity_liveliness_keyexpr domain_id ids kind name type_name type_hash qos)
      ≡ some (topic_entity domain_id ids kind name type_name type_hash qos)
unfolding parse_liveliness_key entity_liveliness_keyexpr parse_chunks
parse_liveliness_key-entity_liveliness_keyexpr domain_id ids kind name type_name type_hash qos d k
      other n t h q =
    rw
      (split-join b'/' admin_space
        (to_string domain_id
          ∷ ids.session_id
          ∷ to_string ids.node_id
          ∷ to_string ids.entity_id
          ∷ code_of kind
          ∷ mangle ids.enclave
          ∷ mangle ids.namespace
          ∷ mangle ids.node_name
          ∷ mangle name
          ∷ type_name
          ∷ type_hash
          ∷ qos
          ∷ [])
        (
          omega arith,
          (
            number-Lacks domain_id,
            (
              k.session_fits,
              (
                number-Lacks ids.node_id,
                (
                  number-Lacks ids.entity_id,
                  (
                    code_of-Lacks kind,
                    (
                      (mangle-Lacks ids.enclave).0,
                      (
                        (mangle-Lacks ids.namespace).0,
                        (
                          (mangle-Lacks ids.node_name).0,
                          ((mangle-Lacks name).0, (t, (h, (q, tt)))),
                        ),
                      ),
                    ),
                  ),
                ),
              ),
            ),
          ),
        ))
      (rw
        (
          parse_uint-to_string u16_max domain_id d,
          parse_uint-to_string u64_max ids.node_id k.node_fits,
          parse_uint-to_string u64_max ids.entity_id k.entity_fits,
          parse_kind-code_of kind,
        )
        (with_topic_lem kind (mangle name) type_name type_hash qos _ other
          ∙ rw (
            demangle-mangle ids.namespace k.namespace_plain,
            demangle-mangle ids.node_name k.name_plain,
            demangle-mangle name n,
          )))
