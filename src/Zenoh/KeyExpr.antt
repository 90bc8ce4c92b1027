-- ===== src/Zenoh/KeyExpr.antt =====
-- src/zenoh_backend/keyexpr.rs: data-plane and liveliness keys, and the parser of liveliness keys.
-- Numbers of type u16 and u64 are natural numbers; their ranges are hypotheses where they matter.
pub mod Laws
pub mod Mangle
use ros2_client.Base.{
  ℕ, suc, ◌^◌, ◌-◌, Bool, true, false, not, ◌&&◌, List, [], ◌∷◌, ◌++◌, Option, none, some, ◌>>=◌,
  if◌then◌else◌, is_empty, ◌==◌,
}
use ros2_client.Base.Text.{Text, codes, text_eq, replace, split, join}
use ros2_client.Base.Decimal.{to_string, parse_uint}

abbrev pub u16_max : ℕ
u16_max = 2 ^ 16 - 1

abbrev pub u64_max : ℕ
u64_max = 2 ^ 64 - 1

-- `ADMIN_SPACE`.
abbrev pub admin_space : Text
admin_space = codes "@ros2_lv"

pub data EntityKind : Type 0 where
  node publisher subscription service_server service_client : EntityKind

-- `EntityKind::code`.
abbrev pub code_of : EntityKind → Text
code_of node = codes "NN"
code_of publisher = codes "MP"
code_of subscription = codes "MS"
code_of service_server = codes "SS"
code_of service_client = codes "SC"

-- `mangle`.
unfoldable pub mangle : Text → Text
mangle [] = codes "%"
mangle (c ∷ name) = replace b'/' b'%' (c ∷ name)

-- `demangle`.
unfoldable pub demangle : Text → Text
demangle = replace b'%' b'/'

-- `trim_matches('/')` of `strip_slashes`, which strips all slashes at both ends.
abbrev trim_start : Text → Text
trim_start [] = []
trim_start (c ∷ s) = let rest = trim_start s in if c == b'/' then rest else c ∷ s

abbrev trim_end : Text → Text
trim_end [] = []
trim_end (c ∷ s) = let rest = trim_end s in if is_empty rest && c == b'/' then [] else c ∷ rest

unfoldable pub strip_slashes : Text → Text
strip_slashes fq_name = trim_end (trim_start fq_name)

-- `topic_keyexpr`.
unfoldable pub topic_keyexpr : ℕ → Text → Text → Text → Text
unfolding strip_slashes
topic_keyexpr domain_id fq_name type_name type_hash =
    join b'/' (to_string domain_id ∷ strip_slashes fq_name ∷ type_name ∷ type_hash ∷ [])

-- `graph_cache_keyexpr`.
unfoldable pub graph_cache_keyexpr : ℕ → Text
graph_cache_keyexpr domain_id = join b'/' (admin_space ∷ to_string domain_id ∷ codes "**" ∷ [])

pub record EntityIds : Type 0 where
  pub session_id : Text
  pub node_id : ℕ
  pub entity_id : ℕ
  pub enclave : Text
  pub namespace : Text
  pub node_name : Text

-- `node_liveliness_keyexpr`.
unfoldable pub node_liveliness_keyexpr : ℕ → EntityIds → Text
node_liveliness_keyexpr domain_id ids = join b'/' (
    admin_space
    ∷ to_string domain_id
    ∷ ids.session_id
    ∷ to_string ids.node_id
    ∷ to_string ids.node_id
    ∷ code_of node
    ∷ mangle ids.enclave
    ∷ mangle ids.namespace
    ∷ mangle ids.node_name
    ∷ [])

-- `entity_liveliness_keyexpr`.
unfoldable pub entity_liveliness_keyexpr :
    ℕ → EntityIds → EntityKind → Text → Text → Text → Text → Text
entity_liveliness_keyexpr domain_id ids kind qualified_name type_name type_hash qos = join b'/' (
    admin_space
    ∷ to_string domain_id
    ∷ ids.session_id
    ∷ to_string ids.node_id
    ∷ to_string ids.entity_id
    ∷ code_of kind
    ∷ mangle ids.enclave
    ∷ mangle ids.namespace
    ∷ mangle ids.node_name
    ∷ mangle qualified_name
    ∷ type_name
    ∷ type_hash
    ∷ qos
    ∷ [])

pub record ParsedEntity : Type 0 where
  pub domain_id : ℕ
  pub zid : Text
  pub node_id : ℕ
  pub entity_id : ℕ
  pub kind : EntityKind
  pub namespace : Text
  pub node_name : Text
  pub topic_name : Option Text
  pub type_name : Option Text
  pub type_hash : Option Text
  pub qos : Option Text

-- `parse_kind`.
unfoldable pub parse_kind : Text → Option EntityKind
parse_kind code =
    if text_eq code (codes "NN")
    then some node
    else if text_eq code (codes "MP")
    then some publisher
    else if text_eq code (codes "MS")
    then some subscription
    else if text_eq code (codes "SS")
    then some service_server
    else if text_eq code (codes "SC")
    then some service_client
    else none

-- The fields of a token, whose topic fields are absent for a node and otherwise four chunks, which
-- must be there.
unfoldable pub with_topic : EntityKind → List Text → ParsedEntity → Option ParsedEntity
with_topic node rest e = some e
with_topic kind (name ∷ ty ∷ hash ∷ qos ∷ more) e = some (record e {
  topic_name = some (demangle name);
  type_name = some ty;
  type_hash = some hash;
  qos = some qos;
})
with_topic kind _ e = none

-- The parser, on the chunks of the key. Fewer than nine chunks are no token.
unfoldable pub parse_chunks : List Text → Option ParsedEntity
unfolding with_topic
parse_chunks (admin ∷ domain ∷ zid ∷ nid ∷ eid ∷ code ∷ enclave ∷ ns ∷ name ∷ rest) =
    if not (text_eq admin admin_space) then none else do
      domain_id ← parse_uint u16_max domain
      node_id ← parse_uint u64_max nid
      entity_id ← parse_uint u64_max eid
      kind ← parse_kind code
      with_topic kind rest (record {
        domain_id = domain_id;
        zid = zid;
        node_id = node_id;
        entity_id = entity_id;
        kind = kind;
        namespace = demangle ns;
        node_name = demangle name;
        topic_name = none;
        type_name = none;
        type_hash = none;
        qos = none;
      })
parse_chunks _ = none

-- `parse_liveliness_key`.
unfoldable pub parse_liveliness_key : Text → Option ParsedEntity
parse_liveliness_key key = parse_chunks (split b'/' key)
