-- ===== src/Zenoh/Node/Keys.antt =====
-- What the key of a token says at a glance: its fifth part is the entity's id, the sixth the code of its
-- kind (src/zenoh_backend/node.rs, src/zenoh_backend/keyexpr.rs).
use ros2_client.Base.{
  ℕ, ◌+◌, ◌∷◌, ◌++◌, Option, some, get_elem?, ◌≡◌, ◌≢◌, refl, arith, sym, ◌∙◌, ap,
}
use ros2_client.Base.Text.{Text, codes, Lacks, split, split-append}
use ros2_client.Base.Decimal.{to_string, parse_uint, parse_uint-to_string, to_string-Lacks}
use ros2_client.Zenoh.KeyExpr.{
  EntityKind, node, code_of, parse_kind, admin_space, EntityIds, node_liveliness_keyexpr,
  entity_liveliness_keyexpr,
}
use ros2_client.Zenoh.KeyExpr.Laws.{parse_kind-code_of}

abbrev pub id_part : Text → Option Text
id_part key = get_elem? (split b'/' key) 4

abbrev pub code_part : Text → Option Text
code_part key = get_elem? (split b'/' key) 5

number-Lacks : (n : ℕ) → Lacks b'/' (to_string n)
number-Lacks n = to_string-Lacks b'/' n (omega arith)

code_of-Lacks : (kind : EntityKind) → Lacks b'/' (code_of kind)
code_of-Lacks node = omega arith
code_of-Lacks _ = omega arith

split_parts :
    (domain_id nid eid : ℕ) (zid : Text) (kind : EntityKind) (rest : Text)
    → Lacks b'/' zid
    → split b'/' (
        admin_space
        ++ b'/'
          ∷ (to_string domain_id
              ++ b'/'
                ∷ (zid
                    ++ b'/'
                      ∷ (to_string nid
                          ++ b'/' ∷ (to_string eid ++ b'/' ∷ (code_of kind ++ b'/' ∷ rest))))))
      ≡ admin_space
        ∷ to_string domain_id
        ∷ zid
        ∷ to_string nid
        ∷ to_string eid
        ∷ code_of kind
        ∷ split b'/' rest
split_parts domain_id nid eid zid kind rest h =
    rw
      (
        split-append b'/' admin_space _ (omega arith),
        split-append b'/' (to_string domain_id) _ (number-Lacks domain_id),
        split-append b'/' zid _ h,
        split-append b'/' (to_string nid) _ (number-Lacks nid),
        split-append b'/' (to_string eid) _ (number-Lacks eid),
        split-append b'/' (code_of kind) _ (code_of-Lacks kind),
      )
      refl

pub entity_parts :
    (domain_id : ℕ) (ids : EntityIds) (kind : EntityKind) (fqn type_name hash qos : Text)
    → Lacks b'/' ids.session_id
    → let key = entity_liveliness_keyexpr domain_id ids kind fqn type_name hash qos in
      (id_part key ≡ some (to_string ids.entity_id)) × (code_part key ≡ some (code_of kind))
unfolding entity_liveliness_keyexpr
entity_parts domain_id ids kind fqn type_name hash qos h =
    let e = split_parts domain_id ids.node_id ids.entity_id ids.session_id kind _ h in
    (ap (λ ps. get_elem? ps 4) e, ap (λ ps. get_elem? ps 5) e)

pub node_code :
    (domain_id : ℕ) (ids : EntityIds)
    → Lacks b'/' ids.session_id
    → code_part (node_liveliness_keyexpr domain_id ids) ≡ some (codes "NN")
unfolding node_liveliness_keyexpr
node_code domain_id ids h =
    ap (λ ps. get_elem? ps 5)
      (split_parts domain_id ids.node_id ids.node_id ids.session_id node _ h)

pub code_of-ne-node :
    (kind : EntityKind)
    → kind ≢ node
    → ◌≢◌ {A = Option Text} (some (code_of kind)) (some (codes "NN"))
unfolding parse_kind
code_of-ne-node kind h e =
    let same : code_of kind ≡ codes "NN" = cc in
    let read : ◌≡◌ {A = Option EntityKind} (some kind) (some node) =
      sym (parse_kind-code_of kind) ∙ ap parse_kind same in
    h (cc)

pub to_string_injective : (n m : ℕ) → to_string n ≡ to_string m → n ≡ m
to_string_injective n m e =
    let read : ◌≡◌ {A = Option ℕ} (some n) (some m) =
      sym (parse_uint-to_string (n + m) n (omega arith))
      ∙ (ap (parse_uint (n + m)) e ∙ parse_uint-to_string (n + m) m (omega arith)) in
    cc
