-- ===== src/Discovery/Entities.antt =====
-- src/entities_info.rs: the endpoints of a node as they are told to other participants. A Gid is a
-- number, since only its identity is used.
use ros2_client.Base.{
  ℕ, true, ◌||◌, List, [], ◌∷◌, ◌++◌, if◌then◌else◌, ◌==◌, contains, ◌≡◌, refl, arith, inl, inr,
  Bool-cases, ==_iff,
}
use ros2_client.Base.Text.{Text}
use ros2_client.Names.Chars.{NameResult, ok, err}
use ros2_client.Names.NodeName.{NodeName, new_node_name}

abbrev pub Gid : Type 0
Gid = ℕ

pub record NodeEntitiesInfo : Type 0 where
  pub name : NodeName
  pub reader_gid_seq : List Gid
  pub writer_gid_seq : List Gid

abbrev pub new_info : NodeName → NodeEntitiesInfo
new_info name = record { name = name; reader_gid_seq = []; writer_gid_seq = [] }

-- A push of what is not there yet.
unfoldable pub push_new : Gid → List Gid → List Gid
push_new gid gids = if contains gid gids then gids else gids ++ gid ∷ []

abbrev pub add_writer : Gid → NodeEntitiesInfo → NodeEntitiesInfo
add_writer gid n = record n { writer_gid_seq = push_new gid n.writer_gid_seq }

abbrev pub add_reader : Gid → NodeEntitiesInfo → NodeEntitiesInfo
add_reader gid n = record n { reader_gid_seq = push_new gid n.reader_gid_seq }

-- `repr::NodeEntitiesInfo`, with `From` and `TryFrom`.
pub record ReprInfo : Type 0 where
  pub node_namespace : Text
  pub node_name : Text
  pub reader_gid_seq : List Gid
  pub writer_gid_seq : List Gid

abbrev pub to_repr : NodeEntitiesInfo → ReprInfo
to_repr n = record {
  node_namespace = n.name.namespace;
  node_name = n.name.base_name;
  reader_gid_seq = n.reader_gid_seq;
  writer_gid_seq = n.writer_gid_seq;
}

abbrev with_name : ReprInfo → NameResult NodeName → NameResult NodeEntitiesInfo
with_name r (err e) = err e
with_name r (ok name) =
    ok
      (record { name = name; reader_gid_seq = r.reader_gid_seq; writer_gid_seq = r.writer_gid_seq })

unfoldable pub try_from_repr : ReprInfo → NameResult NodeEntitiesInfo
try_from_repr r = with_name r (new_node_name r.node_namespace r.node_name)

-- A node info with a name that `NodeName::new` makes is read back from its wire form.
pub try_from_repr-to_repr :
    (n : NodeEntitiesInfo)
    → new_node_name n.name.namespace n.name.base_name ≡ ok n.name
    → try_from_repr (to_repr n) ≡ ok n
unfolding try_from_repr
try_from_repr-to_repr n h = rw h refl

contains-snoc :
    (j gid : Gid) (gids : List Gid) → contains j (gids ++ gid ∷ []) ≡ (contains j gids || gid == j)
contains-snoc j gid [] = ground arith
contains-snoc j gid (i ∷ gids) = ground (arith, contains-snoc j gid gids)

pub contains-push_new :
    (j gid : Gid) (gids : List Gid) → contains j (push_new gid gids) ≡ (contains j gids || gid == j)
unfolding push_new
contains-push_new j gid gids = elim (Bool-cases (contains gid gids)) [
  | inl h ↦ elim (Bool-cases (gid == j)) [
    | inl e ↦ let here : contains j gids ≡ true = rw ((==_iff gid j).0 e) at h in rw (h, here) refl
    | inr e ↦ rw (h, e) (ground arith)
  ]
  | inr h ↦ rw h (contains-snoc j gid gids)
]
