-- ===== src/Discovery/Context/Announce.antt =====
-- A node is announced as it is (src/node.rs, src/context.rs).
use ros2_client.Base.{
  Bool, true, false, ◌||◌, List, [], ◌∷◌, Option, none, some, if◌then◌else◌, ◌==◌, contains, All,
  ◌≡◌, ◌≢◌, refl, arith, ap, sym, subst, ◌∙◌, ◌⊎◌, inr,
}
use ros2_client.Base.Text.{Text, text_eq, text_eq_refl, text_eq_iff}
use ros2_client.Base.Ordered.{
  Map, text_key, nat_key, get, insert, contains_key, get-insert, get-remove,
}
use ros2_client.Names.NodeName.{fully_qualified_name}
use ros2_client.Discovery.Entities.{
  Gid, NodeEntitiesInfo, new_info, add_writer, add_reader, contains-push_new,
}
use ros2_client.Discovery.Context.{
  ParticipantEntitiesInfo, ContextInner, participant_entities_info, broadcast_node_infos,
  update_node, remove_node, NodeEndpoints, add_readers, add_writers, add_rosout, generate_node_info,
  Op, adds_reader, adds_writer, suppresses, other_tells, other_drops, step, run,
}

name-add_writers :
    (gids : Map Gid (Unit {0})) (info : NodeEntitiesInfo) → (add_writers gids info).name ≡ info.name
name-add_writers [] info = refl
name-add_writers ((gid, u) ∷ gids) info = name-add_writers gids (add_writer gid info)

name-add_readers :
    (gids : Map Gid (Unit {0})) (info : NodeEntitiesInfo) → (add_readers gids info).name ≡ info.name
name-add_readers [] info = refl
name-add_readers ((gid, u) ∷ gids) info = name-add_readers gids (add_reader gid info)

name-add_rosout :
    (rosout : Option Gid) (info : NodeEntitiesInfo) → (add_rosout rosout info).name ≡ info.name
name-add_rosout none info = refl
name-add_rosout (some gid) info = refl

name-generate_node_info : (n : NodeEndpoints) → (generate_node_info n).name ≡ n.node_name
unfolding generate_node_info
name-generate_node_info n =
    name-add_writers n.writers _
    ∙ (name-add_readers n.readers _ ∙ name-add_rosout n.rosout_writer _)

-- The info of the node is in the context as it is now, unless updates are suppressed.
abbrev pub IsAnnounced : NodeEndpoints × ContextInner → Type 0
IsAnnounced (n, c) =
    n.suppress ≡ false
    → get (fully_qualified_name n.node_name) c.local_nodes
      ≡ some (add_writer c.node_writer (generate_node_info n))

-- What was last published is what the context has, and before that it has nothing.
abbrev pub IsTold : ContextInner → Type 0
IsTold c =
    ((c.published ≡ []) × (c.local_nodes ≡ []))
    ⊎ ((before : List ParticipantEntitiesInfo) × (c.published
          ≡ participant_entities_info c ∷ before))

-- An operation of a node of another name, or of the node itself.
abbrev pub IsApart : Text → Op → Type 0
IsApart fqn (adds_reader gid) = Unit
IsApart fqn (adds_writer gid) = Unit
IsApart fqn (suppresses b) = Unit
IsApart fqn (other_tells m) = fully_qualified_name m.node_name ≢ fqn
IsApart fqn (other_drops m) = fully_qualified_name m.node_name ≢ fqn

-- What a history keeps, for a node with that name.
abbrev IsKept : Text → NodeEndpoints × ContextInner → Type 0
IsKept fqn (n, c) = (fully_qualified_name n.node_name ≡ fqn) × IsAnnounced (n, c) × IsTold c

IsTold-update_node : (info : NodeEntitiesInfo) (c : ContextInner) → IsTold (update_node info c)
unfolding update_node broadcast_node_infos
IsTold-update_node info c = inr (c.published, refl)

get-update_node :
    (k : Text) (info : NodeEntitiesInfo) (c : ContextInner)
    → get k (update_node info c).local_nodes ≡ (
        if text_eq (fully_qualified_name info.name) k
        then some (add_writer c.node_writer info)
        else get k c.local_nodes)
unfolding update_node broadcast_node_infos
get-update_node k info c =
    get-insert (fully_qualified_name info.name) k (add_writer c.node_writer info) c.local_nodes

writer-update_node :
    (info : NodeEntitiesInfo) (c : ContextInner) → (update_node info c).node_writer ≡ c.node_writer
unfolding update_node broadcast_node_infos
writer-update_node info c = refl

get-remove_node :
    (k fqn : Text) (c : ContextInner)
    → get k (remove_node fqn c).local_nodes ≡ (if text_eq fqn k then none else get k c.local_nodes)
unfolding remove_node broadcast_node_infos
get-remove_node k fqn c = get-remove fqn k c.local_nodes

IsTold-remove_node : (fqn : Text) (c : ContextInner) → IsTold (remove_node fqn c)
unfolding remove_node broadcast_node_infos
IsTold-remove_node fqn c = inr (c.published, refl)

writer-remove_node :
    (fqn : Text) (c : ContextInner) → (remove_node fqn c).node_writer ≡ c.node_writer
unfolding remove_node broadcast_node_infos
writer-remove_node fqn c = refl

true_ne_false : {A : Type 0} → true ≡ false → A
true_ne_false e = absurd cc

text_ne : (a b : Text) → a ≢ b → text_eq a b ≡ false
text_ne a b h = ground (arith, text_eq_iff a b, h)

tell-IsKept :
    (b : Bool) (n : NodeEndpoints) (c : ContextInner)
    → n.suppress ≡ b
    → IsTold c
    → IsKept
        (fully_qualified_name n.node_name)
        (n, if b then c else update_node (generate_node_info n) c)
tell-IsKept true n c h told = (refl, λ off. true_ne_false (sym h ∙ off), told)
tell-IsKept false n c h told = (
  refl,
  λ off.
      rw
        (
          writer-update_node (generate_node_info n) c,
          get-update_node (fully_qualified_name n.node_name) (generate_node_info n) c,
          name-generate_node_info n,
          text_eq_refl (fully_qualified_name n.node_name),
        )
        refl,
  IsTold-update_node (generate_node_info n) c,
)

other-IsKept :
    (b : Bool) (fqn : Text) (n m : NodeEndpoints) (c : ContextInner)
    → fully_qualified_name m.node_name ≢ fqn
    → IsKept fqn (n, c)
    → IsKept fqn (n, if b then c else update_node (generate_node_info m) c)
other-IsKept true fqn n m c apart h = h
other-IsKept false fqn n m c apart (e, announced, told) = (
  e,
  λ off.
      rw
        (
          writer-update_node (generate_node_info m) c,
          get-update_node (fully_qualified_name n.node_name) (generate_node_info m) c,
          name-generate_node_info m,
          e,
          text_ne (fully_qualified_name m.node_name) fqn apart,
        )
        (rw e at (announced off)),
  IsTold-update_node (generate_node_info m) c,
)

drop-IsKept :
    (fqn : Text) (n m : NodeEndpoints) (c : ContextInner)
    → fully_qualified_name m.node_name ≢ fqn
    → IsKept fqn (n, c)
    → IsKept fqn (n, remove_node (fully_qualified_name m.node_name) c)
drop-IsKept fqn n m c apart (e, announced, told) = (
  e,
  λ off.
      rw
        (
          get-remove_node (fully_qualified_name n.node_name) (fully_qualified_name m.node_name) c,
          e,
          text_ne (fully_qualified_name m.node_name) fqn apart,
          writer-remove_node (fully_qualified_name m.node_name) c,
        )
        (rw e at (announced off)),
  IsTold-remove_node (fully_qualified_name m.node_name) c,
)

step-IsKept :
    (fqn : Text) (s : NodeEndpoints × ContextInner) (op : Op)
    → IsApart fqn op
    → IsKept fqn s
    → IsKept fqn (step s op)
step-IsKept fqn (n, c) (adds_reader gid) apart (e, announced, told) =
    subst (λ k. IsKept k (step (n, c) (adds_reader gid))) e
      (tell-IsKept n.suppress (record n { readers = insert gid tt n.readers }) c refl told)
step-IsKept fqn (n, c) (adds_writer gid) apart (e, announced, told) =
    subst (λ k. IsKept k (step (n, c) (adds_writer gid))) e
      (tell-IsKept n.suppress (record n { writers = insert gid tt n.writers }) c refl told)
step-IsKept fqn (n, c) (suppresses b) apart (e, announced, told) =
    subst (λ k. IsKept k (step (n, c) (suppresses b))) e
      (tell-IsKept b (record n { suppress = b }) c refl told)
step-IsKept fqn (n, c) (other_tells m) apart h = other-IsKept m.suppress fqn n m c apart h
step-IsKept fqn (n, c) (other_drops m) apart h = drop-IsKept fqn n m c apart h

run-IsKept :
    (fqn : Text) (s : NodeEndpoints × ContextInner) (ops : List Op)
    → All (IsApart fqn) ops
    → IsKept fqn s
    → IsKept fqn (run s ops)
run-IsKept fqn s [] apart h = h
run-IsKept fqn s (op ∷ ops) (a, apart) h =
    run-IsKept fqn (step s op) ops apart (step-IsKept fqn s op a h)

-- A node that begins with its updates suppressed is announced as it is whenever they are not, over any
-- history of its endpoints and of other nodes of the context with other names; and what the context
-- last published is all that it has.
pub run-IsAnnounced :
    (n : NodeEndpoints) (c : ContextInner) (ops : List Op)
    → n.suppress ≡ true
    → IsTold c
    → All (IsApart (fully_qualified_name n.node_name)) ops
    → IsAnnounced (run (n, c) ops) × IsTold (run (n, c) ops).1
run-IsAnnounced n c ops off told apart =
    let (e, announced, last) =
      run-IsKept (fully_qualified_name n.node_name) (n, c) ops apart
        (refl, λ on. true_ne_false (sym off ∙ on), told) in
    (announced, last)

contains-add_writers :
    (j : Gid) (gids : Map Gid (Unit {0})) (info : NodeEntitiesInfo)
    → contains j (add_writers gids info).writer_gid_seq
      ≡ (contains j info.writer_gid_seq || contains_key j gids)
unfolding get
contains-add_writers j [] info = ground arith
contains-add_writers j ((gid, u) ∷ gids) info = ground (
  arith,
  contains-add_writers j gids (add_writer gid info),
  contains-push_new j gid info.writer_gid_seq,
)

contains-add_readers :
    (j : Gid) (gids : Map Gid (Unit {0})) (info : NodeEntitiesInfo)
    → contains j (add_readers gids info).reader_gid_seq
      ≡ (contains j info.reader_gid_seq || contains_key j gids)
unfolding get
contains-add_readers j [] info = ground arith
contains-add_readers j ((gid, u) ∷ gids) info = ground (
  arith,
  contains-add_readers j gids (add_reader gid info),
  contains-push_new j gid info.reader_gid_seq,
)

readers-add_writers :
    (gids : Map Gid (Unit {0})) (info : NodeEntitiesInfo)
    → (add_writers gids info).reader_gid_seq ≡ info.reader_gid_seq
readers-add_writers [] info = refl
readers-add_writers ((gid, u) ∷ gids) info = readers-add_writers gids (add_writer gid info)

writers-add_readers :
    (gids : Map Gid (Unit {0})) (info : NodeEntitiesInfo)
    → (add_readers gids info).writer_gid_seq ≡ info.writer_gid_seq
writers-add_readers [] info = refl
writers-add_readers ((gid, u) ∷ gids) info = writers-add_readers gids (add_reader gid info)

readers-add_rosout :
    (rosout : Option Gid) (info : NodeEntitiesInfo)
    → (add_rosout rosout info).reader_gid_seq ≡ info.reader_gid_seq
readers-add_rosout none info = refl
readers-add_rosout (some gid) info = refl

-- Whether a Gid is that of the rosout writer.
abbrev pub is_rosout : Gid → Option Gid → Bool
is_rosout j none = false
is_rosout j (some gid) = gid == j

contains-add_rosout :
    (j : Gid) (rosout : Option Gid) (info : NodeEntitiesInfo)
    → contains j (add_rosout rosout info).writer_gid_seq
      ≡ (contains j info.writer_gid_seq || is_rosout j rosout)
contains-add_rosout j none info = ground arith
contains-add_rosout j (some gid) info = contains-push_new j gid info.writer_gid_seq

-- The info that a node generates names exactly its readers as readers, and as writers exactly its
-- writers, its writer of parameter events, and its rosout writer if it has one.
pub contains-generate_node_info :
    (j : Gid) (n : NodeEndpoints)
    → (contains j (generate_node_info n).reader_gid_seq ≡ contains_key j n.readers)
      × (contains j (generate_node_info n).writer_gid_seq ≡ (
          n.parameter_events_writer == j
          || is_rosout j n.rosout_writer
          || contains_key j n.writers))
unfolding generate_node_info
contains-generate_node_info j n =
    let start = add_writer n.parameter_events_writer (new_info n.node_name) in
    let info = add_rosout n.rosout_writer start in
    (
      ap (contains j) (readers-add_writers n.writers (add_readers n.readers info))
          ∙ (contains-add_readers j n.readers info
              ∙ ap (λ l. contains j l || contains_key j n.readers)
                  (readers-add_rosout n.rosout_writer start)),
      contains-add_writers j n.writers (add_readers n.readers info)
          ∙ (ap (λ l. contains j l || contains_key j n.writers) (writers-add_readers n.readers info)
              ∙ ground (
                arith,
                contains-add_rosout j n.rosout_writer start,
                contains-push_new j n.parameter_events_writer [],
              )),
    )
