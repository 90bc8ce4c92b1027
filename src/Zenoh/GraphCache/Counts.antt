-- ===== src/Zenoh/GraphCache/Counts.antt =====
-- How samples change the counts of entities on a topic, and which events the subscribers get
-- (src/zenoh_backend/graph_cache.rs).
use ros2_client.Base.{
  ◌+◌, Bool, false, not, ◌&&◌, List, [], ◌∷◌, ◌++◌, none, some, if◌then◌else◌, ◌≡◌, refl, arith,
  sym, ◌∙◌, inl, inr, Bool-cases, Option-cases, All, append_assoc, append-nil,
}
use ros2_client.Base.Text.{text_eq_iff, Text, text_eq}
use ros2_client.Base.Ordered.{text_key, Map, get, insert, remove, contains_key}
use ros2_client.Zenoh.KeyExpr.{EntityKind, ParsedEntity, parse_liveliness_key}
use ros2_client.Zenoh.GraphCache.{
  graph_entity, GraphEvent, entity_declared, entity_undeclared, Sender, GraphCache, send_all,
  broadcast, apply_put, apply_delete, count, is_on_topic, count_kind_on_topic, Sample, put, delete,
  apply, run,
}
use ros2_client.Zenoh.GraphCache.Laws.{IsEntities, put_token, delete_known}

module _ (p : ParsedEntity → Bool) where
  count-insert_known :
      (k : Text) (e : ParsedEntity) (m : Map Text ParsedEntity)
      → get k m ≡ some e
      → count p (insert k e m) ≡ count p m
  unfolding get insert
  count-insert_known k e [] h = cc
  count-insert_known k e ((j, f) ∷ m) h = ground (arith, count-insert_known k e m)

  count-insert_fresh :
      (k : Text) (e : ParsedEntity) (m : Map Text ParsedEntity)
      → get k m ≡ none
      → count p (insert k e m) ≡ count p m + (if p e then 1 else 0)
  unfolding get insert
  count-insert_fresh k e [] h = omega arith
  count-insert_fresh k e ((j, f) ∷ m) h = ground (arith, count-insert_fresh k e m)

  remove_absent : (k : Text) (m : Map Text ParsedEntity) → get k m ≡ none → remove k m ≡ m
  unfolding get remove
  remove_absent k [] h = refl
  remove_absent k ((j, f) ∷ m) h = ground (arith, remove_absent k m)

  count-remove :
      (k : Text) (e : ParsedEntity) (m : Map Text ParsedEntity)
      → IsEntities m
      → get k m ≡ some e
      → count p (remove k m) + (if p e then 1 else 0) ≡ count p m
  unfolding get remove
  count-remove k e [] v h = cc
  count-remove k e ((j, f) ∷ m) (q, fresh, v) h = elim (Bool-cases (text_eq j k)) [
    | inl hit ↦
        let same : f ≡ e = ground arith in
        let gone : remove k m ≡ m = remove_absent k m (rw (sym ((text_eq_iff j k).0 hit)) fresh) in
        rw (hit, gone, same) (omega arith)
    | inr miss ↦ ground (arith, miss, count-remove k e m v)
  ]

get_parsed :
    (k : Text) (e : ParsedEntity) (m : Map Text ParsedEntity)
    → IsEntities m
    → get k m ≡ some e
    → parse_liveliness_key k ≡ some e
unfolding get
get_parsed k e [] v h = cc
get_parsed k e ((j, f) ∷ m) (q, fresh, v) h = ground (arith, get_parsed k e m v, text_eq_iff j k)

-- A put of a token in a well-formed cache raises the count of a topic by one if the key is new and
-- its entity is of that kind on that topic, and else leaves it: a repeated put counts once.
pub count_kind_on_topic-apply_put :
    (kind : EntityKind) (topic key : Text) (e : ParsedEntity) (c : GraphCache)
    → IsEntities c.entities
    → parse_liveliness_key key ≡ some e
    → count_kind_on_topic kind topic (apply_put key c)
      ≡ count_kind_on_topic kind topic c
        + (if not (contains_key key c.entities) && is_on_topic kind topic e then 1 else 0)
unfolding count_kind_on_topic
count_kind_on_topic-apply_put kind topic key e c v h =
    let p = is_on_topic kind topic in
    rw (put_token key e c h) (elim (Option-cases (get key c.entities)) [
      | inl fresh ↦ ground (arith, fresh, count-insert_fresh p key e c.entities fresh)
      | inr (f, known) ↦
          let same : f ≡ e = ground (arith, get_parsed key f c.entities v known) in
          ground (arith, known, count-insert_known p key e c.entities (rw (sym same) known))
    ])

-- A delete of a key in a well-formed cache lowers the count of a topic by one if its entity is of
-- that kind on that topic.
pub count_kind_on_topic-apply_delete :
    (kind : EntityKind) (topic key : Text) (e : ParsedEntity) (c : GraphCache)
    → IsEntities c.entities
    → get key c.entities ≡ some e
    → count_kind_on_topic kind topic (apply_delete key c)
        + (if is_on_topic kind topic e then 1 else 0)
      ≡ count_kind_on_topic kind topic c
unfolding count_kind_on_topic
count_kind_on_topic-apply_delete kind topic key e c v h =
    rw (delete_known key e c h) (count-remove (is_on_topic kind topic) key e c.entities v h)

-- The events that samples cause, from the entities in the cache.
abbrev pub event_of : Sample → Map Text ParsedEntity → List GraphEvent
event_of (put k) m = elim (parse_liveliness_key k) [
  | none ↦ []
  | some e ↦ entity_declared (graph_entity e) ∷ []
]
event_of (delete k) m = elim (get k m) [
  | none ↦ []
  | some e ↦ entity_undeclared (graph_entity e) ∷ []
]

abbrev pub events : List Sample → GraphCache → List GraphEvent
events [] c = []
events (s ∷ ss) c = event_of s c.entities ++ events ss (apply s c)

abbrev pub AllOpen : List Sender → Type 0
AllOpen = All (λ s. s.closed ≡ false)

abbrev pub with_sent : List GraphEvent → List Sender → List Sender
with_sent es [] = []
with_sent es (s ∷ ss) = record s { sent = s.sent ++ es } ∷ with_sent es ss

send_all-with_sent :
    (event : GraphEvent) (ss : List Sender)
    → AllOpen ss
    → send_all event ss ≡ with_sent (event ∷ []) ss
send_all-with_sent event [] h = refl
send_all-with_sent event (s ∷ ss) (o, h) = rw (o, send_all-with_sent event ss h) refl

with_sent-nil : (ss : List Sender) → with_sent [] ss ≡ ss
with_sent-nil [] = refl
with_sent-nil (s ∷ ss) = rw (append-nil s.sent, with_sent-nil ss) refl

with_sent-append :
    (es fs : List GraphEvent) (ss : List Sender)
    → with_sent fs (with_sent es ss) ≡ with_sent (es ++ fs) ss
with_sent-append es fs [] = refl
with_sent-append es fs (s ∷ ss) = rw (append_assoc s.sent es fs, with_sent-append es fs ss) refl

with_sent-AllOpen :
    (es : List GraphEvent) (ss : List Sender) → AllOpen ss → AllOpen (with_sent es ss)
with_sent-AllOpen es [] h = tt
with_sent-AllOpen es (s ∷ ss) (o, h) = (o, with_sent-AllOpen es ss h)

subscribers-put :
    (k : Text) (c : GraphCache)
    → AllOpen c.subscribers
    → (apply_put k c).subscribers ≡ with_sent (event_of (put k) c.entities) c.subscribers
unfolding apply_put broadcast
subscribers-put k c h = elim (Option-cases (parse_liveliness_key k)) [
  | inl e ↦ rw (e, apply_put, event_of) (sym (with_sent-nil c.subscribers))
  | inr (x, e) ↦
      rw (e, apply_put, event_of)
        (send_all-with_sent (entity_declared (graph_entity x)) c.subscribers h)
]

subscribers-delete :
    (k : Text) (c : GraphCache)
    → AllOpen c.subscribers
    → (apply_delete k c).subscribers ≡ with_sent (event_of (delete k) c.entities) c.subscribers
unfolding apply_delete broadcast
subscribers-delete k c h = elim (Option-cases (get k c.entities)) [
  | inl e ↦ rw (e, apply_delete, event_of) (sym (with_sent-nil c.subscribers))
  | inr (x, e) ↦
      rw (e, apply_delete, event_of)
        (send_all-with_sent (entity_undeclared (graph_entity x)) c.subscribers h)
]

subscribers-apply :
    (s : Sample) (c : GraphCache)
    → AllOpen c.subscribers
    → (apply s c).subscribers ≡ with_sent (event_of s c.entities) c.subscribers
subscribers-apply (put k) c h = subscribers-put k c h
subscribers-apply (delete k) c h = subscribers-delete k c h

-- While no receiver is dropped, each subscriber gets the events of all samples, in their order: a
-- declaration for each put of a token, a withdrawal for each delete of a key in the cache.
pub subscribers-run :
    (ss : List Sample) (c : GraphCache)
    → AllOpen c.subscribers
    → (run ss c).subscribers ≡ with_sent (events ss c) c.subscribers
subscribers-run [] c h = sym (with_sent-nil c.subscribers)
subscribers-run (s ∷ ss) c h =
    let e = subscribers-apply s c h in
    let open_after : AllOpen (apply s c).subscribers =
      rw e (with_sent-AllOpen (event_of s c.entities) c.subscribers h) in
    subscribers-run ss (apply s c) open_after
    ∙ rw e (with_sent-append (event_of s c.entities) (events ss (apply s c)) c.subscribers)
