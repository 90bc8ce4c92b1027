-- ===== src/Zenoh/Context/Wait.antt =====
-- No entity is missed by `wait_for` (src/zenoh_backend/context.rs).
use ros2_client.Base.{
  ◌<◌, ◌≤◌, true, false, ◌||◌, List, [], ◌∷◌, ◌++◌, some, ltb, All-append, append_assoc, Bool-cases,
  Option-cases, inl, inr, ◌≡◌, refl, arith, sym, ◌∙◌, ap,
}
use ros2_client.Base.Text.{Text}
use ros2_client.Base.Ordered.{text_key, Map, get}
use ros2_client.Zenoh.KeyExpr.{EntityKind, ParsedEntity, parse_liveliness_key}
use ros2_client.Zenoh.GraphCache.{
  GraphCache, GraphEvent, entity_declared, graph_entity, Sender, subscribe, apply_put, apply_delete,
  count_kind_on_topic, is_on_topic, Sample, put, delete, apply, run,
}
use ros2_client.Zenoh.GraphCache.Laws.{IsEntities, run-IsEntities, put_other, delete_other}
use ros2_client.Zenoh.GraphCache.Counts.{
  count_kind_on_topic-apply_put, count_kind_on_topic-apply_delete, event_of, events, AllOpen,
  with_sent, subscribers-run,
}
use ros2_client.Zenoh.Context.{is_awaited, find_awaited, newest, wait_for}

find_awaited-append :
    (kind : EntityKind) (name : Text) (es fs : List GraphEvent)
    → find_awaited kind name (es ++ fs) ≡ find_awaited kind name es || find_awaited kind name fs
unfolding find_awaited
find_awaited-append kind name [] fs = refl
find_awaited-append kind name (e ∷ es) fs = ground (arith, find_awaited-append kind name es fs)

-- An event of an entity is awaited exactly when the entity counts.
is_awaited_lem :
    (kind : EntityKind) (name : Text) (e : ParsedEntity)
    → is_awaited kind name (entity_declared (graph_entity e)) ≡ is_on_topic kind name e
unfolding is_awaited graph_entity
is_awaited_lem kind name e = refl

count_same :
    (kind : EntityKind) (name : Text) (c d : GraphCache)
    → c.entities ≡ d.entities
    → count_kind_on_topic kind name c ≡ count_kind_on_topic kind name d
unfolding count_kind_on_topic
count_same kind name c d e = rw e refl

unawaited :
    (kind : EntityKind) (name k : Text) (e : ParsedEntity) (m : Map Text ParsedEntity)
    → parse_liveliness_key k ≡ some e
    → find_awaited kind name (event_of (put k) m) ≡ false
    → is_on_topic kind name e ≡ false
unfolding find_awaited
unawaited kind name k e m p h =
    let events : event_of (put k) m ≡ entity_declared (graph_entity e) ∷ [] =
      rw (p, event_of) refl in
    let missed : find_awaited kind name (entity_declared (graph_entity e) ∷ []) ≡ false =
      ap (find_awaited kind name) (sym events) ∙ h in
    ground (arith, missed, is_awaited_lem kind name e)

-- A sample that causes no awaited event does not raise the count.
apply_unawaited :
    (kind : EntityKind) (name : Text) (s : Sample) (c : GraphCache)
    → IsEntities c.entities
    → find_awaited kind name (event_of s c.entities) ≡ false
    → count_kind_on_topic kind name (apply s c) ≤ count_kind_on_topic kind name c
unfolding find_awaited
apply_unawaited kind name (put k) c v h = elim (Option-cases (parse_liveliness_key k)) [
  | inl e ↦ omega (arith, count_same kind name (apply_put k c) c (put_other k c e))
  | inr (x, e) ↦ ground (
    arith,
    count_kind_on_topic-apply_put kind name k x c v e,
    unawaited kind name k x c.entities e h,
  )
]
apply_unawaited kind name (delete k) c v h = elim (Option-cases (get k c.entities)) [
  | inl e ↦ omega (arith, count_same kind name (apply_delete k c) c (delete_other k c e))
  | inr (x, e) ↦ omega (arith, count_kind_on_topic-apply_delete kind name k x c v e)
]

run_unawaited :
    (kind : EntityKind) (name : Text) (ss : List Sample) (c : GraphCache)
    → IsEntities c.entities
    → find_awaited kind name (events ss c) ≡ false
    → count_kind_on_topic kind name (run ss c) ≤ count_kind_on_topic kind name c
run_unawaited kind name [] c v h = omega arith
run_unawaited kind name (s ∷ ss) c v h =
    let split =
      sym (find_awaited-append kind name (event_of s c.entities) (events ss (apply s c))) ∙ h in
    let now : find_awaited kind name (event_of s c.entities) ≡ false = ground (arith, split) in
    let later : find_awaited kind name (events ss (apply s c)) ≡ false = ground (arith, split) in
    omega (
      arith,
      apply_unawaited kind name s c v now,
      run_unawaited kind name ss (apply s c) (run-IsEntities (s ∷ []) c v) later,
    )

newest-with_sent :
    (es : List GraphEvent) (s : Sender) (ss : List Sender)
    → newest (with_sent es (ss ++ s ∷ [])) ≡ s.sent ++ es
newest-with_sent es s [] = refl
newest-with_sent es s (t ∷ []) = refl
newest-with_sent es s (t ∷ u ∷ ss) = newest-with_sent es s (u ∷ ss)

run-append : (ss ts : List Sample) (c : GraphCache) → run (ss ++ ts) c ≡ run ts (run ss c)
run-append [] ts c = refl
run-append (s ∷ ss) ts c = run-append ss ts (apply s c)

events-append :
    (ss ts : List Sample) (c : GraphCache)
    → events (ss ++ ts) c ≡ events ss c ++ events ts (run ss c)
events-append [] ts c = refl
events-append (s ∷ ss) ts c =
    ap (λ es. event_of s c.entities ++ es) (events-append ss ts (apply s c))
    ∙ sym (
        append_assoc (event_of s c.entities) (events ss (apply s c))
          (events ts (run ss (apply s c))))

-- The channel of the wait gets the events of all samples since it has subscribed.
channel_events :
    (before after : List Sample) (c : GraphCache)
    → AllOpen c.subscribers
    → newest (run after (run before (subscribe c))).subscribers
      ≡ events (before ++ after) (subscribe c)
unfolding subscribe
channel_events before after c h =
    let s : Sender = record { closed = false; sent = [] } in
    let start = subscribe c in
    let open_now : AllOpen start.subscribers =
      All-append (λ (t : Sender). t.closed ≡ false) c.subscribers (s ∷ []) h (refl, tt) in
    ap (λ d. newest d.subscribers) (sym (run-append before after start))
    ∙ (ap newest (subscribers-run (before ++ after) start open_now)
        ∙ newest-with_sent (events (before ++ after) start) s c.subscribers)

subscribe-IsEntities : (c : GraphCache) → IsEntities c.entities → IsEntities (subscribe c).entities
unfolding subscribe
subscribe-IsEntities c v = v

-- A wait for an entity of a kind on a topic returns once there is one, however the samples that tell of
-- it fall between its steps: if the well-formed cache counts such an entity after all samples, the wait
-- has returned. All receivers of the cache's channels are there.
pub wait_for_returns :
    (kind : EntityKind) (name : Text) (before after : List Sample) (c : GraphCache)
    → IsEntities c.entities
    → AllOpen c.subscribers
    → 0 < count_kind_on_topic kind name (run after (run before (subscribe c)))
    → wait_for kind name before after c ≡ true
unfolding wait_for
wait_for_returns kind name before after c v h there =
    let start = subscribe c in
    let looked = run before start in
    elim (Bool-cases (ltb 0 (count_kind_on_topic kind name looked))) [
      | inl now ↦ rw now refl
      | inr later ↦
          rw later
            (elim (Bool-cases (find_awaited kind name (newest (run after looked).subscribers))) [
              | inl found ↦ found
              | inr missed ↦
                  let all : find_awaited kind name (events before start ++ events after looked)
                      ≡ false =
                    ap (find_awaited kind name) (
                      sym (events-append before after start)
                      ∙ sym (channel_events before after c h))
                    ∙ missed in
                  let rest : find_awaited kind name (events after looked) ≡ false = ground (
                    arith,
                    all,
                    find_awaited-append kind name (events before start) (events after looked),
                  ) in
                  let fewer =
                    run_unawaited kind name after looked
                      (run-IsEntities before start (subscribe-IsEntities c v)) rest in
                  absurd (ground (arith, fewer, there, later))
            ])
    ]
