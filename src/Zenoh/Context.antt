-- ===== src/Zenoh/Context.antt =====
-- src/zenoh_backend/context.rs: the counters of a context and the wait for a publisher or a subscription.
-- The graph cache (Zenoh.GraphCache) is fed by the liveliness samples.
pub mod Wait
use ros2_client.Base.{
  ℕ, ◌+◌, ◌%◌, ◌^◌, Bool, true, false, ◌&&◌, ◌||◌, List, [], ◌∷◌, ◌++◌, map, Option, none, some,
  if◌then◌else◌, ltb, is_empty, not,
}
use ros2_client.Base.Results.{Result, ok, err, ok_or, map_err, ◌>>=◌}
use ros2_client.Base.Text.{Text, codes, split, split_once}
use ros2_client.Names.NodeName.{NodeName}
use ros2_client.Zenoh.KeyExpr.{EntityKind, publisher, subscription}
use ros2_client.Zenoh.GraphCache.{
  GraphCache, GraphEvent, entity_declared, entity_undeclared, Sender, subscribe,
  count_kind_on_topic, kind_eq, is_topic, Sample, run,
}
use ros2_client.Zenoh.Node as Nodes
use ros2_client.Zenoh.Node.{Node, Declaration}

-- `ContextInner`, with the id of its session.
pub record ContextInner : Type 0 where
  pub zid : Text
  pub domain_id : ℕ
  pub next_node_id : ℕ
  pub graph_cache : GraphCache

-- `Context::new_node`.
unfoldable pub new_node :
    {Z : Type 0} → (Declaration → Option Z) → NodeName → ContextInner → ContextInner × Node
new_node fails name c = (
  record c { next_node_id = (c.next_node_id + 1) % 2 ^ 64 },
  Nodes.new_node fails c.domain_id c.zid name c.next_node_id,
)

-- The test that `wait_for` makes of an event.
unfoldable pub is_awaited : EntityKind → Text → GraphEvent → Bool
is_awaited kind name (entity_declared e) = kind_eq e.kind kind && is_topic name e.name
is_awaited kind name (entity_undeclared e) = false

-- The loop of `wait_for` over the events in its channel: whether it has returned.
unfoldable pub find_awaited : EntityKind → Text → List GraphEvent → Bool
find_awaited kind name [] = false
find_awaited kind name (event ∷ events) =
    let rest = find_awaited kind name events in if is_awaited kind name event then true else rest

-- The events that the newest subscriber was sent.
abbrev pub newest : List Sender → List GraphEvent
newest [] = []
newest (s ∷ []) = s.sent
newest (s ∷ t ∷ ss) = newest (t ∷ ss)

-- `wait_for`, which subscribes, then looks at the count, and then reads its channel. Samples reach the
-- cache between the first two steps and after them; the result tells whether it has returned.
unfoldable pub wait_for : EntityKind → Text → List Sample → List Sample → GraphCache → Bool
wait_for kind name before after c =
    let looked = run before (subscribe c) in
    if ltb 0 (count_kind_on_topic kind name looked)
    then true
    else find_awaited kind name (newest (run after looked).subscribers)

-- `wait_for_publisher` and `wait_for_subscription`.
abbrev pub wait_for_publisher : Text → List Sample → List Sample → GraphCache → Bool
wait_for_publisher = wait_for publisher

abbrev pub wait_for_subscription : Text → List Sample → List Sample → GraphCache → Bool
wait_for_subscription = wait_for subscription
