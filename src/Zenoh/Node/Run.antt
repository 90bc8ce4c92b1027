-- ===== src/Zenoh/Node/Run.antt =====
-- What an application has a node make, and that all tokens it has then declared are different
-- (src/zenoh_backend/node.rs).
use ros2_client.Base.{
  ℕ, ◌+◌, ◌^◌, ◌<◌, List, [], ◌∷◌, Option, none, some, ◌≡◌, refl, arith, sym, ◌∙◌, subst, inl, inr,
  Option-cases,
}
use ros2_client.Base.Text.{Text, codes, Lacks}
use ros2_client.Base.Results.{Result}
use ros2_client.Names.Chars.{NameError}
use ros2_client.Names.NodeName.{NodeName}
use ros2_client.Names.Name.{Name}
use ros2_client.Names.TypeName.{ServiceTypeName, ActionTypeName}
use ros2_client.Zenoh.Qos.{StdDuration, QosProfile}
use ros2_client.Zenoh.KeyExpr.{publisher, subscription, service_client, service_server}
use ros2_client.Zenoh.Wire.{Bytes}
use ros2_client.Zenoh.Node.{
  Topic, Declaration, token_of, Node, Creates, ◌>>=◌, new_node, bare_node, node_key, entity_ids,
  create_publisher_with_type_hash, create_publisher, create_subscription, create_client_inner,
  create_client, create_raw_server_with_type_hash, create_server, reads, lift,
}
use ros2_client.Zenoh.Node.Bundles.{
  ActionTypeHashes, create_action_client, create_raw_action_server_with_type_hashes,
  create_action_server, create_parameter_client, create_parameter_server, create_logger,
  read_rosout,
}
use ros2_client.Zenoh.Node.Keys.{code_part, node_code}
use ros2_client.Zenoh.Node.Distinct.{
  IsGood, Grows, Makes, then-Makes, reads-Makes, pure-Makes, lift-Makes, publisher_on-Makes,
  subscriber_on-Makes, queryable_on-Makes, new_entity-Makes, AreFresh, AreFresh-AllDistinct,
  fresh_no_node, AllDistinct, tokens, all_tokens,
}

-- The calls of a node's methods.
pub data Op : Type 0 where
  publishes : Topic → Option QosProfile → Op
  publishes_with_hash : Topic → Option QosProfile → Text → Op
  subscribes : Topic → Option QosProfile → Op
  calls : Name → ServiceTypeName → Option StdDuration → Op
  serves : Name → ServiceTypeName → Op
  serves_with_hash : Name → ServiceTypeName → Text → Op
  uses_action : Name → ActionTypeName → Op
  serves_action : Name → ActionTypeName → Op
  serves_action_with_hashes : Name → ActionTypeName → ActionTypeHashes → Op
  uses_parameters : NodeName → Op
  serves_parameters : Op
  logs : Op
  reads_log : Op

-- How many entities a call makes at most.
abbrev pub cost : Op → ℕ
cost (uses_action a t) = 5
cost (serves_action a t) = 5
cost (serves_action_with_hashes a t h) = 5
cost (uses_parameters r) = 5
cost serves_parameters = 7
cost _ = 1

abbrev pub total : List Op → ℕ
total [] = 0
total (o ∷ os) = cost o + total os

module _ (gid_of : Text → Bytes) (digest : Text → List ℕ) {Z : Type 0}
    (fails : Declaration → Option Z) (name_err : NameError → Z) where
  abbrev pub step : Op → Node → Node
  step (publishes topic qos) n = (create_publisher gid_of digest fails topic qos n).0
  step (publishes_with_hash topic qos hash) n =
      (create_publisher_with_type_hash gid_of digest fails topic qos hash n).0
  step (subscribes topic qos) n = (create_subscription gid_of digest fails topic qos n).0
  step (calls name type_name timeout) n =
      (create_client_inner gid_of digest fails name type_name timeout n).0
  step (serves name type_name) n = (create_server gid_of digest fails name type_name n).0
  step (serves_with_hash name type_name hash) n =
      (create_raw_server_with_type_hash gid_of digest fails name type_name hash n).0
  step (uses_action name type_name) n =
      (create_action_client gid_of digest fails name_err name type_name n).0
  step (serves_action name type_name) n =
      (create_action_server gid_of digest fails name_err name type_name n).0
  step (serves_action_with_hashes name type_name hashes) n =
      (create_raw_action_server_with_type_hashes gid_of digest fails name_err name type_name hashes
        n).0
  step (uses_parameters remote) n =
      (create_parameter_client gid_of digest fails name_err remote n).0
  step serves_parameters n = (create_parameter_server gid_of digest fails name_err n).0
  step logs n = (create_logger gid_of digest fails name_err n).0
  step reads_log n = (read_rosout gid_of digest fails name_err n).0

  abbrev pub run : List Op → Node → Node
  run [] n = n
  run (o ∷ os) n = run os (step o n)

  create_publisher-Makes :
      (topic : Topic) (qos : Option QosProfile) (hash : Text)
      → Makes 1 (create_publisher_with_type_hash gid_of digest fails topic qos hash)
  unfolding create_publisher_with_type_hash
  create_publisher-Makes topic qos hash = then-Makes 0 1 _ _ (reads-Makes _) λ key.
      then-Makes 0 1 _ _ (publisher_on-Makes fails key) λ _.
        then-Makes 1 0 _ _ (new_entity-Makes fails publisher _ _ hash _ (λ e. cc)) λ _. pure-Makes _

  create_subscription-Makes :
      (topic : Topic) (qos : Option QosProfile)
      → Makes 1 (create_subscription gid_of digest fails topic qos)
  unfolding create_subscription
  create_subscription-Makes topic qos = then-Makes 0 1 _ _ (reads-Makes _) λ key.
      then-Makes 0 1 _ _ (subscriber_on-Makes fails key) λ _.
        then-Makes 1 0 _ _ (new_entity-Makes fails subscription _ _ _ _ (λ e. cc)) λ _. pure-Makes _

  create_client-Makes :
      (name : Name) (type_name : ServiceTypeName) (timeout : Option StdDuration)
      → Makes 1 (create_client_inner gid_of digest fails name type_name timeout)
  unfolding create_client_inner
  create_client-Makes name type_name timeout = then-Makes 0 1 _ _ (reads-Makes _) λ selector.
      then-Makes 0 1 _ _ (reads-Makes _) λ fqn.
        then-Makes 1 0 _ _ (new_entity-Makes fails service_client _ _ _ _ (λ e. cc))
          λ _. pure-Makes _

  create_server-Makes :
      (name : Name) (type_name : ServiceTypeName) (hash : Text)
      → Makes 1 (create_raw_server_with_type_hash gid_of digest fails name type_name hash)
  unfolding create_raw_server_with_type_hash
  create_server-Makes name type_name hash = then-Makes 0 1 _ _ (reads-Makes _) λ key.
      then-Makes 0 1 _ _ (queryable_on-Makes fails key) λ _.
        then-Makes 0 1 _ _ (reads-Makes _) λ fqn.
          then-Makes 1 0 _ _ (new_entity-Makes fails service_server _ _ _ _ (λ e. cc))
            λ _. pure-Makes _

  -- A topic or an entity whose name is made first.
  topic-Makes :
      (r : Result Name Z) (f : Name → Node → Topic) → Makes 0 (lift r >>= λ name. reads (f name))
  topic-Makes r f = then-Makes 0 0 _ _ (lift-Makes r) λ name. reads-Makes (f name)

  named-Makes :
      {A : Type 0} (c : ℕ) (r : Result Name Z) (f : Name → Creates Z A)
      → ((name : Name) → Makes c (f name))
      → Makes c (lift r >>= f)
  named-Makes c r f h =
      let e : 0 + c ≡ c = omega arith in
      subst (λ k. Makes k (lift r >>= f)) e (then-Makes 0 c _ _ (lift-Makes r) h)

  create_action_client-Makes :
      (name : Name) (type_name : ActionTypeName)
      → Makes 5 (create_action_client gid_of digest fails name_err name type_name)
  unfolding create_action_client
  create_action_client-Makes name type_name = then-Makes 0 5 _ _ (reads-Makes _) λ fqn.
      named-Makes 5 _ _ λ send_goal_name.
        then-Makes 1 4 _ _ (create_client-Makes send_goal_name _ none) λ send_goal.
          named-Makes 4 _ _ λ get_result_name.
            then-Makes 1 3 _ _ (create_client-Makes get_result_name _ _) λ get_result.
              then-Makes 0 3 _ _ (topic-Makes _ _) λ feedback_on.
                then-Makes 1 2 _ _ (create_subscription-Makes feedback_on none) λ feedback.
                  named-Makes 2 _ _ λ cancel_goal_name.
                    then-Makes 1 1 _ _ (create_client-Makes cancel_goal_name _ none) λ cancel_goal.
                      then-Makes 0 1 _ _ (topic-Makes _ _) λ status_on.
                        then-Makes 1 0 _ _ (create_subscription-Makes status_on none)
                          λ status. pure-Makes _

  create_action_server-Makes :
      (name : Name) (type_name : ActionTypeName) (hashes : ActionTypeHashes)
      → Makes 5 (
          create_raw_action_server_with_type_hashes gid_of digest fails name_err name type_name
            hashes)
  unfolding create_raw_action_server_with_type_hashes
  create_action_server-Makes name type_name hashes = then-Makes 0 5 _ _ (reads-Makes _) λ fqn.
      named-Makes 5 _ _ λ send_goal_name.
        then-Makes 1 4 _ _ (create_server-Makes send_goal_name _ _) λ send_goal.
          named-Makes 4 _ _ λ get_result_name.
            then-Makes 1 3 _ _ (create_server-Makes get_result_name _ _) λ get_result.
              then-Makes 0 3 _ _ (topic-Makes _ _) λ feedback_on.
                then-Makes 1 2 _ _ (create_publisher-Makes feedback_on none _) λ feedback.
                  named-Makes 2 _ _ λ cancel_goal_name.
                    then-Makes 1 1 _ _ (create_server-Makes cancel_goal_name _ _) λ cancel_goal.
                      then-Makes 0 1 _ _ (topic-Makes _ _) λ status_on.
                        then-Makes 1 0 _ _ (create_publisher-Makes status_on none _)
                          λ status. pure-Makes _

  param_client-Makes :
      (r : Result Name Z) (t : ServiceTypeName)
      → Makes 1 (lift r >>= λ name. create_client gid_of digest fails name t)
  param_client-Makes r t = named-Makes 1 r _ λ name. create_client-Makes name t none

  param_server-Makes :
      (r : Result Name Z) (t : ServiceTypeName)
      → Makes 1 (lift r >>= λ name. create_server gid_of digest fails name t)
  param_server-Makes r t = named-Makes 1 r _ λ name. create_server-Makes name t _

  create_parameter_client-Makes :
      (remote : NodeName) → Makes 5 (create_parameter_client gid_of digest fails name_err remote)
  unfolding create_parameter_client
  create_parameter_client-Makes remote = then-Makes 1 4 _ _ (param_client-Makes _ _) λ a.
      then-Makes 1 3 _ _ (param_client-Makes _ _) λ b.
        then-Makes 1 2 _ _ (param_client-Makes _ _) λ c.
          then-Makes 1 1 _ _ (param_client-Makes _ _)
            λ d. then-Makes 1 0 _ _ (param_client-Makes _ _) λ e. pure-Makes _

  create_parameter_server-Makes : Makes 7 (create_parameter_server gid_of digest fails name_err)
  unfolding create_parameter_server
  create_parameter_server-Makes = then-Makes 0 7 _ _ (reads-Makes _) λ fqn.
      then-Makes 1 6 _ _ (param_server-Makes _ _) λ a.
        then-Makes 1 5 _ _ (param_server-Makes _ _) λ b.
          then-Makes 1 4 _ _ (param_server-Makes _ _) λ c.
            then-Makes 1 3 _ _ (param_server-Makes _ _) λ d.
              then-Makes 1 2 _ _ (param_server-Makes _ _) λ e.
                then-Makes 1 1 _ _ (param_server-Makes _ _) λ f.
                  then-Makes 0 1 _ _ (topic-Makes _ _) λ topic.
                    then-Makes 1 0 _ _ (create_publisher-Makes topic none _) λ _. pure-Makes _

  create_logger-Makes : Makes 1 (create_logger gid_of digest fails name_err)
  unfolding create_logger
  create_logger-Makes =
      then-Makes 0 1 _ _ (topic-Makes _ _) λ topic. create_publisher-Makes topic none _

  read_rosout-Makes : Makes 1 (read_rosout gid_of digest fails name_err)
  unfolding read_rosout
  read_rosout-Makes =
      then-Makes 0 1 _ _ (topic-Makes _ _) λ topic. create_subscription-Makes topic none

  step-Grows :
      (o : Op) (n : Node)
      → n.next_entity_id + cost o < 2 ^ 64
      → IsGood n
      → Grows (cost o) n (step o n)
  step-Grows (publishes topic qos) = (create_publisher-Makes topic qos _).grows
  step-Grows (publishes_with_hash topic qos hash) = (create_publisher-Makes topic qos hash).grows
  step-Grows (subscribes topic qos) = (create_subscription-Makes topic qos).grows
  step-Grows (calls name t timeout) = (create_client-Makes name t timeout).grows
  step-Grows (serves name t) = (create_server-Makes name t _).grows
  step-Grows (serves_with_hash name t hash) = (create_server-Makes name t hash).grows
  step-Grows (uses_action name t) = (create_action_client-Makes name t).grows
  step-Grows (serves_action name t) = (create_action_server-Makes name t _).grows
  step-Grows (serves_action_with_hashes name t hashes) =
      (create_action_server-Makes name t hashes).grows
  step-Grows (uses_parameters remote) = (create_parameter_client-Makes remote).grows
  step-Grows serves_parameters = create_parameter_server-Makes.grows
  step-Grows logs = create_logger-Makes.grows
  step-Grows reads_log = read_rosout-Makes.grows

  run-IsGood :
      (os : List Op) (n : Node)
      → n.next_entity_id + total os < 2 ^ 64
      → IsGood n
      → IsGood (run os n) × ((run os n).node_token ≡ n.node_token)
  run-IsGood [] n l g = (g, refl)
  run-IsGood (o ∷ os) n l g =
      let s = step-Grows o n (omega arith) g in
      let rest = run-IsGood os (step o n) (omega (arith, s.within)) s.good in
      (rest.0, rest.1 ∙ s.token_kept)

  -- A node's token, if it was declared.
  abbrev IsOwnToken : Option Text → Type 0
  IsOwnToken none = Unit
  IsOwnToken (some key) = code_part key ≡ some (codes "NN")

  new_node_lem :
      (domain_id node_id : ℕ) (zid : Text) (name : NodeName)
      → Lacks b'/' zid
      → let n = new_node fails domain_id zid name node_id in
        (n.next_entity_id ≡ 0) × IsGood n × IsOwnToken n.node_token
  unfolding new_node
  new_node_lem domain_id node_id zid name h =
      let n = bare_node domain_id zid name node_id in
      elim (Option-cases (fails (token_of (node_key n)))) [
        | inl e ↦
            rw (e, new_node)
              (
                refl,
                record { zid_plain = h; fresh = tt },
                node_code domain_id (entity_ids node_id n) h,
              )
        | inr (x, e) ↦ rw (e, new_node) (refl, record { zid_plain = h; fresh = tt }, tt)
      ]

  distinct_with :
      (t : Option Text) (k : ℕ) (ds : List Declaration)
      → IsOwnToken t
      → AreFresh k ds
      → AllDistinct (all_tokens t (tokens ds))
  distinct_with none k ds h f = AreFresh-AllDistinct k ds f
  distinct_with (some key) k ds h f = (fresh_no_node key k ds h f, AreFresh-AllDistinct k ds f)

  -- However an application uses a node, and whatever the session refuses, all tokens that the node has
  -- declared since it was made, its own among them, are different, if the session's id holds no slash
  -- and the calls make less than 2^64 entities.
  pub run-AllDistinct :
      (domain_id node_id : ℕ) (zid : Text) (name : NodeName) (os : List Op)
      → Lacks b'/' zid
      → total os < 2 ^ 64
      → let n = run os (new_node fails domain_id zid name node_id) in
        AllDistinct (all_tokens n.node_token (tokens n.declared))
  run-AllDistinct domain_id node_id zid name os h l =
      let n = new_node fails domain_id zid name node_id in
      let (start, good, own) = new_node_lem domain_id node_id zid name h in
      let (last, kept) = run-IsGood os n (omega (arith, start)) good in
      distinct_with (run os n).node_token (run os n).next_entity_id (run os n).declared
        (subst IsOwnToken (sym kept) own) last.fresh
