-- ===== src/Zenoh/Node/Bundles.antt =====
-- What a node of src/zenoh_backend/node.rs makes of several entities: the ends of an action, the
-- parameter server and client, and the log.
use ros2_client.Base.{ℕ, List, ◌++◌, Option, none, some}
use ros2_client.Base.Text.{Text, codes}
use ros2_client.Base.Results.{Result, ok, err}
use ros2_client.Names.Chars as Names
use ros2_client.Names.Chars.{NameError, NameResult}
use ros2_client.Names.NodeName.{NodeName, fully_qualified_name}
use ros2_client.Names.Name.{Name, new_name}
use ros2_client.Names.TypeName.{
  new_message_type, new_service_type, ServiceTypeName, ActionTypeName, dds_action_topic,
  dds_action_service, dds_msg_type, dds_service_type,
}
use ros2_client.Zenoh.Qos.{StdDuration}
use ros2_client.Zenoh.TypeHash.{sender_hash}
use ros2_client.Zenoh.Wire.{Bytes}
use ros2_client.Zenoh.PubSub.{Publisher}
use ros2_client.Zenoh.Node.{
  Topic, Declaration, SubscriptionEnd, ClientEnd, ServerEnd, Creates, ◌>>=◌, pure, reads, lift,
  default_qos, resolve_fqn, create_topic, create_publisher, create_publisher_with_type_hash,
  create_subscription, create_client, create_client_inner, create_server,
  create_raw_server_with_type_hash,
}

-- `GET_RESULT_TIMEOUT`.
abbrev pub get_result_timeout : StdDuration
get_result_timeout = record { secs = 60; nanos = 0 }

pub record ActionClientEnd : Type 0 where
  pub send_goal : ClientEnd
  pub get_result : ClientEnd
  pub feedback : SubscriptionEnd
  pub cancel_goal : ClientEnd
  pub status : SubscriptionEnd

pub record ActionServerEnd : Type 0 where
  pub send_goal : ServerEnd
  pub get_result : ServerEnd
  pub feedback : Publisher
  pub cancel_goal : ServerEnd
  pub status : Publisher

-- `ActionTypeHashes` of src/names.rs.
pub record ActionTypeHashes : Type 0 where
  pub send_goal : Text
  pub get_result : Text
  pub feedback_message : Text

pub record ParameterClientEnd : Type 0 where
  pub get_parameters : ClientEnd
  pub get_parameter_types : ClientEnd
  pub set_parameters : ClientEnd
  pub list_parameters : ClientEnd
  pub describe_parameters : ClientEnd

pub record ParameterServerEnd : Type 0 where
  pub get_parameters : ServerEnd
  pub get_parameter_types : ServerEnd
  pub set_parameters : ServerEnd
  pub set_parameters_atomically : ServerEnd
  pub list_parameters : ServerEnd
  pub describe_parameters : ServerEnd
  pub events : Publisher

abbrev pub cancel_goal_type : ServiceTypeName
cancel_goal_type = new_service_type (codes "srv") (codes "action_msgs") (codes "CancelGoal")

-- `ServiceTypeName::new("rcl_interfaces", ty)`.
abbrev pub param_type : Text → ServiceTypeName
param_type ty = new_service_type (codes "srv") (codes "rcl_interfaces") ty

module _ (gid_from_liveliness_key : Text → Bytes) (digest : Text → List ℕ) {Z : Type 0}
    (fails : Declaration → Option Z) (name_err : NameError → Z) where
  abbrev named : NameResult Name → Result Name Z
  named (Names.ok name) = ok name
  named (Names.err e) = err (name_err e)

  -- `action_sub_name`.
  abbrev pub action_sub_name : Text → Text → Creates Z Name
  action_sub_name action_fqn sub = lift (named (new_name (action_fqn ++ codes "/_action") sub))

  -- `param_service_name`.
  abbrev pub param_service_name : Text → Text → Creates Z Name
  param_service_name node_fqn base = lift (named (new_name node_fqn base))

  -- The topics of an action.
  abbrev feedback_topic : Text → ActionTypeName → Creates Z Topic
  feedback_topic fqn action_type = do
    name ← action_sub_name fqn (codes "feedback")
    reads (create_topic name (dds_action_topic action_type (codes "_FeedbackMessage")) default_qos)

  abbrev status_topic : Text → Creates Z Topic
  status_topic fqn = do
    name ← action_sub_name fqn (codes "status")
    reads (
        create_topic name (new_message_type (codes "action_msgs") (codes "GoalStatusArray"))
          default_qos)

  -- `Node::create_action_client`.
  unfoldable pub create_action_client : Name → ActionTypeName → Creates Z ActionClientEnd
  create_action_client action action_type = do
    fqn ← reads (λ n. resolve_fqn action n.node_name)
    send_goal_name ← action_sub_name fqn (codes "send_goal")
    send_goal ←
        create_client gid_from_liveliness_key digest fails send_goal_name
          (dds_action_service action_type (codes "_SendGoal"))
    get_result_name ← action_sub_name fqn (codes "get_result")
    get_result ←
        create_client_inner gid_from_liveliness_key digest fails get_result_name
          (dds_action_service action_type (codes "_GetResult")) (some get_result_timeout)
    feedback_on ← feedback_topic fqn action_type
    feedback ← create_subscription gid_from_liveliness_key digest fails feedback_on none
    cancel_goal_name ← action_sub_name fqn (codes "cancel_goal")
    cancel_goal ←
        create_client gid_from_liveliness_key digest fails cancel_goal_name cancel_goal_type
    status_on ← status_topic fqn
    status ← create_subscription gid_from_liveliness_key digest fails status_on none
    pure (record {
      send_goal = send_goal;
      get_result = get_result;
      feedback = feedback;
      cancel_goal = cancel_goal;
      status = status;
    })

  -- `Node::create_raw_action_server_with_type_hashes`.
  unfoldable pub create_raw_action_server_with_type_hashes :
      Name → ActionTypeName → ActionTypeHashes → Creates Z ActionServerEnd
  create_raw_action_server_with_type_hashes action action_type hashes = do
    fqn ← reads (λ n. resolve_fqn action n.node_name)
    send_goal_name ← action_sub_name fqn (codes "send_goal")
    send_goal ←
        create_raw_server_with_type_hash gid_from_liveliness_key digest fails send_goal_name
          (dds_action_service action_type (codes "_SendGoal")) hashes.send_goal
    get_result_name ← action_sub_name fqn (codes "get_result")
    get_result ←
        create_raw_server_with_type_hash gid_from_liveliness_key digest fails get_result_name
          (dds_action_service action_type (codes "_GetResult")) hashes.get_result
    feedback_on ← feedback_topic fqn action_type
    feedback ←
        create_publisher_with_type_hash gid_from_liveliness_key digest fails feedback_on none
          hashes.feedback_message
    cancel_goal_name ← action_sub_name fqn (codes "cancel_goal")
    cancel_goal ←
        create_server gid_from_liveliness_key digest fails cancel_goal_name cancel_goal_type
    status_on ← status_topic fqn
    status ← create_publisher gid_from_liveliness_key digest fails status_on none
    pure (record {
      send_goal = send_goal;
      get_result = get_result;
      feedback = feedback;
      cancel_goal = cancel_goal;
      status = status;
    })

  -- The hashes of `Node::create_raw_action_server`, and those with which `Node::create_action_server`
  -- makes its servers and its publisher.
  abbrev pub sender_hashes : ActionTypeName → ActionTypeHashes
  sender_hashes action_type = record {
    send_goal =
        sender_hash digest (dds_service_type (dds_action_service action_type (codes "_SendGoal")));
    get_result =
        sender_hash digest (dds_service_type (dds_action_service action_type (codes "_GetResult")));
    feedback_message =
        sender_hash digest (dds_msg_type (dds_action_topic action_type (codes "_FeedbackMessage")));
  }

  -- `Node::create_action_server` and `Node::create_raw_action_server`.
  abbrev pub create_action_server : Name → ActionTypeName → Creates Z ActionServerEnd
  create_action_server action action_type =
      create_raw_action_server_with_type_hashes action action_type (sender_hashes action_type)

  abbrev param_client : Text → Text → Text → Creates Z ClientEnd
  param_client fqn base ty = do
    name ← param_service_name fqn (base)
    create_client gid_from_liveliness_key digest fails name (param_type ty)

  abbrev param_server : Text → Text → Text → Creates Z ServerEnd
  param_server fqn base ty = do
    name ← param_service_name fqn base
    create_server gid_from_liveliness_key digest fails name (param_type ty)

  -- `Node::create_parameter_client`.
  unfoldable pub create_parameter_client : NodeName → Creates Z ParameterClientEnd
  create_parameter_client remote_node = do
    let fqn = fully_qualified_name remote_node
    get_parameters ← param_client fqn (codes "get_parameters") (codes "GetParameters")
    get_parameter_types ← param_client fqn (codes "get_parameter_types") (codes "GetParameterTypes")
    set_parameters ← param_client fqn (codes "set_parameters") (codes "SetParameters")
    list_parameters ← param_client fqn (codes "list_parameters") (codes "ListParameters")
    describe_parameters ←
        param_client fqn (codes "describe_parameters") (codes "DescribeParameters")
    pure (record {
      get_parameters = get_parameters;
      get_parameter_types = get_parameter_types;
      set_parameters = set_parameters;
      list_parameters = list_parameters;
      describe_parameters = describe_parameters;
    })

  -- A topic in the root namespace: `/parameter_events`, `/rosout`.
  abbrev root_topic : Text → Text → Creates Z Topic
  root_topic base ty = do
    name ← lift (named (new_name (codes "/") base))
    reads (create_topic name (new_message_type (codes "rcl_interfaces") ty) default_qos)

  -- `Node::create_parameter_server`.
  unfoldable pub create_parameter_server : Creates Z ParameterServerEnd
  create_parameter_server = do
    fqn ← reads (λ n. fully_qualified_name n.node_name)
    get_parameters ← param_server fqn (codes "get_parameters") (codes "GetParameters")
    get_parameter_types ← param_server fqn (codes "get_parameter_types") (codes "GetParameterTypes")
    set_parameters ← param_server fqn (codes "set_parameters") (codes "SetParameters")
    set_parameters_atomically ←
        param_server fqn (codes "set_parameters_atomically") (codes "SetParametersAtomically")
    list_parameters ← param_server fqn (codes "list_parameters") (codes "ListParameters")
    describe_parameters ←
        param_server fqn (codes "describe_parameters") (codes "DescribeParameters")
    events_topic ← root_topic (codes "parameter_events") (codes "ParameterEvent")
    events ← create_publisher gid_from_liveliness_key digest fails events_topic none
    pure (record {
      get_parameters = get_parameters;
      get_parameter_types = get_parameter_types;
      set_parameters = set_parameters;
      set_parameters_atomically = set_parameters_atomically;
      list_parameters = list_parameters;
      describe_parameters = describe_parameters;
      events = events;
    })

  -- `Node::create_logger`, by its publisher.
  unfoldable pub create_logger : Creates Z Publisher
  create_logger = do
    topic ← root_topic (codes "rosout") (codes "Log")
    create_publisher gid_from_liveliness_key digest fails topic none

  -- `Node::read_rosout`.
  unfoldable pub read_rosout : Creates Z SubscriptionEnd
  read_rosout = do
    topic ← root_topic (codes "rosout") (codes "Log")
    create_subscription gid_from_liveliness_key digest fails topic none
