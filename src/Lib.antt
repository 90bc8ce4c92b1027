-- ===== src/Lib.antt =====
-- A verification library for ros2-client, a ROS 2 client library in Rust over two middlewares
-- (RustDDS and Zenoh).
--
-- The program's parts and how they interact. A node (src/node.rs, src/zenoh_backend/node.rs) creates
-- publishers, services and actions under names that src/names.rs checks and turns into DDS names. The
-- action server (src/action/server.rs) keeps a table of goals and moves them through their states on
-- behalf of the application and of remote clients, with stamps of src/builtin_interfaces.rs. On
-- Zenoh, every entity announces itself by a liveliness key (src/zenoh_backend/keyexpr.rs) that holds
-- its mangled names, its type's DDS name and its QoS as compact text
-- (src/zenoh_backend/qos_encoding.rs), and every process reads the keys of the others. A node keeps
-- parameters (src/node.rs, src/zenoh_backend/parameters.rs) that it serves to others by six services.
--
-- Where each part stands:
--   * Base: tests on numbers, lists with membership, integers as the library's ℤ over native numbers,
--     text, decimal numbers, and ordered association lists (BTreeMap). Nothing in it is of the program.
--   * Time.Builtin: src/builtin_interfaces.rs. `Time`, its wire form `Repr` (repr::Time) and `Duration`;
--     from_nanos, to_nanos and both conversions are functions of the same names.
--   * Time.Steady: src/steady_time.rs. Steady times (`SteadyTime` for its Time), TimeDiff and their operators.
--   * Time.Ros: src/ros_time.rs. ROSTime (`RosTime`), ROSDuration, their operators and conversions.
--   * Action.Msgs: src/action_msgs.rs. Goal infos, statuses and cancel codes.
--   * Action.Server: src/action/server.rs. State holds the AsyncActionServer record with the goal
--     map, the queue of finished goals, the kept result requests, and the log of what was sent. Sections holds the
--     blocks of code that run under one lock, Handlers and Cancel the methods, Run the calls as a data
--     type with a step and histories. Frame, Invariant, Lifecycle, Outcome, Cancel.Selection and
--     Cancel.Response are proofs.
--   * Action.Types, Action.Client, Action.RawServer: src/action.rs, src/action/client.rs and
--     src/action/raw_server.rs, over Service.Ends and PubSub. A receiving loop takes from the list of samples
--     that the reader holds and returns what it leaves.
--   * PubSub: src/pubsub.rs. Publishers and subscriptions of the DDS backend, typed and raw.
--   * Names: src/names.rs. NodeName, Name (new, parse, Display, to_dds_name, push) and TypeName
--     (types of messages, services and actions).
--   * Zenoh.KeyExpr: src/zenoh_backend/keyexpr.rs. Mangling, data-plane keys, node and
--     endpoint tokens and their parser.
--   * Zenoh.GraphCache: src/zenoh_backend/graph_cache.rs. The cache of live entities that the liveliness
--     samples feed (apply_put, apply_delete), the counts by topic, the list of node names and the
--     subscribers' channels.
--   * Qos: src/qos.rs. The profile, and its conversions from and to the policies of RustDDS.
--   * Zenoh.Qos: src/zenoh_backend/qos_encoding.rs. `groups_of` is the six
--     groups of the format string of encode_qos.
--
--   * Param.Value, Param.Store: src/parameters.rs and src/rcl_interfaces.rs. Parameter values with their
--     wire forms, the store of parameters, its events, and the answers that only read it.
--   * Param.Node: the parameters in src/node.rs. `NodeState` is what a Node and its Spinner share; the
--     arms of the spinner's select! are `handle_request`, and Run's counterpart here is `run`.
--   * Param.Zenoh: src/zenoh_backend/parameters.rs. ParameterServer, its six handlers over queues of
--     requests, and what ParameterClient sends and reads.
--   * Zenoh.Wire: src/zenoh_backend/cdr.rs and src/zenoh_backend/attachment.rs, over the crates
--     cdr_encoding and zenoh_ext as the parameters BodyCodec and Serializer.
--   * Zenoh.Service: src/zenoh_backend/service.rs. Client, Server and RawServer; the session of zenoh is
--     a function from a payload and an attachment to replies.
--   * Zenoh.PubSub: src/zenoh_backend/pubsub.rs. Publishers and subscriptions, typed and raw.
--   * Zenoh.Action: src/zenoh_backend/action.rs. ActionClient and ActionServer, and in Raw RawActionServer,
--     with one service or topic for each field.
--   * Zenoh.Description, Zenoh.TypeHash: src/zenoh_backend/type_description.rs and type_hash.rs beside it. The
--     writers of the JSON text, and the table of hashes, over the digest of Sha256 as a parameter.
--   * Zenoh.Node: src/zenoh_backend/node.rs. A node with its counter and what it declared on the session;
--     Bundles holds the ends of actions, of parameters and of the log, Run the calls as a data type.
--   * Zenoh.Context: src/zenoh_backend/context.rs. The ids of nodes, and wait_for over the graph cache.
--   * Service: src/service and src/message_info.rs. Message holds the ids, Wrappers the three mappings onto
--     DDS over RustDDS as the record Dds, Ends the client, the server and the raw server.
--   * Discovery: the rest of src/node.rs, with src/context.rs and src/entities_info.rs. Matches are the two
--     maps of matched endpoints, Wait the future MatchWait beside the spinner, Status the channels of
--     send_status_event, Entities and Context what a node and its context announce.
--
-- How code is read. Integers with overflow wrap around as in a release build, written out at each
-- operation; debug_assert is left out. Text is the list of its Unicode scalar values. A goal id is the
-- 128-bit number of its UUID, and a request id of the middleware a number, since only its identity is
-- used. A BTreeMap is an ascending association list. In
-- the action server a call is one step of Run, and calls come one after the other: one ends before the
-- next begins, also where it takes a lock several times (respond_to_cancel_requests) or awaits the
-- publication of statuses (send_result_response, abort_goal). Only the wait for a result request is a
-- call of its own, so that others can come before it ends. A node's parameters are modelled twice:
-- Param.Node has a call as one step, and Param.Node.Threads has every access to a shared lock or flag,
-- every call of a function of the application and every publication as a step of its own, so that the
-- calls of any number of threads interleave. What the middleware does is a
-- parameter: whether its write of a response or of an event succeeds, and what requests arrive.
--
-- Bounds. There is no fuel: loops are structural recursion, and printing a number is recursion on
-- accessibility. Numbers of type u16, u32 and u64 are natural numbers that parsers bound by their
-- type's largest value.
--
-- Not modelled: the creation of entities on DDS, sessions and queues, which is third-party code (RustDDS,
-- zenoh), serialization derived by serde (but for the
-- conversion of a Time, which is the program's), clocks, logging, the generator of messages,
-- the conversions of the chrono crate in ros_time.rs.
pub mod Base
pub mod Param
pub mod PubSub
pub mod Qos
pub mod Service
pub mod Time
pub mod Discovery
pub mod Action
pub mod Names
pub mod Zenoh
