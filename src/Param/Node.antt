-- ===== src/Param/Node.antt =====
-- The parameters of a node on DDS: `Node` and its `Spinner` in src/node.rs, which share the store, the
-- flag `use_sim_time` and the simulated time. The validator and the set action of the application are
-- functions on the application's own state. The current time of a clock is an argument. `events` are
-- the events that are handed to the publisher, whose failures are only logged.
pub mod Set
pub mod History
pub mod Sync
pub mod Threads
use ros2_client.Base.{
  ℕ, suc, Bool, true, false, not, ◌||◌, List, [], ◌∷◌, ◌++◌, map, Option, none, some, if◌then◌else◌,
}
use ros2_client.Base.Int.{ℤ, pos}
use ros2_client.Base.Text.{Text, codes, text_eq}
use ros2_client.Base.Ordered.{get, insert, remove, contains_key}
use ros2_client.Param.Value.{
  ParameterValue, boolean, Parameter, RawParameter, RawValue, RawSetResult, RawDescriptor,
  from_raw_parameter, to_raw, SetResult, ok, err, to_raw_result,
}
use ros2_client.Param.Store.{
  Store, text_order, sim_time_name, ParameterEvent, set_event, get_values, get_types, list_names,
  describe,
}

-- `ParameterFunc`, with the application's state.
abbrev pub ParameterFunc : Type 0 → Type 0
ParameterFunc App = App → Text → ParameterValue → App × SetResult

-- What a node takes from its `NodeOptions` and its name.
pub record Options (App : Type 0) : Type 0 where
  pub allow_undeclared_parameters : Bool
  pub parameter_validator : Option (ParameterFunc App)
  pub parameter_set_action : Option (ParameterFunc App)
  pub node_name : Text

pub record NodeState (App : Type 0) : Type 0 where
  pub parameters : Store
  pub use_sim_time : Bool
  pub sim_time : ℤ
  pub events : List ParameterEvent
  pub app : App

-- `Node::time_now`.
abbrev pub time_now : {App : Type 0} → NodeState App → ℤ → ℤ
time_now s now = if s.use_sim_time then s.sim_time else now

-- The judgement of `use_sim_time`, with the message of the caller.
abbrev pub must_be_boolean : Text → ParameterValue → SetResult
must_be_boolean message (boolean b) = ok
must_be_boolean message _ = err message

abbrev pub store_flag : ParameterValue → Bool → Bool
store_flag (boolean b) flag = b
store_flag _ flag = flag

-- A call of the application's function, if it gave one.
abbrev pub ask :
    {App : Type 0}
    → Option (ParameterFunc App)
    → Text
    → ParameterValue
    → NodeState App
    → NodeState App × SetResult
ask none name value s = (s, ok)
ask (some f) name value s = let (app, r) = f s.app name value in (record s { app = app }, r)

-- The `?` of Rust.
abbrev pub and_then :
    {App : Type 0}
    → NodeState App × SetResult
    → (NodeState App → NodeState App × SetResult)
    → NodeState App × SetResult
and_then (s, ok) k = k s
and_then (s, err e) k = (s, err e)

-- Values that are inserted one after the other: a later one replaces an earlier one.
abbrev pub collect : List Parameter → Store → Store
collect [] m = m
collect (p ∷ ps) m = collect ps (insert p.name p.value m)

-- The declared parameters of `Node::new`: `use_sim_time` is pushed behind them.
abbrev pub initial_parameters : List Parameter → Store
initial_parameters declared =
    collect (declared ++ record { name = sim_time_name; value = boolean false } ∷ []) []

module _ {App : Type 0} (o : Options App) where
  -- `validate_parameter_on_set`, the same in both.
  unfoldable pub validate_parameter_on_set :
      Text → ParameterValue → NodeState App → NodeState App × SetResult
  validate_parameter_on_set name value s =
      if text_eq name sim_time_name
      then (s, must_be_boolean (codes "Parameter'use_sim_time' must be Boolean.") value)
      else ask o.parameter_validator name value s

  -- `execute_parameter_set_actions`, the same in both.
  unfoldable pub execute_parameter_set_actions :
      Text → ParameterValue → NodeState App → NodeState App × SetResult
  execute_parameter_set_actions name value s =
      if text_eq name sim_time_name
      then (
        record s { use_sim_time = store_flag value s.use_sim_time },
        must_be_boolean (codes "Parameter 'use_sim_time' must be Boolean.") value,
      )
      else ask o.parameter_set_action name value s

  -- The insertion and the event at the end of `set_parameter`. The event is handed to the writer, which
  -- may lose it: see `delivered`.
  unfoldable pub store_and_notify :
      Bool → (NodeState App → ℤ) → Text → ParameterValue → NodeState App → NodeState App
  store_and_notify already stamp name value s = record s {
    parameters = insert name value s.parameters;
    events = s.events ++ set_event already (stamp s) o.node_name name value ∷ [];
  }

  -- The steps of `set_parameter` once the parameter may be set.
  unfoldable pub set_declared :
      Bool → (NodeState App → ℤ) → Text → ParameterValue → NodeState App → NodeState App × SetResult
  set_declared already stamp name value s = and_then (validate_parameter_on_set name value s) λ s1.
      and_then (execute_parameter_set_actions name value s1)
        λ s2. (store_and_notify already stamp name value s2, ok)

  -- `set_parameter`, which `Node` and `Spinner` have alike but for the stamp of the event, with no other
  -- call between its two locked sections; its steps among those of other calls are in Threads.
  unfoldable pub set_parameter :
      (NodeState App → ℤ) → Text → ParameterValue → NodeState App → NodeState App × SetResult
  set_parameter stamp name value s =
      let already = contains_key name s.parameters in
      if o.allow_undeclared_parameters || already
      then set_declared already stamp name value s
      else (s, err (codes "Setting undeclared parameter '" ++ name ++ codes "' is not allowed."))

  -- `Node::set_parameter` stamps with the time of the node, which may be simulated.
  abbrev pub node_set_parameter :
      ℤ → Text → ParameterValue → NodeState App → NodeState App × SetResult
  node_set_parameter now name value s = set_parameter (λ s'. time_now s' now) name value s

  -- `Spinner::set_parameter` stamps with the clock.
  abbrev pub spinner_set_parameter :
      ℤ → Text → ParameterValue → NodeState App → NodeState App × SetResult
  spinner_set_parameter now name value s = set_parameter (λ s'. now) name value s

  -- The answer to a `set_parameters` request: the parameters are set in their order.
  unfoldable pub handle_set_parameters :
      ℤ → List RawParameter → NodeState App → NodeState App × List RawSetResult
  handle_set_parameters now [] s = (s, [])
  handle_set_parameters now (p ∷ ps) s =
      let q = from_raw_parameter p in
      let (s1, r) = spinner_set_parameter now q.name q.value s in
      let (s2, rs) = handle_set_parameters now ps s1 in (s2, to_raw_result r ∷ rs)

  -- `Node::undeclare_parameter`.
  unfoldable pub undeclare_parameter : ℤ → Text → NodeState App → NodeState App
  undeclare_parameter now name s = elim (get name s.parameters) [
    | none ↦ s
    | some v ↦ record s {
      parameters = remove name s.parameters;
      events =
          s.events
          ++ record {
            stamp = time_now s now;
            node = o.node_name;
            new_parameters = [];
            changed_parameters = [];
            deleted_parameters = record { name = name; value = to_raw v } ∷ [];
          }
            ∷ [];
    }
  ]

  -- The `try_for_each` of `Node::new`, in the order of the names.
  unfoldable pub check_all : Store → NodeState App → NodeState App × SetResult
  check_all [] s = (s, ok)
  check_all ((name, value) ∷ m) s =
      and_then (validate_parameter_on_set name value s)
        λ s1. and_then (execute_parameter_set_actions name value s1) (check_all m)

  -- The parameters of `Node::new`: with an error there is no node.
  unfoldable pub new_node : List Parameter → App → NodeState App × SetResult
  new_node declared app =
      let m = initial_parameters declared in
      check_all m
        (record { parameters = m; use_sim_time = false; sim_time = pos 0; events = []; app = app })

-- The answer to a `set_parameters_atomically` request.
unfoldable pub handle_set_parameters_atomically : List RawParameter → List RawSetResult
handle_set_parameters_atomically ps =
    map (λ p. to_raw_result (err (codes "Setting parameters atomically is not implemented."))) ps

-- A message on the clock topic.
abbrev pub handle_clock : {App : Type 0} → ℤ → NodeState App → NodeState App
handle_clock time s = record s { sim_time = time }

-- `has_parameter`, `get_parameter` and `list_parameters` of `Node`.
abbrev pub has_parameter : {App : Type 0} → Text → NodeState App → Bool
has_parameter name s = contains_key name s.parameters

abbrev pub get_parameter : {App : Type 0} → Text → NodeState App → Option ParameterValue
get_parameter name s = get name s.parameters

abbrev pub list_parameters : {App : Type 0} → NodeState App → List Text
list_parameters s = map (λ e. e.0) s.parameters

-- The events that the writer takes: a failed `publish` is only logged, and its event is lost. A test
-- tells whether the n-th is taken.
unfoldable pub delivered : (ℕ → Bool) → ℕ → List ParameterEvent → List ParameterEvent
delivered takes n [] = []
delivered takes n (e ∷ es) =
    let rest = delivered takes (suc n) es in if takes n then e ∷ rest else rest

-- A request to the parameter services, and what it is answered with.
pub data Request : Type 0 where
  get_request : List Text → Request
  types_request : List Text → Request
  set_request : List RawParameter → Request
  atomic_request : List RawParameter → Request
  list_request : List Text → Request
  describe_request : List Text → Request

pub data Response : Type 0 where
  get_response : List RawValue → Response
  types_response : List ℕ → Response
  set_response : List RawSetResult → Response
  list_response : List Text → Response
  describe_response : List RawDescriptor → Response

-- What happens to a node's parameters, one call after the other: calls of the application, requests,
-- and the clock topic. Calls that overlap are in Threads.
pub data Event : Type 0 where
  sets : ℤ → Text → ParameterValue → Event
  undeclares : ℤ → Text → Event
  requests : ℤ → Request → Event
  clock : ℤ → Event

module _ {App : Type 0} (o : Options App) where
  -- The arms of the `select!` in `Spinner::spin` that answer requests.
  unfoldable pub handle_request : ℤ → Request → NodeState App → NodeState App × Response
  handle_request now (get_request names) s = (s, get_response (get_values s.parameters names))
  handle_request now (types_request names) s = (s, types_response (get_types s.parameters names))
  handle_request now (set_request ps) s =
      let (s', rs) = handle_set_parameters o now ps s in (s', set_response rs)
  handle_request now (atomic_request ps) s = (s, set_response (handle_set_parameters_atomically ps))
  handle_request now (list_request prefixes) s =
      (s, list_response (list_names s.parameters prefixes))
  handle_request now (describe_request names) s =
      (s, describe_response (describe s.parameters names))

  unfoldable pub step : NodeState App → Event → NodeState App
  step s (sets now name value) = (node_set_parameter o now name value s).0
  step s (undeclares now name) = undeclare_parameter o now name s
  step s (requests now r) = (handle_request now r s).0
  step s (clock time) = handle_clock time s

  unfoldable pub run : NodeState App → List Event → NodeState App
  run s [] = s
  run s (e ∷ es) = run (step s e) es
