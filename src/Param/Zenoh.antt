-- ===== src/Param/Zenoh.antt =====
-- src/zenoh_backend/parameters.rs: the parameter server on Zenoh, with its services as queues, and
-- what the client makes of the answers. `none` in a queue is a request that `try_receive_request`
-- fails to read. A response is sent whether or not that succeeds: failures are only logged. A request
-- is addressed by a number.
pub mod Server
use ros2_client.Base.{
  ℕ, Bool, true, false, List, [], ◌∷◌, ◌++◌, map, Option, none, some, if◌then◌else◌,
}
use ros2_client.Base.Int.{ℤ}
use ros2_client.Base.Text.{Text}
use ros2_client.Base.Ordered.{get, insert, contains_key}
use ros2_client.Param.Value.{
  ParameterValue, boolean, Parameter, RawParameter, RawValue, RawSetResult, RawDescriptor,
  from_raw_parameter, to_raw_parameter, from_raw, SetResult, ok, to_raw_result, read_result,
}
use ros2_client.Param.Store.{
  Store, text_order, sim_time_name, ParameterEvent, set_event, get_values, get_types, list_names,
  describe,
}
use ros2_client.Param.Node.{
  collect, handle_set_parameters_atomically, Response, get_response, types_response, set_response,
  list_response, describe_response,
}

abbrev pub ReqId : Type 0
ReqId = ℕ

abbrev pub Queue : Type 0 → Type 0
Queue Req = List (Option (ReqId × Req))

pub record Queues : Type 0 where
  pub get_parameters : Queue (List Text)
  pub get_parameter_types : Queue (List Text)
  pub set_parameters : Queue (List RawParameter)
  pub set_parameters_atomically : Queue (List RawParameter)
  pub list_parameters : Queue (List Text)
  pub describe_parameters : Queue (List Text)

pub record ParameterServer : Type 0 where
  pub node_fqn : Text
  pub store : Store
  pub events : List ParameterEvent

-- `ParameterServer::new`: `use_sim_time` is added if it was not declared.
unfoldable pub new_server : Text → List Parameter → ParameterServer
new_server node_fqn initial =
    let m = collect initial [] in
    record {
      node_fqn = node_fqn;
      store = if contains_key sim_time_name m then m else insert sim_time_name (boolean false) m;
      events = [];
    }

-- `set_and_notify`, which `set_parameter` calls too.
unfoldable pub set_and_notify :
    ℤ → Text → ParameterValue → ParameterServer → ParameterServer × SetResult
set_and_notify now name value s = (
  record s {
    store = insert name value s.store;
    events = s.events ++ set_event (contains_key name s.store) now s.node_fqn name value ∷ [];
  },
  ok,
)

-- `get_parameter` and `parameter_names`.
abbrev pub get_parameter : Text → ParameterServer → Option ParameterValue
get_parameter name s = get name s.store

abbrev pub parameter_names : ParameterServer → List Text
parameter_names s = map (λ e. e.0) s.store

-- The results of one `set_parameters` request.
unfoldable pub set_all :
    ℤ → List RawParameter → ParameterServer → ParameterServer × List RawSetResult
set_all now [] s = (s, [])
set_all now (p ∷ ps) s =
    let q = from_raw_parameter p in
    let (s1, r) = set_and_notify now q.name q.value s in
    let (s2, rs) = set_all now ps s1 in (s2, to_raw_result r ∷ rs)

-- The loop of a handler, `while let Ok(Some((id, req))) = try_receive_request()`: the state, the
-- responses in their order, and what is left in the queue.
unfoldable pub drain :
    {S Req Resp : Type 0}
    → (Req → S → S × Resp)
    → Queue Req
    → S
    → S × List (ReqId × Resp) × Queue Req
drain answer [] s = (s, [], [])
drain answer (none ∷ q) s = (s, [], q)
drain answer (some (id, r) ∷ q) s =
    let (s1, resp) = answer r s in
    let (s2, out, rest) = drain answer q s1 in (s2, (id, resp) ∷ out, rest)

-- The bodies of the six loops.
abbrev pub answer_get : List Text → ParameterServer → ParameterServer × Response
answer_get names s = (s, get_response (get_values s.store names))

abbrev pub answer_types : List Text → ParameterServer → ParameterServer × Response
answer_types names s = (s, types_response (get_types s.store names))

abbrev pub answer_set : ℤ → List RawParameter → ParameterServer → ParameterServer × Response
answer_set now ps s = let (s', rs) = set_all now ps s in (s', set_response rs)

abbrev pub answer_atomic : List RawParameter → ParameterServer → ParameterServer × Response
answer_atomic ps s = (s, set_response (handle_set_parameters_atomically ps))

abbrev pub answer_list : List Text → ParameterServer → ParameterServer × Response
answer_list prefixes s = (s, list_response (list_names s.store prefixes))

abbrev pub answer_describe : List Text → ParameterServer → ParameterServer × Response
answer_describe names s = (s, describe_response (describe s.store names))

-- `spin_once`: the six handlers, one after the other, and what they send.
unfoldable pub spin_once :
    ℤ → Queues → ParameterServer → ParameterServer × List (ReqId × Response) × Queues
spin_once now q s =
    let (s1, out1, q1) = drain answer_get q.get_parameters s in
    let (s2, out2, q2) = drain answer_types q.get_parameter_types s1 in
    let (s3, out3, q3) = drain (answer_set now) q.set_parameters s2 in
    let (s4, out4, q4) = drain answer_atomic q.set_parameters_atomically s3 in
    let (s5, out5, q5) = drain answer_list q.list_parameters s4 in
    let (s6, out6, q6) = drain answer_describe q.describe_parameters s5 in
    (
      s6,
      out1 ++ (out2 ++ (out3 ++ (out4 ++ (out5 ++ out6)))),
      record {
        get_parameters = q1;
        get_parameter_types = q2;
        set_parameters = q3;
        set_parameters_atomically = q4;
        list_parameters = q5;
        describe_parameters = q6;
      },
    )

-- What `ParameterClient` sends and reads: `set_parameters`, `get_parameters`.
abbrev pub client_set_request : List Parameter → List RawParameter
client_set_request ps = map to_raw_parameter ps

abbrev pub client_set_results : List RawSetResult → List SetResult
client_set_results rs = map read_result rs

abbrev pub client_values : List RawValue → List ParameterValue
client_values vs = map from_raw vs
