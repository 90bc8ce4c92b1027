-- ===== src/Action/Client.antt =====
-- src/action/client.rs: the action client, over the service clients of Service.Ends and the subscriptions
-- of PubSub. A random goal id and the samples that a reader holds are arguments; a method that takes
-- samples returns those that it leaves.
pub mod Laws
pub mod Cancel
pub mod Tests
use ros2_client.Base.{Bool, List, [], ◌∷◌, map, Option, none, some, if◌then◌else◌, ◌==◌}
use ros2_client.Base.Int.{ℤ, pos}
use ros2_client.Base.Results.{Result, ok, err, ◌>>=◌}
use ros2_client.Time.Builtin.{Time}
use ros2_client.Action.Msgs.{
  GoalId, zero_id, GoalInfo, GoalStatusEnum, GoalStatus, CancelGoalRequest, CancelGoalResponse,
  GoalStatusArray,
}
use ros2_client.Action.Types.{
  SendGoalRequest, SendGoalResponse, GetResultRequest, GetResultResponse, FeedbackMessage, Codecs,
  goal_response, cancel_request, cancel_response,
}
use ros2_client.Service.Message.{RmwRequestId, MessageInfo, CacheChange}
use ros2_client.Service.Wrappers.{Codec, Dds, Wrapper}
use ros2_client.Service.Ends.{
  Client, WriteWithOptions, CallServiceError, id_eq, send_request, receive_response,
  async_call_service,
}
use ros2_client.PubSub.{take, async_take, async_stream}
use mathlib.Core.List.{filter_map}

-- The client, by its service clients.
pub record ActionClient : Type 0 where
  pub my_goal_client : Client
  pub my_cancel_client : Client
  pub my_result_client : Client

-- `Time::ZERO`.
abbrev pub time_zero : Time
time_zero = record { nanos_since_epoch = pos 0 }

-- `Result::map`.
abbrev map_ok : {A B E : Type 0} → (A → B) → Result A E → Result B E
map_ok f (ok a) = ok (f a)
map_ok f (err e) = err e

abbrev map_some : {A B : Type 0} → (A → B) → Option A → Option B
map_some f none = none
map_some f (some a) = some (f a)

abbrev pub cancel_request_of : GoalId → Time → CancelGoalRequest
cancel_request_of goal_id timestamp = record {
  goal_info = record { goal_id = goal_id; stamp = timestamp };
}

-- One turn of a receiving loop: what a take returned, what it left, and what the next turns return. A
-- test tells whether a message is the expected one.
abbrev turn :
    {A V E S : Type 0}
    → (A → Bool)
    → (A → V)
    → List S
    → Result (Option V) E × List S
    → Result (Option A) E
    → Result (Option V) E × List S
turn is_ours view left next (err e) = (err e, left)
turn is_ours view left next (ok none) = (ok none, left)
turn is_ours view left next (ok (some a)) = if is_ours a then (ok (some (view a)), left) else next

-- The loop that `receive_goal_response`, `receive_cancel_response` and `receive_result` share: it
-- drains the reader until the answer to `req_id`.
module _ {E W : Type 0} (d : Dds E W) where
  unfoldable pub receive_own :
      {Req Resp V : Type 0}
      → Codec Req E W
      → Codec Resp E W
      → (Resp → V)
      → RmwRequestId
      → Client
      → List (Result (CacheChange Wrapper) E)
      → Result (Option V) E × List (Result (CacheChange Wrapper) E)
  receive_own rq rs view req_id c [] = (ok none, [])
  receive_own rq rs view req_id c (sample ∷ cache) =
      let next = receive_own rq rs view req_id c cache in
      turn (λ (incoming_req_id, resp). id_eq incoming_req_id req_id) (λ (id, resp). view resp) cache
        next (receive_response d rq rs (sample >>= λ dcc. ok (some dcc)) c)

module _ {E W G R : Type 0} (d : Dds E W) (k : Codecs G R E W) where
  unfoldable pub send_goal :
      WriteWithOptions Wrapper W
      → GoalId
      → G
      → ActionClient
      → ActionClient × Result (RmwRequestId × GoalId) W
  send_goal write_with_options goal_id goal a =
      let request : SendGoalRequest G = record { goal_id = goal_id; goal = goal } in
      let (c, r) =
        send_request d k.goal_request (goal_response k) write_with_options request
          a.my_goal_client in
      (record a { my_goal_client = c }, r >>= λ req_id. ok (req_id, goal_id))

  unfoldable pub async_send_goal :
      WriteWithOptions Wrapper W
      → (RmwRequestId → List (Result (CacheChange Wrapper) E))
      → GoalId
      → G
      → ActionClient
      → ActionClient × Result (GoalId × SendGoalResponse) (CallServiceError E W)
  async_send_goal write_with_options stream goal_id goal a =
      let request : SendGoalRequest G = record { goal_id = goal_id; goal = goal } in
      let (c, r) =
        async_call_service d k.goal_request (goal_response k) write_with_options stream request
          a.my_goal_client in
      (record a { my_goal_client = c }, r >>= λ response. ok (goal_id, response))

  unfoldable pub cancel_goal_raw :
      WriteWithOptions Wrapper W
      → GoalId
      → Time
      → ActionClient
      → ActionClient × Result RmwRequestId W
  cancel_goal_raw write_with_options goal_id timestamp a =
      let (c, r) =
        send_request d (cancel_request k) (cancel_response k) write_with_options
          (cancel_request_of goal_id timestamp) a.my_cancel_client in
      (record a { my_cancel_client = c }, r)

  abbrev pub cancel_goal :
      GoalId → WriteWithOptions Wrapper W → ActionClient → ActionClient × Result RmwRequestId W
  cancel_goal goal_id write_with_options = cancel_goal_raw write_with_options goal_id time_zero

  abbrev pub cancel_all_goals_before :
      Time → WriteWithOptions Wrapper W → ActionClient → ActionClient × Result RmwRequestId W
  cancel_all_goals_before timestamp write_with_options =
      cancel_goal_raw write_with_options zero_id timestamp

  abbrev pub cancel_all_goals :
      WriteWithOptions Wrapper W → ActionClient → ActionClient × Result RmwRequestId W
  cancel_all_goals write_with_options = cancel_goal_raw write_with_options zero_id time_zero

  unfoldable pub async_cancel_goal :
      WriteWithOptions Wrapper W
      → (RmwRequestId → List (Result (CacheChange Wrapper) E))
      → GoalId
      → Time
      → ActionClient
      → ActionClient × Result CancelGoalResponse (CallServiceError E W)
  async_cancel_goal write_with_options stream goal_id timestamp a =
      let (c, r) =
        async_call_service d (cancel_request k) (cancel_response k) write_with_options stream
          (cancel_request_of goal_id timestamp) a.my_cancel_client in
      (record a { my_cancel_client = c }, r)

  unfoldable pub request_result :
      WriteWithOptions Wrapper W → GoalId → ActionClient → ActionClient × Result RmwRequestId W
  request_result write_with_options goal_id a =
      let request : GetResultRequest = record { goal_id = goal_id } in
      let (c, r) =
        send_request d k.result_request k.result_response write_with_options request
          a.my_result_client in
      (record a { my_result_client = c }, r)

  abbrev pub result_of : GetResultResponse R → GoalStatusEnum × R
  result_of response = (response.status, response.result)

  unfoldable pub async_request_result :
      WriteWithOptions Wrapper W
      → (RmwRequestId → List (Result (CacheChange Wrapper) E))
      → GoalId
      → ActionClient
      → ActionClient × Result (GoalStatusEnum × R) (CallServiceError E W)
  async_request_result write_with_options stream goal_id a =
      let request : GetResultRequest = record { goal_id = goal_id } in
      let (c, r) =
        async_call_service d k.result_request k.result_response write_with_options stream request
          a.my_result_client in
      (record a { my_result_client = c }, r >>= λ response. ok (result_of response))

  abbrev pub receive_goal_response :
      RmwRequestId
      → ActionClient
      → List (Result (CacheChange Wrapper) E)
      → Result (Option SendGoalResponse) E × List (Result (CacheChange Wrapper) E)
  receive_goal_response req_id a =
      receive_own d k.goal_request (goal_response k) (λ resp. resp) req_id a.my_goal_client

  abbrev pub receive_cancel_response :
      RmwRequestId
      → ActionClient
      → List (Result (CacheChange Wrapper) E)
      → Result (Option CancelGoalResponse) E × List (Result (CacheChange Wrapper) E)
  receive_cancel_response cancel_request_id a =
      receive_own d (cancel_request k) (cancel_response k) (λ resp. resp) cancel_request_id
        a.my_cancel_client

  abbrev pub receive_result :
      RmwRequestId
      → ActionClient
      → List (Result (CacheChange Wrapper) E)
      → Result (Option (GoalStatusEnum × R)) E × List (Result (CacheChange Wrapper) E)
  receive_result result_request_id a =
      receive_own d k.result_request k.result_response result_of result_request_id
        a.my_result_client

abbrev is_about : {F : Type 0} → GoalId → FeedbackMessage F × MessageInfo → Bool
is_about goal_id (fb_msg, msg_info) = fb_msg.goal_id == goal_id

-- `find` on the list of statuses.
unfoldable pub find_status : GoalId → List GoalStatus → Option GoalStatus
find_status goal_id [] = none
find_status goal_id (gs ∷ list) =
    let rest = find_status goal_id list in if gs.goal_info.goal_id == goal_id then some gs else rest

module _ {E F : Type 0} where
  unfoldable pub receive_feedback :
      GoalId
      → List (Result (CacheChange (FeedbackMessage F)) E)
      → Result (Option F) E × List (Result (CacheChange (FeedbackMessage F)) E)
  receive_feedback goal_id [] = (ok none, [])
  receive_feedback goal_id (sample ∷ cache) =
      let next = receive_feedback goal_id cache in
      turn (is_about goal_id) (λ (fb_msg, msg_info). fb_msg.feedback) cache next
        (take (sample >>= λ dcc. ok (some dcc)))

  -- The closure of `feedback_stream`.
  abbrev pub feedback_of : GoalId → Result (FeedbackMessage F × MessageInfo) E → Option (Result F E)
  feedback_of expected_goal_id (err e) = some (err e)
  feedback_of expected_goal_id (ok (message, msg_info)) =
      if message.goal_id == expected_goal_id then some (ok message.feedback) else none

  unfoldable pub feedback_stream :
      GoalId → List (Result (CacheChange (FeedbackMessage F)) E) → List (Result F E)
  feedback_stream goal_id samples = filter_map (feedback_of goal_id) (async_stream samples)

module _ {E : Type 0} where
  abbrev pub receive_status :
      Result (Option (CacheChange GoalStatusArray)) E → Result (Option GoalStatusArray) E
  receive_status taken = map_ok (map_some λ (gsa, msg_info). gsa) (take taken)

  abbrev pub async_receive_status :
      {W : Type 0}
      → Dds E W
      → List (Result (CacheChange GoalStatusArray) E)
      → Result GoalStatusArray E
  async_receive_status d stream = async_take d stream >>= λ (m, msg_info). ok m

  abbrev pub all_statuses_stream :
      List (Result (CacheChange GoalStatusArray) E) → List (Result GoalStatusArray E)
  all_statuses_stream samples = map (map_ok λ (gsa, mi). gsa) (async_stream samples)

  -- The closure of `status_stream`.
  abbrev pub status_of : GoalId → Result GoalStatusArray E → Option (Result GoalStatus E)
  status_of goal_id (err e) = some (err e)
  status_of goal_id (ok gsa) = map_some ok (find_status goal_id gsa.status_list)

  unfoldable pub status_stream :
      GoalId → List (Result (CacheChange GoalStatusArray) E) → List (Result GoalStatus E)
  status_stream goal_id samples = filter_map (status_of goal_id) (all_statuses_stream samples)
