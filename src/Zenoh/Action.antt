-- ===== src/Zenoh/Action.antt =====
-- src/zenoh_backend/action.rs: the typed ends of an action on Zenoh, made of services (Zenoh.Service) and
-- topics (Zenoh.PubSub). A random goal id is an argument.
pub mod Laws
pub mod Raw
pub mod Tests
use ros2_client.Base.{ℕ, Bool, List, [], ◌∷◌, Option, none, some}
use ros2_client.Base.Int.{ℤ, pos}
use ros2_client.Base.Results.{Result, ok, err, map_err, ◌>>=◌}
use ros2_client.Time.Builtin.{Time, time_from_nanos}
use ros2_client.Action.Msgs.{
  GoalId, zero_id, GoalInfo, GoalStatus, CancelGoalRequest, CancelGoalResponse, GoalStatusArray,
}
use ros2_client.Zenoh.Wire.{Bytes, BodyCodec, CdrError, to_cdr, from_cdr, Serializer}
use ros2_client.Zenoh.Service.{
  RmwRequestId, ServiceError, cdr, Query, Reply, Server, Client, call, try_receive_request,
  async_receive_request, send_response, raw_try_receive_request, raw_async_receive_request,
  raw_send_response,
}
use ros2_client.Zenoh.PubSub.{
  Sample, Publisher, PublishError, TakeError, MessageInfo, publish, publish_raw, try_take,
}

-- The constants of `goal_status`.
abbrev pub executing_code : ℕ
executing_code = 2

abbrev pub succeeded_code : ℕ
succeeded_code = 4

abbrev pub aborted_code : ℕ
aborted_code = 5

abbrev pub canceled_code : ℕ
canceled_code = 6

pub record SendGoalRequest (G : Type 0) : Type 0 where
  pub goal_id : GoalId
  pub goal : G

pub record SendGoalResponse : Type 0 where
  pub accepted : Bool
  pub stamp : Time

pub record GetResultRequest : Type 0 where
  pub goal_id : GoalId

pub record GetResultResponse (R : Type 0) : Type 0 where
  pub status : ℤ
  pub result : R

pub record FeedbackMessage (F : Type 0) : Type 0 where
  pub goal_id : GoalId
  pub feedback : F

-- How the messages of an action are encoded.
pub record Codecs (G R F E : Type 0) : Type 0 where
  pub send_goal_request : BodyCodec (SendGoalRequest G) E
  pub send_goal_response : BodyCodec SendGoalResponse E
  pub get_result_request : BodyCodec GetResultRequest E
  pub get_result_response : BodyCodec (GetResultResponse R) E
  pub cancel_goal_request : BodyCodec CancelGoalRequest E
  pub cancel_goal_response : BodyCodec CancelGoalResponse E
  pub feedback_message : BodyCodec (FeedbackMessage F) E
  pub goal_status_array : BodyCodec GoalStatusArray E

-- `ActionClient`, by its service clients.
pub record ActionClient : Type 0 where
  pub send_goal_client : Client
  pub get_result_client : Client
  pub cancel_goal_client : Client

-- `ActionServer` and `RawActionServer`.
pub record ActionServer : Type 0 where
  pub send_goal_server : Server
  pub get_result_server : Server
  pub cancel_goal_server : Server
  pub feedback_publisher : Publisher
  pub status_publisher : Publisher

abbrev pub zero_time : Time
zero_time = time_from_nanos (pos 0)

-- The value of a result, if there is one.
abbrev pub if_ok : {A B E : Type 0} → (A → B) → Result (Option A) E → Option B
if_ok f (ok (some a)) = some (f a)
if_ok f (ok none) = none
if_ok f (err e) = none

module _ (z : Serializer) (Z : Type 0) {E G R F : Type 0} (k : Codecs G R F E) where
  -- The methods of `ActionClient`; what the session yields on a `get` is an argument.
  unfoldable pub send_goal :
      (Bytes → Bytes → Result (List (Option Bytes)) Z)
      → ℤ
      → GoalId
      → G
      → ActionClient
      → ActionClient × Result (GoalId × Bool) (ServiceError E Z)
  send_goal get_replies now goal_id goal a =
      let request : SendGoalRequest G = record { goal_id = goal_id; goal = goal } in
      let (c, r) =
        call z k.send_goal_request k.send_goal_response get_replies now request
          a.send_goal_client in
      (record a { send_goal_client = c }, r >>= λ response. ok (goal_id, response.accepted))

  unfoldable pub get_result :
      (Bytes → Bytes → Result (List (Option Bytes)) Z)
      → ℤ
      → GoalId
      → ActionClient
      → ActionClient × Result (ℤ × R) (ServiceError E Z)
  get_result get_replies now goal_id a =
      let request : GetResultRequest = record { goal_id = goal_id } in
      let (c, r) =
        call z k.get_result_request k.get_result_response get_replies now request
          a.get_result_client in
      (record a { get_result_client = c }, r >>= λ response. ok (response.status, response.result))

  -- What the subscription's channel has is an argument.
  unfoldable pub take_feedback : {C : Type 0} → Result (Option Sample) C → Option (GoalId × F)
  take_feedback received =
      if_ok (λ (message, info). (message.goal_id, message.feedback))
        (try_take z {E = E} k.feedback_message received)

  unfoldable pub take_status : {C : Type 0} → Result (Option Sample) C → Option GoalStatusArray
  take_status received =
      if_ok (λ (message, info). message) (try_take z {E = E} k.goal_status_array received)

  abbrev cancel :
      GoalId
      → (Bytes → Bytes → Result (List (Option Bytes)) Z)
      → ℤ
      → ActionClient
      → ActionClient × Result CancelGoalResponse (ServiceError E Z)
  cancel goal_id get_replies now a =
      let info : GoalInfo = record { goal_id = goal_id; stamp = zero_time } in
      let request : CancelGoalRequest = record { goal_info = info } in
      let (c, r) =
        call z k.cancel_goal_request k.cancel_goal_response get_replies now request
          a.cancel_goal_client in
      (record a { cancel_goal_client = c }, r)

  abbrev pub cancel_goal :
      GoalId
      → (Bytes → Bytes → Result (List (Option Bytes)) Z)
      → ℤ
      → ActionClient
      → ActionClient × Result CancelGoalResponse (ServiceError E Z)
  cancel_goal = cancel

  abbrev pub cancel_all_goals :
      (Bytes → Bytes → Result (List (Option Bytes)) Z)
      → ℤ
      → ActionClient
      → ActionClient × Result CancelGoalResponse (ServiceError E Z)
  cancel_all_goals = cancel zero_id

  -- The methods of `ActionServer`; a query is what `try_recv` has.
  unfoldable pub try_receive_goal :
      Option Query → ActionServer → ActionServer × Option (RmwRequestId × GoalId × G)
  try_receive_goal q a =
      let (s, r) =
        try_receive_request z {Z = Z} (from_cdr k.send_goal_request) q a.send_goal_server in
      (
        record a { send_goal_server = s },
        if_ok (λ (id, request). (id, request.goal_id, request.goal)) r,
      )

  unfoldable pub respond_goal :
      (Reply → Option Z)
      → ℤ
      → RmwRequestId
      → Bool
      → ActionServer
      → ActionServer × Result (Unit {0}) (ServiceError E Z)
  respond_goal fails now id accepted a =
      let response : SendGoalResponse = record { accepted = accepted; stamp = zero_time } in
      let (s, r) =
        send_response z fails now id (to_cdr k.send_goal_response response) a.send_goal_server in
      (record a { send_goal_server = s }, r)

  unfoldable pub publish_feedback :
      (Sample → Option Z)
      → ℤ
      → GoalId
      → F
      → ActionServer
      → ActionServer × Result (Unit {0}) (PublishError E Z)
  publish_feedback fails now goal_id feedback a =
      let message : FeedbackMessage F = record { goal_id = goal_id; feedback = feedback } in
      let (p, r) = publish z k.feedback_message fails now message a.feedback_publisher in
      (record a { feedback_publisher = p }, r)

  unfoldable pub try_receive_result_request :
      Option Query → ActionServer → ActionServer × Option (RmwRequestId × GoalId)
  try_receive_result_request q a =
      let (s, r) =
        try_receive_request z {Z = Z} (from_cdr k.get_result_request) q a.get_result_server in
      (record a { get_result_server = s }, if_ok (λ (id, request). (id, request.goal_id)) r)

  unfoldable pub respond_result :
      (Reply → Option Z)
      → ℤ
      → RmwRequestId
      → ℤ
      → R
      → ActionServer
      → ActionServer × Result (Unit {0}) (ServiceError E Z)
  respond_result fails now id status result a =
      let response : GetResultResponse R = record { status = status; result = result } in
      let (s, r) =
        send_response z fails now id (to_cdr k.get_result_response response) a.get_result_server in
      (record a { get_result_server = s }, r)

  unfoldable pub try_receive_cancel :
      Option Query → ActionServer → ActionServer × Option (RmwRequestId × GoalId)
  try_receive_cancel q a =
      let (s, r) =
        try_receive_request z {Z = Z} (from_cdr k.cancel_goal_request) q a.cancel_goal_server in
      (
        record a { cancel_goal_server = s },
        if_ok (λ (id, request). (id, request.goal_info.goal_id)) r,
      )

  -- `respond_cancel` of both servers.
  unfoldable pub respond_cancel :
      (Reply → Option Z)
      → ℤ
      → RmwRequestId
      → CancelGoalResponse
      → ActionServer
      → ActionServer × Result (Unit {0}) (ServiceError E Z)
  respond_cancel fails now id response a =
      let (s, r) =
        send_response z fails now id (to_cdr k.cancel_goal_response response)
          a.cancel_goal_server in
      (record a { cancel_goal_server = s }, r)

  unfoldable pub publish_status :
      (Sample → Option Z)
      → ℤ
      → List GoalStatus
      → ActionServer
      → ActionServer × Result (Unit {0}) (PublishError E Z)
  publish_status fails now status_list a =
      let message : GoalStatusArray = record { status_list = status_list } in
      let (p, r) = publish z k.goal_status_array fails now message a.status_publisher in
      (record a { status_publisher = p }, r)
