-- ===== src/Zenoh/Action/Raw.antt =====
-- The raw action server of src/zenoh_backend/action.rs: goals and results are bytes, while cancel
-- requests and statuses are typed. Its `respond_cancel` is that of the typed server.
use ros2_client.Base.{Bool, Option, none, some}
use ros2_client.Base.Int.{ℤ}
use ros2_client.Base.Results.{Result, ok, err, map_err, ◌>>=◌}
use ros2_client.Time.Builtin.{Time}
use ros2_client.Action.Msgs.{GoalId, GoalInfo, GoalStatusArray}
use ros2_client.Zenoh.Wire.{Bytes, to_cdr, from_cdr, Serializer}
use ros2_client.Zenoh.Service.{
  RmwRequestId, ServiceError, cdr, Query, Reply, try_receive_request, async_receive_request,
  raw_try_receive_request, raw_async_receive_request, raw_send_response,
}
use ros2_client.Zenoh.PubSub.{Sample, PublishError, publish, publish_raw}
use ros2_client.Zenoh.Action.{SendGoalResponse, Codecs, ActionServer, if_ok}

module _ (z : Serializer) (Z : Type 0) {E G R F : Type 0} (k : Codecs G R F E) where
  unfoldable pub raw_receive_goal_request :
      Option Query → ActionServer → ActionServer × Result (RmwRequestId × Bytes) (ServiceError E Z)
  raw_receive_goal_request q a =
      let (s, r) = raw_async_receive_request z {E = E} {Z = Z} q a.send_goal_server in
      (record a { send_goal_server = s }, r)

  unfoldable pub raw_try_receive_goal_request :
      Option Query → ActionServer → ActionServer × Option (RmwRequestId × Bytes)
  raw_try_receive_goal_request q a =
      let (s, r) = raw_try_receive_request z {E = E} {Z = Z} q a.send_goal_server in
      (record a { send_goal_server = s }, if_ok (λ request. request) r)

  unfoldable pub raw_respond_goal :
      (Reply → Option Z)
      → ℤ
      → RmwRequestId
      → Bool
      → Time
      → ActionServer
      → ActionServer × Result (Unit {0}) (ServiceError E Z)
  raw_respond_goal fails now id accepted stamp a =
      let response : SendGoalResponse = record { accepted = accepted; stamp = stamp } in
      elim (to_cdr k.send_goal_response response) [
        | ok bytes ↦ (
          record a {
            send_goal_server =
                (raw_send_response z {E = E} fails now id bytes a.send_goal_server).0;
          },
          (raw_send_response z {E = E} fails now id bytes a.send_goal_server).1,
        )
        | err e ↦ (a, err (cdr e))
      ]

  unfoldable pub raw_receive_cancel_request :
      Option Query
      → ActionServer
      → ActionServer × Result (RmwRequestId × GoalInfo) (ServiceError E Z)
  raw_receive_cancel_request q a =
      let (s, r) =
        async_receive_request z {Z = Z} (from_cdr k.cancel_goal_request) q a.cancel_goal_server in
      (record a { cancel_goal_server = s }, r >>= λ (id, request). ok (id, request.goal_info))

  unfoldable pub raw_try_receive_cancel_request :
      Option Query → ActionServer → ActionServer × Option (RmwRequestId × GoalInfo)
  raw_try_receive_cancel_request q a =
      let (s, r) =
        try_receive_request z {Z = Z} (from_cdr k.cancel_goal_request) q a.cancel_goal_server in
      (record a { cancel_goal_server = s }, if_ok (λ (id, request). (id, request.goal_info)) r)

  abbrev decode_goal : RmwRequestId × Bytes → Result (RmwRequestId × GoalId) (ServiceError E Z)
  decode_goal (id, bytes) = do
    request ← map_err cdr (from_cdr k.get_result_request bytes)
    ok (id, request.goal_id)

  unfoldable pub raw_receive_result_request :
      Option Query → ActionServer → ActionServer × Result (RmwRequestId × GoalId) (ServiceError E Z)
  raw_receive_result_request q a =
      let (s, r) = raw_async_receive_request z {E = E} {Z = Z} q a.get_result_server in
      (record a { get_result_server = s }, r >>= decode_goal)

  abbrev pub goal_of : Option (RmwRequestId × Bytes) → Option (RmwRequestId × GoalId)
  goal_of none = none
  goal_of (some (id, bytes)) = elim (from_cdr k.get_result_request bytes) [
    | ok request ↦ some (id, request.goal_id)
    | err e ↦ none
  ]

  unfoldable pub raw_try_receive_result_request :
      Option Query → ActionServer → ActionServer × Option (RmwRequestId × GoalId)
  raw_try_receive_result_request q a =
      let (s, r) = raw_try_receive_request z {E = E} {Z = Z} q a.get_result_server in
      (record a { get_result_server = s }, goal_of (if_ok (λ request. request) r))

  unfoldable pub respond_result_raw :
      (Reply → Option Z)
      → ℤ
      → RmwRequestId
      → Bytes
      → ActionServer
      → ActionServer × Result (Unit {0}) (ServiceError E Z)
  respond_result_raw fails now id cdr_response a =
      let (s, r) = raw_send_response z {E = E} fails now id cdr_response a.get_result_server in
      (record a { get_result_server = s }, r)

  unfoldable pub publish_feedback_raw :
      (Sample → Option Z)
      → ℤ
      → Bytes
      → ActionServer
      → ActionServer × Result (Unit {0}) (PublishError E Z)
  publish_feedback_raw fails now cdr_message a =
      let (p, r) = publish_raw z {E = E} fails now cdr_message a.feedback_publisher in
      (record a { feedback_publisher = p }, r)

  unfoldable pub publish_statuses_raw :
      (Sample → Option Z)
      → ℤ
      → GoalStatusArray
      → ActionServer
      → ActionServer × Result (Unit {0}) (PublishError E Z)
  publish_statuses_raw fails now statuses a =
      let (p, r) = publish z k.goal_status_array fails now statuses a.status_publisher in
      (record a { status_publisher = p }, r)
