-- ===== src/Action/Server/Run.antt =====
-- Histories of the asynchronous action server: the calls that an application makes, and the reads
-- and the answer of `send_result_response` apart, since other calls run while it waits.
use ros2_client.Base.{List, [], ◌∷◌, Option}
use ros2_client.Time.Builtin.{Time}
use ros2_client.Action.Msgs.{GoalId}
use ros2_client.Action.Server.State.{
  ReqId, NewGoalHandle, AcceptedGoalHandle, ExecutingGoalHandle, CancelHandle, GoalEndStatus,
  AsyncActionServer, Middleware,
}
use ros2_client.Action.Server.Sections.{
  get_new_goal, receive_new_goal, await_result_request, end_status,
}
use ros2_client.Action.Server.Handlers.{
  accept_goal, reject_goal, start_executing_goal, publish_feedback, finish_goal, abort_goal,
}
use ros2_client.Action.Server.Cancel.{respond_to_cancel_requests}

pub data Call (G R F : Type 0) : Type 0 where
  receives : List (Option (ReqId × GoalId × G)) → Call G R F
  fetches : NewGoalHandle → Call G R F
  accepts_goal : NewGoalHandle → Time → Call G R F
  rejects_goal : NewGoalHandle → Time → Call G R F
  starts : AcceptedGoalHandle → Call G R F
  gives_feedback : ExecutingGoalHandle → F → Call G R F
  awaits_request : GoalId → List (Option (ReqId × GoalId)) → Call G R F
  finishes : ExecutingGoalHandle → GoalEndStatus → R → ReqId → Call G R F
  aborts : GoalId → Call G R F
  answers_cancel : CancelHandle → List GoalId → Call G R F

module _ {G R F : Type 0} (accepts : Middleware R F) where
  unfoldable pub step : AsyncActionServer G R F → Call G R F → AsyncActionServer G R F
  step s (receives incoming) = (receive_new_goal s incoming).0
  step s (fetches h) = (get_new_goal s h).0
  step s (accepts_goal h now) = (accept_goal accepts s h now).0
  step s (rejects_goal h now) = (reject_goal accepts s h now).0
  step s (starts h) = (start_executing_goal accepts s h).0
  step s (gives_feedback h fb) = (publish_feedback accepts s h fb).0
  step s (awaits_request id incoming) = (await_result_request s id incoming).0
  step s (finishes h st result req) = (finish_goal accepts s h.goal_id (end_status st) result req).0
  step s (aborts id) = (abort_goal accepts s id).0
  step s (answers_cancel h ids) = (respond_to_cancel_requests accepts s h ids).0

  unfoldable pub run : AsyncActionServer G R F → List (Call G R F) → AsyncActionServer G R F
  run s [] = s
  run s (c ∷ cs) = run (step s c) cs
