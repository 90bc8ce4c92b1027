-- ===== src/Action/Server/Handlers.antt =====
-- The handlers of `AsyncActionServer` (src/action/server.rs), whole: a locked section, then what the
-- handler writes and returns. The time of `Time::now()` is an argument.
use ros2_client.Base.{true, false, List, Option, none, some, if◌then◌else◌}
use ros2_client.Base.Ordered.{get, nat_key}
use ros2_client.Time.Builtin.{Time}
use ros2_client.Action.Msgs.{
  GoalId, GoalStatusEnum, executing, aborted, is_unknown, is_accepted, is_executing,
}
use ros2_client.Action.Server.State.{
  ReqId, NewGoalHandle, AcceptedGoalHandle, ExecutingGoalHandle, GoalEndStatus, no_such_goal,
  wrong_goal_state, dds_read_error, dds_write_error, GoalResult, ok, err, Message, goal_response,
  result_response, feedback, AsyncActionServer, Middleware, write, publish_statuses,
}
use ros2_client.Action.Server.Sections.{
  received, read_failed, waiting, mark_goal_finished, await_result_request, change_goal,
  forget_goal, set_status, set_accepted, end_status, may_finish, may_abort,
}

module _ {G R F : Type 0} (accepts : Middleware R F) where
  -- A write whose failure ends the handler (`?`).
  abbrev pub write_or_fail :
      {A : Type 0}
      → AsyncActionServer G R F
      → Message R F
      → A
      → AsyncActionServer G R F × GoalResult A
  write_or_fail s m a =
      let w = write accepts s m in if w.1 then (w.0, ok a) else (w.0, err dds_write_error)

  -- `accept_goal`.
  unfoldable pub accept_goal :
      AsyncActionServer G R F
      → NewGoalHandle
      → Time
      → AsyncActionServer G R F × GoalResult AcceptedGoalHandle
  accept_goal s h now =
      let (s', result) = change_goal is_unknown (set_accepted now) h.goal_id s in
      elim result [
        | err e ↦ (s', err e)
        | ok u ↦
            write_or_fail (publish_statuses accepts s') (goal_response h.req_id true now)
              (record { goal_id = h.goal_id })
      ]

  -- `reject_goal`: statuses are not published.
  unfoldable pub reject_goal :
      AsyncActionServer G R F
      → NewGoalHandle
      → Time
      → AsyncActionServer G R F × GoalResult (Unit {0})
  reject_goal s h now =
      let (s', result) = forget_goal h.goal_id s in
      elim result [
        | err e ↦ (s', err e)
        | ok u ↦ write_or_fail s' (goal_response h.req_id false now) tt
      ]

  -- `start_executing_goal`.
  unfoldable pub start_executing_goal :
      AsyncActionServer G R F
      → AcceptedGoalHandle
      → AsyncActionServer G R F × GoalResult ExecutingGoalHandle
  start_executing_goal s h =
      let (s', result) = change_goal is_accepted (set_status executing) h.goal_id s in
      elim result [
        | err e ↦ (s', err e)
        | ok u ↦ (publish_statuses accepts s', ok (record { goal_id = h.goal_id }))
      ]

  -- `publish_feedback`.
  unfoldable pub publish_feedback :
      AsyncActionServer G R F
      → ExecutingGoalHandle
      → F
      → AsyncActionServer G R F × GoalResult (Unit {0})
  publish_feedback s h fb = elim (get h.goal_id s.goals) [
    | none ↦ (s, err no_such_goal)
    | some ag ↦
        if is_executing ag.status
        then write_or_fail s (feedback h.goal_id fb) tt
        else (s, err wrong_goal_state)
  ]

  -- What `send_result_response` does once it has the request: the response is written while the
  -- goals are locked, after the status is set. No other call comes in while the
  -- publication of the statuses is awaited.
  unfoldable pub finish_goal :
      AsyncActionServer G R F
      → GoalId
      → GoalStatusEnum
      → R
      → ReqId
      → AsyncActionServer G R F × GoalResult (Unit {0})
  finish_goal s id st result req =
      let (s', changed) = change_goal may_finish (set_status st) id s in
      elim changed [
        | err e ↦ (s', err e)
        | ok u ↦
            let w = write accepts s' (result_response req st result) in
            if w.1
            then (mark_goal_finished (publish_statuses accepts w.0) id, ok tt)
            else (w.0, err dds_write_error)
      ]

  -- `send_result_response`: `none` if the future is still pending.
  unfoldable pub send_result_response :
      AsyncActionServer G R F
      → ExecutingGoalHandle
      → GoalEndStatus
      → R
      → List (Option (ReqId × GoalId))
      → AsyncActionServer G R F × Option (GoalResult (Unit {0}))
  send_result_response s h result_status result incoming =
      let (s', request, rest) = await_result_request s h.goal_id incoming in
      elim request [
        | waiting ↦ (s', none)
        | read_failed ↦ (s', some (err dds_read_error))
        | received req ↦
            let f = finish_goal s' h.goal_id (end_status result_status) result req in
            (f.0, some f.1)
      ]

  -- `abort_goal`, which `abort_executing_goal` and `abort_accepted_goal` call.
  unfoldable pub abort_goal :
      AsyncActionServer G R F → GoalId → AsyncActionServer G R F × GoalResult (Unit {0})
  abort_goal s id =
      let (s', result) = change_goal may_abort (set_status aborted) id s in
      elim result [
        | err e ↦ (s', err e)
        | ok u ↦ (mark_goal_finished (publish_statuses accepts s') id, ok tt)
      ]

  abbrev pub abort_executing_goal :
      AsyncActionServer G R F
      → ExecutingGoalHandle
      → AsyncActionServer G R F × GoalResult (Unit {0})
  abort_executing_goal s h = abort_goal s h.goal_id

  abbrev pub abort_accepted_goal :
      AsyncActionServer G R F → AcceptedGoalHandle → AsyncActionServer G R F × GoalResult (Unit {0})
  abort_accepted_goal s h = abort_goal s h.goal_id
