-- ===== src/Action/Server/Sections.antt =====
-- The locked sections of the handlers of `AsyncActionServer` (src/action/server.rs): each runs while a
-- mutex on the goals is held, so nothing else runs in between.
use ros2_client.Base.{Bool, ◌||◌, List, [], ◌∷◌, ◌++◌, Option, none, some, if◌then◌else◌, ◌==◌}
use mathlib.Core.Option
use ros2_client.Base.Ordered.{Map, get, insert, remove, nat_key}
use ros2_client.Time.Builtin.{Time}
use ros2_client.Action.Msgs.{
  GoalId, GoalStatusEnum, unknown, accepted, succeeded, canceled, aborted, is_unknown, is_accepted,
  is_executing, is_canceling,
}
use ros2_client.Action.Server.State.{
  ReqId, AsyncGoal, NewGoalHandle, GoalEndStatus, end_succeeded, end_aborted, end_canceled,
  no_such_goal, wrong_goal_state, GoalResult, ok, err, AsyncActionServer, set_goal,
}

-- What a receive returns: a value, a read error, or nothing yet (the future stays pending).
pub data Received (A : Type 0) : Type 0 where
  received : A → Received A
  read_failed : Received A
  waiting : Received A

-- The removals of the loop of `flush_finisehd_goals`.
unfoldable pub remove_all :
    {G : Type 0} → List GoalId → Map GoalId (AsyncGoal G) → Map GoalId (AsyncGoal G)
remove_all [] m = m
remove_all (g ∷ gs) m = remove_all gs (remove g m)

-- The entry that a new goal request makes.
abbrev pub new_goal : {G : Type 0} → G → AsyncGoal G
new_goal g = record { status = unknown; accepted_time = none; goal = g }

module _ {G R F : Type 0} where
  -- `mark_goal_finished`.
  unfoldable pub mark_goal_finished : AsyncActionServer G R F → GoalId → AsyncActionServer G R F
  mark_goal_finished s id = record s { finished_goals = s.finished_goals ++ id ∷ [] }

  -- `flush_finisehd_goals`; its `debug_assert!` is not part of a release build.
  unfoldable pub flush_finished_goals : AsyncActionServer G R F → AsyncActionServer G R F
  unfolding remove_all
  flush_finished_goals s = record s {
    goals = remove_all s.finished_goals s.goals;
    finished_goals = [];
  }

  -- `get_new_goal`.
  unfoldable pub get_new_goal :
      AsyncActionServer G R F → NewGoalHandle → AsyncActionServer G R F × Option G
  unfolding flush_finished_goals
  get_new_goal s h =
      let s' = flush_finished_goals s in (s', Option.map (λ ag. ag.goal) (get h.goal_id s'.goals))

  -- `receive_new_goal`: `none` stands for a read error, and a request with a goal id that is in use
  -- is discarded. Also returns what is left to read.
  unfoldable pub receive_new_goal :
      AsyncActionServer G R F
      → List (Option (ReqId × GoalId × G))
      → AsyncActionServer G R F × Received NewGoalHandle × List (Option (ReqId × GoalId × G))
  receive_new_goal s [] = (s, waiting, [])
  receive_new_goal s (none ∷ rest) = (s, read_failed, rest)
  receive_new_goal s (some (req, id, g) ∷ rest) = elim (get id s.goals) [
    | none ↦ (set_goal id (new_goal g) s, received (record { goal_id = id; req_id = req }), rest)
    | some ag ↦ receive_new_goal s rest
  ]

  -- The locked section of a handler that checks the status of a goal and sets it: an error if the
  -- goal is not there or its status fails the test.
  unfoldable pub change_goal :
      (GoalStatusEnum → Bool)
      → (AsyncGoal G → AsyncGoal G)
      → GoalId
      → AsyncActionServer G R F
      → AsyncActionServer G R F × GoalResult (Unit {0})
  unfolding set_goal
  change_goal test change id s = elim (get id s.goals) [
    | none ↦ (s, err no_such_goal)
    | some ag ↦
        if test ag.status then (set_goal id (change ag) s, ok tt) else (s, err wrong_goal_state)
  ]

  -- `o.remove()` of `reject_goal`.
  unfoldable pub forget_goal :
      GoalId → AsyncActionServer G R F → AsyncActionServer G R F × GoalResult (Unit {0})
  forget_goal id s = elim (get id s.goals) [
    | none ↦ (s, err no_such_goal)
    | some ag ↦
        if is_unknown ag.status
        then (record s { goals = remove id s.goals }, ok tt)
        else (s, err wrong_goal_state)
  ]

  -- The loop of `send_result_response`: requests for the results of other goals are kept.
  unfoldable pub read_result_requests :
      AsyncActionServer G R F
      → GoalId
      → List (Option (ReqId × GoalId))
      → AsyncActionServer G R F × Received ReqId × List (Option (ReqId × GoalId))
  read_result_requests s id [] = (s, waiting, [])
  read_result_requests s id (none ∷ rest) = (s, read_failed, rest)
  read_result_requests s id (some (req, g) ∷ rest) =
      let next =
        read_result_requests (record s { result_requests = insert g req s.result_requests }) id
          rest in
      if g == id then (s, received req, rest) else next

  -- The request that `send_result_response` answers: one already read, or the next one to arrive.
  unfoldable pub await_result_request :
      AsyncActionServer G R F
      → GoalId
      → List (Option (ReqId × GoalId))
      → AsyncActionServer G R F × Received ReqId × List (Option (ReqId × GoalId))
  await_result_request s id incoming = elim (get id s.result_requests) [
    | some req ↦ (s, received req, incoming)
    | none ↦ read_result_requests s id incoming
  ]

abbrev pub set_status : {G : Type 0} → GoalStatusEnum → AsyncGoal G → AsyncGoal G
set_status st ag = record ag { status = st }

abbrev pub set_accepted : {G : Type 0} → Time → AsyncGoal G → AsyncGoal G
set_accepted now ag = record ag { status = accepted; accepted_time = some now }

-- The translation at the head of `send_result_response`.
abbrev pub end_status : GoalEndStatus → GoalStatusEnum
end_status end_succeeded = succeeded
end_status end_aborted = aborted
end_status end_canceled = canceled

abbrev pub may_finish : GoalStatusEnum → Bool
may_finish st = is_accepted st || is_executing st || is_canceling st

abbrev pub may_abort : GoalStatusEnum → Bool
may_abort st = is_accepted st || is_executing st
