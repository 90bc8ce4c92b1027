-- ===== src/Action/Server/State.antt =====
-- The state of `AsyncActionServer` (src/action/server.rs), what it writes to the middleware, and the
-- writing. The middleware is a parameter: `accepts n e` tells whether the n-th write, of `e`, succeeds.
use ros2_client.Base.{
  ℕ, suc, Bool, true, false, List, [], ◌∷◌, ◌++◌, map, Option, none, some, if◌then◌else◌,
}
use ros2_client.Base.Int.{pos}
use ros2_client.Base.Ordered.{Map, insert, nat_key}
use ros2_client.Time.Builtin.{Time}
use ros2_client.Action.Msgs.{GoalId, GoalStatusEnum, GoalInfo, GoalStatus, CancelCode}

-- A request id is used for addressing only.
abbrev pub ReqId : Type 0
ReqId = ℕ

pub record AsyncGoal (G : Type 0) : Type 0 where
  pub status : GoalStatusEnum
  pub accepted_time : Option Time
  pub goal : G

pub record NewGoalHandle : Type 0 where
  pub goal_id : GoalId
  pub req_id : ReqId

-- `AcceptedGoalHandle` and `ExecutingGoalHandle` hold a goal id.
pub record AcceptedGoalHandle : Type 0 where
  pub goal_id : GoalId

pub record ExecutingGoalHandle : Type 0 where
  pub goal_id : GoalId

pub record CancelHandle : Type 0 where
  pub req_id : ReqId
  pub goals : List GoalId

pub data GoalEndStatus : Type 0 where
  end_succeeded end_aborted end_canceled : GoalEndStatus

pub data GoalError : Type 0 where
  no_such_goal wrong_goal_state dds_read_error dds_write_error : GoalError

pub data GoalResult (A : Type 0) : Type 0 where
  ok : A → GoalResult A
  err : GoalError → GoalResult A

-- What the server writes: a response to a goal, cancel or result request, feedback, or statuses.
pub data Message (R F : Type 0) : Type 0 where
  goal_response : ReqId → Bool → Time → Message R F
  cancel_response : ReqId → CancelCode → List GoalInfo → Message R F
  result_response : ReqId → GoalStatusEnum → R → Message R F
  feedback : GoalId → F → Message R F
  status_array : List GoalStatus → Message R F

-- `sent` holds the messages that the middleware has taken, oldest first, and `writes` counts the
-- attempts.
pub record AsyncActionServer (G R F : Type 0) : Type 0 where
  pub goals : Map GoalId (AsyncGoal G)
  pub finished_goals : List GoalId
  pub result_requests : Map GoalId ReqId
  pub sent : List (Message R F)
  pub writes : ℕ

abbrev pub Middleware : Type 0 → Type 0 → Type 0
Middleware R F = ℕ → Message R F → Bool

-- `AsyncActionServer::new`.
unfoldable pub new_server : {G R F : Type 0} → AsyncActionServer G R F
new_server = record { goals = []; finished_goals = []; result_requests = []; sent = []; writes = 0 }

-- `Time::ZERO`.
abbrev pub time_zero : Time
time_zero = record { nanos_since_epoch = pos 0 }

abbrev pub or_zero : Option Time → Time
or_zero none = time_zero
or_zero (some t) = t

-- The list that `publish_statuses` builds: every goal, in the order of the ids.
unfoldable pub status_list : {G : Type 0} → Map GoalId (AsyncGoal G) → List GoalStatus
status_list = map (λ e. record {
  goal_info = record { goal_id = e.0; stamp = or_zero e.1.accepted_time };
  status = e.1.status;
})

module _ {G R F : Type 0} (accepts : Middleware R F) where
  -- A write to a `Server` or `Publisher` of the middleware.
  unfoldable pub write : AsyncActionServer G R F → Message R F → AsyncActionServer G R F × Bool
  write s m =
      if accepts s.writes m
      then (record s { sent = s.sent ++ m ∷ []; writes = suc s.writes }, true)
      else (record s { writes = suc s.writes }, false)

  -- `publish_statuses`: a failure is logged only.
  unfoldable pub publish_statuses : AsyncActionServer G R F → AsyncActionServer G R F
  unfolding write status_list
  publish_statuses s = (write s (status_array (status_list s.goals))).0

-- Sets the entry of one goal, as `o.into_mut()` does.
unfoldable pub set_goal :
    {G R F : Type 0} → GoalId → AsyncGoal G → AsyncActionServer G R F → AsyncActionServer G R F
set_goal id ag s = record s { goals = insert id ag s.goals }
