-- ===== src/Action/Msgs.antt =====
-- src/action_msgs.rs: goal statuses, goal infos and cancel responses. A goal id (a UUID) is its 128-bit
-- number, so that the order of ids is that of numbers and the zero UUID is 0.
use ros2_client.Base.{ℕ, Bool, true, false, List}
use ros2_client.Time.Builtin.{Time}

abbrev pub GoalId : Type 0
GoalId = ℕ

abbrev pub zero_id : GoalId
zero_id = 0

pub data GoalStatusEnum : Type 0 where
  unknown accepted executing canceling succeeded canceled aborted : GoalStatusEnum

-- The `repr(i8)` codes.
abbrev pub status_code : GoalStatusEnum → ℕ
status_code unknown = 0
status_code accepted = 1
status_code executing = 2
status_code canceling = 3
status_code succeeded = 4
status_code canceled = 5
status_code aborted = 6

pub record GoalInfo : Type 0 where
  pub goal_id : GoalId
  pub stamp : Time

pub record GoalStatus : Type 0 where
  pub goal_info : GoalInfo
  pub status : GoalStatusEnum

pub data CancelCode : Type 0 where
  no_error rejected unknown_goal goal_terminated : CancelCode

abbrev pub is_unknown : GoalStatusEnum → Bool
is_unknown unknown = true
is_unknown _ = false

abbrev pub is_accepted : GoalStatusEnum → Bool
is_accepted accepted = true
is_accepted _ = false

abbrev pub is_executing : GoalStatusEnum → Bool
is_executing executing = true
is_executing _ = false

abbrev pub is_canceling : GoalStatusEnum → Bool
is_canceling canceling = true
is_canceling _ = false

pub record CancelGoalRequest : Type 0 where
  pub goal_info : GoalInfo

pub record CancelGoalResponse : Type 0 where
  pub return_code : CancelCode
  pub goals_canceling : List GoalInfo

pub record GoalStatusArray : Type 0 where
  pub status_list : List GoalStatus
