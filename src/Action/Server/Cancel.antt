-- ===== src/Action/Server/Cancel.antt =====
-- Cancelling goals in `AsyncActionServer` (src/action/server.rs): which goals a cancel request
-- selects, and the answer to it.
pub mod Selection
pub mod Response
use ros2_client.Base.{
  ℕ, Bool, true, false, ◌&&◌, ◌||◌, List, [], ◌∷◌, map, Option, none, some, if◌then◌else◌, ◌==◌,
  is_empty,
}
use ros2_client.Base.Int.{ltb_ℤ, pos}
use ros2_client.Base.Ordered.{Map, get, insert, nat_key}
use ros2_client.Time.Builtin.{Time}
use ros2_client.Action.Msgs.{
  GoalId, zero_id, GoalInfo, GoalStatusEnum, canceling, is_accepted, is_executing, no_error,
  rejected,
}
use ros2_client.Action.Server.State.{
  ReqId, AsyncGoal, CancelHandle, Message, cancel_response, AsyncActionServer, Middleware, write,
  publish_statuses, time_zero, set_goal,
}
use ros2_client.Action.Server.Sections.{Received, received, read_failed, waiting, set_status}

-- `stamp == Time::ZERO` and `at < stamp` of `builtin_interfaces::Time`.
abbrev pub is_time_zero : Time → Bool
is_time_zero t = elim t.nanos_since_epoch [ pos n ↦ n == 0 | _ ↦ false ]

abbrev pub accepted_before : Option Time → Time → Bool
accepted_before none stamp = false
accepted_before (some at) stamp = ltb_ℤ at.nanos_since_epoch stamp.nanos_since_epoch

-- The `goal_filter` that the fields of the request choose.
unfoldable pub goal_filter : {G : Type 0} → GoalInfo → GoalId → AsyncGoal G → Bool
goal_filter info id ag =
    if info.goal_id == zero_id
    then if is_time_zero info.stamp then true else accepted_before ag.accepted_time info.stamp
    else if is_time_zero info.stamp
    then info.goal_id == id
    else info.goal_id == id || accepted_before ag.accepted_time info.stamp

abbrev pub may_cancel : GoalStatusEnum → Bool
may_cancel st = is_executing st || is_accepted st

-- The two filters over the goals, in the order of the ids.
unfoldable pub selected_goals : {G : Type 0} → GoalInfo → Map GoalId (AsyncGoal G) → List GoalId
selected_goals info [] = []
selected_goals info ((id, ag) ∷ m) =
    let rest = selected_goals info m in
    if may_cancel ag.status && goal_filter info id ag then id ∷ rest else rest

module _ {G R F : Type 0} where
  -- `receive_cancel_request`: the next request, or a read error (`none`).
  unfoldable pub receive_cancel_request :
      AsyncActionServer G R F
      → List (Option (ReqId × GoalInfo))
      → Received CancelHandle × List (Option (ReqId × GoalInfo))
  receive_cancel_request s [] = (waiting, [])
  receive_cancel_request s (none ∷ rest) = (read_failed, rest)
  receive_cancel_request s (some (req, info) ∷ rest) =
      (received (record { req_id = req; goals = selected_goals info s.goals }), rest)

-- The `filter_map` of `respond_to_cancel_requests`: a goal that is known and has been accepted.
unfoldable pub canceling_infos :
    {G : Type 0} → Map GoalId (AsyncGoal G) → List GoalId → List GoalInfo
canceling_infos m [] = []
canceling_infos m (id ∷ ids) = elim (get id m) [
  | none ↦ canceling_infos m ids
  | some ag ↦ elim ag.accepted_time [
    | none ↦ canceling_infos m ids
    | some t ↦ record { goal_id = id; stamp = t } ∷ canceling_infos m ids
  ]
]

-- `entry(goal_id).and_modify(|gg| gg.status = Canceling)`.
unfoldable pub mark_canceling :
    {G : Type 0} → GoalId → Map GoalId (AsyncGoal G) → Map GoalId (AsyncGoal G)
mark_canceling id m = elim (get id m) [ none ↦ m | some ag ↦ insert id (set_status canceling ag) m ]

unfoldable pub mark_all_canceling :
    {G : Type 0} → List GoalInfo → Map GoalId (AsyncGoal G) → Map GoalId (AsyncGoal G)
unfolding mark_canceling
mark_all_canceling [] m = m
mark_all_canceling (i ∷ is) m = mark_all_canceling is (mark_canceling i.goal_id m)

module _ {G R F : Type 0} (accepts : Middleware R F) where
  -- `respond_to_cancel_requests`, with no other call between its locked sections, one for each goal to
  -- collect and one for each to mark: the result says whether the response was written.
  unfoldable pub respond_to_cancel_requests :
      AsyncActionServer G R F → CancelHandle → List GoalId → AsyncActionServer G R F × Bool
  respond_to_cancel_requests s h goals_to_cancel =
      let infos = canceling_infos s.goals goals_to_cancel in
      let s' = publish_statuses accepts (record s { goals = mark_all_canceling infos s.goals }) in
      write accepts s'
        (cancel_response h.req_id (if is_empty infos then rejected else no_error) infos)
