-- ===== src/Action/Server/Frame.antt =====
-- Which parts of the state the handlers of the action server leave alone, and what a handler does to
-- the goals.
use ros2_client.Base.{
  Bool, true, List, [], ◌∷◌, Option, none, some, ◌≡◌, refl, ◌⊎◌, inl, inr, arith, Option-cases,
  Bool-cases,
}
use ros2_client.Base.Ordered.{get, insert, nat_key}
use ros2_client.Time.Builtin.{Time}
use ros2_client.Action.Msgs.{GoalId, GoalStatusEnum, executing, aborted, is_unknown, is_accepted}
use ros2_client.Action.Server.State.{
  ReqId, AsyncGoal, NewGoalHandle, AcceptedGoalHandle, ExecutingGoalHandle, GoalError, ok, err,
  Message, result_response, AsyncActionServer, Middleware, write, publish_statuses, set_goal,
  no_such_goal, wrong_goal_state,
}
use ros2_client.Action.Server.Sections.{
  mark_goal_finished, change_goal, forget_goal, read_result_requests, await_result_request,
  set_status, set_accepted, may_finish, may_abort,
}
use ros2_client.Action.Server.Handlers.{
  accept_goal, reject_goal, start_executing_goal, publish_feedback, finish_goal, abort_goal,
}

module _ {G R F : Type 0} where
  -- A locked section either fails and changes nothing, or sets one entry whose status passed.
  pub change_goal-cases :
      (test : GoalStatusEnum → Bool) (change : AsyncGoal G → AsyncGoal G) (id : GoalId)
      (s : AsyncActionServer G R F)
      → ((e : GoalError) × (change_goal test change id s ≡ (s, err e)))
        ⊎ ((ag : AsyncGoal G) × (get id s.goals ≡ some ag)
            × (test ag.status ≡ true)
            × (change_goal test change id s ≡ (set_goal id (change ag) s, ok tt)))
  unfolding change_goal
  change_goal-cases test change id s = elim (Option-cases (get id s.goals)) [
    | inl e ↦ inl (no_such_goal, rw (e, change_goal))
    | inr (ag, e) ↦ elim (Bool-cases (test ag.status)) [
      | inl t ↦ inr (ag, e, t, rw (e, change_goal) (rw t))
      | inr f ↦ inl (wrong_goal_state, rw (e, change_goal) (rw f))
    ]
  ]

module _ {G R F : Type 0} (accepts : Middleware R F) where
  pub write-goals :
      (s : AsyncActionServer G R F) (m : Message R F) → (write accepts s m).0.goals ≡ s.goals
  unfolding write
  write-goals s m = ground arith

  pub publish_statuses-goals :
      (s : AsyncActionServer G R F) → (publish_statuses accepts s).goals ≡ s.goals
  unfolding publish_statuses
  publish_statuses-goals s = ground arith

  -- After a locked section that sets an entry, a handler leaves the goals as they are.
  pub accept_goal-goals :
      (s : AsyncActionServer G R F) (h : NewGoalHandle) (now : Time)
      → (accept_goal accepts s h now).0.goals
        ≡ (change_goal is_unknown (set_accepted now) h.goal_id s).0.goals
  unfolding accept_goal write
  accept_goal-goals s h now = elim (change_goal-cases is_unknown (set_accepted now) h.goal_id s) [
    | inl (e, p) ↦ ground (arith, p)
    | inr (ag, _, _, p) ↦
        ground (arith, p, publish_statuses-goals (set_goal h.goal_id (set_accepted now ag) s))
  ]

  pub start_executing_goal-goals :
      (s : AsyncActionServer G R F) (h : AcceptedGoalHandle)
      → (start_executing_goal accepts s h).0.goals
        ≡ (change_goal is_accepted (set_status executing) h.goal_id s).0.goals
  unfolding start_executing_goal
  start_executing_goal-goals s h =
      elim (change_goal-cases is_accepted (set_status executing) h.goal_id s) [
        | inl (e, p) ↦ ground (arith, p)
        | inr (ag, _, _, p) ↦
            ground
              (arith, p, publish_statuses-goals (set_goal h.goal_id (set_status executing ag) s))
      ]

  pub abort_goal-goals :
      (s : AsyncActionServer G R F) (id : GoalId)
      → (abort_goal accepts s id).0.goals
        ≡ (change_goal may_abort (set_status aborted) id s).0.goals
  unfolding abort_goal mark_goal_finished
  abort_goal-goals s id = elim (change_goal-cases may_abort (set_status aborted) id s) [
    | inl (e, p) ↦ ground (arith, p)
    | inr (ag, _, _, p) ↦
        ground (arith, p, publish_statuses-goals (set_goal id (set_status aborted ag) s))
  ]

  pub finish_goal-goals :
      (s : AsyncActionServer G R F) (id : GoalId) (st : GoalStatusEnum) (r : R) (req : ReqId)
      → (finish_goal accepts s id st r req).0.goals
        ≡ (change_goal may_finish (set_status st) id s).0.goals
  unfolding finish_goal mark_goal_finished
  finish_goal-goals s id st r req = elim (change_goal-cases may_finish (set_status st) id s) [
    | inl (e, p) ↦ ground (arith, p)
    | inr (ag, _, _, p) ↦
        let s' = set_goal id (set_status st ag) s in
        let m : Message R F = result_response req st r in
        ground (arith, p, write-goals s' m, publish_statuses-goals (write accepts s' m).0)
  ]

  pub reject_goal-goals :
      (s : AsyncActionServer G R F) (h : NewGoalHandle) (now : Time)
      → (reject_goal accepts s h now).0.goals ≡ (forget_goal h.goal_id s).0.goals
  unfolding reject_goal forget_goal write
  reject_goal-goals s h now = ground arith

  pub publish_feedback-goals :
      (s : AsyncActionServer G R F) (h : ExecutingGoalHandle) (fb : F)
      → (publish_feedback accepts s h fb).0.goals ≡ s.goals
  unfolding publish_feedback write
  publish_feedback-goals s h fb = ground arith

module _ {G R F : Type 0} where
  read_result_requests-goals :
      (s : AsyncActionServer G R F) (id : GoalId) (incoming : List (Option (ReqId × GoalId)))
      → (read_result_requests s id incoming).0.goals ≡ s.goals
  unfolding read_result_requests
  read_result_requests-goals s id [] = refl
  read_result_requests-goals s id (none ∷ rest) = refl
  read_result_requests-goals s id (some (req, g) ∷ rest) =
      let s' = record s { result_requests = insert g req s.result_requests } in
      ground (arith, read_result_requests-goals s' id rest)

  pub await_result_request-goals :
      (s : AsyncActionServer G R F) (id : GoalId) (incoming : List (Option (ReqId × GoalId)))
      → (await_result_request s id incoming).0.goals ≡ s.goals
  unfolding await_result_request
  await_result_request-goals s id incoming =
      ground (arith, read_result_requests-goals s id incoming)
