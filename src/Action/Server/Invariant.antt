-- ===== src/Action/Server/Invariant.antt =====
-- The invariant of the action server's goals, over every history of calls.
use ros2_client.Base.{
  Bool, true, false, not, List, [], ◌∷◌, Option, none, some, ◌≡◌, refl, inl, inr, arith,
  Option-cases, All,
}
use ros2_client.Base.Ordered.{
  Map, get, insert, remove, nat_key, AllValues, AllValues-get, AllValues-insert, AllValues-remove,
  get-insert,
}
use ros2_client.Base.Ascending.{Ascending, insert-Ascending, remove-Ascending}
use ros2_client.Action.Msgs.{
  GoalId, GoalInfo, GoalStatusEnum, executing, canceling, aborted, is_unknown, is_accepted,
}
use ros2_client.Action.Server.State.{ReqId, AsyncGoal, AsyncActionServer, Middleware, set_goal}
use ros2_client.Action.Server.Sections.{
  change_goal, forget_goal, set_status, set_accepted, may_finish, may_abort, remove_all, new_goal,
  receive_new_goal, get_new_goal, end_status,
}
use ros2_client.Action.Server.Cancel.{
  respond_to_cancel_requests, canceling_infos, mark_canceling, mark_all_canceling,
}
use ros2_client.Action.Server.Cancel.Response.{has_time, is_timed}
use ros2_client.Action.Server.Frame.{
  change_goal-cases, write-goals, publish_statuses-goals, accept_goal-goals,
  start_executing_goal-goals, abort_goal-goals, finish_goal-goals, reject_goal-goals,
  publish_feedback-goals, await_result_request-goals,
}
use ros2_client.Action.Server.Run.{
  Call, receives, fetches, accepts_goal, rejects_goal, starts, gives_feedback, awaits_request,
  finishes, aborts, answers_cancel, step, run,
}

-- A goal has the time of its acceptance as soon as it is past `Unknown`, and not before.
abbrev pub IsStamped : {G : Type 0} → AsyncGoal G → Type 0
IsStamped ag = has_time ag.accepted_time ≡ not (is_unknown ag.status)

-- Every goal is stamped, and the ids ascend.
pub record IsGoalMap {G : Type 0} (m : Map GoalId (AsyncGoal G)) : Type 0 where
  pub stamped : AllValues IsStamped m
  pub ascending : Ascending 0 m

module _ {G : Type 0} where
  insert-IsGoalMap :
      (id : GoalId) (ag : AsyncGoal G) (m : Map GoalId (AsyncGoal G))
      → IsStamped ag
      → IsGoalMap m
      → IsGoalMap (insert id ag m)
  insert-IsGoalMap id ag m p v = record {
    stamped = AllValues-insert IsStamped id ag m p v.stamped;
    ascending = insert-Ascending 0 id ag m (omega arith) v.ascending;
  }

  remove-IsGoalMap :
      (id : GoalId) (m : Map GoalId (AsyncGoal G)) → IsGoalMap m → IsGoalMap (remove id m)
  remove-IsGoalMap id m v = record {
    stamped = AllValues-remove IsStamped id m v.stamped;
    ascending = remove-Ascending 0 id m v.ascending;
  }

  remove_all-IsGoalMap :
      (ids : List GoalId) (m : Map GoalId (AsyncGoal G))
      → IsGoalMap m
      → IsGoalMap (remove_all ids m)
  unfolding remove_all
  remove_all-IsGoalMap [] m v = v
  remove_all-IsGoalMap (i ∷ ids) m v =
      remove_all-IsGoalMap ids (remove i m) (remove-IsGoalMap i m v)

  canceling_infos-is_timed :
      (m : Map GoalId (AsyncGoal G)) (ids : List GoalId)
      → All (λ i. is_timed m i.goal_id ≡ true) (canceling_infos m ids)
  unfolding canceling_infos
  canceling_infos-is_timed m [] = tt
  canceling_infos-is_timed m (i ∷ ids) = ground (arith, canceling_infos-is_timed m ids)

  mark_canceling-is_timed :
      (m : Map GoalId (AsyncGoal G)) (i j : GoalId)
      → is_timed m j ≡ true
      → is_timed (mark_canceling i m) j ≡ true
  unfolding mark_canceling
  mark_canceling-is_timed m i j h = elim (Option-cases (get i m)) [
    | inl e ↦ rw (e, mark_canceling) h
    | inr (ag, e) ↦
        rw (e, mark_canceling) (ground (arith, e, h, get-insert i j (set_status canceling ag) m))
  ]

  timed_after_mark :
      (m : Map GoalId (AsyncGoal G)) (i : GoalId) (infos : List GoalInfo)
      → All (λ x. is_timed m x.goal_id ≡ true) infos
      → All (λ x. is_timed (mark_canceling i m) x.goal_id ≡ true) infos
  timed_after_mark m i [] h = tt
  timed_after_mark m i (x ∷ infos) (p, h) =
      (mark_canceling-is_timed m i x.goal_id p, timed_after_mark m i infos h)

  mark_canceling-IsGoalMap :
      (id : GoalId) (m : Map GoalId (AsyncGoal G))
      → is_timed m id ≡ true
      → IsGoalMap m
      → IsGoalMap (mark_canceling id m)
  unfolding mark_canceling
  mark_canceling-IsGoalMap id m h v = elim (Option-cases (get id m)) [
    | inl e ↦ rw (e, mark_canceling) v
    | inr (ag, e) ↦
        rw (e, mark_canceling)
          (insert-IsGoalMap id (set_status canceling ag) m (ground (arith, e, h)) v)
  ]

  mark_all_canceling-IsGoalMap :
      (infos : List GoalInfo) (m : Map GoalId (AsyncGoal G))
      → All (λ i. is_timed m i.goal_id ≡ true) infos
      → IsGoalMap m
      → IsGoalMap (mark_all_canceling infos m)
  unfolding mark_all_canceling
  mark_all_canceling-IsGoalMap [] m h v = v
  mark_all_canceling-IsGoalMap (i ∷ infos) m (p, h) v =
      mark_all_canceling-IsGoalMap infos (mark_canceling i.goal_id m)
        (timed_after_mark m i.goal_id infos h) (mark_canceling-IsGoalMap i.goal_id m p v)

-- A status past `Unknown` that is set on a goal past `Unknown` keeps the stamp.
set_status-IsStamped :
    {G : Type 0} (st : GoalStatusEnum) (ag : AsyncGoal G)
    → is_unknown st ≡ false
    → is_unknown ag.status ≡ false
    → IsStamped ag
    → IsStamped (set_status st ag)
set_status-IsStamped st ag h k p = ground arith

module _ {G R F : Type 0} where
  change_goal-IsGoalMap :
      (test : GoalStatusEnum → Bool) (change : AsyncGoal G → AsyncGoal G) (id : GoalId)
      (s : AsyncActionServer G R F)
      → ((ag : AsyncGoal G) → test ag.status ≡ true → IsStamped ag → IsStamped (change ag))
      → IsGoalMap s.goals
      → IsGoalMap (change_goal test change id s).0.goals
  unfolding set_goal
  change_goal-IsGoalMap test change id s keep v = elim (change_goal-cases test change id s) [
    | inl (e, p) ↦ rw p v
    | inr (ag, e, t, p) ↦ rw p (
        insert-IsGoalMap id (change ag) s.goals
          (keep ag t (AllValues-get IsStamped id s.goals v.stamped e)) v)
  ]

  receive_new_goal-IsGoalMap :
      (s : AsyncActionServer G R F) (incoming : List (Option (ReqId × GoalId × G)))
      → IsGoalMap s.goals
      → IsGoalMap (receive_new_goal s incoming).0.goals
  unfolding receive_new_goal set_goal
  receive_new_goal-IsGoalMap s [] v = v
  receive_new_goal-IsGoalMap s (none ∷ rest) v = v
  receive_new_goal-IsGoalMap s (some (req, id, g) ∷ rest) v = elim (Option-cases (get id s.goals)) [
    | inl e ↦ rw (e, receive_new_goal) (insert-IsGoalMap id (new_goal g) s.goals refl v)
    | inr (ag, e) ↦ rw (e, receive_new_goal) (receive_new_goal-IsGoalMap s rest v)
  ]

  forget_goal-IsGoalMap :
      (id : GoalId) (s : AsyncActionServer G R F)
      → IsGoalMap s.goals
      → IsGoalMap (forget_goal id s).0.goals
  unfolding forget_goal
  forget_goal-IsGoalMap id s v = ground (arith, remove-IsGoalMap id s.goals v)

module _ {G R F : Type 0} (accepts : Middleware R F) where
  -- Every call keeps the goals stamped exactly when they are past `Unknown`, and the ids ascending.
  pub step-IsGoalMap :
      (s : AsyncActionServer G R F) (c : Call G R F)
      → IsGoalMap s.goals
      → IsGoalMap (step accepts s c).goals
  unfolding step get_new_goal respond_to_cancel_requests
  step-IsGoalMap s (receives incoming) v = receive_new_goal-IsGoalMap s incoming v
  step-IsGoalMap s (fetches h) v = remove_all-IsGoalMap s.finished_goals s.goals v
  step-IsGoalMap s (accepts_goal h now) v =
      rw (accept_goal-goals accepts s h now)
        (change_goal-IsGoalMap is_unknown (set_accepted now) h.goal_id s (λ ag t p. refl) v)
  step-IsGoalMap s (rejects_goal h now) v =
      rw (reject_goal-goals accepts s h now) (forget_goal-IsGoalMap h.goal_id s v)
  step-IsGoalMap s (starts h) v = rw (start_executing_goal-goals accepts s h) (
      change_goal-IsGoalMap is_accepted (set_status executing) h.goal_id s
        (λ ag t p. set_status-IsStamped executing ag refl (ground arith) p) v)
  step-IsGoalMap s (gives_feedback h fb) v = rw (publish_feedback-goals accepts s h fb) v
  step-IsGoalMap s (awaits_request id incoming) v = rw (await_result_request-goals s id incoming) v
  step-IsGoalMap s (finishes h st r req) v =
      rw (finish_goal-goals accepts s h.goal_id (end_status st) r req) (
        change_goal-IsGoalMap may_finish (set_status (end_status st)) h.goal_id s
          (λ ag t p. set_status-IsStamped (end_status st) ag (ground arith) (ground arith) p) v)
  step-IsGoalMap s (aborts id) v = rw (abort_goal-goals accepts s id) (
      change_goal-IsGoalMap may_abort (set_status aborted) id s
        (λ ag t p. set_status-IsStamped aborted ag refl (ground arith) p) v)
  step-IsGoalMap s (answers_cancel h ids) v =
      let infos = canceling_infos s.goals ids in
      rw (write-goals accepts, publish_statuses-goals accepts)
        (mark_all_canceling-IsGoalMap infos s.goals (canceling_infos-is_timed s.goals ids) v)

  -- From a goal map where the ids ascend and a goal has a time of acceptance exactly if its status is
  -- past `Unknown`, every history of calls, in any order, leads to such a map.
  pub run-IsGoalMap :
      (s : AsyncActionServer G R F) (cs : List (Call G R F))
      → IsGoalMap s.goals
      → IsGoalMap (run accepts s cs).goals
  unfolding run
  run-IsGoalMap s [] v = v
  run-IsGoalMap s (c ∷ cs) v = run-IsGoalMap (step accepts s c) cs (step-IsGoalMap s c v)
