-- ===== src/Action/Server/Lifecycle.antt =====
-- The life of a goal in the action server: which changes of its status a call may make.
use ros2_client.Base.{
  Bool, true, false, ◌||◌, ◌&&◌, ◌==◌, List, [], ◌∷◌, Option, none, some, ◌≡◌, refl, inl, inr,
  arith, Option-cases, if◌then◌else◌, contains,
}
use mathlib.Core.Option
use ros2_client.Base.Ordered.{Map, get, remove, nat_key, get-insert, get-remove, AllValues-get}
use ros2_client.Action.Msgs.{
  GoalId, GoalStatusEnum, unknown, accepted, executing, canceling, succeeded, canceled, aborted,
  is_unknown, is_accepted, is_executing, is_canceling,
}
use ros2_client.Action.Server.State.{
  ReqId, ExecutingGoalHandle, GoalEndStatus, AsyncGoal, AsyncActionServer, Middleware, set_goal,
}
use ros2_client.Action.Server.Sections.{
  change_goal, forget_goal, set_status, set_accepted, may_finish, may_abort, remove_all, new_goal,
  receive_new_goal, get_new_goal, end_status,
}
use ros2_client.Action.Server.Cancel.Response.{get-respond_to_cancel_requests}
use ros2_client.Action.Server.Frame.{
  change_goal-cases, accept_goal-goals, start_executing_goal-goals, abort_goal-goals,
  finish_goal-goals, reject_goal-goals, publish_feedback-goals, await_result_request-goals,
}
use ros2_client.Action.Server.Invariant.{IsStamped, IsGoalMap}
use ros2_client.Action.Server.Run.{
  Call, receives, fetches, accepts_goal, rejects_goal, starts, gives_feedback, awaits_request,
  finishes, aborts, answers_cancel, step,
}

abbrev pub is_succeeded : GoalStatusEnum → Bool
is_succeeded succeeded = true
is_succeeded _ = false

abbrev pub is_canceled : GoalStatusEnum → Bool
is_canceled canceled = true
is_canceled _ = false

abbrev pub is_aborted : GoalStatusEnum → Bool
is_aborted aborted = true
is_aborted _ = false

abbrev pub is_end : GoalStatusEnum → Bool
is_end succeeded = true
is_end canceled = true
is_end aborted = true
is_end _ = false

-- The protocol of a goal that stays in the map: a new goal is accepted; an accepted one starts, or is
-- canceled or aborted, but does not succeed; an executing one can also succeed; a canceling one ends;
-- and an ended one is final.
abbrev pub protocol_change : GoalStatusEnum → GoalStatusEnum → Bool
protocol_change unknown b = is_unknown b || is_accepted b
protocol_change accepted b =
    is_accepted b || is_executing b || is_canceling b || is_canceled b || is_aborted b
protocol_change executing b = is_executing b || is_canceling b || is_end b
protocol_change canceling b = is_canceling b || is_end b
protocol_change succeeded b = is_succeeded b
protocol_change canceled b = is_canceled b
protocol_change aborted b = is_aborted b

-- A goal enters as `Unknown`, and leaves as `Unknown` (rejected) or when it is marked as finished.
abbrev pub protocol : Bool → Option GoalStatusEnum → Option GoalStatusEnum → Bool
protocol finished none none = true
protocol finished none (some b) = is_unknown b
protocol finished (some a) none = is_unknown a || finished
protocol finished (some a) (some b) = protocol_change a b

abbrev pub has_status : (GoalStatusEnum → Bool) → Option GoalStatusEnum → Bool
has_status p none = false
has_status p (some a) = p a

-- The two calls that leave the protocol: a result that says that an accepted goal has succeeded, and an
-- answer to a cancel request that names a goal that has ended.
abbrev pub departs : {G R F : Type 0} → Call G R F → GoalId → Option GoalStatusEnum → Bool
departs (finishes h st r req) j before =
    h.goal_id == j && is_succeeded (end_status st) && has_status is_accepted before
departs (answers_cancel h ids) j before = contains j ids && has_status is_end before
departs (receives incoming) j before = false
departs (fetches h) j before = false
departs (accepts_goal h now) j before = false
departs (rejects_goal h now) j before = false
departs (starts h) j before = false
departs (gives_feedback h fb) j before = false
departs (awaits_request id incoming) j before = false
departs (aborts id) j before = false

module _ {G : Type 0} where
  abbrev pub status_of : Map GoalId (AsyncGoal G) → GoalId → Option GoalStatusEnum
  status_of m id = Option.map (λ ag. ag.status) (get id m)

  get-remove_all :
      (ids : List GoalId) (j : GoalId) (m : Map GoalId (AsyncGoal G))
      → get j (remove_all ids m) ≡ (if contains j ids then none else get j m)
  unfolding remove_all
  get-remove_all [] j m = refl
  get-remove_all (i ∷ ids) j m = ground (arith, get-remove_all ids j (remove i m), get-remove i j m)

protocol_same : (f : Bool) (o : Option GoalStatusEnum) → protocol f o o ≡ true
protocol_same f none = refl
protocol_same f (some a) = ground arith

module _ {G R F : Type 0} where
  change_goal-protocol :
      (f : Bool) (test : GoalStatusEnum → Bool) (change : AsyncGoal G → AsyncGoal G) (id j : GoalId)
      (s : AsyncActionServer G R F)
      → ((ag : AsyncGoal G)
          → test ag.status ≡ true
          → protocol_change ag.status (change ag).status ≡ true)
      → protocol f (status_of s.goals j) (status_of (change_goal test change id s).0.goals j) ≡ true
  unfolding set_goal
  change_goal-protocol f test change id j s fits = elim (change_goal-cases test change id s) [
    | inl (e, p) ↦ rw p (protocol_same f (status_of s.goals j))
    | inr (ag, e, t, p) ↦ rw p (
        ground (
          arith,
          e,
          fits ag t,
          get-insert id j (change ag) s.goals,
          protocol_same f (status_of s.goals j),
        ))
  ]

  forget_goal-protocol :
      (f : Bool) (id j : GoalId) (s : AsyncActionServer G R F)
      → protocol f (status_of s.goals j) (status_of (forget_goal id s).0.goals j) ≡ true
  unfolding forget_goal
  forget_goal-protocol f id j s =
      ground (arith, get-remove id j s.goals, protocol_same f (status_of s.goals j))

  receive_new_goal-protocol :
      (f : Bool) (j : GoalId) (s : AsyncActionServer G R F)
      (incoming : List (Option (ReqId × GoalId × G)))
      → protocol f (status_of s.goals j) (status_of (receive_new_goal s incoming).0.goals j) ≡ true
  unfolding receive_new_goal set_goal
  receive_new_goal-protocol f j s [] = protocol_same f (status_of s.goals j)
  receive_new_goal-protocol f j s (none ∷ rest) = protocol_same f (status_of s.goals j)
  receive_new_goal-protocol f j s (some (req, id, g) ∷ rest) =
      elim (Option-cases (get id s.goals)) [
        | inl e ↦
            rw (e, receive_new_goal)
              (ground (
                arith,
                e,
                get-insert id j (new_goal g) s.goals,
                protocol_same f (status_of s.goals j),
              ))
        | inr (ag, e) ↦ rw (e, receive_new_goal) (receive_new_goal-protocol f j s rest)
      ]

module _ {G R F : Type 0} (accepts : Middleware R F) where
  finishes-protocol :
      (s : AsyncActionServer G R F) (h : ExecutingGoalHandle) (st : GoalEndStatus) (r : R)
      (req : ReqId) (j : GoalId) (f : Bool)
      → (departs {G = G} {R = R} {F = F} (finishes h st r req) j (status_of s.goals j)
          || protocol f (status_of s.goals j) (
              status_of
                (change_goal may_finish (set_status (end_status st)) h.goal_id s).0.goals
                j))
        ≡ true
  unfolding set_goal
  finishes-protocol s h st r req j f =
      elim (change_goal-cases may_finish (set_status (end_status st)) h.goal_id s) [
        | inl (e, p) ↦ rw p (ground (arith, protocol_same f (status_of s.goals j)))
        | inr (ag, e, t, p) ↦ rw p (
            ground (
              arith,
              e,
              t,
              get-insert h.goal_id j (set_status (end_status st) ag) s.goals,
              protocol_same f (status_of s.goals j),
            ))
      ]

  -- On a well-formed goal map, whatever call is made, a goal's status changes along the protocol: a new
  -- goal is accepted or rejected, an accepted one does not succeed, an ended one is final, and a goal
  -- past `Unknown` leaves the map only if it is marked as finished. Two calls may depart from it: a
  -- result that says that an accepted goal has succeeded, and an answer to a cancel request that names a
  -- goal that has ended.
  pub step-protocol :
      (s : AsyncActionServer G R F) (c : Call G R F) (j : GoalId)
      → IsGoalMap s.goals
      → (departs c j (status_of s.goals j)
          || protocol
              (contains j s.finished_goals)
              (status_of s.goals j)
              (status_of (step accepts s c).goals j))
        ≡ true
  unfolding step get_new_goal
  step-protocol s (receives incoming) j v =
      receive_new_goal-protocol (contains j s.finished_goals) j s incoming
  step-protocol s (fetches h) j v = ground (
    arith,
    get-remove_all s.finished_goals j s.goals,
    protocol_same (contains j s.finished_goals) (status_of s.goals j),
  )
  step-protocol s (accepts_goal h now) j v =
      rw (accept_goal-goals accepts s h now)
        (change_goal-protocol _ is_unknown (set_accepted now) h.goal_id j s (λ ag t. ground arith))
  step-protocol s (rejects_goal h now) j v =
      rw (reject_goal-goals accepts s h now) (forget_goal-protocol _ h.goal_id j s)
  step-protocol s (starts h) j v = rw (start_executing_goal-goals accepts s h) (
      change_goal-protocol _ is_accepted (set_status executing) h.goal_id j s
        (λ ag t. ground arith))
  step-protocol s (gives_feedback h fb) j v =
      rw (publish_feedback-goals accepts s h fb) (protocol_same _ (status_of s.goals j))
  step-protocol s (awaits_request id incoming) j v =
      rw (await_result_request-goals s id incoming) (protocol_same _ (status_of s.goals j))
  step-protocol s (finishes h st r req) j v =
      rw (finish_goal-goals accepts s h.goal_id (end_status st) r req)
        (finishes-protocol s h st r req j (contains j s.finished_goals))
  step-protocol s (aborts id) j v =
      rw (abort_goal-goals accepts s id)
        (change_goal-protocol _ may_abort (set_status aborted) id j s (λ ag t. ground arith))
  step-protocol s (answers_cancel h ids) j v = elim (Option-cases (get j s.goals)) [
    | inl e ↦ ground (arith, e, get-respond_to_cancel_requests accepts s h ids j)
    | inr (ag, e) ↦ ground (
      arith,
      e,
      get-respond_to_cancel_requests accepts s h ids j,
      AllValues-get IsStamped j s.goals v.stamped e,
    )
  ]
