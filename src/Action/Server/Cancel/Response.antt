-- ===== src/Action/Server/Cancel/Response.antt =====
-- What answering a cancel request does (`respond_to_cancel_requests` in src/action/server.rs).
use ros2_client.Base.{
  ℕ, suc, Bool, true, false, ◌&&◌, List, [], ◌∷◌, map, Option, none, some, ◌≡◌, refl, inl, inr,
  arith, Option-cases, if◌then◌else◌, ◌==◌, contains, is_empty, ◌++◌,
}
use mathlib.Core.Option
use ros2_client.Base.Ordered.{Map, get, nat_key, get-insert}
use ros2_client.Time.Builtin.{Time}
use ros2_client.Action.Msgs.{GoalId, GoalInfo, canceling, rejected, no_error}
use ros2_client.Action.Server.State.{
  AsyncGoal, CancelHandle, AsyncActionServer, Middleware, Message, cancel_response, status_array,
  status_list, write, publish_statuses,
}
use ros2_client.Action.Server.Sections.{set_status}
use ros2_client.Action.Server.Cancel.{
  respond_to_cancel_requests, canceling_infos, mark_canceling, mark_all_canceling,
}

abbrev pub has_time : Option Time → Bool
has_time none = false
has_time (some t) = true

abbrev pub ids_of : List GoalInfo → List GoalId
ids_of = map (λ i. i.goal_id)

module _ {G : Type 0} where
  -- The goal is there and has been accepted at some time.
  abbrev pub is_timed : Map GoalId (AsyncGoal G) → GoalId → Bool
  is_timed m id = elim (get id m) [ none ↦ false | some ag ↦ has_time ag.accepted_time ]

  abbrev pub cancel_if : Bool → AsyncGoal G → AsyncGoal G
  cancel_if b ag = if b then set_status canceling ag else ag

  get-mark_canceling :
      (i j : GoalId) (m : Map GoalId (AsyncGoal G))
      → get j (mark_canceling i m) ≡ Option.map (cancel_if (i == j)) (get j m)
  unfolding mark_canceling
  get-mark_canceling i j m = elim (Option-cases (get i m)) [
    | inl e ↦ rw (e, mark_canceling) (ground (arith, e))
    | inr (ag, e) ↦
        rw (e, mark_canceling) (ground (arith, e, get-insert i j (set_status canceling ag) m))
  ]

  pub get-mark_all_canceling :
      (infos : List GoalInfo) (j : GoalId) (m : Map GoalId (AsyncGoal G))
      → get j (mark_all_canceling infos m)
        ≡ Option.map (cancel_if (contains j (ids_of infos))) (get j m)
  unfolding mark_all_canceling
  get-mark_all_canceling [] j m = ground arith
  get-mark_all_canceling (i ∷ infos) j m = ground (
    arith,
    get-mark_all_canceling infos j (mark_canceling i.goal_id m),
    get-mark_canceling i.goal_id j m,
  )

  pub contains-canceling_infos :
      (m : Map GoalId (AsyncGoal G)) (ids : List GoalId) (j : GoalId)
      → contains j (ids_of (canceling_infos m ids)) ≡ (contains j ids && is_timed m j)
  unfolding canceling_infos
  contains-canceling_infos m [] j = refl
  contains-canceling_infos m (i ∷ ids) j = ground (arith, contains-canceling_infos m ids j)

module _ {G R F : Type 0} (accepts : Middleware R F) where
  -- Exactly the goals that the answer names and that have been accepted are set to `Canceling`,
  -- whatever their status was; every other goal stays as it was.
  pub get-respond_to_cancel_requests :
      (s : AsyncActionServer G R F) (h : CancelHandle) (ids : List GoalId) (j : GoalId)
      → get j (respond_to_cancel_requests accepts s h ids).0.goals
        ≡ Option.map (cancel_if (contains j ids && is_timed s.goals j)) (get j s.goals)
  unfolding respond_to_cancel_requests write publish_statuses
  get-respond_to_cancel_requests s h ids j =
      let infos = canceling_infos s.goals ids in
      ground (arith, get-mark_all_canceling infos j s.goals, contains-canceling_infos s.goals ids j)

  -- On a middleware that takes everything, the answer sends the new statuses and then a response that
  -- lists the goals set to `Canceling`, and is a rejection if and only if there are none.
  pub sent-respond_to_cancel_requests :
      (s : AsyncActionServer G R F) (h : CancelHandle) (ids : List GoalId)
      → ((n : ℕ) (m : Message R F) → accepts n m ≡ true)
      → let infos = canceling_infos s.goals ids in
        ((respond_to_cancel_requests accepts s h ids).0.sent
          ≡ (s.sent ++ status_array (status_list (mark_all_canceling infos s.goals)) ∷ [])
            ++ cancel_response h.req_id (if is_empty infos then rejected else no_error) infos ∷ [])
        × ((respond_to_cancel_requests accepts s h ids).1 ≡ true)
  unfolding respond_to_cancel_requests write publish_statuses
  sent-respond_to_cancel_requests s h ids all =
      let infos = canceling_infos s.goals ids in
      let statuses : Message R F = status_array (status_list (mark_all_canceling infos s.goals)) in
      let code = if is_empty infos then rejected else no_error in
      let response : Message R F = cancel_response h.req_id code infos in
      ground (arith, all s.writes statuses, all (suc s.writes) response)
