-- ===== src/Action/Server/Tests.antt =====
-- Instances of the laws of the action server, on a server that holds two goals.
use ros2_client.Base.{◌↔◌, ℕ, true, false, [], ◌∷◌, none, some, ◌≡◌, refl, arith, contains}
use ros2_client.Base.Int.{pos}
use ros2_client.Base.Ordered.{get, nat_key}
use ros2_client.Time.Builtin.{Time, time_from_nanos}
use ros2_client.Action.Msgs.{GoalInfo, unknown, executing, canceling, succeeded, zero_id}
use ros2_client.Action.Server.State.{
  AsyncGoal, AsyncActionServer, Middleware, ok, CancelHandle, time_zero, end_succeeded,
}
use ros2_client.Action.Server.Sections.{receive_new_goal}
use ros2_client.Action.Server.Handlers.{accept_goal, start_executing_goal, send_result_response}
use ros2_client.Action.Server.Cancel.{respond_to_cancel_requests, selected_goals}
use ros2_client.Action.Server.Cancel.Response.{get-respond_to_cancel_requests}
use ros2_client.Action.Server.Cancel.Selection.{IsCancelable, IsMeant, selected_goals_iff}
use ros2_client.Action.Server.Invariant.{IsGoalMap, run-IsGoalMap}
use ros2_client.Action.Server.Lifecycle.{protocol, status_of, step-protocol}
use ros2_client.Action.Server.Outcome.{goal_protocol}
use ros2_client.Action.Server.Run.{aborts, answers_cancel, step, run}

abbrev taken : Middleware ℕ ℕ
taken n m = true

abbrev refused : Middleware ℕ ℕ
refused n m = false

abbrev at : Time
at = time_from_nanos (pos 50)

-- Goal 3 is executing, goal 5 has succeeded and is not yet flushed, and goal 7 is new.
abbrev busy : AsyncActionServer ℕ ℕ ℕ
busy = record {
  goals =
      (3, record { status = executing; accepted_time = some at; goal = 30 })
      ∷ (5, record { status = succeeded; accepted_time = some at; goal = 50 })
      ∷ (7, record { status = unknown; accepted_time = none; goal = 70 })
      ∷ [];
  finished_goals = 5 ∷ [];
  result_requests = [];
  sent = [];
  writes = 0;
}

abbrev cancel_five : CancelHandle
cancel_five = record { req_id = 1; goals = [] }

abbrev all_goals : GoalInfo
all_goals = record { goal_id = zero_id; stamp = time_zero }

busy-IsGoalMap : IsGoalMap busy.goals
busy-IsGoalMap = record { stamped = (refl, (refl, (refl, tt))); ascending = omega arith }

run-IsGoalMap_example :
    IsGoalMap (run taken busy (aborts 3 ∷ answers_cancel cancel_five (5 ∷ []) ∷ [])).goals
run-IsGoalMap_example =
    run-IsGoalMap taken busy (aborts 3 ∷ answers_cancel cancel_five (5 ∷ []) ∷ []) busy-IsGoalMap

step-protocol_example :
    protocol
      (contains 3 busy.finished_goals)
      (status_of busy.goals 3)
      (status_of (step taken busy (aborts 3)).goals 3)
    ≡ true
step-protocol_example = step-protocol taken busy (aborts 3) 3 busy-IsGoalMap

get-respond_to_cancel_requests_example :
    get 5 (respond_to_cancel_requests taken busy cancel_five (5 ∷ [])).0.goals
    ≡ some (record { status = canceling; accepted_time = some at; goal = 50 })
unfolding get
get-respond_to_cancel_requests_example =
    get-respond_to_cancel_requests taken busy cancel_five (5 ∷ []) 5

selected_goals_iff_example :
    (contains 3 (selected_goals all_goals busy.goals) ≡ true)
    ↔ ((ag : AsyncGoal ℕ) × (get 3 busy.goals ≡ some ag) × IsCancelable ag × IsMeant all_goals 3 ag)
selected_goals_iff_example = selected_goals_iff all_goals 0 3 busy.goals (omega arith)

goal_protocol_example :
    (send_result_response taken
      (start_executing_goal taken
        (accept_goal taken
          (receive_new_goal
            (record busy { goals = []; finished_goals = [] })
            (some (1, 9, 90) ∷ [])).0
          (record { goal_id = 9; req_id = 1 })
          at).0
        (record { goal_id = 9 })).0
      (record { goal_id = 9 })
      end_succeeded
      0
      (some (2, 9) ∷ [])).1
    ≡ some (ok tt)
goal_protocol_example = (goal_protocol taken (λ n m. refl) 9 90 [] 1 2 at end_succeeded 0 [] 0).0
