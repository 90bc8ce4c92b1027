-- ===== src/Action/Server/Outcome.antt =====
-- What the handlers of the action server return and send, on every branch.
use ros2_client.Base.{
  ℕ, suc, true, List, [], ◌∷◌, ◌++◌, Option, none, some, ◌≡◌, ◌≢◌, refl, arith, All, append_assoc,
}
use ros2_client.Base.Ordered.{Map, get, insert, nat_key}
use ros2_client.Time.Builtin.{Time}
use ros2_client.Action.Msgs.{GoalId, GoalStatusEnum, unknown, accepted, executing}
use ros2_client.Action.Server.State.{
  ReqId, GoalEndStatus, ok, Message, goal_response, result_response, status_array, status_list,
  AsyncActionServer, Middleware, write, publish_statuses, set_goal,
}
use ros2_client.Action.Server.Sections.{
  received, change_goal, mark_goal_finished, new_goal, receive_new_goal, read_result_requests,
  await_result_request, end_status,
}
use ros2_client.Action.Server.Handlers.{
  accept_goal, start_executing_goal, finish_goal, send_result_response,
}

-- Requests that arrive with no read error, in front of others.
abbrev pub append_some : {A : Type 0} → List A → List (Option A) → List (Option A)
append_some [] rest = rest
append_some (a ∷ l) rest = some a ∷ append_some l rest

-- The requests for the results of other goals, kept in the order in which they arrive.
abbrev pub buffer : List (ReqId × GoalId) → Map GoalId ReqId → Map GoalId ReqId
buffer [] m = m
buffer ((r, i) ∷ reqs) m = buffer reqs (insert i r m)

module _ {G R F : Type 0} where
  -- A goal request whose id is in use is discarded, and the first one whose id is free becomes a new
  -- goal in the status `Unknown` with no time of acceptance.
  pub receive_new_goal_first :
      (s : AsyncActionServer G R F) (dups : List (ReqId × GoalId × G)) (req : ReqId) (id : GoalId)
      (g : G) (rest : List (Option (ReqId × GoalId × G)))
      → All (λ d. get d.1 s.goals ≢ none) dups
      → get id s.goals ≡ none
      → receive_new_goal s (append_some dups (some (req, id, g) ∷ rest))
        ≡ (set_goal id (new_goal g) s, received (record { goal_id = id; req_id = req }), rest)
  unfolding receive_new_goal
  receive_new_goal_first s [] req id g rest used free = ground (arith, free)
  receive_new_goal_first s ((r, i, d) ∷ dups) req id g rest (u, used) free =
      ground (arith, u, receive_new_goal_first s dups req id g rest used free)

  read_result_requests_first :
      (s : AsyncActionServer G R F) (others : List (ReqId × GoalId)) (req : ReqId) (id : GoalId)
      (rest : List (Option (ReqId × GoalId)))
      → All (λ o. o.1 ≢ id) others
      → read_result_requests s id (append_some others (some (req, id) ∷ rest))
        ≡ (record s { result_requests = buffer others s.result_requests }, received req, rest)
  unfolding read_result_requests
  read_result_requests_first s [] req id rest h = ground arith
  read_result_requests_first s ((r, i) ∷ others) req id rest (ne, h) =
      let s' = record s { result_requests = insert i r s.result_requests } in
      ground (arith, read_result_requests_first s' others req id rest h)

  -- The result of a goal waits for the first request for it: one that was kept, or else the first
  -- that arrives, and the requests for other goals that arrive before it are kept.
  pub await_result_request_first :
      (s : AsyncActionServer G R F) (others : List (ReqId × GoalId)) (req : ReqId) (id : GoalId)
      (rest : List (Option (ReqId × GoalId)))
      → All (λ o. o.1 ≢ id) others
      → let incoming = append_some others (some (req, id) ∷ rest) in
        await_result_request s id incoming ≡ elim (get id s.result_requests) [
          | some kept ↦ (s, received kept, incoming)
          | none ↦
              (record s { result_requests = buffer others s.result_requests }, received req, rest)
        ]
  unfolding await_result_request
  await_result_request_first s others req id rest h =
      ground (arith, read_result_requests_first s others req id rest h)

module _ {G R F : Type 0} (accepts : Middleware R F)
    (all : (n : ℕ) (m : Message R F) → accepts n m ≡ true) (id : GoalId) (g : G)
    (fin : List GoalId) where
  -- A server with one goal.
  abbrev holding : GoalStatusEnum → Option Time → List (Message R F) → ℕ → AsyncActionServer G R F
  holding st at sent n = record {
    goals = (id, record { status = st; accepted_time = at; goal = g }) ∷ [];
    finished_goals = fin;
    result_requests = [];
    sent = sent;
    writes = n;
  }

  abbrev statuses : GoalStatusEnum → Time → Message R F
  statuses st now =
      status_array
        (status_list ((id, record { status = st; accepted_time = some now; goal = g }) ∷ []))

  accept_new :
      (req : ReqId) (now : Time) (sent : List (Message R F)) (n : ℕ)
      → accept_goal accepts
          (holding unknown none sent n)
          (record { goal_id = id; req_id = req })
          now
        ≡ (
          holding accepted
              (some now)
              ((sent ++ statuses accepted now ∷ []) ++ goal_response req true now ∷ [])
              (suc (suc n)),
          ok (record { goal_id = id }),
        )
  unfolding accept_goal change_goal publish_statuses write set_goal get insert
  accept_new req now sent n =
      ground (arith, all n (statuses accepted now), all (suc n) (goal_response req true now))

  start_accepted :
      (now : Time) (sent : List (Message R F)) (n : ℕ)
      → start_executing_goal accepts (holding accepted (some now) sent n) (record { goal_id = id })
        ≡ (
          holding executing (some now) (sent ++ statuses executing now ∷ []) (suc n),
          ok (record { goal_id = id }),
        )
  unfolding start_executing_goal change_goal publish_statuses write set_goal get insert
  start_accepted now sent n = ground (arith, all n (statuses executing now))

  finish_executing :
      (now : Time) (st : GoalStatusEnum) (r : R) (req : ReqId) (sent : List (Message R F)) (n : ℕ)
      → finish_goal accepts (holding executing (some now) sent n) id st r req ≡ (
        record (holding st
            (some now)
            ((sent ++ result_response req st r ∷ []) ++ statuses st now ∷ [])
            (suc (suc n))) { finished_goals = fin ++ id ∷ [] },
        ok tt,
      )
  unfolding finish_goal change_goal publish_statuses write set_goal mark_goal_finished get insert
  finish_executing now st r req sent n =
      ground (arith, all n (result_response req st r), all (suc n) (statuses st now))

  send_executing :
      (now : Time) (st : GoalEndStatus) (r : R) (req : ReqId) (sent : List (Message R F)) (n : ℕ)
      → send_result_response accepts
          (holding executing (some now) sent n)
          (record { goal_id = id })
          st
          r
          (some (req, id) ∷ [])
        ≡ (
          record (holding
              (end_status st)
              (some now)
              ((sent ++ result_response req (end_status st) r ∷ [])
                ++ statuses (end_status st) now ∷ [])
              (suc (suc n))) { finished_goals = fin ++ id ∷ [] },
          some (ok tt),
        )
  unfolding send_result_response await_result_request read_result_requests get
  send_executing now st r req sent n =
      ground (arith, finish_executing now (end_status st) r req sent n)

  -- One goal on a server without goals and a middleware that takes every message: it is received,
  -- accepted, started and ended, and the request for its result arrives. Then the messages are sent in
  -- the order of the protocol, with the final status in the response, and the goal is marked as
  -- finished.
  pub goal_protocol :
      (req result_req : ReqId) (now : Time) (st : GoalEndStatus) (r : R) (sent : List (Message R F))
      (n : ℕ)
      → let s0 : AsyncActionServer G R F = record {
        goals = [];
        finished_goals = fin;
        result_requests = [];
        sent = sent;
        writes = n;
      } in
        let s1 = (receive_new_goal s0 (some (req, id, g) ∷ [])).0 in
        let s2 = (accept_goal accepts s1 (record { goal_id = id; req_id = req }) now).0 in
        let s3 = (start_executing_goal accepts s2 (record { goal_id = id })).0 in
        let f =
          send_result_response accepts s3
            (record { goal_id = id })
            st
            r
            (some (result_req, id) ∷ []) in
        (f.1 ≡ some (ok tt))
        × (f.0.sent
            ≡ sent
              ++ statuses accepted now
                ∷ goal_response req true now
                ∷ statuses executing now
                ∷ result_response result_req (end_status st) r
                ∷ statuses (end_status st) now
                ∷ [])
        × (f.0.finished_goals ≡ fin ++ id ∷ [])
  unfolding receive_new_goal set_goal get insert
  goal_protocol req result_req now st r sent n =
      rw (accept_new req now sent n, start_accepted)
        (rw send_executing (refl, simp append_assoc, refl))
