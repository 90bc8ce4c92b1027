-- ===== src/Param/Zenoh/Server.antt =====
-- The parameter server on Zenoh (src/zenoh_backend/parameters.rs): sets, events, and the queues.
use ros2_client.Base.{
  ℕ, zero, suc, ◌-◌, ◌≤◌, false, List, [], ◌∷◌, ◌++◌, map, none, some, if◌then◌else◌, ◌≡◌, refl,
  arith, sym, ◌∙◌, ap, inl, inr, Option-cases, append-nil,
}
use ros2_client.Base.Int.{ℤ}
use ros2_client.Base.Text.{Text}
use ros2_client.Base.Ordered.{get, get-insert}
use ros2_client.Param.Value.{
  ParameterValue, boolean, Parameter, RawParameter, from_raw_parameter, ok, to_raw_result,
  read_result,
}
use ros2_client.Param.Value.Laws.{from_raw-to_raw}
use ros2_client.Param.Store.{Store, text_order, sim_time_name, value_of}
use ros2_client.Param.Store.Replay.{replay, replay-append, replay-set_event}
use ros2_client.Param.Node.{collect}
use ros2_client.Param.Zenoh.{
  ReqId, Queue, Queues, ParameterServer, new_server, set_and_notify, set_all, drain, answer_get,
  answer_types, answer_set, answer_atomic, answer_list, answer_describe, spin_once,
  client_set_request, client_set_results,
}

store-set_all :
    (now : ℤ) (ps : List RawParameter) (s : ParameterServer)
    → let (s', results) = set_all now ps s in
      (s'.store ≡ collect (map from_raw_parameter ps) s.store)
      × (client_set_results results ≡ map (λ p. ok) ps)
unfolding set_all set_and_notify to_raw_result read_result
store-set_all now [] s = (refl, refl)
store-set_all now (p ∷ ps) s =
    let q = from_raw_parameter p in
    let (stored, results) = store-set_all now ps (set_and_notify now q.name q.value s).0 in
    (stored, ap (λ l. ok ∷ l) results)

parameters_over_wire : (ps : List Parameter) → map from_raw_parameter (client_set_request ps) ≡ ps
parameters_over_wire [] = refl
parameters_over_wire (p ∷ ps) =
    λ i. record { name = p.name; value = from_raw-to_raw p.value i } ∷ parameters_over_wire ps i

map_ok : (ps : List Parameter) → map (λ p. ok) (client_set_request ps) ≡ map (λ p. ok) ps
map_ok [] = refl
map_ok (p ∷ ps) = ap (λ l. ok ∷ l) (map_ok ps)

-- A client that sets parameters reads a success for each, and the server's store has them inserted in
-- their order, with no check of their names or types.
pub client_set-set_all :
    (now : ℤ) (ps : List Parameter) (s : ParameterServer)
    → let (s', results) = set_all now (client_set_request ps) s in
      (s'.store ≡ collect ps s.store) × (client_set_results results ≡ map (λ p. ok) ps)
client_set-set_all now ps s =
    let (stored, results) = store-set_all now (client_set_request ps) s in
    (stored ∙ ap (λ l. collect l s.store) (parameters_over_wire ps), results ∙ map_ok ps)

-- A server starts with the declared parameters, a later one of a name in place of an earlier one, and
-- `use_sim_time` is off only where it was not declared.
pub get-new_server :
    (node_fqn : Text) (initial : List Parameter) (name : Text)
    → value_of (new_server node_fqn initial).store name ≡ (
        if text_order.eq sim_time_name name
        then (elim (get name (collect initial [])) [ none ↦ boolean false | some v ↦ v ])
        else value_of (collect initial []) name)
unfolding new_server
get-new_server node_fqn initial name =
    elim (Option-cases (get sim_time_name (collect initial []))) [
      | inl e ↦ ground (
        arith,
        e,
        get-insert sim_time_name name (boolean false) (collect initial []),
        text_order.eq_iff sim_time_name name,
      )
      | inr (v, e) ↦ ground (arith, e, text_order.eq_iff sim_time_name name)
    ]

module _ {S Req Resp : Type 0} (answer : Req → S → S × Resp) where
  pub drain_keeps :
      (P : S → Type 0)
      → ((r : Req) (s : S) → P s → P (answer r s).0)
      → (q : Queue Req) (s : S) → P s
      → P (drain answer q s).0
  unfolding drain
  drain_keeps P keep [] s h = h
  drain_keeps P keep (none ∷ q) s h = h
  drain_keeps P keep (some (id, r) ∷ q) s h = drain_keeps P keep q (answer r s).0 (keep r s h)

  -- The requests of a queue that can be read, and how many cannot.
  abbrev pub ids : Queue Req → List ReqId
  ids [] = []
  ids (none ∷ q) = ids q
  ids (some (id, r) ∷ q) = id ∷ ids q

  abbrev pub unreadable : Queue Req → ℕ
  unreadable [] = 0
  unreadable (none ∷ q) = suc (unreadable q)
  unreadable (some r ∷ q) = unreadable q

  -- The loop again and again, as `spin_once` is called again.
  abbrev pub rounds : ℕ → Queue Req → S → S × List (ReqId × Resp) × Queue Req
  rounds zero q s = (s, [], q)
  rounds (suc n) q s =
      let (s1, out, q1) = drain answer q s in
      let (s2, outs, q2) = rounds n q1 s1 in (s2, out ++ outs, q2)

  abbrev pub answered : List (ReqId × Resp) → List ReqId
  answered = map (λ e. e.0)

  drain-ids :
      (q : Queue Req) (s : S)
      → let (s', out, rest) = drain answer q s in
        (answered out ++ ids rest ≡ ids q)
        × (unreadable rest ≤ unreadable q - 1)
        × (unreadable q ≤ 0 → rest ≡ [])
  unfolding drain
  drain-ids [] s = (refl, omega arith, λ _. refl)
  drain-ids (none ∷ q) s = (refl, omega arith, λ h. absurd (omega arith))
  drain-ids (some (id, r) ∷ q) s =
      let (e, l, n) = drain-ids q (answer r s).0 in (ap (λ l. id ∷ l) e, l, n)

  answered-append : (xs ys : List (ReqId × Resp)) → answered (xs ++ ys) ≡ answered xs ++ answered ys
  answered-append [] ys = refl
  answered-append (x ∷ xs) ys = ap (λ l. x.0 ∷ l) (answered-append xs ys)

  -- Where at most `n` requests of a queue cannot be read, one round more than that answers all the
  -- others, once each and in their order, and leaves the queue empty.
  pub rounds_answer :
      (n : ℕ) (q : Queue Req) (s : S)
      → unreadable q ≤ n
      → let (s', out, rest) = rounds (suc n) q s in (answered out ≡ ids q) × (rest ≡ [])
  rounds_answer zero q s h =
      let (e, l, empty) = drain-ids q s in
      let (s1, out, rest) = drain answer q s in
      let gone : rest ≡ [] = empty h in
      let all : ids rest ≡ [] = ap ids gone in
      (rw append-nil (sym (append-nil (answered out)) ∙ rw (sym all) e), gone)
  rounds_answer (suc n) q s h =
      let (e, l, empty) = drain-ids q s in
      let (s1, out, rest) = drain answer q s in
      let (ih, gone) = rounds_answer n rest s1 (omega arith) in
      (answered-append out (rounds (suc n) rest s1).1 ∙ (ap (λ x. answered out ++ x) ih ∙ e), gone)

  -- One round stops at the first request that cannot be read, and leaves all that are behind it
  -- unanswered in the queue, whether or not they can be read.
  pub drain_stops :
      (before : List (ReqId × Req)) (behind : Queue Req) (s : S)
      → let (s', out, rest) = drain answer (map some before ++ none ∷ behind) s in
        (answered out ≡ map (λ e. e.0) before) × (rest ≡ behind)
  unfolding drain
  drain_stops [] behind s = (refl, refl)
  drain_stops ((id, r) ∷ before) behind s =
      let (e, rest) = drain_stops before behind (answer r s).0 in (ap (λ l. id ∷ l) e, rest)

-- Replaying the events from `start` gives the store.
abbrev pub Tells : Store → ParameterServer → Type 0
Tells start s = replay s.events start ≡ some s.store

set_and_notify-Tells :
    (start : Store) (now : ℤ) (name : Text) (value : ParameterValue) (s : ParameterServer)
    → Tells start s
    → Tells start (set_and_notify now name value s).0
unfolding set_and_notify
set_and_notify-Tells start now name value s h =
    replay-append s.events _ start s.store h ∙ replay-set_event now s.node_fqn name value s.store

set_all-Tells :
    (start : Store) (now : ℤ) (ps : List RawParameter) (s : ParameterServer)
    → Tells start s
    → Tells start (set_all now ps s).0
unfolding set_all
set_all-Tells start now [] s h = h
set_all-Tells start now (p ∷ ps) s h =
    let q = from_raw_parameter p in
    set_all-Tells start now ps (set_and_notify now q.name q.value s).0
      (set_and_notify-Tells start now q.name q.value s h)

-- If the events so far replay to the store, they do so after the requests of a `spin_once` too.
pub spin_once-Tells :
    (start : Store) (now : ℤ) (q : Queues) (s : ParameterServer)
    → Tells start s
    → Tells start (spin_once now q s).0
unfolding spin_once
spin_once-Tells start now q s h =
    drain_keeps answer_describe (Tells start) (λ r s h. h) q.describe_parameters _
      (drain_keeps answer_list (Tells start) (λ r s h. h) q.list_parameters _
        (drain_keeps answer_atomic (Tells start) (λ r s h. h) q.set_parameters_atomically _
          (drain_keeps (answer_set now) (Tells start) (λ ps s h. set_all-Tells start now ps s h)
            q.set_parameters _
            (drain_keeps answer_types (Tells start) (λ r s h. h) q.get_parameter_types _
              (drain_keeps answer_get (Tells start) (λ r s h. h) q.get_parameters s h)))))
