-- ===== src/Param/Node/History.antt =====
-- Histories of a node's parameters (src/node.rs): the events tell the store, and no undeclared name
-- comes in.
use ros2_client.Base.{
  ℕ, suc, Bool, true, List, [], ◌∷◌, ◌++◌, none, some, ◌≡◌, refl, arith, ◌∙◌, inl, inr,
  Option-cases,
}
use ros2_client.Base.Int.{ℤ}
use ros2_client.Base.Text.{Text}
use ros2_client.Base.Ordered.{get, remove, contains_key}
use ros2_client.Param.Value.{
  ParameterValue, SetResult, ok, err, RawParameter, from_raw_parameter, to_raw,
}
use ros2_client.Param.Store.{Store, text_order, ParameterEvent}
use ros2_client.Param.Store.Replay.{replay, replay-append, replay-set_event}
use ros2_client.Param.Store.Order.{IsAscending, insert-IsAscending, remove-IsAscending}
use ros2_client.Param.Node.{
  Options, NodeState, set_parameter, handle_set_parameters, undeclare_parameter, handle_request,
  Request, get_request, types_request, set_request, atomic_request, list_request, describe_request,
  Event, sets, undeclares, requests, clock, step, run, time_now, delivered,
}
use ros2_client.Param.Node.Set.{SetOutcome, set_parameter-SetOutcome}

-- A predicate of the store and the events that every set and undeclaration keeps is kept by every
-- history.
module _ {App : Type 0} (o : Options App) (P : NodeState App → Type 0)
    (sets_keep : (stamp : NodeState App → ℤ) (name : Text) (value : ParameterValue)
        (s : NodeState App)
      → P s
      → P (set_parameter o stamp name value s).0)
    (undeclares_keep : (now : ℤ) (name : Text) (s : NodeState App)
      → P s
      → P (undeclare_parameter o now name s))
    (clock_keeps : (time : ℤ) (s : NodeState App) → P s → P (record s { sim_time = time })) where
  handle_set_parameters_keeps :
      (now : ℤ) (ps : List RawParameter) (s : NodeState App)
      → P s
      → P (handle_set_parameters o now ps s).0
  unfolding handle_set_parameters
  handle_set_parameters_keeps now [] s h = h
  handle_set_parameters_keeps now (p ∷ ps) s h =
      let q = from_raw_parameter p in
      handle_set_parameters_keeps now ps (set_parameter o (λ s'. now) q.name q.value s).0
        (sets_keep (λ s'. now) q.name q.value s h)

  handle_request_keeps :
      (now : ℤ) (r : Request) (s : NodeState App) → P s → P (handle_request o now r s).0
  unfolding handle_request
  handle_request_keeps now (get_request names) s h = h
  handle_request_keeps now (types_request names) s h = h
  handle_request_keeps now (set_request ps) s h = handle_set_parameters_keeps now ps s h
  handle_request_keeps now (atomic_request ps) s h = h
  handle_request_keeps now (list_request prefixes) s h = h
  handle_request_keeps now (describe_request names) s h = h

  step_keeps : (s : NodeState App) (e : Event) → P s → P (step o s e)
  unfolding step
  step_keeps s (sets now name value) h = sets_keep (λ s'. time_now s' now) name value s h
  step_keeps s (undeclares now name) h = undeclares_keep now name s h
  step_keeps s (requests now r) h = handle_request_keeps now r s h
  step_keeps s (clock time) h = clock_keeps time s h

  pub run_keeps : (s : NodeState App) (es : List Event) → P s → P (run o s es)
  unfolding run
  run_keeps s [] h = h
  run_keeps s (e ∷ es) h = run_keeps (step o s e) es (step_keeps s e h)

-- What undeclaring leaves.
module _ {App : Type 0} (o : Options App) where
  pub undeclare_absent :
      (now : ℤ) (name : Text) (s : NodeState App)
      → get name s.parameters ≡ none
      → undeclare_parameter o now name s ≡ s
  unfolding undeclare_parameter
  undeclare_absent now name s h = rw (h, undeclare_parameter) refl

  pub undeclare_present :
      (now : ℤ) (name : Text) (v : ParameterValue) (s : NodeState App)
      → get name s.parameters ≡ some v
      → undeclare_parameter o now name s ≡ record s {
        parameters = remove name s.parameters;
        events =
            s.events
            ++ record {
              stamp = time_now s now;
              node = o.node_name;
              new_parameters = [];
              changed_parameters = [];
              deleted_parameters = record { name = name; value = to_raw v } ∷ [];
            }
              ∷ [];
      }
  unfolding undeclare_parameter
  undeclare_present now name v s h = rw (h, undeclare_parameter) refl

  module _ (start : Store) where
    -- Replaying the events from `start` gives the store.
    abbrev pub Tells : NodeState App → Type 0
    Tells s = replay s.events start ≡ some s.parameters

    SetOutcome-Tells :
        (name : Text) (value : ParameterValue) (s s' : NodeState App) (r : SetResult)
        → SetOutcome o (contains_key name s.parameters) name value s s' r
        → Tells s
        → Tells s'
    SetOutcome-Tells name value s s' ok (p, (t, e)) h =
        rw (p, e)
          (replay-append s.events _ start s.parameters h
            ∙ replay-set_event t o.node_name name value s.parameters)
    SetOutcome-Tells name value s s' (err x) (p, e) h = rw (p, e) h

    undeclare-Tells :
        (now : ℤ) (name : Text) (s : NodeState App)
        → Tells s
        → Tells (undeclare_parameter o now name s)
    undeclare-Tells now name s h = elim (Option-cases (get name s.parameters)) [
      | inl e ↦ rw (undeclare_absent now name s e) h
      | inr (v, e) ↦
          rw (undeclare_present now name v s e)
            (replay-append s.events _ start s.parameters h ∙ ground (arith, e))
    ]

    -- Over any calls, requests and clock messages that come one after the other.
    pub run-Tells : (s : NodeState App) (es : List Event) → Tells s → Tells (run o s es)
    run-Tells s es h =
        run_keeps o Tells
          (λ stamp name value s h.
            SetOutcome-Tells name value s (set_parameter o stamp name value s).0
              (set_parameter o stamp name value s).1 (set_parameter-SetOutcome o stamp name value s)
              h)
          undeclare-Tells (λ time s h. h) s es h

  delivered_all :
      (takes : ℕ → Bool) (n : ℕ) (es : List ParameterEvent)
      → ((n : ℕ) → takes n ≡ true)
      → delivered takes n es ≡ es
  unfolding delivered
  delivered_all takes n [] all = refl
  delivered_all takes n (e ∷ es) all = rw (all n, delivered_all takes (suc n) es all) refl

  -- Where calls, requests and clock messages come one after the other and the writer takes every
  -- event: if the events so far replay from `start` to the store, they do so after any history. So a
  -- listener that applies each new parameter to a store without it, and each changed or deleted one to
  -- a store with it, never fails and has the store of the node.
  pub replay-delivered :
      (start : Store) (takes : ℕ → Bool) (s : NodeState App) (es : List Event)
      → ((n : ℕ) → takes n ≡ true)
      → replay (delivered takes 0 s.events) start ≡ some s.parameters
      → replay (delivered takes 0 (run o s es).events) start ≡ some (run o s es).parameters
  replay-delivered start takes s es all h =
      let now : Tells start s = rw (delivered_all takes 0 s.events all) at h in
      rw (delivered_all takes 0 (run o s es).events all) (run-Tells start s es now)

  set-IsAscending :
      (name : Text) (value : ParameterValue) (already : Bool) (s s' : NodeState App) (r : SetResult)
      → SetOutcome o already name value s s' r
      → IsAscending s.parameters
      → IsAscending s'.parameters
  set-IsAscending name value already s s' ok (p, _) h =
      rw p (insert-IsAscending name value s.parameters h)
  set-IsAscending name value already s s' (err x) (p, _) h = rw p h

  pub run-IsAscending :
      (s : NodeState App) (es : List Event)
      → IsAscending s.parameters
      → IsAscending (run o s es).parameters
  run-IsAscending s es h =
      run_keeps o (λ s. IsAscending s.parameters)
        (λ stamp name value s h.
          set-IsAscending name value (contains_key name s.parameters) s
            (set_parameter o stamp name value s).0 (set_parameter o stamp name value s).1
            (set_parameter-SetOutcome o stamp name value s) h)
        (λ now name s h. elim (Option-cases (get name s.parameters)) [
          | inl e ↦ rw (undeclare_absent now name s e) h
          | inr (v, e) ↦
              rw (undeclare_present now name v s e) (remove-IsAscending name s.parameters h)
        ])
        (λ time s h. h) s es h
