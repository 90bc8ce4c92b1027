-- ===== src/Param/Node/Set.antt =====
-- What `set_parameter` of `Node` and `Spinner` (src/node.rs) does on every branch.
use ros2_client.Base.{
  Bool, ◌||◌, [], ◌∷◌, ◌++◌, Option, none, some, ◌≡◌, refl, ◌∙◌, inl, inr, Bool-cases,
}
use ros2_client.Base.Int.{ℤ}
use ros2_client.Base.Text.{Text, text_eq}
use ros2_client.Base.Ordered.{insert, contains_key}
use ros2_client.Param.Value.{ParameterValue, SetResult, ok, err}
use ros2_client.Param.Store.{text_order, sim_time_name, set_event}
use ros2_client.Param.Node.{
  Options, ParameterFunc, NodeState, ask, and_then, validate_parameter_on_set,
  execute_parameter_set_actions, store_and_notify, set_declared, set_parameter,
}

-- Store and events are as before.
abbrev pub Kept : {App : Type 0} → NodeState App → NodeState App → Type 0
Kept s s' = (s'.parameters ≡ s.parameters) × (s'.events ≡ s.events)

ask-Kept :
    {App : Type 0} (f : Option (ParameterFunc App)) (name : Text) (value : ParameterValue)
    (s : NodeState App)
    → Kept s (ask f name value s).0
ask-Kept none name value s = (refl, refl)
ask-Kept (some f) name value s = (refl, refl)

module _ {App : Type 0} (o : Options App) where
  pub validate-Kept :
      (name : Text) (value : ParameterValue) (s : NodeState App)
      → Kept s (validate_parameter_on_set o name value s).0
  unfolding validate_parameter_on_set
  validate-Kept name value s = elim (Bool-cases (text_eq name sim_time_name)) [
    | inl h ↦ rw h (refl, refl)
    | inr h ↦ rw h (ask-Kept o.parameter_validator name value s)
  ]

  pub execute-Kept :
      (name : Text) (value : ParameterValue) (s : NodeState App)
      → Kept s (execute_parameter_set_actions o name value s).0
  unfolding execute_parameter_set_actions
  execute-Kept name value s = elim (Bool-cases (text_eq name sim_time_name)) [
    | inl h ↦ rw h (refl, refl)
    | inr h ↦ rw h (ask-Kept o.parameter_set_action name value s)
  ]

  -- What a set with a result leaves behind: on success the value is in the store and one event is
  -- published, as changed or as new by whether the name was there; on an error nothing.
  abbrev pub SetOutcome :
      Bool → Text → ParameterValue → NodeState App → NodeState App → SetResult → Type 0
  SetOutcome already name value s s' ok =
      (s'.parameters ≡ insert name value s.parameters)
      × ((t : ℤ) × (s'.events ≡ s.events ++ set_event already t o.node_name name value ∷ []))
  SetOutcome already name value s s' (err e) = Kept s s'

  and_then-SetOutcome :
      (already : Bool) (name : Text) (value : ParameterValue) (s : NodeState App)
      (m : NodeState App × SetResult) (k : NodeState App → NodeState App × SetResult)
      → Kept s m.0
      → ((s1 : NodeState App) → Kept s s1 → SetOutcome already name value s (k s1).0 (k s1).1)
      → SetOutcome already name value s (and_then m k).0 (and_then m k).1
  and_then-SetOutcome already name value s (s1, ok) k h next = next s1 h
  and_then-SetOutcome already name value s (s1, err e) k h next = h

  set_declared-SetOutcome :
      (already : Bool) (stamp : NodeState App → ℤ) (name : Text) (value : ParameterValue)
      (s : NodeState App)
      → SetOutcome already name value s
          (set_declared o already stamp name value s).0
          (set_declared o already stamp name value s).1
  unfolding set_declared store_and_notify
  set_declared-SetOutcome already stamp name value s =
      let finish : NodeState App → NodeState App × SetResult =
        λ s2. (store_and_notify o already stamp name value s2, ok) in
      and_then-SetOutcome already name value s (validate_parameter_on_set o name value s)
        (λ s1. and_then (execute_parameter_set_actions o name value s1) finish)
        (validate-Kept name value s)
        λ s1 (p1, e1).
          let (p2, e2) = execute-Kept name value s1 in
          and_then-SetOutcome already name value s (execute_parameter_set_actions o name value s1)
            finish (p2 ∙ p1, e2 ∙ e1) λ s2 (p, e). (rw p refl, (stamp s2, rw e refl))

  -- A set either succeeds, and then the value is in the store and one event is published, which tells
  -- the value as changed if the name was in the store and as new if not; or it fails, and then store
  -- and events are as before, whatever the validator and the set action of the application did.
  pub set_parameter-SetOutcome :
      (stamp : NodeState App → ℤ) (name : Text) (value : ParameterValue) (s : NodeState App)
      → SetOutcome
          (contains_key name s.parameters)
          name
          value
          s
          (set_parameter o stamp name value s).0
          (set_parameter o stamp name value s).1
  unfolding set_parameter
  set_parameter-SetOutcome stamp name value s =
      let already = contains_key name s.parameters in
      elim (Bool-cases (o.allow_undeclared_parameters || already)) [
        | inl h ↦ rw h (set_declared-SetOutcome already stamp name value s)
        | inr h ↦ rw h (refl, refl)
      ]
