-- ===== src/Param/Node/Threads.antt =====
-- `set_parameter` and `undeclare_parameter` of src/node.rs as threads run them at once: each access to a
-- shared lock or flag, each call of a function of the application and each publication is a step of its
-- own, and the steps of all calls in progress interleave.
pub mod Laws
pub mod Flag
use ros2_client.Base.{
  ℕ, zero, suc, Bool, true, false, ◌||◌, List, [], ◌∷◌, ◌++◌, none, some, if◌then◌else◌,
}
use ros2_client.Base.Int.{ℤ}
use ros2_client.Base.Text.{Text}
use ros2_client.Base.Ordered.{get, insert, remove, contains_key}
use ros2_client.Param.Value.{ParameterValue, to_raw, SetResult, ok, err}
use ros2_client.Param.Store.{text_order, ParameterEvent, set_event}
use ros2_client.Param.Node.{
  Options, NodeState, validate_parameter_on_set, execute_parameter_set_actions, handle_clock,
}

-- How far a call is: `contains_key` has answered, the value is valid, the set action has run, the value
-- is stored; or a parameter is removed. The Boolean is `already_set`.
pub data Phase : Type 0 where
  judged validated acted stored : Bool → Text → ParameterValue → Phase
  removed : Text → ParameterValue → Phase

-- The event of an undeclaration.
abbrev pub removed_event : ℤ → Text → Text → ParameterValue → ParameterEvent
removed_event stamp node_name name value = record {
  stamp = stamp;
  node = node_name;
  new_parameters = [];
  changed_parameters = [];
  deleted_parameters = record { name = name; value = to_raw value } ∷ [];
}

-- The `?` after a step: on an error the call is over.
abbrev pub go_on : {S : Type 0} → Phase → S × SetResult → S × List Phase
go_on next (s, ok) = (s, next ∷ [])
go_on next (s, err e) = (s, [])

-- Publishing an event, which the writer takes or not: a failure is only logged.
abbrev pub publish_event : {App : Type 0} → Bool → ParameterEvent → NodeState App → NodeState App
publish_event taken event s = record s {
  events = if taken then s.events ++ event ∷ [] else s.events;
}

-- What happens next: a call begins, the n-th call in progress makes a step, or the clock topic has a time.
pub data Move : Type 0 where
  begins_set : Text → ParameterValue → Move
  begins_undeclare : Text → Move
  advances : ℕ → Bool → ℤ → Move
  ticks : ℤ → Move

-- A node and the calls in progress on it.
pub record Threads (App : Type 0) : Type 0 where
  pub shared : NodeState App
  pub calls : List Phase

module _ {App : Type 0} (o : Options App) where
  -- The first step of `set_parameter`.
  unfoldable pub begin_set : Text → ParameterValue → NodeState App → List Phase
  begin_set name value s =
      let already = contains_key name s.parameters in
      if o.allow_undeclared_parameters || already then judged already name value ∷ [] else []

  -- The first step of `undeclare_parameter`.
  unfoldable pub begin_undeclare : Text → NodeState App → NodeState App × List Phase
  begin_undeclare name s = elim (get name s.parameters) [
    | none ↦ (s, [])
    | some v ↦ (record s { parameters = remove name s.parameters }, removed name v ∷ [])
  ]

  -- The next step of a call: whether the writer takes an event, and the stamp of the event.
  unfoldable pub advance : Bool → ℤ → Phase → NodeState App → NodeState App × List Phase
  advance taken stamp (judged already name value) s =
      go_on (validated already name value) (validate_parameter_on_set o name value s)
  advance taken stamp (validated already name value) s =
      go_on (acted already name value) (execute_parameter_set_actions o name value s)
  advance taken stamp (acted already name value) s =
      (record s { parameters = insert name value s.parameters }, stored already name value ∷ [])
  advance taken stamp (stored already name value) s =
      (publish_event taken (set_event already stamp o.node_name name value) s, [])
  advance taken stamp (removed name value) s =
      (publish_event taken (removed_event stamp o.node_name name value) s, [])

  -- The step of the n-th call in progress.
  unfoldable pub advance_nth :
      ℕ → Bool → ℤ → NodeState App → List Phase → NodeState App × List Phase
  advance_nth n taken stamp s [] = (s, [])
  advance_nth zero taken stamp s (p ∷ ps) =
      let (s', next) = advance taken stamp p s in (s', next ++ ps)
  advance_nth (suc n) taken stamp s (p ∷ ps) =
      let (s', rest) = advance_nth n taken stamp s ps in (s', p ∷ rest)

  unfoldable pub move : Threads App → Move → Threads App
  move t (begins_set name value) = record t { calls = begin_set name value t.shared ++ t.calls }
  move t (begins_undeclare name) =
      let (s, begun) = begin_undeclare name t.shared in
      record { shared = s; calls = begun ++ t.calls }
  move t (advances n taken stamp) =
      let (s, calls) = advance_nth n taken stamp t.shared t.calls in
      record { shared = s; calls = calls }
  move t (ticks time) = record t { shared = handle_clock time t.shared }

  unfoldable pub moves : Threads App → List Move → Threads App
  moves t [] = t
  moves t (m ∷ ms) = moves (move t m) ms
