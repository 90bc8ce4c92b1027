-- ===== src/Param/Node/Threads/Laws.antt =====
-- What holds of the parameters of a node however the steps of its threads interleave (src/node.rs).
use ros2_client.Base.{
  ℕ, zero, suc, Bool, true, false, ◌||◌, List, [], ◌∷◌, ◌++◌, All, All-append, none, ◌≡◌, refl,
  arith, inl, inr, Bool-cases, Option-cases,
}
use ros2_client.Base.Int.{ℤ}
use ros2_client.Base.Text.{Text, text_eq, text_eq_iff}
use ros2_client.Base.Ordered.{get, contains_key, get-insert, get-remove}
use ros2_client.Param.Value.{ParameterValue, SetResult, ok, err}
use ros2_client.Param.Store.{text_order}
use ros2_client.Param.Node.{
  Options, NodeState, and_then, validate_parameter_on_set, execute_parameter_set_actions,
  store_and_notify, set_declared, set_parameter,
}
use ros2_client.Param.Node.Sync.{validate-IsAlike, execute-parameters}
use ros2_client.Param.Node.Threads.{
  Phase, judged, validated, acted, stored, removed, go_on, begin_set, begin_undeclare, advance,
  advance_nth, Move, begins_set, begins_undeclare, advances, ticks, Threads, move, moves,
}

-- The n-th call keeps what the steps of every call keep of the node and of the calls.
pub advance_nth_keeps :
    {App : Type 0} (o : Options App) (P : NodeState App → Type 0) (Q : Phase → Type 0)
    → ((taken : Bool) (stamp : ℤ) (p : Phase) (s : NodeState App)
        → P s
        → Q p
        → P (advance o taken stamp p s).0 × All Q (advance o taken stamp p s).1)
    → (n : ℕ) (taken : Bool) (stamp : ℤ) (s : NodeState App) (ps : List Phase) → P s
    → All Q ps
    → P (advance_nth o n taken stamp s ps).0 × All Q (advance_nth o n taken stamp s ps).1
unfolding advance_nth
advance_nth_keeps o P Q keeps n taken stamp s [] h q = (h, q)
advance_nth_keeps o P Q keeps zero taken stamp s (p ∷ ps) h (q, qs) =
    let (h', next) = keeps taken stamp p s h q in
    (h', All-append Q (advance o taken stamp p s).1 ps next qs)
advance_nth_keeps o P Q keeps (suc n) taken stamp s (p ∷ ps) h (q, qs) =
    let (h', rest) = advance_nth_keeps o P Q keeps n taken stamp s ps h qs in (h', (q, rest))

-- The call is not a set of the parameter.
abbrev pub IsOther : Text → Phase → Type 0
IsOther k (judged already name value) = text_eq name k ≡ false
IsOther k (validated already name value) = text_eq name k ≡ false
IsOther k (acted already name value) = text_eq name k ≡ false
IsOther k (stored already name value) = Unit
IsOther k (removed name value) = Unit

pub go_on_keeps :
    {App : Type 0} (P : NodeState App → Type 0) (Q : Phase → Type 0) (next : Phase)
    (m : NodeState App × SetResult)
    → P m.0
    → Q next
    → P (go_on next m).0 × All Q (go_on next m).1
go_on_keeps P Q next (s, ok) h q = (h, (q, tt))
go_on_keeps P Q next (s, err e) h q = (h, tt)

module _ {App : Type 0} (o : Options App) (k : Text) where
  abbrev IsAbsent : NodeState App → Type 0
  IsAbsent s = get k s.parameters ≡ none

  advance-IsAbsent :
      (taken : Bool) (stamp : ℤ) (p : Phase) (s : NodeState App)
      → IsAbsent s
      → IsOther k p
      → IsAbsent (advance o taken stamp p s).0 × All (IsOther k) (advance o taken stamp p s).1
  unfolding advance
  advance-IsAbsent taken stamp (judged a name value) s h q =
      go_on_keeps IsAbsent (IsOther k) (validated a name value)
        (validate_parameter_on_set o name value s) (rw (validate-IsAlike o name value s).0 h) q
  advance-IsAbsent taken stamp (validated a name value) s h q =
      go_on_keeps IsAbsent (IsOther k) (acted a name value)
        (execute_parameter_set_actions o name value s) (rw (execute-parameters o name value s) h) q
  advance-IsAbsent taken stamp (acted a name value) s h q =
      (rw (get-insert name k value s.parameters, q) h, (tt, tt))
  advance-IsAbsent taken stamp (stored a name value) s h q = (h, tt)
  advance-IsAbsent taken stamp (removed name value) s h q = (h, tt)

  begin_set-IsOther :
      (name : Text) (value : ParameterValue) (s : NodeState App)
      → o.allow_undeclared_parameters ≡ false
      → IsAbsent s
      → All (IsOther k) (begin_set o name value s)
  unfolding begin_set
  begin_set-IsOther name value s off h = elim (Option-cases (get name s.parameters)) [
    | inl e ↦
        let missing : contains_key name s.parameters ≡ false = ground (arith, e) in
        rw (off, missing) tt
    | inr (v, e) ↦
        let there : contains_key name s.parameters ≡ true = ground (arith, e) in
        let other : text_eq name k ≡ false = ground (arith, text_eq_iff name k, e, h) in
        rw (off, there) (other, tt)
  ]

  begin_undeclare-IsAbsent :
      (name : Text) (s : NodeState App)
      → IsAbsent s
      → IsAbsent (begin_undeclare o name s).0 × All (IsOther k) (begin_undeclare o name s).1
  unfolding begin_undeclare
  begin_undeclare-IsAbsent name s h = elim (Option-cases (get name s.parameters)) [
    | inl e ↦ rw (e, begin_undeclare) (h, tt)
    | inr (v, e) ↦
        rw (e, begin_undeclare) (rw (get-remove name k s.parameters) (ground (arith, h)), (tt, tt))
  ]

  move-IsAbsent :
      (t : Threads App) (m : Move)
      → o.allow_undeclared_parameters ≡ false
      → IsAbsent t.shared
      → All (IsOther k) t.calls
      → IsAbsent (move o t m).shared × All (IsOther k) (move o t m).calls
  unfolding move
  move-IsAbsent t (begins_set name value) off h q = (
    h,
    All-append (IsOther k) (begin_set o name value t.shared) t.calls
        (begin_set-IsOther name value t.shared off h) q,
  )
  move-IsAbsent t (begins_undeclare name) off h q =
      let (h', begun) = begin_undeclare-IsAbsent name t.shared h in
      (h', All-append (IsOther k) (begin_undeclare o name t.shared).1 t.calls begun q)
  move-IsAbsent t (advances n taken stamp) off h q =
      advance_nth_keeps o IsAbsent (IsOther k) advance-IsAbsent n taken stamp t.shared t.calls h q
  move-IsAbsent t (ticks time) off h q = (h, q)

  -- Where undeclared parameters are not allowed: however the steps of sets and undeclarations of any
  -- number of threads interleave, and whether or not the writer takes the events, a name that is not
  -- in the store, and of which no set is in progress that was judged before, stays out of the store.
  pub moves_undeclared :
      (t : Threads App) (ms : List Move)
      → o.allow_undeclared_parameters ≡ false
      → get k t.shared.parameters ≡ none
      → All (IsOther k) t.calls
      → get k (moves o t ms).shared.parameters ≡ none
  unfolding moves
  moves_undeclared t [] off h q = h
  moves_undeclared t (m ∷ ms) off h q =
      let (h', q') = move-IsAbsent t m off h q in moves_undeclared (move o t m) ms off h' q'

-- Alone, the steps of a set that the writer takes are `set_parameter`.
module _ {App : Type 0} (o : Options App) (stamp : ℤ) (already : Bool) (name : Text)
    (value : ParameterValue) where
  abbrev one : Move
  one = advances 0 true stamp

  abbrev quiet : NodeState App → Threads App
  quiet s = record { shared = s; calls = [] }

  after_action :
      (m : NodeState App × SetResult)
      → moves o
          (record {
            shared = (go_on (acted already name value) m).0;
            calls = (go_on (acted already name value) m).1 ++ [];
          })
          (one ∷ one ∷ [])
        ≡ quiet (and_then m λ s2. (store_and_notify o already (λ s'. stamp) name value s2, ok)).0
  unfolding moves move advance_nth advance store_and_notify
  after_action (s, ok) = refl
  after_action (s, err e) = refl

  after_validation :
      (m : NodeState App × SetResult)
      → moves o
          (record {
            shared = (go_on (validated already name value) m).0;
            calls = (go_on (validated already name value) m).1 ++ [];
          })
          (one ∷ one ∷ one ∷ [])
        ≡ quiet
            (and_then m λ s1.
              and_then
                (execute_parameter_set_actions o name value s1)
                λ s2. (store_and_notify o already (λ s'. stamp) name value s2, ok)).0
  unfolding moves move advance_nth advance
  after_validation (s, ok) = after_action (execute_parameter_set_actions o name value s)
  after_validation (s, err e) = refl

pub moves-set_parameter :
    {App : Type 0} (o : Options App) (stamp : ℤ) (name : Text) (value : ParameterValue)
    (s : NodeState App)
    → let next : Move = advances 0 true stamp in
      moves o
        (record { shared = s; calls = [] })
        (begins_set name value ∷ next ∷ next ∷ next ∷ next ∷ [])
      ≡ record { shared = (set_parameter o (λ s'. stamp) name value s).0; calls = [] }
unfolding moves move advance_nth advance begin_set set_parameter set_declared
moves-set_parameter o stamp name value s =
    let already = contains_key name s.parameters in
    elim (Bool-cases (o.allow_undeclared_parameters || already)) [
      | inl h ↦
          rw h
            (after_validation o stamp already name value (validate_parameter_on_set o name value s))
      | inr h ↦ rw h refl
    ]
