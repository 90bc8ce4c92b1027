-- ===== src/Param/Node/Threads/Flag.antt =====
-- The parameter `use_sim_time` and its flag, however the steps of a node's threads interleave as long as
-- no two sets of that parameter overlap (src/node.rs).
use ros2_client.Base.{
  ℕ, zero, suc, Bool, true, ◌||◌, List, [], ◌∷◌, ◌++◌, All, All-append, none, some, ◌≡◌, ◌⊎◌, refl,
  inl, inr, Bool-cases, Option-cases, ◌∙◌, sym, ap,
}
use ros2_client.Base.Int.{ℤ}
use ros2_client.Base.Text.{Text, codes, text_eq}
use ros2_client.Base.Ordered.{get, contains_key, get-insert, get-remove}
use ros2_client.Param.Value.{ParameterValue, boolean, Parameter}
use ros2_client.Param.Store.{text_order, sim_time_name}
use ros2_client.Param.Node.{
  Options, NodeState, validate_parameter_on_set, execute_parameter_set_actions, new_node,
}
use ros2_client.Param.Node.Sync.{
  IsSynced, IsAlike, boolean-cases, validate-IsAlike, execute-IsAlike, new_node_flag,
}
use ros2_client.Param.Node.Threads.{
  Phase, judged, validated, acted, stored, removed, begin_set, begin_undeclare, advance,
  advance_nth, Move, begins_set, begins_undeclare, advances, ticks, Threads, move, moves,
}
use ros2_client.Param.Node.Threads.Laws.{IsOther, go_on_keeps, advance_nth_keeps}

-- The flag is as before, and the parameter is as before or gone.
abbrev Kept : {App : Type 0} → NodeState App → NodeState App → Type 0
Kept s s' =
    (s'.use_sim_time ≡ s.use_sim_time)
    × ((get sim_time_name s'.parameters ≡ get sim_time_name s.parameters)
        ⊎ (get sim_time_name s'.parameters ≡ none))

IsAlike-Kept : {App : Type 0} (s s' : NodeState App) → IsAlike s s' → Kept s s'
IsAlike-Kept s s' (p, f) = (f, inl (ap (get sim_time_name) p))

Kept-trans : {App : Type 0} (r s t : NodeState App) → Kept r s → Kept s t → Kept r t
Kept-trans r s t (f, p) (g, inr q) = (g ∙ f, inr q)
Kept-trans r s t (f, inl p) (g, inl q) = (g ∙ f, inl (q ∙ p))
Kept-trans r s t (f, inr p) (g, inl q) = (g ∙ f, inr (q ∙ p))

IsSynced-Kept : {App : Type 0} (s s' : NodeState App) → Kept s s' → IsSynced s → IsSynced s'
IsSynced-Kept s s' (f, inr q) h = inl q
IsSynced-Kept s s' (f, inl q) (inl h) = inl (q ∙ h)
IsSynced-Kept s s' (f, inl q) (inr h) = inr (q ∙ h ∙ ap (λ b. some (boolean b)) (sym f))

-- A set of `use_sim_time` in progress: until its action the flag is in step, and from then on the flag is
-- the value that is to be stored.
abbrev IsHolding : {App : Type 0} → NodeState App → Phase → Type 0
IsHolding s (judged a name value) = (text_eq name sim_time_name ≡ true) × IsSynced s
IsHolding s (validated a name value) =
    (text_eq name sim_time_name ≡ true) × IsSynced s × ((b : Bool) × (value ≡ boolean b))
IsHolding s (acted a name value) =
    (text_eq name sim_time_name ≡ true) × (value ≡ boolean s.use_sim_time)
IsHolding s (stored a name value) = ⊥
IsHolding s (removed name value) = ⊥

IsHolding-Kept :
    {App : Type 0} (s s' : NodeState App) (p : Phase) → Kept s s' → IsHolding s p → IsHolding s' p
IsHolding-Kept s s' (judged a name value) k (n, h) = (n, IsSynced-Kept s s' k h)
IsHolding-Kept s s' (validated a name value) k (n, h, b) = (n, IsSynced-Kept s s' k h, b)
IsHolding-Kept s s' (acted a name value) (f, k) (n, h) = (n, h ∙ ap boolean (sym f))
IsHolding-Kept s s' (stored a name value) k h = h
IsHolding-Kept s s' (removed name value) k h = h

-- No set of `use_sim_time` is in progress, or exactly one is.
abbrev pub IsFree : List Phase → Type 0
IsFree = All (IsOther sim_time_name)

abbrev IsHeld : {App : Type 0} → NodeState App → List Phase → Type 0
IsHeld s [] = ⊥
IsHeld s (p ∷ ps) = (IsHolding s p × IsFree ps) ⊎ (IsOther sim_time_name p × IsHeld s ps)

abbrev IsOrderly : {App : Type 0} → NodeState App → List Phase → Type 0
IsOrderly s ps = (IsFree ps × IsSynced s) ⊎ IsHeld s ps

module _ {App : Type 0} where
  IsHeld-Kept : (s s' : NodeState App) (ps : List Phase) → Kept s s' → IsHeld s ps → IsHeld s' ps
  IsHeld-Kept s s' [] k h = h
  IsHeld-Kept s s' (p ∷ ps) k (inl (h, free)) = inl (IsHolding-Kept s s' p k h, free)
  IsHeld-Kept s s' (p ∷ ps) k (inr (q, h)) = inr (q, IsHeld-Kept s s' ps k h)

  append-IsHeld :
      (s : NodeState App) (qs ps : List Phase) → IsFree qs → IsHeld s ps → IsHeld s (qs ++ ps)
  append-IsHeld s [] ps free h = h
  append-IsHeld s (q ∷ qs) ps (o, free) h = inr (o, append-IsHeld s qs ps free h)

  IsHeld-append :
      (s : NodeState App) (qs ps : List Phase) → IsHeld s qs → IsFree ps → IsHeld s (qs ++ ps)
  IsHeld-append s [] ps h free = absurd h
  IsHeld-append s (q ∷ qs) ps (inl (h, rest)) free =
      inl (h, All-append (IsOther sim_time_name) qs ps rest free)
  IsHeld-append s (q ∷ qs) ps (inr (o, h)) free = inr (o, IsHeld-append s qs ps h free)

  IsOrderly-append :
      (s : NodeState App) (qs ps : List Phase) → IsOrderly s qs → IsFree ps → IsOrderly s (qs ++ ps)
  IsOrderly-append s qs ps (inl (q, h)) free =
      inl (All-append (IsOther sim_time_name) qs ps q free, h)
  IsOrderly-append s qs ps (inr h) free = inr (IsHeld-append s qs ps h free)

  append-IsOrderly :
      (s s' : NodeState App) (qs ps : List Phase)
      → Kept s s'
      → IsFree qs
      → IsOrderly s ps
      → IsOrderly s' (qs ++ ps)
  append-IsOrderly s s' qs ps k q (inl (free, h)) =
      inl (All-append (IsOther sim_time_name) qs ps q free, IsSynced-Kept s s' k h)
  append-IsOrderly s s' qs ps k q (inr h) = inr (append-IsHeld s' qs ps q (IsHeld-Kept s s' ps k h))

  IsHolding-IsOther : (s : NodeState App) (p : Phase) → IsHolding s p → IsOther sim_time_name p → ⊥
  IsHolding-IsOther s (judged a name value) (n, h) q = cc
  IsHolding-IsOther s (validated a name value) (n, h, b) q = cc
  IsHolding-IsOther s (acted a name value) (n, h) q = cc
  IsHolding-IsOther s (stored a name value) h q = h
  IsHolding-IsOther s (removed name value) h q = h

  IsOrderly-IsSynced :
      (s : NodeState App) (ps : List Phase) → IsOrderly s ps → IsFree ps → IsSynced s
  IsOrderly-IsSynced s ps (inl (free, h)) q = h
  IsOrderly-IsSynced s [] (inr h) q = absurd h
  IsOrderly-IsSynced s (p ∷ ps) (inr (inl (h, free))) (q, qs) = absurd (IsHolding-IsOther s p h q)
  IsOrderly-IsSynced s (p ∷ ps) (inr (inr (o, h))) (q, qs) = IsOrderly-IsSynced s ps (inr h) qs

-- A set of `use_sim_time` begins only if no other is between its first step and its insertion.
abbrev pub IsApart : {App : Type 0} → Threads App → Move → Type 0
IsApart t (begins_set name value) = text_eq name sim_time_name ≡ true → IsFree t.calls
IsApart t (begins_undeclare name) = Unit
IsApart t (advances n taken stamp) = Unit
IsApart t (ticks time) = Unit

module _ {App : Type 0} (o : Options App) where
  -- A step of another call.
  advance-Kept :
      (taken : Bool) (stamp : ℤ) (p : Phase) (s : NodeState App)
      → IsOther sim_time_name p
      → Kept s (advance o taken stamp p s).0 × IsFree (advance o taken stamp p s).1
  unfolding advance
  advance-Kept taken stamp (judged a name value) s q =
      go_on_keeps (Kept s) (IsOther sim_time_name) (validated a name value)
        (validate_parameter_on_set o name value s)
        (IsAlike-Kept s (validate_parameter_on_set o name value s).0
          (validate-IsAlike o name value s))
        q
  advance-Kept taken stamp (validated a name value) s q =
      go_on_keeps (Kept s) (IsOther sim_time_name) (acted a name value)
        (execute_parameter_set_actions o name value s)
        (IsAlike-Kept s (execute_parameter_set_actions o name value s).0
          (execute-IsAlike o name value s q))
        q
  advance-Kept taken stamp (acted a name value) s q =
      ((refl, inl (get-insert name sim_time_name value s.parameters ∙ rw q refl)), (tt, tt))
  advance-Kept taken stamp (stored a name value) s q = ((refl, inl refl), tt)
  advance-Kept taken stamp (removed name value) s q = ((refl, inl refl), tt)

  -- A step of a set of `use_sim_time`.
  advance-IsOrderly :
      (taken : Bool) (stamp : ℤ) (p : Phase) (s : NodeState App)
      → IsHolding s p
      → IsOrderly (advance o taken stamp p s).0 (advance o taken stamp p s).1
  unfolding advance validate_parameter_on_set execute_parameter_set_actions
  advance-IsOrderly taken stamp (judged a name value) s (n, h) = elim (boolean-cases value) [
    | inl (b, e) ↦ rw (n, e) (inr (inl ((n, h, (b, refl)), tt)))
    | inr refuses ↦ rw (n, refuses (codes "Parameter'use_sim_time' must be Boolean.")) (inl (tt, h))
  ]
  advance-IsOrderly taken stamp (validated a name value) s (n, h, (b, e)) =
      rw (n, e) (inr (inl ((n, refl), tt)))
  advance-IsOrderly taken stamp (acted a name value) s (n, e) =
      inl ((tt, tt), inr (get-insert name sim_time_name value s.parameters ∙ rw (n, e) refl))
  advance-IsOrderly taken stamp (stored a name value) s h = absurd h
  advance-IsOrderly taken stamp (removed name value) s h = absurd h

  others_keep :
      (n : ℕ) (taken : Bool) (stamp : ℤ) (s : NodeState App) (ps : List Phase)
      → IsFree ps
      → Kept s (advance_nth o n taken stamp s ps).0 × IsFree (advance_nth o n taken stamp s ps).1
  others_keep n taken stamp s ps free =
      advance_nth_keeps o (Kept s) (IsOther sim_time_name)
        (λ taken stamp p r k q.
          let (kept, next) = advance-Kept taken stamp p r q in
          (Kept-trans s r (advance o taken stamp p r).0 k kept, next))
        n taken stamp s ps (refl, inl refl) free

  begin_undeclare-Kept :
      (name : Text) (s : NodeState App)
      → Kept s (begin_undeclare o name s).0 × IsFree (begin_undeclare o name s).1
  unfolding begin_undeclare
  begin_undeclare-Kept name s = elim (Option-cases (get name s.parameters)) [
    | inl e ↦ rw (e, begin_undeclare) ((refl, inl refl), tt)
    | inr (v, e) ↦
        rw (e, begin_undeclare)
          (
            (
              refl,
              elim (Bool-cases (text_eq name sim_time_name)) [
                | inl h ↦ inr (get-remove name sim_time_name s.parameters ∙ rw h refl)
                | inr h ↦ inl (get-remove name sim_time_name s.parameters ∙ rw h refl)
              ],
            ),
            (tt, tt),
          )
  ]

  begin_set-IsOrderly :
      (name : Text) (value : ParameterValue) (t : Threads App)
      → IsApart t (begins_set name value)
      → IsOrderly t.shared t.calls
      → IsOrderly t.shared (begin_set o name value t.shared ++ t.calls)
  unfolding begin_set
  begin_set-IsOrderly name value t apart h =
      let already = contains_key name t.shared.parameters in
      elim (Bool-cases (o.allow_undeclared_parameters || already)) [
        | inr refused ↦ rw refused h
        | inl allowed ↦ elim (Bool-cases (text_eq name sim_time_name)) [
          | inr other ↦ rw allowed (
              append-IsOrderly t.shared t.shared (judged already name value ∷ []) t.calls
                (refl, inl refl) (other, tt) h)
          | inl same ↦
              rw allowed
                (inr (inl ((same, IsOrderly-IsSynced t.shared t.calls h (apart same)), apart same)))
        ]
      ]

  -- A step of any call.
  advance_nth-IsOrderly :
      (n : ℕ) (taken : Bool) (stamp : ℤ) (s : NodeState App) (ps : List Phase)
      → IsHeld s ps
      → IsOrderly (advance_nth o n taken stamp s ps).0 (advance_nth o n taken stamp s ps).1
  unfolding advance_nth
  advance_nth-IsOrderly n taken stamp s [] h = absurd h
  advance_nth-IsOrderly zero taken stamp s (p ∷ ps) (inl (h, free)) =
      let (s', next) = advance o taken stamp p s in
      IsOrderly-append s' next ps (advance-IsOrderly taken stamp p s h) free
  advance_nth-IsOrderly zero taken stamp s (p ∷ ps) (inr (q, h)) =
      let (kept, free) = advance-Kept taken stamp p s q in
      append-IsOrderly s (advance o taken stamp p s).0 (advance o taken stamp p s).1 ps kept free
        (inr h)
  advance_nth-IsOrderly (suc n) taken stamp s (p ∷ ps) (inl (h, free)) =
      let (kept, free') = others_keep n taken stamp s ps free in
      inr (inl (IsHolding-Kept s (advance_nth o n taken stamp s ps).0 p kept h, free'))
  advance_nth-IsOrderly (suc n) taken stamp s (p ∷ ps) (inr (q, h)) =
      elim (advance_nth-IsOrderly n taken stamp s ps h) [
        | inl (free, synced) ↦ inl ((q, free), synced)
        | inr held ↦ inr (inr (q, held))
      ]

  move-IsOrderly :
      (t : Threads App) (m : Move)
      → IsApart t m
      → IsOrderly t.shared t.calls
      → IsOrderly (move o t m).shared (move o t m).calls
  unfolding move
  move-IsOrderly t (begins_set name value) apart h = begin_set-IsOrderly name value t apart h
  move-IsOrderly t (begins_undeclare name) apart h =
      let (kept, free) = begin_undeclare-Kept name t.shared in
      append-IsOrderly t.shared (begin_undeclare o name t.shared).0
        (begin_undeclare o name t.shared).1 t.calls kept free h
  move-IsOrderly t (advances n taken stamp) apart (inl (free, h)) =
      let (kept, free') = others_keep n taken stamp t.shared t.calls free in
      inl (free', IsSynced-Kept t.shared (advance_nth o n taken stamp t.shared t.calls).0 kept h)
  move-IsOrderly t (advances n taken stamp) apart (inr h) =
      advance_nth-IsOrderly n taken stamp t.shared t.calls h
  move-IsOrderly t (ticks time) apart h =
      append-IsOrderly t.shared (move o t (ticks time)).shared [] t.calls (refl, inl refl) tt h

  -- No set of `use_sim_time` begins while another is between its first step and its insertion.
  abbrev pub AreApart : Threads App → List Move → Type 0
  AreApart t [] = Unit
  AreApart t (m ∷ ms) = IsApart t m × AreApart (move o t m) ms

  moves-IsOrderly :
      (t : Threads App) (ms : List Move)
      → AreApart t ms
      → IsOrderly t.shared t.calls
      → IsOrderly (moves o t ms).shared (moves o t ms).calls
  unfolding moves
  moves-IsOrderly t [] apart h = h
  moves-IsOrderly t (m ∷ ms) (a, apart) h =
      moves-IsOrderly (move o t m) ms apart (move-IsOrderly t m a h)

  -- However the steps of a node's threads interleave and whether or not its events are published, as
  -- long as no two sets of `use_sim_time` overlap: if at first no call is in progress and the parameter
  -- is Boolean and equal to the flag, or not there, then it is so whenever no set of it is between its
  -- first step and its insertion.
  pub moves-IsSynced :
      (s : NodeState App) (ms : List Move)
      → IsSynced s
      → AreApart (record { shared = s; calls = [] }) ms
      → IsFree (moves o (record { shared = s; calls = [] }) ms).calls
      → IsSynced (moves o (record { shared = s; calls = [] }) ms).shared
  moves-IsSynced s ms h apart free =
      let t : Threads App = record { shared = s; calls = [] } in
      IsOrderly-IsSynced (moves o t ms).shared (moves o t ms).calls
        (moves-IsOrderly t ms apart (inl (tt, h))) free

  -- From the creation of a node on, however the steps of its threads interleave and whether or not its
  -- events are published, as long as no set of `use_sim_time` begins while another is between its first
  -- step and its insertion: whenever no such set is between them, the parameter `use_sim_time` is Boolean
  -- where it is there, and the flag that decides about simulated time is its value.
  pub moves-new_node-IsSynced :
      (declared : List Parameter) (app : App) (ms : List Move)
      → let t : Threads App = record { shared = (new_node o declared app).0; calls = [] } in
        AreApart t ms → IsFree (moves o t ms).calls → IsSynced (moves o t ms).shared
  moves-new_node-IsSynced declared app ms apart free =
      let (found, off) = new_node_flag o declared app in
      moves-IsSynced (new_node o declared app).0 ms (inr (rw off found)) apart free
