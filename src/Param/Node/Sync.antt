-- ===== src/Param/Node/Sync.antt =====
-- The parameter `use_sim_time` and the flag of that name (src/node.rs).
use ros2_client.Base.{
  Bool, true, false, ◌||◌, List, [], ◌∷◌, ◌++◌, Option, none, some, ◌≡◌, refl, arith, sym, ◌∙◌, inl,
  inr, ◌⊎◌, Bool-cases, Option-cases,
}
use ros2_client.Base.Int.{ℤ, pos}
use ros2_client.Base.Text.{Text, codes, text_eq, text_eq_sound}
use ros2_client.Base.Ordered.{get, insert, contains_key, get-insert, get-remove}
use ros2_client.Param.Value.{
  ParameterValue, not_set, boolean, integer, double, string, byte_array, boolean_array,
  integer_array, double_array, string_array, Parameter, SetResult, ok, err,
}
use ros2_client.Param.Store.{Store, text_order, sim_time_name}
use ros2_client.Param.Store.Order.{IsAscending, insert-IsAscending, get_below}
use ros2_client.Param.Node.{
  Options, ParameterFunc, NodeState, ask, and_then, must_be_boolean, validate_parameter_on_set,
  execute_parameter_set_actions, store_and_notify, set_declared, set_parameter, undeclare_parameter,
  collect, initial_parameters, check_all, new_node, Event, run,
}
use ros2_client.Param.Node.History.{run_keeps, undeclare_absent, undeclare_present}

-- If the parameter is there, it is Boolean and the flag is its value.
abbrev pub IsSynced : {App : Type 0} → NodeState App → Type 0
IsSynced s =
    (get sim_time_name s.parameters ≡ none)
    ⊎ (get sim_time_name s.parameters ≡ some (boolean s.use_sim_time))

pub boolean-cases :
    (v : ParameterValue)
    → ((b : Bool) × (v ≡ boolean b)) ⊎ ((message : Text) → must_be_boolean message v ≡ err message)
boolean-cases (boolean b) = inl (b, refl)
boolean-cases not_set = inr λ m. refl
boolean-cases (integer i) = inr λ m. refl
boolean-cases (double d) = inr λ m. refl
boolean-cases (string s) = inr λ m. refl
boolean-cases (byte_array a) = inr λ m. refl
boolean-cases (boolean_array a) = inr λ m. refl
boolean-cases (integer_array a) = inr λ m. refl
boolean-cases (double_array a) = inr λ m. refl
boolean-cases (string_array a) = inr λ m. refl

-- What a check of another name leaves alone.
abbrev pub IsAlike : {App : Type 0} → NodeState App → NodeState App → Type 0
IsAlike s s' = (s'.parameters ≡ s.parameters) × (s'.use_sim_time ≡ s.use_sim_time)

ask-IsAlike :
    {App : Type 0} (f : Option (ParameterFunc App)) (name : Text) (value : ParameterValue)
    (s : NodeState App)
    → IsAlike s (ask f name value s).0
ask-IsAlike none name value s = (refl, refl)
ask-IsAlike (some f) name value s = (refl, refl)

and_then_keeps :
    {App : Type 0} (P : NodeState App → Type 0) (m : NodeState App × SetResult)
    (k : NodeState App → NodeState App × SetResult)
    → P m.0
    → ((s1 : NodeState App) → P s1 → P (k s1).0)
    → P (and_then m k).0
and_then_keeps P (s1, ok) k h next = next s1 h
and_then_keeps P (s1, err e) k h next = h

-- Each entry of that name has the value `false`.
abbrev IsOff : Store → Type 0
IsOff [] = Unit
IsOff ((k, v) ∷ m) = (text_eq k sim_time_name ≡ true → v ≡ boolean false) × IsOff m

-- The flag of `Node::new`.
abbrev IsUnset : {App : Type 0} → Store → NodeState App → Type 0
IsUnset m s = (s.parameters ≡ m) × (s.use_sim_time ≡ false)

module _ {App : Type 0} (o : Options App) where
  pub validate-IsAlike :
      (name : Text) (value : ParameterValue) (s : NodeState App)
      → IsAlike s (validate_parameter_on_set o name value s).0
  unfolding validate_parameter_on_set
  validate-IsAlike name value s = elim (Bool-cases (text_eq name sim_time_name)) [
    | inl h ↦ rw h (refl, refl)
    | inr h ↦ rw h (ask-IsAlike o.parameter_validator name value s)
  ]

  pub execute-IsAlike :
      (name : Text) (value : ParameterValue) (s : NodeState App)
      → text_eq name sim_time_name ≡ false
      → IsAlike s (execute_parameter_set_actions o name value s).0
  unfolding execute_parameter_set_actions
  execute-IsAlike name value s h = rw h (ask-IsAlike o.parameter_set_action name value s)

  -- A set action leaves the store alone.
  pub execute-parameters :
      (name : Text) (value : ParameterValue) (s : NodeState App)
      → (execute_parameter_set_actions o name value s).0.parameters ≡ s.parameters
  unfolding execute_parameter_set_actions
  execute-parameters name value s = elim (Bool-cases (text_eq name sim_time_name)) [
    | inl h ↦ rw h refl
    | inr h ↦ rw h (ask-IsAlike o.parameter_set_action name value s).0
  ]

  -- The judgement of the parameter itself.
  checks_flag :
      (b : Bool) (s : NodeState App) (k : NodeState App → NodeState App × SetResult)
      → and_then
          (validate_parameter_on_set o sim_time_name (boolean b) s)
          (λ s1. and_then (execute_parameter_set_actions o sim_time_name (boolean b) s1) k)
        ≡ k (record s { use_sim_time = b })
  unfolding validate_parameter_on_set execute_parameter_set_actions
  checks_flag b s k = refl

  rejects_other :
      (value : ParameterValue) (s : NodeState App) (k : NodeState App → NodeState App × SetResult)
      → ((message : Text) → must_be_boolean message value ≡ err message)
      → (and_then (validate_parameter_on_set o sim_time_name value s) k).0 ≡ s
  unfolding validate_parameter_on_set
  rejects_other value s k h = rw (h (codes "Parameter'use_sim_time' must be Boolean.")) refl

  set_declared-IsSynced :
      (already : Bool) (stamp : NodeState App → ℤ) (name : Text) (value : ParameterValue)
      (s : NodeState App)
      → IsSynced s
      → IsSynced (set_declared o already stamp name value s).0
  unfolding set_declared store_and_notify
  set_declared-IsSynced already stamp name value s h =
      let finish : NodeState App → NodeState App × SetResult =
        λ s2. (store_and_notify o already stamp name value s2, ok) in
      elim (Bool-cases (text_eq name sim_time_name)) [
        | inl same ↦ elim (boolean-cases value) [
          | inl (b, e) ↦
              rw
                (
                  e,
                  text_eq_sound name sim_time_name same,
                  checks_flag b s
                      (λ s2. (store_and_notify o already stamp sim_time_name (boolean b) s2, ok)),
                )
                (inr (get-insert sim_time_name sim_time_name (boolean b) s.parameters))
          | inr refuses ↦
              rw (text_eq_sound name sim_time_name same, rejects_other value s _ refuses) h
        ]
        | inr other ↦
            let P : NodeState App → Type 0 = λ s'.
              (get sim_time_name s'.parameters ≡ get sim_time_name s.parameters)
              × (s'.use_sim_time ≡ s.use_sim_time) in
            let kept : P (set_declared o already stamp name value s).0 =
              and_then_keeps P (validate_parameter_on_set o name value s)
                (λ s1. and_then (execute_parameter_set_actions o name value s1) finish)
                (let (p, f) = validate-IsAlike name value s in (rw p refl, f))
                λ s1 (p1, f1).
                  and_then_keeps P (execute_parameter_set_actions o name value s1) finish
                    (let (p, f) = execute-IsAlike name value s1 other in (rw p p1, f ∙ f1))
                    λ s2 (p2, f2). (
                      get-insert name sim_time_name value s2.parameters ∙ ground (arith, other, p2),
                      f2,
                    ) in
            rw (kept.0, kept.1) h
      ]

  set_parameter-IsSynced :
      (stamp : NodeState App → ℤ) (name : Text) (value : ParameterValue) (s : NodeState App)
      → IsSynced s
      → IsSynced (set_parameter o stamp name value s).0
  unfolding set_parameter
  set_parameter-IsSynced stamp name value s h =
      let already = contains_key name s.parameters in
      elim (Bool-cases (o.allow_undeclared_parameters || already)) [
        | inl e ↦ rw e (set_declared-IsSynced already stamp name value s h)
        | inr e ↦ rw e h
      ]

  undeclare-IsSynced :
      (now : ℤ) (name : Text) (s : NodeState App)
      → IsSynced s
      → IsSynced (undeclare_parameter o now name s)
  undeclare-IsSynced now name s h = elim (Option-cases (get name s.parameters)) [
    | inl e ↦ rw (undeclare_absent o now name s e) h
    | inr (v, e) ↦
        rw (undeclare_present o now name v s e, get-remove name sim_time_name s.parameters)
          (elim (Bool-cases (text_eq name sim_time_name)) [
            | inl same ↦ rw same (inl refl)
            | inr other ↦ rw other h
          ])
  ]

  pub run-IsSynced : (s : NodeState App) (es : List Event) → IsSynced s → IsSynced (run o s es)
  run-IsSynced s es h =
      run_keeps o IsSynced set_parameter-IsSynced undeclare-IsSynced (λ time s h. h) s es h

  check_all-IsUnset :
      (m start : Store) (s : NodeState App)
      → IsOff m
      → IsUnset start s
      → IsUnset start (check_all o m s).0
  unfolding check_all
  check_all-IsUnset [] start s off h = h
  check_all-IsUnset ((k, v) ∷ m) start s (off, rest) h =
      elim (Bool-cases (text_eq k sim_time_name)) [
        | inl same ↦
            rw (text_eq_sound k sim_time_name same, off same, checks_flag false s (check_all o m))
              (check_all-IsUnset m start (record s { use_sim_time = false }) rest (h.0, refl))
        | inr other ↦
            and_then_keeps (IsUnset start) (validate_parameter_on_set o k v s)
              (λ s1. and_then (execute_parameter_set_actions o k v s1) (check_all o m))
              (let (p, f) = validate-IsAlike k v s in (p ∙ h.0, f ∙ h.1))
              λ s1 h1.
                and_then_keeps (IsUnset start) (execute_parameter_set_actions o k v s1)
                  (check_all o m)
                  (let (p, f) = execute-IsAlike k v s1 other in (p ∙ h1.0, f ∙ h1.1))
                  λ s2 h2. check_all-IsUnset m start s2 rest h2
      ]

collect-append :
    (ps : List Parameter) (p : Parameter) (m : Store)
    → collect (ps ++ p ∷ []) m ≡ insert p.name p.value (collect ps m)
collect-append [] p m = refl
collect-append (q ∷ ps) p m = collect-append ps p (insert q.name q.value m)

collect-IsAscending : (ps : List Parameter) (m : Store) → IsAscending m → IsAscending (collect ps m)
collect-IsAscending [] m h = h
collect-IsAscending (p ∷ ps) m h =
    collect-IsAscending ps (insert p.name p.value m) (insert-IsAscending p.name p.value m h)

-- In a store whose names ascend there is one entry of a name.
IsOff-get :
    (m : Store)
    → IsAscending m
    → (get sim_time_name m ≡ none) ⊎ (get sim_time_name m ≡ some (boolean false))
    → IsOff m
unfolding get
IsOff-get [] a h = tt
IsOff-get ((k, v) ∷ m) (b, a) h = elim (Bool-cases (text_eq k sim_time_name)) [
  | inl same ↦ (
    λ _. ground (arith, same, h),
    IsOff-get m a
        (inl (get_below sim_time_name m (rw (sym (text_eq_sound k sim_time_name same)) b))),
  )
  | inr other ↦ (λ e. cc other, IsOff-get m a (ground (arith, other, h)))
]

-- A node starts with the flag and the parameter `use_sim_time` off, whatever was declared, also where
-- `use_sim_time` itself was declared: the built-in declaration comes last and replaces it.
pub new_node_flag :
    {App : Type 0} (o : Options App) (declared : List Parameter) (app : App)
    → let s = (new_node o declared app).0 in
      (get sim_time_name s.parameters ≡ some (boolean false)) × (s.use_sim_time ≡ false)
unfolding new_node
new_node_flag o declared app =
    let m = initial_parameters declared in
    let last : m ≡ insert sim_time_name (boolean false) (collect declared []) =
      collect-append declared _ [] in
    let found : get sim_time_name m ≡ some (boolean false) =
      rw (last, get-insert sim_time_name sim_time_name (boolean false) (collect declared []))
        refl in
    let unset =
      check_all-IsUnset o m m
        (record { parameters = m; use_sim_time = false; sim_time = pos 0; events = []; app = app })
        (IsOff-get m (collect-IsAscending (declared ++ _ ∷ []) [] tt) (inr found)) (refl, refl) in
    (rw unset.0 found, unset.1)

-- From the creation of a node on, over every history of calls that come one after the other, the
-- parameter `use_sim_time` is Boolean where it is there, and the flag that decides about simulated time
-- is its value.
pub use_sim_time-IsSynced :
    {App : Type 0} (o : Options App) (declared : List Parameter) (app : App) (es : List Event)
    → IsSynced (run o (new_node o declared app).0 es)
use_sim_time-IsSynced o declared app es =
    let (found, off) = new_node_flag o declared app in
    run-IsSynced o (new_node o declared app).0 es (inr (rw off found))

-- Two threads, the application and the spinner, that set `use_sim_time` at once: the set actions run
-- in one order and the insertions in the other. Then the parameter and the flag part.
abbrev pub race : {App : Type 0} → Options App → Bool → Bool → ℤ → NodeState App → NodeState App
race o a b now s =
    let s1 = (execute_parameter_set_actions o sim_time_name (boolean a) s).0 in
    let s2 = (execute_parameter_set_actions o sim_time_name (boolean b) s1).0 in
    let s3 = store_and_notify o true (λ s'. now) sim_time_name (boolean b) s2 in
    store_and_notify o true (λ s'. now) sim_time_name (boolean a) s3

-- The steps of `set_parameter` are not one locked section: if a second set of `use_sim_time` runs its
-- action after that of the first and stores before it, the parameter ends with the first value and
-- the flag with the second.
pub use_sim_time_race :
    {App : Type 0} (o : Options App) (a b : Bool) (now : ℤ) (s : NodeState App)
    → (get sim_time_name (race o a b now s).parameters ≡ some (boolean a))
      × ((race o a b now s).use_sim_time ≡ b)
unfolding execute_parameter_set_actions store_and_notify
use_sim_time_race o a b now s = (
  get-insert sim_time_name sim_time_name (boolean a)
      (insert sim_time_name (boolean b) s.parameters),
  refl,
)
