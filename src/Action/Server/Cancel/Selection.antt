-- ===== src/Action/Server/Cancel/Selection.antt =====
-- Which goals a cancel request selects (`receive_cancel_request` in src/action/server.rs).
use ros2_client.Base.{
  ℕ, suc, ◌≤◌, true, false, ◌&&◌, [], ◌∷◌, none, some, ◌≡◌, ◌≢◌, refl, Option, ◌⊎◌, inl, inr, arith,
  ◌∙◌, sym, contains, ◌↔◌,
}
use ros2_client.Base.Int.{pos, ltb_ℤ, ◌<ℤ◌}
use ros2_client.Time.Builtin.{Time}
use ros2_client.Base.Ordered.{Map, get, nat_key}
use ros2_client.Base.Ascending.{Ascending}
use ros2_client.Action.Msgs.{
  GoalId, zero_id, GoalInfo, GoalStatusEnum, unknown, accepted, executing, canceling, succeeded,
  canceled, aborted,
}
use ros2_client.Action.Server.State.{AsyncGoal}
use ros2_client.Action.Server.Cancel.{selected_goals, goal_filter, may_cancel, accepted_before}

module _ {G : Type 0} where
  contains_below :
      (info : GoalInfo) (n j : ℕ) (m : Map GoalId (AsyncGoal G))
      → Ascending n m
      → suc j ≤ n
      → contains j (selected_goals info m) ≡ false
  unfolding selected_goals
  contains_below info n j [] a h = refl
  contains_below info n j ((i, ag) ∷ m) (b, a) h = ground (arith, contains_below info (suc i) j m a)

  -- A request selects a goal if and only if the goal is there, is accepted or executing, and passes
  -- the request's filter.
  pub contains-selected_goals :
      (info : GoalInfo) (n j : ℕ) (m : Map GoalId (AsyncGoal G))
      → Ascending n m
      → contains j (selected_goals info m)
        ≡ elim (get j m) [ none ↦ false | some ag ↦ may_cancel ag.status && goal_filter info j ag ]
  unfolding selected_goals get
  contains-selected_goals info n j [] a = refl
  contains-selected_goals info n j ((i, ag) ∷ m) (b, a) =
      ground (arith, contains-selected_goals info (suc i) j m a, contains_below info (suc i) j m a)

-- The filter is the policy of the request: everything for a zero id and a zero stamp, the goal of a
-- non-zero id, and the goals accepted strictly before a non-zero stamp.
pub goal_filter_policy :
    {G : Type 0} (info : GoalInfo) (id : GoalId) (ag : AsyncGoal G)
    → (goal_filter info id ag ≡ true) ↔ (
        ((info.goal_id ≡ zero_id) × (info.stamp.nanos_since_epoch ≡ pos 0))
        ⊎ ((info.goal_id ≢ zero_id) × (info.goal_id ≡ id))
        ⊎ ((info.stamp.nanos_since_epoch ≢ pos 0)
            × (accepted_before ag.accepted_time info.stamp ≡ true)))
unfolding goal_filter
goal_filter_policy info id ag = ground arith

-- The goal was accepted strictly before the stamp.
abbrev pub IsEarlier : {G : Type 0} → AsyncGoal G → Time → Type 0
IsEarlier ag stamp =
    (t : Time) × (ag.accepted_time ≡ some t) × (t.nanos_since_epoch <ℤ stamp.nanos_since_epoch)

-- A goal that can be canceled.
abbrev pub IsCancelable : {G : Type 0} → AsyncGoal G → Type 0
IsCancelable ag = (ag.status ≡ accepted) ⊎ (ag.status ≡ executing)

-- Everything for a zero id and a zero stamp, the goal of a non-zero id, and what was accepted strictly
-- before a non-zero stamp.
abbrev pub IsMeant : {G : Type 0} → GoalInfo → GoalId → AsyncGoal G → Type 0
IsMeant info id ag =
    ((info.goal_id ≡ zero_id) × (info.stamp.nanos_since_epoch ≡ pos 0))
    ⊎ ((info.goal_id ≢ zero_id) × (info.goal_id ≡ id))
    ⊎ ((info.stamp.nanos_since_epoch ≢ pos 0) × IsEarlier ag info.stamp)

may_cancel_iff :
    (st : GoalStatusEnum) → (may_cancel st ≡ true) ↔ ((st ≡ accepted) ⊎ (st ≡ executing))
may_cancel_iff unknown = (λ e. cc, λ h. elim h [ inl e ↦ cc | inr e ↦ cc ])
may_cancel_iff accepted = (λ e. inl refl, λ h. refl)
may_cancel_iff executing = (λ e. inr refl, λ h. refl)
may_cancel_iff canceling = (λ e. cc, λ h. elim h [ inl e ↦ cc | inr e ↦ cc ])
may_cancel_iff succeeded = (λ e. cc, λ h. elim h [ inl e ↦ cc | inr e ↦ cc ])
may_cancel_iff canceled = (λ e. cc, λ h. elim h [ inl e ↦ cc | inr e ↦ cc ])
may_cancel_iff aborted = (λ e. cc, λ h. elim h [ inl e ↦ cc | inr e ↦ cc ])

some_injective : {t u : Time} → ◌≡◌ {A = Option Time} (some t) (some u) → t ≡ u
some_injective e = cc

ltb_of_less :
    (t u stamp : Time)
    → t ≡ u
    → u.nanos_since_epoch <ℤ stamp.nanos_since_epoch
    → ltb_ℤ t.nanos_since_epoch stamp.nanos_since_epoch ≡ true
ltb_of_less t u stamp e h = rw e (ground (arith, h))

accepted_before_iff :
    (o : Option Time) (stamp : Time)
    → (accepted_before o stamp ≡ true)
      ↔ ((t : Time) × (o ≡ some t) × (t.nanos_since_epoch <ℤ stamp.nanos_since_epoch))
accepted_before_iff none stamp = (λ e. cc, λ (t, e, h). cc)
accepted_before_iff (some t) stamp =
    (λ h. (t, refl, ground (arith, h)), λ (u, e, h). ltb_of_less t u stamp (some_injective e) h)

goal_filter_iff :
    {G : Type 0} (info : GoalInfo) (id : GoalId) (ag : AsyncGoal G)
    → (goal_filter info id ag ≡ true) ↔ IsMeant info id ag
goal_filter_iff info id ag =
    let (to, of) = goal_filter_policy info id ag in
    let (early, late) = accepted_before_iff ag.accepted_time info.stamp in
    (
      λ h. elim (to h) [
        | inl a ↦ inl a
        | inr (inl b) ↦ inr (inl b)
        | inr (inr (ne, c)) ↦ inr (inr (ne, early c))
      ],
      λ h. of (elim h [
        | inl a ↦ inl a
        | inr (inl b) ↦ inr (inl b)
        | inr (inr (ne, c)) ↦ inr (inr (ne, late c))
      ]),
    )

chosen_iff :
    {G : Type 0} (info : GoalInfo) (j : ℕ) (o : Option (AsyncGoal G))
    → (elim o [ none ↦ false | some ag ↦ may_cancel ag.status && goal_filter info j ag ] ≡ true)
      ↔ ((ag : AsyncGoal G) × (o ≡ some ag) × IsCancelable ag × IsMeant info j ag)
chosen_iff info j none = (λ e. cc, λ (ag, e, c, p). cc)
chosen_iff {G} info j (some ag) = (
  λ h. (
    ag,
    refl,
    (may_cancel_iff ag.status).0 (ground (arith, h)),
    (goal_filter_iff info j ag).0 (ground (arith, h)),
  ),
  λ (b, e, c, p).
      let same : ag ≡ b = goal_injective e in
      let may = (may_cancel_iff b.status).1 c in
      let meant = (goal_filter_iff info j b).1 p in rw same (ground (arith, may, meant)),
)
  where
    goal_injective : {a b : AsyncGoal G} → ◌≡◌ {A = Option (AsyncGoal G)} (some a) (some b) → a ≡ b
    goal_injective e = cc

-- On a map of goals with ascending ids, a cancel request selects an id if and only if the goal of the
-- id is there, its status is Accepted or Executing, and the request means it: every goal for a zero id
-- and a zero stamp, the goal of a non-zero id, and the goals accepted strictly before a non-zero stamp.
pub selected_goals_iff :
    {G : Type 0} (info : GoalInfo) (n j : ℕ) (m : Map GoalId (AsyncGoal G))
    → Ascending n m
    → (contains j (selected_goals info m) ≡ true)
      ↔ ((ag : AsyncGoal G) × (get j m ≡ some ag) × IsCancelable ag × IsMeant info j ag)
selected_goals_iff info n j m a =
    let listed = contains-selected_goals info n j m a in
    let (there, chosen) = chosen_iff info j (get j m) in
    (λ h. there (sym listed ∙ h), λ w. listed ∙ chosen w)
