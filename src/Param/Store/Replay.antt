-- ===== src/Param/Store/Replay.antt =====
-- What a listener of `parameter_events` makes of them: the store is rebuilt from the events alone.
use ros2_client.Base.{
  List, [], ◌∷◌, ◌++◌, Option, none, some, ◌>>=◌, if◌then◌else◌, ◌≡◌, arith, inl, inr, Bool-cases,
  Option-cases,
}
use ros2_client.Base.Int.{ℤ}
use ros2_client.Base.Text.{Text}
use ros2_client.Base.Ordered.{insert, remove, contains_key}
use ros2_client.Param.Value.{ParameterValue, from_raw, RawParameter}
use ros2_client.Param.Value.Laws.{from_raw-to_raw}
use ros2_client.Param.Store.{Store, text_order, ParameterEvent, set_event}

-- New parameters must not be there, changed and deleted ones must be.
abbrev pub replay_new : List RawParameter → Store → Option Store
replay_new [] m = some m
replay_new (p ∷ ps) m =
    if contains_key p.name m then none else replay_new ps (insert p.name (from_raw p.value) m)

abbrev pub replay_changed : List RawParameter → Store → Option Store
replay_changed [] m = some m
replay_changed (p ∷ ps) m =
    if contains_key p.name m then replay_changed ps (insert p.name (from_raw p.value) m) else none

abbrev pub replay_deleted : List RawParameter → Store → Option Store
replay_deleted [] m = some m
replay_deleted (p ∷ ps) m =
    if contains_key p.name m then replay_deleted ps (remove p.name m) else none

abbrev pub replay_event : ParameterEvent → Store → Option Store
replay_event e m = do
  m1 ← replay_new e.new_parameters m
  m2 ← replay_changed e.changed_parameters m1
  replay_deleted e.deleted_parameters m2

unfoldable pub replay : List ParameterEvent → Store → Option Store
replay [] m = some m
replay (e ∷ es) m = replay_event e m >>= replay es

pub replay-append :
    (es : List ParameterEvent) (e : ParameterEvent) (m m' : Store)
    → replay es m ≡ some m'
    → replay (es ++ e ∷ []) m ≡ replay_event e m'
unfolding replay
replay-append [] e m m' h = elim (Option-cases (replay_event e m)) [
  | inl n ↦ ground (arith, n)
  | inr (x, n) ↦ ground (arith, n)
]
replay-append (f ∷ es) e m m' h = elim (Option-cases (replay_event f m)) [
  | inl n ↦ ground (arith, n)
  | inr (x, n) ↦ ground (arith, n, replay-append es e x m')
]

-- The event of a set, with the flag that the store gives, replays to the insertion.
pub replay-set_event :
    (stamp : ℤ) (node name : Text) (value : ParameterValue) (m : Store)
    → replay_event (set_event (contains_key name m) stamp node name value) m
      ≡ some (insert name value m)
unfolding set_event
replay-set_event stamp node name value m = elim (Bool-cases (contains_key name m)) [
  | inl h ↦ ground (arith, h, from_raw-to_raw value)
  | inr h ↦ ground (arith, h, from_raw-to_raw value)
]
