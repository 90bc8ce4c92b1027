-- ===== src/Param/Store/Order.antt =====
-- The order of names, and stores in that order: what a `BTreeMap` keeps.
use ros2_client.Base.{true, [], ◌∷◌, none, ◌≡◌, refl, arith, sym, inl, inr, Bool-cases}
use ros2_client.Base.Text.{text_eq_iff, Text, text_eq, text_eq_sound}
use ros2_client.Base.Ordered.{get, insert, remove}
use ros2_client.Param.Value.{ParameterValue}
use ros2_client.Base.TextOrder.{text_less, text_less_trans, text_less_irrefl, text_less_total}
use ros2_client.Param.Store.{Store, text_order}

-- All names of the store are greater.
abbrev pub IsBelow : Text → Store → Type 0
IsBelow k [] = Unit
IsBelow k ((j, v) ∷ m) = (text_less k j ≡ true) × IsBelow k m

-- The names ascend: each is there once.
abbrev pub IsAscending : Store → Type 0
IsAscending [] = Unit
IsAscending ((k, v) ∷ m) = IsBelow k m × IsAscending m

IsBelow-trans : (j k : Text) (m : Store) → text_less j k ≡ true → IsBelow k m → IsBelow j m
IsBelow-trans j k [] h b = tt
IsBelow-trans j k ((i, v) ∷ m) h (l, b) = (text_less_trans j k i h l, IsBelow-trans j k m h b)

insert-IsBelow :
    (j k : Text) (v : ParameterValue) (m : Store)
    → text_less j k ≡ true
    → IsBelow j m
    → IsBelow j (insert k v m)
unfolding insert
insert-IsBelow j k v [] h b = (h, tt)
insert-IsBelow j k v ((i, w) ∷ m) h (l, b) = ground (arith, insert-IsBelow j k v m)

pub insert-IsAscending :
    (k : Text) (v : ParameterValue) (m : Store) → IsAscending m → IsAscending (insert k v m)
unfolding insert
insert-IsAscending k v [] h = (tt, tt)
insert-IsAscending k v ((i, w) ∷ m) (b, h) = elim (Bool-cases (text_eq i k)) [
  | inl same ↦ rw same (rw (sym (text_eq_sound i k same)) b, h)
  | inr other ↦ elim (Bool-cases (text_less k i)) [
    | inl l ↦ rw (other, l) ((l, IsBelow-trans k i m l b), (b, h))
    | inr g ↦
        rw (other, g)
          (insert-IsBelow i k v m (text_less_total i k other g) b, insert-IsAscending k v m h)
  ]
]

remove-IsBelow : (j k : Text) (m : Store) → IsBelow j m → IsBelow j (remove k m)
unfolding remove
remove-IsBelow j k [] b = tt
remove-IsBelow j k ((i, w) ∷ m) (l, b) = ground (arith, remove-IsBelow j k m)

pub remove-IsAscending : (k : Text) (m : Store) → IsAscending m → IsAscending (remove k m)
unfolding remove
remove-IsAscending k [] h = tt
remove-IsAscending k ((i, w) ∷ m) (b, h) =
    ground (arith, remove-IsAscending k m h, remove-IsBelow i k m b)

pub get_below : (k : Text) (m : Store) → IsBelow k m → get k m ≡ none
unfolding get
get_below k [] b = refl
get_below k ((i, w) ∷ m) (l, b) =
    ground (arith, get_below k m b, text_eq_iff i k, text_less_irrefl k)
