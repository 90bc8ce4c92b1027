-- ===== src/Base/Ascending.antt =====
-- Maps whose keys are numbers that ascend: what `BTreeMap` keeps.
use Prim.Native.Nat.{ℕ, suc, ◌≤◌, ◌<◌}
use mathlib.Core.Path.{◌≡◌, refl}
use mathlib.Core.Option.{none}
use mathlib.Core.List.{[], ◌∷◌}
use native.Mathlib.Omega.{arith}
use ros2_client.Base.Ordered.{Map, get, insert, remove, nat_key}

module _ {κ} {V : Type κ} where
  -- Every key is at least the bound and greater than the key before it.
  abbrev pub Ascending : ℕ → Map ℕ V → Type 0
  Ascending n [] = Unit
  Ascending n ((j, v) ∷ m) = (n ≤ j) × Ascending (suc j) m

  Ascending-mono : (n n' : ℕ) (m : Map ℕ V) → n' ≤ n → Ascending n m → Ascending n' m
  Ascending-mono n n' [] h a = tt
  Ascending-mono n n' ((j, v) ∷ m) h (b, a) = (omega arith, a)

  pub insert-Ascending :
      (n k : ℕ) (v : V) (m : Map ℕ V) → n ≤ k → Ascending n m → Ascending n (insert k v m)
  unfolding insert
  insert-Ascending n k v [] h a = (h, tt)
  insert-Ascending n k v ((j, w) ∷ m) h (b, a) = ground (arith, insert-Ascending (suc j) k v m)

  pub remove-Ascending : (n k : ℕ) (m : Map ℕ V) → Ascending n m → Ascending n (remove k m)
  unfolding remove
  remove-Ascending n k [] a = tt
  remove-Ascending n k ((j, w) ∷ m) (b, a) =
      ground (arith, remove-Ascending (suc j) k m a, Ascending-mono (suc j) n (remove k m))

  -- A key below the bound is not there.
  pub get_below : (n k : ℕ) (m : Map ℕ V) → Ascending n m → k < n → get k m ≡ none
  unfolding get
  get_below n k [] a h = refl
  get_below n k ((j, w) ∷ m) (b, a) h = ground (arith, get_below (suc j) k m a)
