-- ===== src/Base/Ordered.antt =====
-- `BTreeMap`: an association list in the order of its keys. A key type is an instance of `Key`.
use mathlib.Core.Path.{◌≡◌, refl}
use mathlib.Core.Bool.{Bool, true, false}
use mathlib.Core.Logic.{◌↔◌, inl, inr}
use mathlib.Core.Option.{Option, none, some}
use mathlib.Core.List.{List, [], ◌∷◌, map}
use native.Mathlib.Omega.{arith}
use Prim.Native.Nat.{ℕ}
use ros2_client.Base.Tests.{ltb, ◌==◌, if◌then◌else◌, Bool-cases, ==_iff}
use ros2_client.Base.Lists.{All}
use ros2_client.Base.Text.{Text, text_eq, text_eq_iff}

pub record Key {ℓ} (K : Type ℓ) : Type ℓ where
  pub eq : K → K → Bool
  pub less : K → K → Bool
  pub eq_iff : (a b : K) → (eq a b ≡ true) ↔ (a ≡ b)

instance abbrev pub nat_key : Key ℕ
nat_key = record { eq = ◌==◌; less = ltb; eq_iff = ==_iff }

-- Texts as the keys of a HashMap, which has no order: a new key comes last.
instance abbrev pub text_key : Key Text
text_key = record { eq = text_eq; less = λ a b. false; eq_iff = text_eq_iff }

abbrev pub Map {ℓ κ} : Type ℓ → Type κ → Type (ℓ ⊔ κ)
Map K V = List (K × V)

module _ {ℓ κ} {K : Type ℓ} {V : Type κ} ⦃o : Key K⦄ where
  unfoldable pub get : K → List (K × V) → Option V
  get k [] = none
  get k ((j, v) ∷ m) = if o.eq j k then some v else get k m

  unfoldable pub insert : K → V → List (K × V) → List (K × V)
  insert k v [] = (k, v) ∷ []
  insert k v ((j, w) ∷ m) =
      if o.eq j k
      then (k, v) ∷ m
      else if o.less k j
      then (k, v) ∷ (j, w) ∷ m
      else (j, w) ∷ insert k v m

  unfoldable pub remove : K → List (K × V) → List (K × V)
  remove k [] = []
  remove k ((j, w) ∷ m) = if o.eq j k then remove k m else (j, w) ∷ remove k m

  abbrev pub keys : List (K × V) → List K
  keys = map (λ e. e.0)

  abbrev pub contains_key : K → List (K × V) → Bool
  contains_key k m = elim (get k m) [ none ↦ false | some v ↦ true ]

  pub get-insert :
      (k j : K) (v : V) (m : List (K × V))
      → get j (insert k v m) ≡ (if o.eq k j then some v else get j m)
  unfolding get insert
  get-insert k j v [] = refl
  get-insert k j v ((i, w) ∷ m) =
      ground (arith, get-insert k j v m, o.eq_iff i k, o.eq_iff k j, o.eq_iff i j)

  pub get-remove :
      (k j : K) (m : List (K × V)) → get j (remove k m) ≡ (if o.eq k j then none else get j m)
  unfolding get remove
  get-remove k j [] = ground arith
  get-remove k j ((i, w) ∷ m) =
      ground (arith, get-remove k j m, o.eq_iff k j, o.eq_iff i j, o.eq_iff i k)

  module _ {μ} (P : V → Type μ) where
    -- Every value satisfies `P`.
    abbrev pub AllValues : List (K × V) → Type μ
    AllValues = All (λ e. P e.1)

    pub AllValues-get : (k : K) (m : List (K × V)) {v : V} → AllValues m → get k m ≡ some v → P v
    unfolding get
    AllValues-get k [] h e = cc
    AllValues-get k ((j, w) ∷ m) {v} h e = elim (Bool-cases (o.eq j k)) [
      | inl hit ↦ subst-some (ground arith) h.0
      | inr miss ↦ AllValues-get k m h.1 (ground arith)
    ]
      where
        subst-some : w ≡ v → P w → P v
        subst-some p x = rw p at x

    pub AllValues-insert :
        (k : K) (v : V) (m : List (K × V)) → P v → AllValues m → AllValues (insert k v m)
    unfolding insert
    AllValues-insert k v [] p h = (p, tt)
    AllValues-insert k v ((j, w) ∷ m) p h = ground (arith, AllValues-insert k v m)

    pub AllValues-remove : (k : K) (m : List (K × V)) → AllValues m → AllValues (remove k m)
    unfolding remove
    AllValues-remove k [] h = tt
    AllValues-remove k ((j, w) ∷ m) h = ground (arith, AllValues-remove k m)
