-- ===== src/Base/Text.antt =====
-- Text as its list of Unicode scalar values, and the `str` operations of the standard library that
-- the program calls.
use Prim.Native.Nat.{ℕ}
use Prim.Native.Char.{code}
use Prim.Native.String.{String}
use mathlib.Core.Path.{◌≡◌, refl, ap, ◌∙◌}
use mathlib.Core.Logic.{◌≢◌, ◌↔◌}
use mathlib.Core.Bool.{Bool, true, false, ◌&&◌, ◌||◌}
use mathlib.Core.Option.{Option, none, some}
use mathlib.Core.List.{List, [], ◌∷◌, ◌++◌, map}
use native.Mathlib.Omega.{arith}
use ros2_client.Base.Tests.{leb, ◌==◌, if◌then◌else◌, ==_refl}
use ros2_client.Base.Lists.{All}

abbrev pub Text : Type 0
Text = List ℕ

-- The scalar values of a literal.
abbrev pub codes : String → Text
codes String.[] = []
codes (String.◌∷◌ c s) = code c ∷ codes s

-- Equality of texts.
abbrev pub text_eq : Text → Text → Bool
text_eq [] [] = true
text_eq [] (d ∷ t) = false
text_eq (c ∷ s) [] = false
text_eq (c ∷ s) (d ∷ t) = c == d && text_eq s t

pub text_eq_sound : (s t : Text) → text_eq s t ≡ true → s ≡ t
text_eq_sound [] [] h = refl
text_eq_sound [] (d ∷ t) h = cc
text_eq_sound (c ∷ s) [] h = cc
text_eq_sound (c ∷ s) (d ∷ t) h = ground (arith, text_eq_sound s t)

pub text_eq_refl : (s : Text) → text_eq s s ≡ true
text_eq_refl [] = refl
text_eq_refl (c ∷ s) = rw (==_refl c) (text_eq_refl s)

pub text_eq_iff : (a b : Text) → (text_eq a b ≡ true) ↔ (a ≡ b)
text_eq_iff a b = (text_eq_sound a b, λ e. rw e (text_eq_refl b))

-- No character is `c`.
abbrev pub Lacks : ℕ → Text → Type 0
Lacks c = All (λ x. x ≢ c)

-- `char::is_ascii_digit`, `is_ascii_alphabetic` and `is_ascii_alphanumeric`.
abbrev pub is_digit : ℕ → Bool
is_digit c = leb b'0' c && leb c b'9'

abbrev pub is_alphabetic : ℕ → Bool
is_alphabetic c = (leb b'a' c && leb c b'z') || (leb b'A' c && leb c b'Z')

abbrev pub is_alphanumeric : ℕ → Bool
is_alphanumeric c = is_alphabetic c || is_digit c

-- `str::split(c)`: always at least one part.
abbrev pub cons_head : ℕ → List Text → List Text
cons_head x [] = (x ∷ []) ∷ []
cons_head x (p ∷ ps) = (x ∷ p) ∷ ps

unfoldable pub split : ℕ → Text → List Text
split c [] = [] ∷ []
split c (x ∷ xs) = if x == c then [] ∷ split c xs else cons_head x (split c xs)

-- `str::split_once(c)`: at the first `c`.
unfoldable pub split_once : ℕ → Text → Option (Text × Text)
split_once c [] = none
split_once c (x ∷ xs) =
    if x == c
    then some ([], xs)
    else elim (split_once c xs) [ none ↦ none | some (a, b) ↦ some (x ∷ a, b) ]

-- `str::rsplit_once(c)`: at the last `c`.
unfoldable pub rsplit_once : ℕ → Text → Option (Text × Text)
rsplit_once c [] = none
rsplit_once c (x ∷ xs) = elim (rsplit_once c xs) [
  | some (a, b) ↦ some (x ∷ a, b)
  | none ↦ if x == c then some ([], xs) else none
]

-- `str::replace` of one character by another.
abbrev pub replace : ℕ → ℕ → Text → Text
replace c d = map (λ x. if x == c then d else x)

-- `str::ends_with(c)`.
abbrev pub ends_with : ℕ → Text → Bool
ends_with c [] = false
ends_with c (x ∷ []) = x == c
ends_with c (x ∷ y ∷ ys) = ends_with c (y ∷ ys)

-- `str::starts_with(c)`.
abbrev pub starts_with : ℕ → Text → Bool
starts_with c [] = false
starts_with c (x ∷ xs) = x == c

pub split-Lacks : (c : ℕ) (p : Text) → Lacks c p → split c p ≡ p ∷ []
unfolding split
split-Lacks c [] h = refl
split-Lacks c (x ∷ p) (ne, h) = ground (arith, split-Lacks c p h)

-- A part that holds no separator, and what follows it.
pub split-append : (c : ℕ) (p rest : Text) → Lacks c p → split c (p ++ c ∷ rest) ≡ p ∷ split c rest
unfolding split
split-append c [] rest h = ground arith
split-append c (x ∷ p) rest (ne, h) = ground (arith, split-append c p rest h)

pub split_once-append :
    (c : ℕ) (p rest : Text) → Lacks c p → split_once c (p ++ c ∷ rest) ≡ some (p, rest)
unfolding split_once
split_once-append c [] rest h = ground arith
split_once-append c (x ∷ p) rest (ne, h) = ground (arith, split_once-append c p rest h)

pub rsplit_once-Lacks : (c : ℕ) (s : Text) → Lacks c s → rsplit_once c s ≡ none
unfolding rsplit_once
rsplit_once-Lacks c [] h = refl
rsplit_once-Lacks c (x ∷ s) (ne, h) = ground (arith, rsplit_once-Lacks c s h)

pub rsplit_once-append :
    (c : ℕ) (p rest : Text) → Lacks c rest → rsplit_once c (p ++ c ∷ rest) ≡ some (p, rest)
unfolding rsplit_once
rsplit_once-append c [] rest h = ground (arith, rsplit_once-Lacks c rest h)
rsplit_once-append c (x ∷ p) rest h = ground (arith, rsplit_once-append c p rest h)

-- The parts with a separator between any two, as a format string spells them.
abbrev pub join : ℕ → List Text → Text
join c [] = []
join c (t ∷ []) = t
join c (t ∷ u ∷ ts) = t ++ c ∷ join c (u ∷ ts)

pub split-join :
    (c : ℕ) (t : Text) (ts : List Text)
    → All (Lacks c) (t ∷ ts)
    → split c (join c (t ∷ ts)) ≡ t ∷ ts
split-join c t [] (h, _) = split-Lacks c t h
split-join c t (u ∷ ts) (h, hs) =
    split-append c t (join c (u ∷ ts)) h ∙ ap (λ l. t ∷ l) (split-join c u ts hs)
