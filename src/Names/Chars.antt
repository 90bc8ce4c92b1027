-- ===== src/Names/Chars.antt =====
-- The characters of names, the errors of the constructors, and the tests that these share
-- (src/names.rs).
use ros2_client.Base.{
  ℕ, Bool, true, false, not, ◌&&◌, ◌||◌, [], ◌∷◌, Option, none, some, ◌≡◌, refl, arith,
  if◌then◌else◌, ◌==◌, all,
}
use ros2_client.Base.Text.{Text, Lacks, is_alphabetic, is_alphanumeric}

-- `NameError`.
pub data NameError : Type 0 where
  empty : NameError
  bad_char : ℕ → NameError
  bad_slash : Text → Text → NameError

pub data NameResult (A : Type 0) : Type 0 where
  ok : A → NameResult A
  err : NameError → NameResult A

-- `chars().find(…)`.
unfoldable pub find : (ℕ → Bool) → Text → Option ℕ
find p [] = none
find p (c ∷ s) = if p c then some c else find p s

-- `is_ascii_alphanumeric() || c == '_'`, and its like for the first character.
abbrev pub is_name_char : ℕ → Bool
is_name_char c = is_alphanumeric c || c == b'_'

abbrev pub is_start_char : ℕ → Bool
is_start_char c = is_alphabetic c || c == b'_'

-- `starts_with(ok_start_char)`.
abbrev pub starts_ok : Text → Bool
starts_ok [] = false
starts_ok (c ∷ s) = is_start_char c

-- `contains("__")`.
abbrev pub has_double_underscore : Text → Bool
has_double_underscore [] = false
has_double_underscore (c ∷ []) = false
has_double_underscore (c ∷ d ∷ s) = (c == b'_' && d == b'_') || has_double_underscore (d ∷ s)

-- A test that no character fails.
pub find-none : (p : ℕ → Bool) (s : Text) → find (λ c. not (p c)) s ≡ none → all p s ≡ true
unfolding find
find-none p [] h = refl
find-none p (c ∷ s) h = ground (arith, find-none p s)

pub find-all : (p : ℕ → Bool) (s : Text) → all p s ≡ true → find (λ c. not (p c)) s ≡ none
unfolding find
find-all p [] h = refl
find-all p (c ∷ s) h = ground (arith, find-all p s)

-- Name characters are no slashes and no percent signs.
pub name_chars-Lacks : (s : Text) → all is_name_char s ≡ true → Lacks b'/' s × Lacks b'%' s
name_chars-Lacks [] h = (tt, tt)
name_chars-Lacks (c ∷ s) h = ground (arith, name_chars-Lacks s)
