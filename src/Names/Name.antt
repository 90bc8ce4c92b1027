-- ===== src/Names/Name.antt =====
-- `Name` of src/names.rs: names of topics, services and actions.
pub mod Parts
pub mod Laws
pub mod Dds
use ros2_client.Base.{
  ℕ, Bool, true, false, not, ◌&&◌, ◌||◌, List, [], ◌∷◌, ◌++◌, Option, none, some, if◌then◌else◌,
  ◌==◌, all, is_empty,
}
use ros2_client.Base.Text.{Text, split, rsplit_once, ends_with}
use ros2_client.Names.Chars.{
  NameError, empty, bad_char, bad_slash, NameResult, ok, err, find, is_name_char, starts_ok,
  has_double_underscore,
}
use ros2_client.Names.NodeName.{NodeName}

pub record Name : Type 0 where
  pub base_name : Text
  pub preceeding_tokens : List Text
  pub absolute : Bool

-- `namespace.strip_prefix('/')`: what is left, and whether there was a slash.
abbrev pub strip_root : Text → Text × Bool
strip_root [] = ([], false)
strip_root (c ∷ s) = if c == b'/' then (s, true) else (c ∷ s, false)

-- The tokens of a namespace without its leading slash.
unfoldable pub tokens_of : Text → List Text
tokens_of [] = []
tokens_of (c ∷ s) = split b'/' (c ∷ s)

abbrev pub any_empty : List Text → Bool
any_empty [] = false
any_empty (t ∷ ts) = is_empty t || any_empty ts

-- What is required of each token.
abbrev pub token_ok : Text → Bool
token_ok t = all is_name_char t && starts_ok t && not (has_double_underscore t)

-- `chars().next().unwrap_or('?')`.
abbrev pub first_char : Text → ℕ
first_char [] = b'?'
first_char (c ∷ s) = c

-- The checks of the namespace.
unfoldable pub check_tokens : Text → Bool → Text → NameResult Name
unfolding tokens_of
check_tokens rel absolute base =
    let tokens = tokens_of rel in
    if any_empty tokens
    then err (bad_slash rel base)
    else if all token_ok tokens
    then ok (record { base_name = base; preceeding_tokens = tokens; absolute = absolute })
    else err (bad_char b'?')

-- `Name::new`.
unfoldable pub new_name : Text → Text → NameResult Name
new_name namespace base =
    let (rel, absolute) = strip_root namespace in
    if is_empty base then err empty else elim (find (λ c. not (is_name_char c)) base) [
      | some bad ↦ err (bad_char bad)
      | none ↦
          if not (starts_ok base)
          then err (bad_char (first_char base))
          else if has_double_underscore base
          then err (bad_char b'_')
          else check_tokens rel absolute base
    ]

-- The match of `Name::parse` on the parts before and behind the last slash.
unfoldable pub parse_parts : Text → Text → NameResult Name
parse_parts [] [] = err empty
parse_parts (c ∷ bad) [] = err (bad_slash (c ∷ bad) [])
parse_parts [] (d ∷ base) = new_name (b'/' ∷ []) (d ∷ base)
parse_parts (c ∷ prefix) (d ∷ base) =
    if ends_with b'/' (c ∷ prefix)
    then err (bad_slash (c ∷ prefix) (d ∷ base))
    else new_name (c ∷ prefix) (d ∷ base)

-- `Name::parse`.
unfoldable pub parse : Text → NameResult Name
parse full_name = elim (rsplit_once b'/' full_name) [
  | none ↦ new_name [] full_name
  | some (prefix, base) ↦ parse_parts prefix base
]

-- Each token with a slash behind it.
abbrev pub slashed : List Text → Text
slashed [] = []
slashed (t ∷ ts) = t ++ b'/' ∷ slashed ts

-- `impl fmt::Display for Name`.
unfoldable pub display : Name → Text
display n = (if n.absolute then b'/' ∷ [] else []) ++ slashed n.preceeding_tokens ++ n.base_name

-- `Name::to_dds_name`: `none` is the failed assertion.
unfoldable pub to_dds_name : Name → Text → NodeName → Text → Option Text
to_dds_name n kind_prefix node suffix =
    if ends_with b'/' kind_prefix
    then none
    else some (
        (kind_prefix ++ (if n.absolute then [] else node.namespace))
        ++ b'/' ∷ slashed n.preceeding_tokens
        ++ n.base_name
        ++ suffix)

-- `Name::push`: the new last part is not checked.
unfoldable pub push : Name → Text → Name
push n new_suffix = record {
  base_name = new_suffix;
  preceeding_tokens = n.preceeding_tokens ++ n.base_name ∷ [];
  absolute = n.absolute;
}
