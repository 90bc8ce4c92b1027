-- ===== src/Names/NodeName.antt =====
-- `NodeName` of src/names.rs.
pub mod Laws
use ros2_client.Base.{
  ℕ, Bool, true, false, not, ◌&&◌, ◌||◌, List, [], ◌∷◌, ◌++◌, Option, none, some, if◌then◌else◌,
  ◌==◌,
}
use ros2_client.Base.Text.{Text, codes, text_eq, starts_with, ends_with, is_alphabetic}
use ros2_client.Names.Chars.{
  NameError, empty, bad_char, bad_slash, NameResult, ok, err, find, is_name_char, is_start_char,
}

pub record NodeName : Type 0 where
  pub namespace : Text
  pub base_name : Text

-- Alphanumeric, `_` or `/`.
abbrev pub is_namespace_char : ℕ → Bool
is_namespace_char c = is_name_char c || c == b'/'

-- The checks of the namespace, from the one of its first character on.
unfoldable pub check_namespace : Text → Text → NameResult NodeName
check_namespace [] base = err (bad_slash (codes "<empty_namespace>") base)
check_namespace (c ∷ rest) base =
    let namespace = c ∷ rest in
    if not (is_alphabetic c || c == b'/')
    then err (bad_char c)
    else if not (starts_with b'/' namespace)
    then err (bad_slash namespace base)
    else elim (find (λ x. not (is_namespace_char x)) namespace) [
      | some bad ↦ err (bad_char bad)
      | none ↦
          if ends_with b'/' namespace && not (text_eq namespace (codes "/"))
          then err (bad_slash namespace base)
          else ok (record { namespace = namespace; base_name = base })
    ]

-- `NodeName::new`.
unfoldable pub new_node_name : Text → Text → NameResult NodeName
new_node_name namespace [] = err empty
new_node_name namespace (c ∷ rest) =
    if not (is_start_char c)
    then err (bad_char c)
    else elim (find (λ x. not (is_name_char x)) (c ∷ rest)) [
      | some bad ↦ err (bad_char bad)
      | none ↦ check_namespace namespace (c ∷ rest)
    ]

-- `NodeName::fully_qualified_name`.
unfoldable pub fully_qualified_name : NodeName → Text
fully_qualified_name n =
    (if ends_with b'/' n.namespace then n.namespace else n.namespace ++ b'/' ∷ []) ++ n.base_name
