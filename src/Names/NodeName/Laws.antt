-- ===== src/Names/NodeName/Laws.antt =====
-- What `NodeName::new` accepts, and what the fully qualified name tells.
use ros2_client.Base.{
  Bool, true, false, not, ◌&&◌, ◌||◌, [], ◌∷◌, some, ◌≡◌, ◌↔◌, arith, inl, inr, if◌then◌else◌, all,
  append_assoc, Bool-cases,
}
use ros2_client.Base.Text.{
  Text, codes, text_eq, text_eq_sound, starts_with, ends_with, rsplit_once, rsplit_once-append,
  Lacks,
}
use ros2_client.Names.Chars.{ok, is_name_char, starts_ok, find-none, find-all, name_chars-Lacks}
use ros2_client.Names.NodeName.{
  NodeName, is_namespace_char, check_namespace, new_node_name, fully_qualified_name,
}

-- The base name is made of name characters and begins with no digit.
abbrev pub base_ok : Text → Bool
base_ok base = starts_ok base && all is_name_char base

-- The namespace begins with a slash, is made of name characters and slashes, and ends in no slash
-- unless it is just that.
abbrev pub namespace_ok : Text → Bool
namespace_ok ns =
    starts_with b'/' ns
    && all is_namespace_char ns
    && (not (ends_with b'/' ns) || text_eq ns (codes "/"))

check_namespace_lem :
    (ns base : Text)
    → namespace_ok ns ≡ true
    → check_namespace ns base ≡ ok (record { namespace = ns; base_name = base })
unfolding check_namespace
check_namespace_lem [] base h = cc
check_namespace_lem (c ∷ rest) base h = ground (arith, find-all is_namespace_char (c ∷ rest))

check_namespace_sound :
    (ns base : Text) (n : NodeName)
    → check_namespace ns base ≡ ok n
    → (n ≡ record { namespace = ns; base_name = base }) × (namespace_ok ns ≡ true)
unfolding check_namespace
check_namespace_sound [] base n h = cc
check_namespace_sound (c ∷ rest) base n h = ground (arith, find-none is_namespace_char (c ∷ rest))

-- `NodeName::new` accepts exactly the pairs of a well-formed namespace and base name, and keeps both.
pub new_node_name_iff :
    (ns base : Text) (n : NodeName)
    → (new_node_name ns base ≡ ok n) ↔ (
        (base_ok base ≡ true)
        × (namespace_ok ns ≡ true)
        × (n ≡ record { namespace = ns; base_name = base }))
unfolding new_node_name
new_node_name_iff ns [] n = (λ h. cc, λ h. cc)
new_node_name_iff ns (c ∷ rest) n = (
  λ h. ground (arith, find-none is_name_char (c ∷ rest), check_namespace_sound ns (c ∷ rest) n),
  λ h. ground (arith, find-all is_name_char (c ∷ rest), check_namespace_lem ns (c ∷ rest)),
)

-- The part behind the last slash of the fully qualified name of an accepted node name is its base
-- name, and the part before it is the namespace, or empty for the root namespace.
pub rsplit_once-fully_qualified_name :
    (ns base : Text) (n : NodeName)
    → new_node_name ns base ≡ ok n
    → rsplit_once b'/' (fully_qualified_name n)
      ≡ some (if text_eq ns (codes "/") then [] else ns, base)
unfolding fully_qualified_name
rsplit_once-fully_qualified_name ns base n h =
    let (base_fine, ns_fine, e) = (new_node_name_iff ns base n).0 h in
    let lacks : Lacks b'/' base = (name_chars-Lacks base (ground arith)).0 in
    elim (Bool-cases (text_eq ns (codes "/"))) [
      | inl root ↦
          rw (e, root, text_eq_sound ns (codes "/") root) (rsplit_once-append b'/' [] base lacks)
      | inr deep ↦
          let plain : ends_with b'/' ns ≡ false = ground arith in
          rw (e, deep, plain, append_assoc) (rsplit_once-append b'/' ns base lacks)
    ]
