-- ===== src/Names/Name/Dds.antt =====
-- The DDS names that `Name::to_dds_name` of src/names.rs builds.
use ros2_client.Base.{
  false, ◌∷◌, ◌++◌, some, ◌≡◌, if◌then◌else◌, append_assoc, ap, List, Bool-cases, inl, inr,
}
use ros2_client.Base.Text.{Text, codes, ends_with}
use ros2_client.Names.NodeName.{NodeName}
use ros2_client.Names.Name.{Name, display, to_dds_name}

-- For a kind prefix that ends in no slash, an absolute name becomes the prefix, its display and the
-- suffix, whatever the node; a relative one has the node's namespace and a slash in between.
pub to_dds_name_lem :
    (n : Name) (kind suffix : Text) (node : NodeName)
    → ends_with b'/' kind ≡ false
    → to_dds_name n kind node suffix
      ≡ some
          (kind ++ (if n.absolute then display n else node.namespace ++ b'/' ∷ display n) ++ suffix)
unfolding to_dds_name display
to_dds_name_lem n kind suffix node h = elim (Bool-cases n.absolute) [
  | inl e ↦ rw (h, e) (ap some (simp append_assoc))
  | inr e ↦ rw (h, e) (ap some (simp append_assoc))
]

-- For a kind prefix that ends in no slash, a relative name of a node in the root namespace gets
-- two slashes in a row.
pub to_dds_name_root :
    (base kind suffix : Text) (tokens : List Text) (node : NodeName)
    → ends_with b'/' kind ≡ false
    → node.namespace ≡ codes "/"
    → let n : Name = record { base_name = base; preceeding_tokens = tokens; absolute = false } in
      to_dds_name n kind node suffix ≡ some (kind ++ b'/' ∷ b'/' ∷ (display n ++ suffix))
unfolding to_dds_name display
to_dds_name_root base kind suffix tokens node h root = rw (h, root) (ap some (simp append_assoc))
