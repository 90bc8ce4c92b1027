-- ===== src/Zenoh/TypeHash.antt =====
-- src/zenoh_backend/type_hash.rs: the hashes that stand in keys. The digest of `Sha256` is a parameter.
use ros2_client.Base.{
  ℕ, List, [], ◌∷◌, Option, none, some, if◌then◌else◌, arith, Bool-cases, inl, inr,
}
use ros2_client.Base.Text.{Text, codes, text_eq, Lacks}
use ros2_client.Zenoh.Description.{
  TypeDescription, new_field, scalar, hex_bytes, hashable_json, rihs01,
}

-- `WILDCARD`.
abbrev pub wildcard : Text
wildcard = codes "*"

-- `PLACEHOLDER_HASH`.
abbrev pub placeholder_hash : Text
placeholder_hash = codes "RIHS01_0000000000000000000000000000000000000000000000000000000000000000"

-- The rows of `STD_MSGS_SCALAR_HASHES`: the DDS name, the ROS name and the type of the field.
abbrev pub scalars : List (Text × Text × ℕ)
scalars =
    (codes "std_msgs::msg::dds_::Bool_", codes "std_msgs/msg/Bool", 15)
    ∷ (codes "std_msgs::msg::dds_::Float32_", codes "std_msgs/msg/Float32", 10)
    ∷ (codes "std_msgs::msg::dds_::Float64_", codes "std_msgs/msg/Float64", 11)
    ∷ (codes "std_msgs::msg::dds_::Int32_", codes "std_msgs/msg/Int32", 6)
    ∷ (codes "std_msgs::msg::dds_::Int64_", codes "std_msgs/msg/Int64", 8)
    ∷ (codes "std_msgs::msg::dds_::UInt32_", codes "std_msgs/msg/UInt32", 7)
    ∷ (codes "std_msgs::msg::dds_::UInt64_", codes "std_msgs/msg/UInt64", 9)
    ∷ []

abbrev scalar_description : Text → ℕ → TypeDescription
scalar_description ros tid = record {
  type_description = record {
    type_name = ros;
    fields = new_field (codes "data") (scalar tid) ∷ [];
  };
  referenced_type_descriptions = [];
}

module _ (digest : Text → List ℕ) where
  abbrev pub scalar_hash : List (Text × Text × ℕ) → Text → Option Text
  scalar_hash [] dds_type_name = none
  scalar_hash ((dds, ros, tid) ∷ rows) dds_type_name =
      if text_eq dds dds_type_name
      then some (rihs01 digest (scalar_description ros tid))
      else scalar_hash rows dds_type_name

  -- `known_type_hash`.
  unfoldable pub known_type_hash : Text → Option Text
  known_type_hash dds_type_name =
      if text_eq dds_type_name (codes "std_msgs::msg::dds_::String_")
      then some (codes "RIHS01_df668c740482bbd48fb39d76a70dfd4bd59db1288021743503259e948f6b1a18")
      else if text_eq dds_type_name (codes "example_interfaces::srv::dds_::AddTwoInts_")
      then some (codes "RIHS01_e118de6bf5eeb66a2491b5bda11202e7b68f198d6f67922cf30364858239c81a")
      else scalar_hash scalars dds_type_name

  abbrev hash_or_placeholder : Option Text → Text
  hash_or_placeholder none = placeholder_hash
  hash_or_placeholder (some h) = h

  -- `sender_hash`.
  unfoldable pub sender_hash : Text → Text
  sender_hash dds_type_name = hash_or_placeholder (known_type_hash dds_type_name)

  hex_bytes-Lacks : (bs : List ℕ) → Lacks b'/' (hex_bytes bs)
  hex_bytes-Lacks [] = tt
  hex_bytes-Lacks (b ∷ bs) = ground (arith, hex_bytes-Lacks bs)

  -- The hash of a type is one chunk of a key.
  pub rihs01-Lacks : (d : TypeDescription) → Lacks b'/' (rihs01 digest d)
  unfolding rihs01
  rihs01-Lacks d = ground (arith, hex_bytes-Lacks (digest (hashable_json d)))

  scalar_hash-Lacks :
      (rows : List (Text × Text × ℕ)) (t : Text)
      → Lacks b'/' (hash_or_placeholder (scalar_hash rows t))
  scalar_hash-Lacks [] t = omega arith
  scalar_hash-Lacks ((dds, ros, tid) ∷ rows) t = elim (Bool-cases (text_eq dds t)) [
    | inl h ↦ rw h (rihs01-Lacks (scalar_description ros tid))
    | inr h ↦ rw h (scalar_hash-Lacks rows t)
  ]

  pub sender_hash-Lacks : (t : Text) → Lacks b'/' (sender_hash t)
  unfolding sender_hash known_type_hash
  sender_hash-Lacks t = elim (Bool-cases (text_eq t (codes "std_msgs::msg::dds_::String_"))) [
    | inl h ↦ rw h (omega arith)
    | inr h ↦ elim (Bool-cases (text_eq t (codes "example_interfaces::srv::dds_::AddTwoInts_"))) [
      | inl k ↦ rw (h, k) (omega arith)
      | inr k ↦ rw (h, k) (scalar_hash-Lacks scalars t)
    ]
  ]
