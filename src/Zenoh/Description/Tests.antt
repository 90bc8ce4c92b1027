-- ===== src/Zenoh/Description/Tests.antt =====
-- The theorem on hashed texts at two descriptions of a service, and the text of std_msgs/msg/String.
use ros2_client.Base.{[], ◌∷◌, ◌≡◌, ◌↔◌, refl, arith}
use ros2_client.Base.Text.{Text, codes}
use ros2_client.Base.Decimal.{to_string}
use ros2_client.Zenoh.Description.{
  IndividualTypeDescription, TypeDescription, new_field, scalar, nested, hashable_json, write_itd,
  write_json_string, write_char, write_other, write_field, write_field_type,
}
use ros2_client.Zenoh.Description.Laws.{SameTypes, hashable_json_iff}

abbrev string_msg : TypeDescription
string_msg = record {
  type_description = record {
    type_name = codes "std_msgs/msg/String";
    fields = new_field (codes "data") (scalar 17) ∷ [];
  };
  referenced_type_descriptions = [];
}

string_msg_json :
    hashable_json string_msg
    ≡ codes
        "{\"type_description\": {\"type_name\": \"std_msgs/msg/String\", \"fields\": [{\"name\": \"data\", \"type\": {\"type_id\": 17, \"capacity\": 0, \"string_capacity\": 0, \"nested_type_name\": \"\"}}]}, \"referenced_type_descriptions\": []}"
unfolding hashable_json write_itd write_json_string write_char write_other write_field
    write_field_type to_string
string_msg_json = refl

abbrev leaf : Text → IndividualTypeDescription
leaf name = record { type_name = name; fields = [] }

abbrev point : TypeDescription
point = record {
  type_description = record {
    type_name = codes "g/P";
    fields =
        new_field (codes "a") (nested (codes "g/A"))
        ∷ new_field (codes "é") (nested (codes "g/B"))
        ∷ [];
  };
  referenced_type_descriptions = leaf (codes "g/A") ∷ leaf (codes "g/B") ∷ [];
}

abbrev point_reordered : TypeDescription
point_reordered = record {
  type_description = record {
    type_name = codes "g/P";
    fields =
        record { name = codes "a"; field_type = nested (codes "g/A"); default_value = codes "0" }
        ∷ new_field (codes "é") (nested (codes "g/B"))
        ∷ [];
  };
  referenced_type_descriptions = leaf (codes "g/B") ∷ leaf (codes "g/A") ∷ [];
}

hashable_json_iff_example :
    (hashable_json point ≡ hashable_json point_reordered) ↔ SameTypes point point_reordered
hashable_json_iff_example = hashable_json_iff point point_reordered (ground arith) (ground arith)
