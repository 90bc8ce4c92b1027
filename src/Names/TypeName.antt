-- ===== src/Names/TypeName.antt =====
-- `MessageTypeName`, `ServiceTypeName` and `ActionTypeName` of src/names.rs.
use ros2_client.Base.{◌∷◌, [], ◌++◌, arith, if◌then◌else◌, ◌==◌}
use ros2_client.Base.Text.{Text, codes, Lacks}

pub record MessageTypeName : Type 0 where
  pub prefix : Text
  pub ros2_package_name : Text
  pub ros2_type_name : Text

-- `MessageTypeName::new`.
unfoldable pub new_message_type : Text → Text → MessageTypeName
new_message_type package_name type_name = record {
  prefix = codes "msg";
  ros2_package_name = package_name;
  ros2_type_name = type_name;
}

-- `slash_to_colons`.
unfoldable pub slash_to_colons : Text → Text
slash_to_colons [] = []
slash_to_colons (c ∷ s) =
    let rest = slash_to_colons s in if c == b'/' then b':' ∷ b':' ∷ rest else c ∷ rest

-- `MessageTypeName::dds_msg_type`.
unfoldable pub dds_msg_type : MessageTypeName → Text
dds_msg_type t = slash_to_colons (
    t.ros2_package_name ++ codes "/" ++ t.prefix ++ codes "/dds_/" ++ t.ros2_type_name ++ codes "_")

pub record ServiceTypeName : Type 0 where
  pub prefix : Text
  pub msg : MessageTypeName

-- `ServiceTypeName::new` and `new_prefix`.
unfoldable pub new_service_type : Text → Text → Text → ServiceTypeName
unfolding new_message_type
new_service_type prefix package_name type_name = record {
  prefix = prefix;
  msg = new_message_type package_name type_name;
}

-- The text that `dds_service_type`, `dds_request_type` and `dds_response_type` convert, with their
-- endings.
abbrev dds_type_with : Text → ServiceTypeName → Text
dds_type_with ending t = slash_to_colons (
    t.msg.ros2_package_name
    ++ codes "/"
    ++ t.prefix
    ++ codes "/dds_/"
    ++ t.msg.ros2_type_name
    ++ ending)

unfoldable pub dds_service_type : ServiceTypeName → Text
dds_service_type = dds_type_with (codes "_")

unfoldable pub dds_request_type : ServiceTypeName → Text
dds_request_type = dds_type_with (codes "_Request_")

unfoldable pub dds_response_type : ServiceTypeName → Text
dds_response_type = dds_type_with (codes "_Response_")

-- `ActionTypeName`, a message type name inside.
pub record ActionTypeName : Type 0 where
  pub msg : MessageTypeName

-- `ActionTypeName::new`.
unfoldable pub new_action_type : Text → Text → ActionTypeName
unfolding new_message_type
new_action_type package_name type_name = record { msg = new_message_type package_name type_name }

-- `dds_action_topic`, with `MessageTypeName::new_prefix`.
unfoldable pub dds_action_topic : ActionTypeName → Text → MessageTypeName
dds_action_topic t topic = record {
  prefix = codes "action";
  ros2_package_name = t.msg.ros2_package_name;
  ros2_type_name = t.msg.ros2_type_name ++ topic;
}

-- `dds_action_service`.
unfoldable pub dds_action_service : ActionTypeName → Text → ServiceTypeName
unfolding new_service_type
dds_action_service t srv =
    new_service_type (codes "action") t.msg.ros2_package_name (t.msg.ros2_type_name ++ srv)

slash_to_colons-Lacks : (s : Text) → Lacks b'/' (slash_to_colons s)
unfolding slash_to_colons
slash_to_colons-Lacks [] = tt
slash_to_colons-Lacks (c ∷ s) = ground (arith, slash_to_colons-Lacks s)

-- The DDS name of a message type or of a service type holds no slash, whatever its parts hold: it is
-- one chunk of a key expression.
pub dds_types-Lacks :
    (t : MessageTypeName) (s : ServiceTypeName)
    → Lacks b'/' (dds_msg_type t)
      × Lacks b'/' (dds_service_type s)
      × Lacks b'/' (dds_request_type s)
      × Lacks b'/' (dds_response_type s)
unfolding dds_msg_type dds_service_type dds_request_type dds_response_type
dds_types-Lacks t s = (
  slash_to_colons-Lacks _,
  slash_to_colons-Lacks _,
  slash_to_colons-Lacks _,
  slash_to_colons-Lacks _,
)
