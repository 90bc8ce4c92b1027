-- ===== src/Zenoh/Description.antt =====
-- src/zenoh_backend/type_description.rs: descriptions of types, and the JSON text of a description that
-- is hashed. A writer here returns the text that it appends to `out`. The hash function is a parameter.
pub mod Json
pub mod Writers
pub mod Order
pub mod Laws
pub mod Tests
use ros2_client.Base.{
  ℕ, suc, ◌+◌, ◌-◌, ◌/◌, ◌%◌, ◌^◌, List, [], ◌∷◌, ◌++◌, map, if◌then◌else◌, ◌==◌, ltb,
}
use ros2_client.Base.Text.{Text, codes}
use ros2_client.Base.TextOrder.{text_less}
use ros2_client.Base.Decimal.{to_string}

-- The constants of `type_id` that the constructors below add.
abbrev pub nested_type : ℕ
nested_type = 1

abbrev pub array_offset : ℕ
array_offset = 48

abbrev pub bounded_sequence_offset : ℕ
bounded_sequence_offset = 96

pub record FieldType : Type 0 where
  pub type_id : ℕ
  pub capacity : ℕ
  pub string_capacity : ℕ
  pub nested_type_name : Text

-- `FieldType::scalar`.
abbrev pub scalar : ℕ → FieldType
scalar type_id = record {
  type_id = type_id;
  capacity = 0;
  string_capacity = 0;
  nested_type_name = [];
}

-- `FieldType::array`: the id is a u8.
abbrev pub array : ℕ → ℕ → FieldType
array base_type_id capacity = record {
  type_id = (base_type_id + array_offset) % 2 ^ 8;
  capacity = capacity;
  string_capacity = 0;
  nested_type_name = [];
}

-- `FieldType::nested`.
abbrev pub nested : Text → FieldType
nested name = record {
  type_id = nested_type;
  capacity = 0;
  string_capacity = 0;
  nested_type_name = name;
}

-- `FieldType::nested_bounded_sequence`.
abbrev pub nested_bounded_sequence : Text → ℕ → FieldType
nested_bounded_sequence name capacity = record {
  type_id = nested_type + bounded_sequence_offset;
  capacity = capacity;
  string_capacity = 0;
  nested_type_name = name;
}

pub record Field : Type 0 where
  pub name : Text
  pub field_type : FieldType
  pub default_value : Text

-- `Field::new`.
abbrev pub new_field : Text → FieldType → Field
new_field name field_type = record { name = name; field_type = field_type; default_value = [] }

pub record IndividualTypeDescription : Type 0 where
  pub type_name : Text
  pub fields : List Field

pub record TypeDescription : Type 0 where
  pub type_description : IndividualTypeDescription
  pub referenced_type_descriptions : List IndividualTypeDescription

-- A digit of `{:x}`.
abbrev pub hex_digit : ℕ → ℕ
hex_digit d = if ltb d 10 then d + 48 else d + 87

-- `\u` and `{unit:04x}`, for a unit of 16 bits.
abbrev pub escape_unit : ℕ → Text
escape_unit n =
    b'\\'
    ∷ b'u'
    ∷ hex_digit (n / 4096 % 16)
    ∷ hex_digit (n / 256 % 16)
    ∷ hex_digit (n / 16 % 16)
    ∷ hex_digit (n % 16)
    ∷ []

-- `char::encode_utf16`, each unit escaped.
abbrev pub escape_utf16 : ℕ → Text
escape_utf16 c =
    if ltb c 65536
    then escape_unit c
    else escape_unit (55296 + (c - 65536) / 1024) ++ escape_unit (56320 + (c - 65536) % 1024)

-- The last arms of the `match c` of `write_json_string`.
unfoldable pub write_other : ℕ → Text
write_other c = if ltb c 32 then escape_unit c else if ltb c 128 then c ∷ [] else escape_utf16 c

-- The `match c`.
unfoldable pub write_char : ℕ → Text
write_char c =
    if c == b'"'
    then b'\\' ∷ b'"' ∷ []
    else if c == b'\\'
    then b'\\' ∷ b'\\' ∷ []
    else if c == b'\n'
    then b'\\' ∷ b'n' ∷ []
    else if c == b'\r'
    then b'\\' ∷ b'r' ∷ []
    else if c == b'\t'
    then b'\\' ∷ b't' ∷ []
    else if c == 8
    then b'\\' ∷ b'b' ∷ []
    else if c == 12
    then b'\\' ∷ b'f' ∷ []
    else write_other c

abbrev pub write_chars : Text → Text
write_chars [] = []
write_chars (c ∷ s) = write_char c ++ write_chars s

-- `write_json_string`.
unfoldable pub write_json_string : Text → Text
write_json_string s = b'"' ∷ (write_chars s ++ b'"' ∷ [])

-- Pieces pushed one after the other.
abbrev pub pieces : List Text → Text
pieces [] = []
pieces (p ∷ ps) = p ++ pieces ps

-- `write_field_type`.
unfoldable pub write_field_type : FieldType → Text
write_field_type ft = pieces (
    codes "{\"type_id\": "
    ∷ to_string ft.type_id
    ∷ codes ", \"capacity\": "
    ∷ to_string ft.capacity
    ∷ codes ", \"string_capacity\": "
    ∷ to_string ft.string_capacity
    ∷ codes ", \"nested_type_name\": "
    ∷ write_json_string ft.nested_type_name
    ∷ codes "}"
    ∷ [])

-- `write_field`, which leaves the default value out.
unfoldable pub write_field : Field → Text
write_field f = pieces (
    codes "{\"name\": "
    ∷ write_json_string f.name
    ∷ codes ", \"type\": "
    ∷ write_field_type f.field_type
    ∷ codes "}"
    ∷ [])

-- A loop over the elements with their index, with a separator before all but the first.
abbrev pub write_each : {A : Type 0} → (A → Text) → ℕ → List A → Text
write_each write i [] = []
write_each write i (x ∷ xs) =
    (if ltb 0 i then codes ", " else []) ++ (write x ++ write_each write (suc i) xs)

-- `write_itd`.
unfoldable pub write_itd : IndividualTypeDescription → Text
write_itd itd = pieces (
    codes "{\"type_name\": "
    ∷ write_json_string itd.type_name
    ∷ codes ", \"fields\": ["
    ∷ write_each write_field 0 itd.fields
    ∷ codes "]}"
    ∷ [])

-- `sort_by` on the type names, which keeps the order of equal names.
abbrev pub insert_by_name :
    IndividualTypeDescription → List IndividualTypeDescription → List IndividualTypeDescription
insert_by_name x [] = x ∷ []
insert_by_name x (y ∷ ys) =
    let rest = insert_by_name x ys in
    if text_less y.type_name x.type_name then y ∷ rest else x ∷ y ∷ ys

abbrev pub sort_by_name : List IndividualTypeDescription → List IndividualTypeDescription
sort_by_name [] = []
sort_by_name (x ∷ xs) = insert_by_name x (sort_by_name xs)

-- `TypeDescription::hashable_json`.
unfoldable pub hashable_json : TypeDescription → Text
hashable_json d = pieces (
    codes "{\"type_description\": "
    ∷ write_itd d.type_description
    ∷ codes ", \"referenced_type_descriptions\": ["
    ∷ write_each write_itd 0 (sort_by_name d.referenced_type_descriptions)
    ∷ codes "]}"
    ∷ [])

-- `{b:02x}` for each byte.
abbrev pub hex_bytes : List ℕ → Text
hex_bytes [] = []
hex_bytes (b ∷ bs) = hex_digit (b / 16 % 16) ∷ hex_digit (b % 16) ∷ hex_bytes bs

-- `TypeDescription::rihs01`, with the digest of `Sha256` as a parameter.
unfoldable pub rihs01 : (Text → List ℕ) → TypeDescription → Text
rihs01 digest d = codes "RIHS01_" ++ hex_bytes (digest (hashable_json d))

-- `service_type_description`.
unfoldable pub service_type_description :
    Text
    → IndividualTypeDescription
    → IndividualTypeDescription
    → IndividualTypeDescription
    → List IndividualTypeDescription
    → TypeDescription
service_type_description service_name request response event referenced = record {
  type_description = record {
    type_name = service_name;
    fields =
        new_field (codes "request_message") (nested (service_name ++ codes "_Request"))
        ∷ new_field (codes "response_message") (nested (service_name ++ codes "_Response"))
        ∷ new_field (codes "event_message") (nested (service_name ++ codes "_Event"))
        ∷ [];
  };
  referenced_type_descriptions = request ∷ response ∷ event ∷ referenced;
}
