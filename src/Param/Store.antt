-- ===== src/Param/Store.antt =====
-- The parameter store, a `BTreeMap<String, ParameterValue>` in the order of the names, and the events
-- that tell of its changes (`ParameterEvent` of src/parameters.rs and src/zenoh_backend/parameters.rs).
pub mod Replay
pub mod Order
pub mod Answers
use ros2_client.Base.{
  ℕ, Bool, true, false, not, ◌&&◌, ◌||◌, List, [], ◌∷◌, ◌++◌, map, Option, none, some,
  if◌then◌else◌, ◌==◌, ltb, ◌≡◌, ◌↔◌, is_empty,
}
use ros2_client.Base.Int.{ℤ}
use ros2_client.Base.Text.{Text, codes, text_eq, text_eq_iff}
use ros2_client.Base.TextOrder.{text_less}
use ros2_client.Base.Ordered.{Key, Map, get, insert, remove, contains_key}
use ros2_client.Param.Value.{
  ParameterValue, not_set, to_raw, from_raw, RawValue, RawParameter, RawDescriptor,
  to_parameter_type, unknown_descriptor, descriptor_from_value, to_raw_descriptor,
}

instance abbrev pub text_order : Key Text
text_order = record { eq = text_eq; less = text_less; eq_iff = text_eq_iff }

abbrev pub Store : Type 0
Store = Map Text ParameterValue

abbrev pub sim_time_name : Text
sim_time_name = codes "use_sim_time"

-- `ParameterEvent`, with its stamp in nanoseconds.
pub record ParameterEvent : Type 0 where
  pub stamp : ℤ
  pub node : Text
  pub new_parameters : List RawParameter
  pub changed_parameters : List RawParameter
  pub deleted_parameters : List RawParameter

-- The event of a set: the parameter is new, or it was already set.
unfoldable pub set_event : Bool → ℤ → Text → Text → ParameterValue → ParameterEvent
set_event already stamp node name value =
    let p : RawParameter = record { name = name; value = to_raw value } in
    record {
      stamp = stamp;
      node = node;
      new_parameters = if already then [] else p ∷ [];
      changed_parameters = if already then p ∷ [] else [];
      deleted_parameters = [];
    }

-- The answers of the services that only read the store, which both backends compute alike.
abbrev pub value_of : Store → Text → ParameterValue
value_of m name = elim (get name m) [ none ↦ not_set | some v ↦ v ]

unfoldable pub get_values : Store → List Text → List RawValue
get_values m names = map (λ n. to_raw (value_of m n)) names

unfoldable pub get_types : Store → List Text → List ℕ
get_types m names = map (λ n. to_parameter_type (value_of m n)) names

-- `str::starts_with` of a text.
abbrev pub has_prefix : Text → Text → Bool
has_prefix s [] = true
has_prefix [] (d ∷ p) = false
has_prefix (c ∷ s) (d ∷ p) = c == d && has_prefix s p

abbrev pub any_prefix : Text → List Text → Bool
any_prefix s [] = false
any_prefix s (p ∷ ps) = has_prefix s p || any_prefix s ps

unfoldable pub list_names : Store → List Text → List Text
list_names [] prefixes = []
list_names ((k, v) ∷ m) prefixes =
    let rest = list_names m prefixes in
    if is_empty prefixes || any_prefix k prefixes then k ∷ rest else rest

abbrev pub descriptor_of : Store → Text → RawDescriptor
descriptor_of m name = elim (get name m) [
  | none ↦ to_raw_descriptor (unknown_descriptor name)
  | some v ↦ to_raw_descriptor (descriptor_from_value name v)
]

unfoldable pub describe : Store → List Text → List RawDescriptor
describe m names = map (λ n. descriptor_of m n) names
