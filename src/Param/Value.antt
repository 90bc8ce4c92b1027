-- ===== src/Param/Value.antt =====
-- src/parameters.rs and the messages of src/rcl_interfaces.rs: parameter values, descriptors and
-- results, with their wire forms (`raw`). An f64 is only passed on: it is its bit pattern. An i64 is
-- an integer, a u8 a natural number.
pub mod Laws
use ros2_client.Base.{ℕ, Bool, true, false, List, [], ◌∷◌, map, if◌then◌else◌, ◌==◌}
use ros2_client.Base.Int.{ℤ, pos}
use ros2_client.Base.Text.{Text, codes}

pub data ParameterValue : Type 0 where
  not_set : ParameterValue
  boolean : Bool → ParameterValue
  integer : ℤ → ParameterValue
  double : ℕ → ParameterValue
  string : Text → ParameterValue
  byte_array : List ℕ → ParameterValue
  boolean_array : List Bool → ParameterValue
  integer_array : List ℤ → ParameterValue
  double_array : List ℕ → ParameterValue
  string_array : List Text → ParameterValue

pub record Parameter : Type 0 where
  pub name : Text
  pub value : ParameterValue

-- `to_parameter_type_raw`: the discriminant of the `ParameterType`, whose variants carry the codes of
-- `raw::ParameterType`.
abbrev pub to_parameter_type : ParameterValue → ℕ
to_parameter_type not_set = 0
to_parameter_type (boolean b) = 1
to_parameter_type (integer i) = 2
to_parameter_type (double d) = 3
to_parameter_type (string s) = 4
to_parameter_type (byte_array a) = 5
to_parameter_type (boolean_array a) = 6
to_parameter_type (integer_array a) = 7
to_parameter_type (double_array a) = 8
to_parameter_type (string_array a) = 9

-- `raw::ParameterValue`.
pub record RawValue : Type 0 where
  pub ptype : ℕ
  pub boolean_value : Bool
  pub int_value : ℤ
  pub double_value : ℕ
  pub string_value : Text
  pub bytes : List ℕ
  pub bools : List Bool
  pub ints : List ℤ
  pub doubles : List ℕ
  pub strings : List Text

-- The value that `From<ParameterValue>` starts from.
abbrev pub blank : RawValue
blank = record {
  ptype = 0;
  boolean_value = false;
  int_value = pos 0;
  double_value = 0;
  string_value = [];
  bytes = [];
  bools = [];
  ints = [];
  doubles = [];
  strings = [];
}

-- `From<ParameterValue> for raw::ParameterValue`.
unfoldable pub to_raw : ParameterValue → RawValue
to_raw not_set = blank
to_raw (boolean b) = record blank { ptype = 1; boolean_value = b }
to_raw (integer i) = record blank { ptype = 2; int_value = i }
to_raw (double d) = record blank { ptype = 3; double_value = d }
to_raw (string s) = record blank { ptype = 4; string_value = s }
to_raw (byte_array a) = record blank { ptype = 5; bytes = a }
to_raw (boolean_array a) = record blank { ptype = 6; bools = a }
to_raw (integer_array a) = record blank { ptype = 7; ints = a }
to_raw (double_array a) = record blank { ptype = 8; doubles = a }
to_raw (string_array a) = record blank { ptype = 9; strings = a }

-- `From<raw::ParameterValue> for ParameterValue`.
unfoldable pub from_raw : RawValue → ParameterValue
from_raw r =
    if r.ptype == 0
    then not_set
    else if r.ptype == 1
    then boolean r.boolean_value
    else if r.ptype == 2
    then integer r.int_value
    else if r.ptype == 3
    then double r.double_value
    else if r.ptype == 4
    then string r.string_value
    else if r.ptype == 5
    then byte_array r.bytes
    else if r.ptype == 6
    then boolean_array r.bools
    else if r.ptype == 7
    then integer_array r.ints
    else if r.ptype == 8
    then double_array r.doubles
    else if r.ptype == 9
    then string_array r.strings
    else not_set

-- `raw::Parameter` and the conversions from and to `Parameter`.
pub record RawParameter : Type 0 where
  pub name : Text
  pub value : RawValue

abbrev pub to_raw_parameter : Parameter → RawParameter
to_raw_parameter p = record { name = p.name; value = to_raw p.value }

abbrev pub from_raw_parameter : RawParameter → Parameter
from_raw_parameter p = record { name = p.name; value = from_raw p.value }

-- `SetParametersResult`.
pub data SetResult : Type 0 where
  ok : SetResult
  err : Text → SetResult

pub record RawSetResult : Type 0 where
  pub successful : Bool
  pub reason : Text

-- `From<SetParametersResult> for raw::SetParametersResult`.
unfoldable pub to_raw_result : SetResult → RawSetResult
to_raw_result ok = record { successful = true; reason = [] }
to_raw_result (err reason) = record { successful = false; reason = reason }

-- How `ParameterClient::set_parameters` reads a result.
unfoldable pub read_result : RawSetResult → SetResult
read_result r = if r.successful then ok else err r.reason

pub data NumericRange : Type 0 where
  not_specified : NumericRange
  integer_range : ℤ → ℤ → ℤ → NumericRange
  floating_point_range : ℕ → ℕ → ℕ → NumericRange

pub record ParameterDescriptor : Type 0 where
  pub name : Text
  pub param_type : ℕ
  pub description : Text
  pub additional_constraints : Text
  pub read_only : Bool
  pub dynamic_typing : Bool
  pub range : NumericRange

-- `ParameterDescriptor::unknown`.
unfoldable pub unknown_descriptor : Text → ParameterDescriptor
unknown_descriptor name = record {
  name = name;
  param_type = 0;
  description = codes "unknown parameter";
  additional_constraints = [];
  read_only = true;
  dynamic_typing = false;
  range = not_specified;
}

-- `ParameterDescriptor::from_value`.
unfoldable pub descriptor_from_value : Text → ParameterValue → ParameterDescriptor
descriptor_from_value name value = record {
  name = name;
  param_type = to_parameter_type value;
  description = codes "(description missing, not implemented)";
  additional_constraints = [];
  read_only = false;
  dynamic_typing = false;
  range = not_specified;
}

-- `raw::IntegerRange` and `raw::FloatingPointRange`: from, to and step.
pub record RawRange (N : Type 0) : Type 0 where
  pub from_value : N
  pub to_value : N
  pub step : N

pub record RawDescriptor : Type 0 where
  pub name : Text
  pub rtype : ℕ
  pub description : Text
  pub additional_constraints : Text
  pub read_only : Bool
  pub dynamic_typing : Bool
  pub floating_point_ranges : List (RawRange ℕ)
  pub integer_ranges : List (RawRange ℤ)

abbrev pub integer_ranges_of : NumericRange → List (RawRange ℤ)
integer_ranges_of (integer_range a b s) = record { from_value = a; to_value = b; step = s } ∷ []
integer_ranges_of _ = []

abbrev pub float_ranges_of : NumericRange → List (RawRange ℕ)
float_ranges_of (floating_point_range a b s) =
    record { from_value = a; to_value = b; step = s } ∷ []
float_ranges_of _ = []

-- `From<ParameterDescriptor> for raw::ParameterDescriptor`.
unfoldable pub to_raw_descriptor : ParameterDescriptor → RawDescriptor
to_raw_descriptor p = record {
  name = p.name;
  rtype = p.param_type;
  description = p.description;
  additional_constraints = p.additional_constraints;
  read_only = p.read_only;
  dynamic_typing = p.dynamic_typing;
  floating_point_ranges = float_ranges_of p.range;
  integer_ranges = integer_ranges_of p.range;
}
