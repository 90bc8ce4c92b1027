-- ===== src/Param/Value/Laws.antt =====
-- Values survive their wire form (src/parameters.rs).
use ros2_client.Base.{◌≡◌, refl}
use ros2_client.Param.Value.{
  ParameterValue, not_set, boolean, integer, double, string, byte_array, boolean_array,
  integer_array, double_array, string_array, to_raw, from_raw, to_parameter_type, SetResult, ok,
  err, to_raw_result, read_result,
}

pub from_raw-to_raw : (v : ParameterValue) → from_raw (to_raw v) ≡ v
unfolding from_raw to_raw
from_raw-to_raw not_set = refl
from_raw-to_raw (boolean b) = refl
from_raw-to_raw (integer i) = refl
from_raw-to_raw (double d) = refl
from_raw-to_raw (string s) = refl
from_raw-to_raw (byte_array a) = refl
from_raw-to_raw (boolean_array a) = refl
from_raw-to_raw (integer_array a) = refl
from_raw-to_raw (double_array a) = refl
from_raw-to_raw (string_array a) = refl

pub ptype-to_raw : (v : ParameterValue) → (to_raw v).ptype ≡ to_parameter_type v
unfolding to_raw
ptype-to_raw not_set = refl
ptype-to_raw (boolean b) = refl
ptype-to_raw (integer i) = refl
ptype-to_raw (double d) = refl
ptype-to_raw (string s) = refl
ptype-to_raw (byte_array a) = refl
ptype-to_raw (boolean_array a) = refl
ptype-to_raw (integer_array a) = refl
ptype-to_raw (double_array a) = refl
ptype-to_raw (string_array a) = refl

pub read_result-to_raw_result : (r : SetResult) → read_result (to_raw_result r) ≡ r
unfolding read_result to_raw_result
read_result-to_raw_result ok = refl
read_result-to_raw_result (err reason) = refl

-- A parameter value and the result of a set survive the way over the wire, and the type code that is
-- sent with a value is the one that a request for its type is answered with.
pub values_over_wire :
    (v : ParameterValue) (r : SetResult)
    → (from_raw (to_raw v) ≡ v)
      × ((to_raw v).ptype ≡ to_parameter_type v)
      × (read_result (to_raw_result r) ≡ r)
values_over_wire v r = (from_raw-to_raw v, ptype-to_raw v, read_result-to_raw_result r)
