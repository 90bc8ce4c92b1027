-- ===== src/Time/Builtin/Tests.antt =====
-- Runs of the conversions of src/builtin_interfaces.rs at the inputs of the source's own tests, and
-- instances of their laws.
use ros2_client.Base.{◌≡◌, refl, arith}
use ros2_client.Base.Int.{pos, negsuc, ◌+ℤ◌, ◌-ℤ◌, ◌*ℤ◌}
use ros2_client.Time.Builtin.{
  time_from_nanos, time_from_repr, repr_from_time, duration_from_nanos, duration_to_nanos,
}
use ros2_client.Time.Builtin.Laws.{time_from_repr-repr_from_time}

minus_one_and_a_half :
    repr_from_time (time_from_nanos (negsuc 1499999999))
    ≡ record { sec = negsuc 1; nanosec = 500000000 }
unfolding repr_from_time ◌+ℤ◌ ◌-ℤ◌
minus_one_and_a_half = refl

minus_one_nano : duration_to_nanos (duration_from_nanos (negsuc 0)) ≡ pos 1999999999
unfolding duration_from_nanos duration_to_nanos ◌+ℤ◌ ◌*ℤ◌
minus_one_nano = refl

time_from_repr-repr_from_time_example :
    time_from_repr (repr_from_time (time_from_nanos (negsuc 1000000000)))
    ≡ time_from_nanos (negsuc 1000000000)
time_from_repr-repr_from_time_example =
    time_from_repr-repr_from_time (negsuc 1000000000) (omega arith)
