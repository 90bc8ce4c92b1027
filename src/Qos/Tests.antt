-- ===== src/Qos/Tests.antt =====
-- The theorem on QoS profiles at a depth that no i32 holds, which comes back as 0.
use ros2_client.Base.{none, some, ◌≡◌, ◌↔◌, refl, arith}
use ros2_client.Base.Int.{ℤ, pos, int_eq}
use ros2_client.Qos.{
  reliable, volatile, keep_last, automatic, QosProfile, as_nanos, DdsDuration, to_policies,
  from_policies,
}
use ros2_client.Qos.Laws.{Fits, from_policies-to_policies}

-- Durations in nanoseconds, with the infinite one at the end of the range.
abbrev durations : DdsDuration ℤ
durations = record {
  infinite = pos 9223372036854775807;
  default_max_blocking = pos 100000000;
  of_nanos = λ n. n;
  to_nanoseconds = λ n. n;
  equal = int_eq;
}

abbrev profile : QosProfile
profile = record {
  reliability = reliable;
  durability = volatile;
  history = keep_last 2147483648;
  deadline = some (record { secs = 0; nanos = 500000000 });
  lifespan = none;
  liveliness = automatic;
  liveliness_lease = some (record { secs = 2; nanos = 0 });
}

from_policies-to_policies_example :
    (from_policies durations (to_policies durations profile) ≡ profile)
    ↔ Fits (keep_last 2147483648)
unfolding as_nanos
from_policies-to_policies_example =
    from_policies-to_policies durations profile refl (omega arith, refl, refl) tt
      (omega arith, refl, refl)
