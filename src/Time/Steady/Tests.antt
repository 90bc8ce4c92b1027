-- ===== src/Time/Steady/Tests.antt =====
-- The theorems on steady time at concrete instants, on a platform that represents those that are not
-- before the origin.
use ros2_client.Base.{ℕ, Bool, true, false, arith}
use ros2_client.Base.Int.{ℤ, pos, negsuc}
use ros2_client.Time.Steady.{SteadyTime, TimeDiff}
use ros2_client.Time.Steady.Laws.{IsTimeDiff}

abbrev not_before_origin : ℤ → Bool
not_before_origin (pos n) = true
not_before_origin (negsuc n) = false

abbrev at : ℕ → SteadyTime
at n = record { instant = pos n }

abbrev two_back : TimeDiff
two_back = record { duration = 2; is_negative = true }

abbrev three : TimeDiff
three = record { duration = 3; is_negative = false }

two_back-IsTimeDiff : IsTimeDiff two_back
two_back-IsTimeDiff = record { signed = λ h e. ground arith; small = omega arith }

three-IsTimeDiff : IsTimeDiff three
three-IsTimeDiff = record { signed = λ h. cc; small = omega arith }
