-- ===== src/Time/Ros/Tests.antt =====
-- The theorems on ROS time at concrete times.
use ros2_client.Base.{◌*◌, ◌/◌, ◌-◌, ◌^◌, ◌≡◌, refl, arith, ◌==◌}
use ros2_client.Base.Int.{pos, negsuc}
use ros2_client.Time.Ros.{RosTime, RosDuration, time_of_timestamp, ok}
use ros2_client.Time.Ros.Laws.{time_of_timestamp_lem}

abbrev last_time : RosTime
last_time = record { nanos_since_epoch = pos (2 ^ 63 - 1) }

abbrev first_time : RosTime
first_time = record { nanos_since_epoch = negsuc (2 ^ 63 - 1) }

abbrev one_second : RosDuration
one_second = record { diff = pos 1000000000 }

time_of_timestamp_lem_example :
    time_of_timestamp (λ n. n == 2 ^ 64 - 1) (λ n. n == 2 ^ 64 - 2) (λ n. n) (3 * 2 ^ 31)
    ≡ ok (record { nanos_since_epoch = pos (3 * 2 ^ 31 * 1000000000 / 2 ^ 32) })
time_of_timestamp_lem_example =
    time_of_timestamp_lem (λ n. n == 2 ^ 64 - 1) (λ n. n == 2 ^ 64 - 2) (λ n. n) (3 * 2 ^ 31) refl
      refl (omega arith)
