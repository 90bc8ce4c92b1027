-- ===== src/Time/Ros/Laws.antt =====
-- Arithmetic of ROS time and the conversions of durations and timestamps (src/ros_time.rs).
use ros2_client.Base.{ℕ, ◌-◌, ◌*◌, ◌/◌, ◌^◌, ◌<◌, Bool, false, ◌≡◌, refl, arith}
use ros2_client.Base.Int.{ℤ, pos, ◌+ℤ◌, ◌-ℤ◌, wrap_i64, wrap_i64_id, IsI64}
use ros2_client.Time.Ros.{
  RosTime, RosDuration, sub_times, add_duration, sub_duration, u64_mul, u64_add, u64_sub, u64_shl,
  u64_shr, time_of_ticks, ok, time_of_timestamp,
}

wrap_difference : (t u : ℤ) → IsI64 t → IsI64 u → wrap_i64 (t +ℤ wrap_i64 (u -ℤ t)) ≡ u
unfolding ◌+ℤ◌ ◌-ℤ◌
wrap_difference t u h k = ground arith

wrap_back : (t d : ℤ) → IsI64 t → IsI64 d → wrap_i64 (wrap_i64 (t +ℤ d) -ℤ d) ≡ t
unfolding ◌+ℤ◌ ◌-ℤ◌
wrap_back t d h k = ground arith

-- For times and durations of type i64, also where the difference or the sum wraps around: adding to a
-- time the difference to another gives the other, and subtracting what was added gives the time back.
pub ros_time_arithmetic :
    (t u : RosTime) (d : RosDuration)
    → IsI64 t.nanos_since_epoch
    → IsI64 u.nanos_since_epoch
    → IsI64 d.diff
    → (add_duration t (sub_times u t) ≡ u) × (sub_duration (add_duration t d) d ≡ t)
unfolding add_duration sub_times sub_duration
ros_time_arithmetic t u d h k i =
    rw
      (
        wrap_difference t.nanos_since_epoch u.nanos_since_epoch h k,
        wrap_back t.nanos_since_epoch d.diff h i,
      )
      (refl, refl)

time_of_ticks_lem :
    (ticks : ℕ)
    → ticks < 2 ^ 64
    → time_of_ticks ticks ≡ record { nanos_since_epoch = pos (ticks * 1000000000 / 2 ^ 32) }
unfolding time_of_ticks
time_of_ticks_lem ticks h =
    let shifted : u64_shl (u64_shr ticks) ≡ ticks / 2 ^ 32 * 2 ^ 32 = omega (arith, h) in
    let fraction : u64_sub ticks (ticks / 2 ^ 32 * 2 ^ 32) ≡ ticks - ticks / 2 ^ 32 * 2 ^ 32 =
      omega (arith, h) in
    let product : u64_mul (ticks - ticks / 2 ^ 32 * 2 ^ 32) 1000000000
        ≡ (ticks - ticks / 2 ^ 32 * 2 ^ 32) * 1000000000 =
      omega (arith, h) in
    let whole : u64_mul (u64_shr ticks) 1000000000 ≡ ticks / 2 ^ 32 * 1000000000 =
      omega (arith, h) in
    let exact : u64_add (ticks / 2 ^ 32 * 1000000000)
          (((ticks - ticks / 2 ^ 32 * 2 ^ 32) * 1000000000) / 2 ^ 32)
        ≡ ticks * 1000000000 / 2 ^ 32 =
      omega (arith, h) in
    rw
      (
        shifted,
        fraction,
        product,
        whole,
        exact,
        wrap_i64_id (pos (ticks * 1000000000 / 2 ^ 32)) (omega arith, omega arith),
      )
      refl

-- A timestamp that is neither invalid nor infinite becomes the whole nanoseconds in its ticks of
-- 2^-32 seconds, rounded down once: no operation of u64 and no cast to i64 wraps around to another value.
pub time_of_timestamp_lem :
    {Timestamp : Type 0} (is_invalid is_infinite : Timestamp → Bool) (to_ticks : Timestamp → ℕ)
    (ts : Timestamp)
    → is_invalid ts ≡ false
    → is_infinite ts ≡ false
    → to_ticks ts < 2 ^ 64
    → time_of_timestamp is_invalid is_infinite to_ticks ts
      ≡ ok (record { nanos_since_epoch = pos (to_ticks ts * 1000000000 / 2 ^ 32) })
unfolding time_of_timestamp
time_of_timestamp_lem is_invalid is_infinite to_ticks ts h k fits =
    rw (h, k, time_of_ticks_lem (to_ticks ts) fits) refl
