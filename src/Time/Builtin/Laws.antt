-- ===== src/Time/Builtin/Laws.antt =====
-- Round trips, ranges and saturation of the conversions of src/builtin_interfaces.rs.
use ros2_client.Base.{ℕ, zero, suc, ◌+◌, ◌-◌, ◌*◌, ◌^◌, ◌/◌, ◌%◌, ◌≤◌, ◌<◌, ◌≡◌, ◌≢◌, arith}
use ros2_client.Base.Int.{ℤ, pos, negsuc, ◌+ℤ◌, ◌-ℤ◌, ◌*ℤ◌, ◌≤ℤ◌, ◌<ℤ◌, IsI32, IsI64, i32_max}
use ros2_client.Time.Builtin.{
  nanos_per_sec, time_from_nanos, time_from_repr, repr_from_time, duration_from_nanos,
  duration_to_nanos,
}

-- The nanosecond counts whose whole seconds, rounded down, fit into an i32.
abbrev pub Fits : ℤ → Type 0
Fits n = (negsuc (2 ^ 31 * nanos_per_sec - 1) ≤ℤ n) × (n <ℤ pos (2 ^ 31 * nanos_per_sec))

-- A time whose seconds, rounded down, fit into an i32 survives the way over the wire.
pub time_from_repr-repr_from_time :
    (n : ℤ) → Fits n → time_from_repr (repr_from_time (time_from_nanos n)) ≡ time_from_nanos n
unfolding time_from_repr repr_from_time ◌+ℤ◌ ◌*ℤ◌ ◌-ℤ◌
time_from_repr-repr_from_time (pos n) h = ground arith
time_from_repr-repr_from_time (negsuc n) h = ground arith

time_from_repr-nonneg :
    (s n : ℕ)
    → s < 2 ^ 31
    → n < nanos_per_sec
    → time_from_repr (record { sec = pos s; nanosec = n })
      ≡ time_from_nanos (pos (nanos_per_sec * s + n))
unfolding time_from_repr ◌+ℤ◌ ◌*ℤ◌
time_from_repr-nonneg s n h k = ground arith

time_from_repr-negative :
    (s n : ℕ)
    → s < 2 ^ 31
    → n < nanos_per_sec
    → time_from_repr (record { sec = negsuc s; nanosec = n })
      ≡ time_from_nanos (negsuc (nanos_per_sec * suc s - n - 1))
unfolding time_from_repr ◌+ℤ◌ ◌*ℤ◌
time_from_repr-negative s n h k = ground arith

repr_from_time-nonneg :
    (s n : ℕ)
    → s < 2 ^ 31
    → n < nanos_per_sec
    → repr_from_time (time_from_nanos (pos (nanos_per_sec * s + n)))
      ≡ record { sec = pos s; nanosec = n }
unfolding repr_from_time
repr_from_time-nonneg s n h k = ground arith

repr_from_time-negative :
    (s n : ℕ)
    → s < 2 ^ 31
    → n < nanos_per_sec
    → repr_from_time (time_from_nanos (negsuc (nanos_per_sec * suc s - n - 1)))
      ≡ record { sec = negsuc s; nanosec = n }
unfolding repr_from_time ◌+ℤ◌ ◌-ℤ◌
repr_from_time-negative s zero h k = rw div_whole (rw mod_whole (ground arith))
  where
    div_whole : suc (nanos_per_sec * suc s - 0 - 1) / nanos_per_sec ≡ suc s
    div_whole = omega arith

    mod_whole : suc (nanos_per_sec * suc s - 0 - 1) % nanos_per_sec ≡ 0
    mod_whole = omega arith
repr_from_time-negative s (suc n) h k = rw div_part (rw mod_part (ground arith))
  where
    div_part : suc (nanos_per_sec * suc s - suc n - 1) / nanos_per_sec ≡ s
    div_part = omega arith

    mod_part : suc (nanos_per_sec * suc s - suc n - 1) % nanos_per_sec ≡ nanos_per_sec - suc n
    mod_part = omega arith

-- A wire time with a fraction below one second is what its time is sent as.
pub repr_from_time-time_from_repr :
    (sec : ℤ) (nanosec : ℕ)
    → IsI32 sec
    → nanosec < nanos_per_sec
    → repr_from_time (time_from_repr (record { sec = sec; nanosec = nanosec }))
      ≡ record { sec = sec; nanosec = nanosec }
repr_from_time-time_from_repr (pos s) n h k =
    rw (time_from_repr-nonneg s n (omega arith) k) (repr_from_time-nonneg s n (omega arith) k)
repr_from_time-time_from_repr (negsuc s) n h k =
    rw (time_from_repr-negative s n (omega arith) k) (repr_from_time-negative s n (omega arith) k)

-- Whatever time is sent, the seconds are an i32 and the fraction is below one second.
pub repr_from_time_bounds :
    (n : ℤ)
    → IsI64 n
    → IsI32 (repr_from_time (time_from_nanos n)).sec
      × ((repr_from_time (time_from_nanos n)).nanosec < nanos_per_sec)
unfolding repr_from_time ◌+ℤ◌ ◌-ℤ◌
repr_from_time_bounds (pos n) h = ground arith
repr_from_time_bounds (negsuc n) h = ground arith

-- A time of 2^31 seconds or more, in i64 nanoseconds, is sent with the largest i32 as its seconds
-- and with its own fraction.
pub repr_from_time_late :
    (n : ℕ)
    → 2 ^ 31 * nanos_per_sec ≤ n
    → n < 2 ^ 63
    → repr_from_time (time_from_nanos (pos n))
      ≡ record { sec = i32_max; nanosec = n % nanos_per_sec }
unfolding repr_from_time
repr_from_time_late n h k = ground arith

-- A time more than 2^31 seconds before the epoch, in i64 nanoseconds, that is no whole second is
-- sent with the largest i32 as its seconds: the saturated quotient is decremented once more and
-- wraps around.
pub repr_from_time_early :
    (n : ℕ)
    → 2 ^ 31 * nanos_per_sec ≤ n
    → n < 2 ^ 63
    → suc n % nanos_per_sec ≢ 0
    → repr_from_time (time_from_nanos (negsuc n))
      ≡ record { sec = i32_max; nanosec = nanos_per_sec - suc n % nanos_per_sec }
unfolding repr_from_time ◌+ℤ◌ ◌-ℤ◌
repr_from_time_early n h k ne = ground arith

-- A duration that is not negative, and whose seconds fit, survives the way over the wire.
pub duration_to_nanos-duration_from_nanos :
    (n : ℕ) → n < 2 ^ 31 * nanos_per_sec → duration_to_nanos (duration_from_nanos (pos n)) ≡ pos n
unfolding duration_to_nanos duration_from_nanos ◌+ℤ◌ ◌*ℤ◌
duration_to_nanos-duration_from_nanos n h = ground arith

-- A whole number of negative seconds above the smallest i32 survives the way over the wire.
pub duration_to_nanos-duration_from_nanos_whole :
    (s : ℕ)
    → s < 2 ^ 31 - 1
    → duration_to_nanos (duration_from_nanos (negsuc (nanos_per_sec * suc s - 1)))
      ≡ negsuc (nanos_per_sec * suc s - 1)
unfolding duration_to_nanos duration_from_nanos ◌+ℤ◌ ◌*ℤ◌
duration_to_nanos-duration_from_nanos_whole s h = ground arith

-- Every other negative duration in range comes back two seconds later than it was.
pub duration_to_nanos-duration_from_nanos_negative :
    (n : ℕ)
    → suc n < 2 ^ 31 * nanos_per_sec
    → suc n % nanos_per_sec ≢ 0
    → duration_to_nanos (duration_from_nanos (negsuc n)) ≡ negsuc n +ℤ pos (2 * nanos_per_sec)
unfolding duration_to_nanos duration_from_nanos ◌+ℤ◌ ◌*ℤ◌
duration_to_nanos-duration_from_nanos_negative n h ne = ground arith
