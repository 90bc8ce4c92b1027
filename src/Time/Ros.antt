-- ===== src/Time/Ros.antt =====
-- src/ros_time.rs: `ROSTime` and `ROSDuration`. An i64 operation wraps around, as in a release build.
-- `std::time::Duration` is its nanoseconds. `rustdds::Timestamp` is a parameter, with its two special
-- values as tests and its ticks of 2^-32 seconds; the conversions of the chrono crate are left out.
pub mod Laws
pub mod Tests
use ros2_client.Base.{
  ℕ, ◌+◌, ◌-◌, ◌*◌, ◌/◌, ◌%◌, ◌^◌, Bool, true, false, Option, none, some, if◌then◌else◌, leb,
}
use ros2_client.Base.Int.{ℤ, pos, negsuc, ◌+ℤ◌, ◌-ℤ◌, wrap_i64}

pub record RosTime : Type 0 where
  pub nanos_since_epoch : ℤ

-- `ROSTime::to_nanos`, `ROSTime::from_nanos`.
abbrev pub to_nanos : RosTime → ℤ
to_nanos t = t.nanos_since_epoch

abbrev pub from_unix_nanos : ℤ → RosTime
from_unix_nanos n = record { nanos_since_epoch = n }

pub record RosDuration : Type 0 where
  pub diff : ℤ

-- `Sub for ROSTime`, `Sub<ROSDuration>` and `Add<ROSDuration> for ROSTime`.
unfoldable pub sub_times : RosTime → RosTime → RosDuration
sub_times t u = record { diff = wrap_i64 (t.nanos_since_epoch -ℤ u.nanos_since_epoch) }

unfoldable pub sub_duration : RosTime → RosDuration → RosTime
sub_duration t d = record { nanos_since_epoch = wrap_i64 (t.nanos_since_epoch -ℤ d.diff) }

unfoldable pub add_duration : RosTime → RosDuration → RosTime
add_duration t d = record { nanos_since_epoch = wrap_i64 (t.nanos_since_epoch +ℤ d.diff) }

-- `Add for ROSDuration`, `Sub for ROSDuration`.
unfoldable pub add_durations : RosDuration → RosDuration → RosDuration
add_durations d e = record { diff = wrap_i64 (d.diff +ℤ e.diff) }

unfoldable pub sub_durations : RosDuration → RosDuration → RosDuration
sub_durations d e = record { diff = wrap_i64 (d.diff -ℤ e.diff) }

-- `TryFrom<Duration> for ROSDuration`: `none` is `OutOfRangeError`.
unfoldable pub duration_of_std : ℕ → Option RosDuration
duration_of_std nanos = if leb nanos (2 ^ 63 - 1) then some (record { diff = pos nanos }) else none

-- `TryFrom<ROSDuration> for Duration`.
unfoldable pub std_of_duration : RosDuration → Option ℕ
std_of_duration d = elim d.diff [ pos n ↦ some n | negsuc n ↦ none ]

pub data TimestampConversionError : Type 0 where
  invalid infinite : TimestampConversionError

pub data TimestampResult : Type 0 where
  ok : RosTime → TimestampResult
  err : TimestampConversionError → TimestampResult

-- The operations of u64, which wrap around in a release build.
abbrev pub u64_mul : ℕ → ℕ → ℕ
u64_mul a b = (a * b) % 2 ^ 64

abbrev pub u64_add : ℕ → ℕ → ℕ
u64_add a b = (a + b) % 2 ^ 64

abbrev pub u64_sub : ℕ → ℕ → ℕ
u64_sub a b = (a + 2 ^ 64 - b) % 2 ^ 64

-- `<< 32` and `>> 32` of a u64.
abbrev pub u64_shl : ℕ → ℕ
u64_shl a = (a * 2 ^ 32) % 2 ^ 64

abbrev pub u64_shr : ℕ → ℕ
u64_shr a = a / 2 ^ 32

-- The ticks of a u64 as nanoseconds.
unfoldable pub time_of_ticks : ℕ → RosTime
time_of_ticks ticks =
    let seconds = u64_shr ticks in
    let frac_ticks = u64_sub ticks (u64_shl seconds) in
    let frac_nanos = u64_shr (u64_mul frac_ticks 1000000000) in
    from_unix_nanos (wrap_i64 (pos (u64_add (u64_mul seconds 1000000000) frac_nanos)))

-- `TryFrom<Timestamp> for ROSTime`.
module _ {Timestamp : Type 0} (is_invalid is_infinite : Timestamp → Bool)
    (to_ticks : Timestamp → ℕ) where
  unfoldable pub time_of_timestamp : Timestamp → TimestampResult
  unfolding time_of_ticks
  time_of_timestamp ts =
      if is_invalid ts
      then err invalid
      else if is_infinite ts
      then err infinite
      else ok (time_of_ticks (to_ticks ts))
