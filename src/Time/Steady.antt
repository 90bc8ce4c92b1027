-- ===== src/Time/Steady.antt =====
-- src/steady_time.rs: steady time and its differences. `std::time::Instant` is opaque: an instant is
-- its nanoseconds from some origin, and which ones a platform represents is a parameter. A `Duration`
-- is its nanoseconds.
pub mod Laws
pub mod Tests
use Prim.Native.Nat.{compare, Ordering}
use ros2_client.Base.{
  ℕ, ◌+◌, ◌-◌, ◌^◌, suc, zero, Bool, true, false, Option, none, some, if◌then◌else◌, ltb,
}
use ros2_client.Base.Int.{
  ℤ, pos, negsuc, pos_part, neg_part, ◌+ℤ◌, ◌-ℤ◌, ◌*ℤ◌, leb_ℤ, quot, wrap_i64,
}

-- `Time`.
pub record SteadyTime : Type 0 where
  pub instant : ℤ

pub record TimeDiff : Type 0 where
  pub duration : ℕ
  pub is_negative : Bool

-- `Instant + Duration` and `Instant - Duration`: `none` is the panic.
abbrev pub checked : (ℤ → Bool) → ℤ → Option SteadyTime
checked represents i = if represents i then some (record { instant = i }) else none

-- `Sub for Time`: `checked_duration_since` fails if the other instant is later.
unfoldable pub sub_time : SteadyTime → SteadyTime → TimeDiff
sub_time a b =
    if leb_ℤ b.instant a.instant
    then record { duration = pos_part (a.instant -ℤ b.instant); is_negative = false }
    else record { duration = pos_part (b.instant -ℤ a.instant); is_negative = true }

-- `Sub<TimeDiff> for Time`.
unfoldable pub sub_diff : (ℤ → Bool) → SteadyTime → TimeDiff → Option SteadyTime
sub_diff represents t d =
    if d.is_negative
    then checked represents (t.instant -ℤ pos d.duration)
    else checked represents (t.instant +ℤ pos d.duration)

-- `Add<TimeDiff> for Time`.
unfoldable pub add_diff : (ℤ → Bool) → SteadyTime → TimeDiff → Option SteadyTime
add_diff represents t d =
    if d.is_negative
    then checked represents (t.instant +ℤ pos d.duration)
    else checked represents (t.instant -ℤ pos d.duration)

-- `TimeDiff::from_nanos`: the magnitude of the smallest i64 is right too, since its negation wraps
-- around and the cast to u64 reads it as 2^63.
unfoldable pub from_nanos : ℤ → TimeDiff
from_nanos (pos n) = record { duration = n; is_negative = false }
from_nanos (negsuc n) = record { duration = suc n; is_negative = true }

-- `TimeDiff::from_millis` and `from_secs`: the product is in i64.
unfoldable pub from_millis : ℤ → TimeDiff
unfolding from_nanos
from_millis millis = from_nanos (wrap_i64 (1000000 *ℤ millis))

unfoldable pub from_secs : ℤ → TimeDiff
unfolding from_nanos
from_secs secs = from_nanos (wrap_i64 (1000000000 *ℤ secs))

abbrev pub negated : ℕ → ℤ
negated zero = pos zero
negated (suc n) = negsuc n

-- `TimeDiff::as_nanos`.
unfoldable pub as_nanos : TimeDiff → ℤ
as_nanos d =
    let n = if ltb (2 ^ 63 - 1) d.duration then 2 ^ 63 - 1 else d.duration in
    if d.is_negative then negated n else pos n

-- `as_millis` and `as_seconds`.
unfoldable pub as_millis : TimeDiff → ℤ
as_millis d = quot (as_nanos d) 1000000

unfoldable pub as_seconds : TimeDiff → ℤ
as_seconds d = quot (as_nanos d) 1000000000

-- `as_duration`: `none` is the error.
unfoldable pub as_duration : TimeDiff → Option ℕ
as_duration d = if d.is_negative then none else some d.duration

unfoldable pub as_saturating_duration : TimeDiff → ℕ
as_saturating_duration d = if d.is_negative then 0 else d.duration

abbrev pub reverse : Ordering → Ordering
reverse Ordering.lt = Ordering.gt
reverse Ordering.eq = Ordering.eq
reverse Ordering.gt = Ordering.lt

-- `Ord for TimeDiff`.
abbrev pub cmp_signed : Bool → Bool → ℕ → ℕ → Ordering
cmp_signed false false a b = compare a b
cmp_signed true true a b = reverse (compare a b)
cmp_signed false true a b = Ordering.gt
cmp_signed true false a b = Ordering.lt

unfoldable pub cmp : TimeDiff → TimeDiff → Ordering
cmp d e = cmp_signed d.is_negative e.is_negative d.duration e.duration

-- `Add for TimeDiff` and `Sub for TimeDiff`, in i64.
unfoldable pub add_diffs : TimeDiff → TimeDiff → TimeDiff
unfolding from_nanos
add_diffs d e = from_nanos (wrap_i64 (as_nanos d +ℤ as_nanos e))

unfoldable pub sub_diffs : TimeDiff → TimeDiff → TimeDiff
unfolding from_nanos
sub_diffs d e = from_nanos (wrap_i64 (as_nanos d -ℤ as_nanos e))

-- The steady time of `now_with_utc`, from its two readings of the clock.
unfoldable pub now_with_utc : (ℤ → Bool) → SteadyTime → SteadyTime → Option SteadyTime
now_with_utc represents m0 m1 =
    let diff = sub_time m1 m0 in add_diff represents m0 (from_nanos (quot (as_nanos diff) 2))
