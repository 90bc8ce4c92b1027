-- ===== src/Qos.antt =====
-- src/qos.rs: the QoS profile, and its conversions from and to the policies of RustDDS. The durations of
-- RustDDS are a parameter. `std::time::Duration` has seconds in u64 and nanoseconds below a second.
pub mod Laws
pub mod Tests
use ros2_client.Base.{ℕ, ◌+◌, ◌*◌, ◌/◌, ◌%◌, Bool, Option, none, some, if◌then◌else◌}
use ros2_client.Base.Int.{ℤ, pos, negsuc, wrap_i32, wrap_i64}

pub data Reliability : Type 0 where
  best_effort reliable : Reliability

pub data Durability : Type 0 where
  volatile transient_local : Durability

pub data History : Type 0 where
  keep_last : ℕ → History
  keep_all : History

pub data Liveliness : Type 0 where
  automatic manual_by_topic : Liveliness

-- `std::time::Duration`.
pub record StdDuration : Type 0 where
  pub secs : ℕ
  pub nanos : ℕ

pub record QosProfile : Type 0 where
  pub reliability : Reliability
  pub durability : Durability
  pub history : History
  pub deadline : Option StdDuration
  pub lifespan : Option StdDuration
  pub liveliness : Liveliness
  pub liveliness_lease : Option StdDuration

-- `Duration::as_nanos` and `Duration::from_nanos` of std.
unfoldable pub as_nanos : StdDuration → ℕ
as_nanos d = d.secs * 1000000000 + d.nanos

unfoldable pub from_nanos : ℕ → StdDuration
from_nanos n = record { secs = n / 1000000000; nanos = n % 1000000000 }

-- `max(0)` and a cast.
abbrev pub at_least_zero : ℤ → ℕ
at_least_zero (pos n) = n
at_least_zero (negsuc n) = 0

-- The policies of RustDDS, over its durations.
pub data DdsReliability (D : Type 0) : Type 0 where
  dds_best_effort : DdsReliability D
  dds_reliable : D → DdsReliability D

pub data DdsDurability : Type 0 where
  dds_volatile dds_transient_local dds_transient dds_persistent : DdsDurability

pub data DdsHistory : Type 0 where
  dds_keep_last : ℤ → DdsHistory
  dds_keep_all : DdsHistory

pub data DdsLiveliness (D : Type 0) : Type 0 where
  dds_automatic dds_manual_by_participant dds_manual_by_topic : D → DdsLiveliness D

pub record QosPolicies (D : Type 0) : Type 0 where
  pub reliability : Option (DdsReliability D)
  pub durability : Option DdsDurability
  pub history : Option DdsHistory
  pub liveliness : Option (DdsLiveliness D)
  pub deadline : Option D
  pub lifespan : Option D

-- `rustdds::Duration`: its constant INFINITE, 100 ms, `from_nanos` and `to_nanoseconds` on i64, and `==`.
pub record DdsDuration (D : Type 0) : Type 0 where
  pub infinite : D
  pub default_max_blocking : D
  pub of_nanos : ℤ → D
  pub to_nanoseconds : D → ℤ
  pub equal : D → D → Bool

-- `From<&QosProfile> for QosPolicies`, by field.
abbrev pub to_dds_durability : Durability → DdsDurability
to_dds_durability volatile = dds_volatile
to_dds_durability transient_local = dds_transient_local

abbrev pub to_dds_history : History → DdsHistory
to_dds_history (keep_last depth) = dds_keep_last (wrap_i32 (pos depth))
to_dds_history keep_all = dds_keep_all

-- `From<&QosPolicies> for QosProfile`, by field.
abbrev pub of_dds_reliability : {D : Type 0} → Option (DdsReliability D) → Reliability
of_dds_reliability (some (dds_reliable max_blocking_time)) = reliable
of_dds_reliability _ = best_effort

abbrev pub of_dds_durability : Option DdsDurability → Durability
of_dds_durability (some dds_volatile) = volatile
of_dds_durability none = volatile
of_dds_durability (some _) = transient_local

abbrev pub of_dds_history : Option DdsHistory → History
of_dds_history (some dds_keep_all) = keep_all
of_dds_history (some (dds_keep_last depth)) = keep_last (at_least_zero depth)
of_dds_history none = keep_last 1

module _ {D : Type 0} (t : DdsDuration D) where
  unfoldable pub to_dds_duration : Option StdDuration → D
  to_dds_duration none = t.infinite
  to_dds_duration (some d) = t.of_nanos (wrap_i64 (pos (as_nanos d)))

  unfoldable pub from_dds_duration : D → Option StdDuration
  from_dds_duration d =
      if t.equal d t.infinite then none else some (from_nanos (at_least_zero (t.to_nanoseconds d)))

  abbrev pub to_dds_reliability : Reliability → DdsReliability D
  to_dds_reliability best_effort = dds_best_effort
  to_dds_reliability reliable = dds_reliable t.default_max_blocking

  abbrev pub to_dds_liveliness : Liveliness → Option StdDuration → DdsLiveliness D
  to_dds_liveliness automatic lease = dds_automatic (to_dds_duration lease)
  to_dds_liveliness manual_by_topic lease = dds_manual_by_topic (to_dds_duration lease)

  abbrev pub of_dds_liveliness : Option (DdsLiveliness D) → Liveliness × Option StdDuration
  of_dds_liveliness (some (dds_manual_by_topic lease)) = (manual_by_topic, from_dds_duration lease)
  of_dds_liveliness (some (dds_automatic lease)) = (automatic, from_dds_duration lease)
  of_dds_liveliness (some (dds_manual_by_participant lease)) = (automatic, from_dds_duration lease)
  of_dds_liveliness none = (automatic, none)

  abbrev pub of_dds_bound : Option D → Option StdDuration
  of_dds_bound none = none
  of_dds_bound (some d) = from_dds_duration d

  unfoldable pub to_policies : QosProfile → QosPolicies D
  to_policies p = record {
    reliability = some (to_dds_reliability p.reliability);
    durability = some (to_dds_durability p.durability);
    history = some (to_dds_history p.history);
    liveliness = some (to_dds_liveliness p.liveliness p.liveliness_lease);
    deadline = some (to_dds_duration p.deadline);
    lifespan = some (to_dds_duration p.lifespan);
  }

  unfoldable pub from_policies : QosPolicies D → QosProfile
  from_policies q = record {
    reliability = of_dds_reliability q.reliability;
    durability = of_dds_durability q.durability;
    history = of_dds_history q.history;
    deadline = of_dds_bound q.deadline;
    lifespan = of_dds_bound q.lifespan;
    liveliness = (of_dds_liveliness q.liveliness).0;
    liveliness_lease = (of_dds_liveliness q.liveliness).1;
  }
