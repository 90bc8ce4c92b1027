-- ===== src/Qos/Laws.antt =====
-- A QoS profile through the policies of RustDDS and back (src/qos.rs).
use ros2_client.Base.{
  ℕ, ◌+◌, ◌*◌, ◌/◌, ◌%◌, ◌^◌, ◌<◌, false, true, Option, none, some, ◌≡◌, ◌↔◌, refl, arith, ap,
}
use ros2_client.Base.Int.{pos, wrap_i32, wrap_i64}
use ros2_client.Qos.{
  Reliability, best_effort, reliable, Durability, volatile, transient_local, History, keep_last,
  keep_all, Liveliness, automatic, manual_by_topic, StdDuration, QosProfile, as_nanos, from_nanos,
  at_least_zero, DdsDuration, to_dds_durability, to_dds_history, of_dds_reliability,
  of_dds_durability, of_dds_history, to_dds_duration, from_dds_duration, to_dds_reliability,
  to_dds_liveliness, of_dds_liveliness, to_policies, from_policies,
}

-- A depth that an i32 holds.
abbrev pub Fits : History → Type 0
Fits (keep_last depth) = depth < 2 ^ 31
Fits keep_all = Unit

at_least_zero-wrap_i32 : (n : ℕ) → (at_least_zero (wrap_i32 (pos n)) ≡ n) ↔ (n < 2 ^ 31)
at_least_zero-wrap_i32 n = ground arith

depth_of : History → ℕ
depth_of (keep_last n) = n
depth_of keep_all = 0

history_iff : (h : History) → (of_dds_history (some (to_dds_history h)) ≡ h) ↔ Fits h
unfolding depth_of
history_iff keep_all = (λ e. tt, λ f. refl)
history_iff (keep_last n) = (
  λ e. (at_least_zero-wrap_i32 n).0 (ap depth_of e),
  λ f. ap keep_last ((at_least_zero-wrap_i32 n).1 f),
)

from_nanos-as_nanos : (d : StdDuration) → d.nanos < 1000000000 → from_nanos (as_nanos d) ≡ d
unfolding as_nanos from_nanos
from_nanos-as_nanos d h =
    let s : (d.secs * 1000000000 + d.nanos) / 1000000000 ≡ d.secs = omega (arith, h) in
    let n : (d.secs * 1000000000 + d.nanos) % 1000000000 ≡ d.nanos = omega (arith, h) in
    λ i. record { secs = s i; nanos = n i }

module _ {D : Type 0} (t : DdsDuration D) where
  -- A duration of std that RustDDS does not take for the infinite one and gives back in nanoseconds.
  abbrev pub Keeps : Option StdDuration → Type 0
  Keeps none = Unit
  Keeps (some d) =
      let kept = t.of_nanos (wrap_i64 (pos (as_nanos d))) in
      (d.nanos < 1000000000)
      × (t.equal kept t.infinite ≡ false)
      × (t.to_nanoseconds kept ≡ pos (as_nanos d))

  from-to_dds_duration :
      (o : Option StdDuration)
      → t.equal t.infinite t.infinite ≡ true
      → Keeps o
      → from_dds_duration t (to_dds_duration t o) ≡ o
  unfolding to_dds_duration from_dds_duration
  from-to_dds_duration none e h = rw e refl
  from-to_dds_duration (some d) e (below, finite, kept) =
      rw (finite, kept, from_nanos-as_nanos d below) refl

  of-to_dds_liveliness :
      (l : Liveliness) (lease : Option StdDuration)
      → t.equal t.infinite t.infinite ≡ true
      → Keeps lease
      → of_dds_liveliness t (some (to_dds_liveliness t l lease)) ≡ (l, lease)
  of-to_dds_liveliness automatic lease e h = rw (from-to_dds_duration lease e h) refl
  of-to_dds_liveliness manual_by_topic lease e h = rw (from-to_dds_duration lease e h) refl

  reliability_back : (r : Reliability) → of_dds_reliability (some (to_dds_reliability t r)) ≡ r
  reliability_back best_effort = refl
  reliability_back reliable = refl

  durability_back : (d : Durability) → of_dds_durability (some (to_dds_durability d)) ≡ d
  durability_back volatile = refl
  durability_back transient_local = refl

  -- A profile comes back from the policies of RustDDS if and only if an i32 holds the depth of its
  -- history, where RustDDS gives back its durations in nanoseconds and the infinite one equals itself.
  pub from_policies-to_policies :
      (p : QosProfile)
      → t.equal t.infinite t.infinite ≡ true
      → Keeps p.deadline
      → Keeps p.lifespan
      → Keeps p.liveliness_lease
      → (from_policies t (to_policies t p) ≡ p) ↔ Fits p.history
  unfolding to_policies from_policies
  from_policies-to_policies p e deadline lifespan lease = (
    λ same. (history_iff p.history).0 (ap (λ q. q.history) same),
    λ fits i.
        let l = of-to_dds_liveliness p.liveliness p.liveliness_lease e lease in
        record {
          reliability = reliability_back p.reliability i;
          durability = durability_back p.durability i;
          history = (history_iff p.history).1 fits i;
          deadline = from-to_dds_duration p.deadline e deadline i;
          lifespan = from-to_dds_duration p.lifespan e lifespan i;
          liveliness = (l i).0;
          liveliness_lease = (l i).1;
        },
  )
