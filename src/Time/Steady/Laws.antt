-- ===== src/Time/Steady/Laws.antt =====
-- Differences of steady times: their order, their nanoseconds, and the two operators on times
-- (src/steady_time.rs).
use Prim.Native.Nat.{compare, Ordering}
use ros2_client.Base.{
  ℕ, ◌+◌, ◌-◌, ◌/◌, ◌^◌, ◌<◌, suc, zero, Bool, true, false, if◌then◌else◌, ltb, ◌≡◌, ◌≢◌, refl,
  arith, Bool-cases, inl, inr,
}
use ros2_client.Base.Int.{
  ℤ, pos, negsuc, pos_part, neg_part, ◌+ℤ◌, ◌-ℤ◌, leb_ℤ, wrap_i64_id, i64_min, i64_max, ◌≤ℤ◌, ◌<ℤ◌,
  int_laws, -ℤ_parts,
}
use ros2_client.Time.Steady.{
  SteadyTime, TimeDiff, checked, sub_time, sub_diff, add_diff, from_nanos, as_nanos, negated,
  cmp_signed, cmp, add_diffs, now_with_utc,
}

-- An i64 of nanoseconds survives as a difference, but for the smallest i64.
pub as_nanos-from_nanos : (n : ℤ) → i64_min <ℤ n → n ≤ℤ i64_max → as_nanos (from_nanos n) ≡ n
unfolding as_nanos from_nanos
as_nanos-from_nanos (pos n) low high = ground arith
as_nanos-from_nanos (negsuc n) low high = ground arith

-- The sum of two differences has the sum of their nanoseconds, if that fits an i64 and is not the
-- smallest.
pub as_nanos-add_diffs :
    (d e : TimeDiff)
    → i64_min <ℤ as_nanos d +ℤ as_nanos e
    → as_nanos d +ℤ as_nanos e ≤ℤ i64_max
    → as_nanos (add_diffs d e) ≡ as_nanos d +ℤ as_nanos e
unfolding add_diffs
as_nanos-add_diffs d e low high =
    rw (wrap_i64_id (as_nanos d +ℤ as_nanos e) (omega arith, high))
      (as_nanos-from_nanos (as_nanos d +ℤ as_nanos e) low high)

-- Zero is not negative, and the magnitude fits an i64.
pub record IsTimeDiff (d : TimeDiff) : Type 0 where
  pub signed : d.is_negative ≡ true → d.duration ≢ 0
  pub small : d.duration < 2 ^ 63

-- The comparison of integers.
abbrev pub compare_ℤ : ℤ → ℤ → Ordering
compare_ℤ a b = compare (pos_part a + neg_part b) (pos_part b + neg_part a)

cmp_signed_lem :
    (r s : Bool) (m n : ℕ)
    → (r ≡ true → m ≢ 0)
    → (s ≡ true → n ≢ 0)
    → cmp_signed r s m n
      ≡ compare_ℤ (if r then negated m else pos m) (if s then negated n else pos n)
cmp_signed_lem false false m n h k = ground arith
cmp_signed_lem false true m zero h k = absurd (k refl refl)
cmp_signed_lem false true m (suc n) h k = ground arith
cmp_signed_lem true false zero n h k = absurd (h refl refl)
cmp_signed_lem true false (suc m) n h k = ground arith
cmp_signed_lem true true zero n h k = absurd (h refl refl)
cmp_signed_lem true true (suc m) zero h k = absurd (k refl refl)
cmp_signed_lem true true (suc m) (suc n) h k = ground arith

-- The order of differences is the order of their nanoseconds, for differences whose magnitude fits
-- an i64 and where zero is not negative.
pub cmp-as_nanos :
    (d e : TimeDiff) → IsTimeDiff d → IsTimeDiff e → cmp d e ≡ compare_ℤ (as_nanos d) (as_nanos e)
unfolding cmp as_nanos
cmp-as_nanos d e v w =
    let small_d : ltb (2 ^ 63 - 1) d.duration ≡ false = ground (arith, v.small) in
    let small_e : ltb (2 ^ 63 - 1) e.duration ≡ false = ground (arith, w.small) in
    rw (small_d, small_e)
      (cmp_signed_lem d.is_negative e.is_negative d.duration e.duration v.signed w.signed)

later : (t u : ℤ) → leb_ℤ t u ≡ true → pos (pos_part (u -ℤ t)) ≡ u -ℤ t
unfolding ◌-ℤ◌
later t u h = ground arith

there_and_back : (t u : ℤ) → t +ℤ (u -ℤ t) ≡ u
there_and_back t u = grind int_laws

earlier : (t u : ℤ) → leb_ℤ t u ≡ false → t -ℤ pos (pos_part (t -ℤ u)) ≡ u
unfolding ◌-ℤ◌
earlier t u h = ground arith

earlier_back : (t u : ℤ) → leb_ℤ t u ≡ false → t +ℤ pos (pos_part (t -ℤ u)) ≡ t -ℤ (u -ℤ t)
unfolding ◌-ℤ◌ ◌+ℤ◌
earlier_back t u h = ground arith

-- The operators on times have their branches swapped: taking the difference from `t` to `u` away
-- from `t` gives `u`, and adding it to `t` goes as far the other way, each where the platform
-- represents the result.
pub swapped_operators :
    (represents : ℤ → Bool) (t u : SteadyTime)
    → (sub_diff represents t (sub_time u t) ≡ checked represents u.instant)
      × (add_diff represents t (sub_time u t)
          ≡ checked represents (t.instant -ℤ (u.instant -ℤ t.instant)))
unfolding sub_time sub_diff add_diff
swapped_operators represents t u = elim (Bool-cases (leb_ℤ t.instant u.instant)) [
  | inl h ↦ rw (h, later t.instant u.instant h, there_and_back t.instant u.instant) (refl, refl)
  | inr h ↦ rw (h, earlier t.instant u.instant h, earlier_back t.instant u.instant h) (refl, refl)
]

-- If its second reading of the clock is not before the first and their difference fits an i64, the
-- steady time of `now_with_utc` is not between the two, but before the first by half of the
-- difference, where the platform represents that instant.
pub now_with_utc_early :
    (represents : ℤ → Bool) (m0 m1 : SteadyTime)
    → m0.instant ≤ℤ m1.instant
    → m1.instant -ℤ m0.instant ≤ℤ i64_max
    → now_with_utc represents m0 m1
      ≡ checked represents (m0.instant -ℤ pos (pos_part (m1.instant -ℤ m0.instant) / 2))
unfolding now_with_utc add_diff sub_time as_nanos from_nanos
now_with_utc_early represents m0 m1 h k =
    let ordered : leb_ℤ m0.instant m1.instant ≡ true = ground arith in
    let small : ltb (2 ^ 63 - 1) (pos_part (m1.instant -ℤ m0.instant)) ≡ false =
      ground (arith, -ℤ_parts m1.instant m0.instant) in
    rw (ordered, small) refl
