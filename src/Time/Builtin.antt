-- ===== src/Time/Builtin.antt =====
-- src/builtin_interfaces.rs: `Time` with its wire form `repr::Time`, and `Duration`. An i32 or i64 is
-- an integer; what leaves its range wraps around, as in a release build.
pub mod Laws
pub mod Tests
use ros2_client.Base.{ℕ, ◌+◌, ◌^◌, ◌-◌, ◌≡◌, ltb, if◌then◌else◌}
use ros2_client.Base.Int.{
  ℤ, pos, negsuc, ◌+ℤ◌, ◌-ℤ◌, ◌*ℤ◌, ltb_ℤ, leb_ℤ, quot, rem, i32_max, i32_min, wrap_i32, wrap_i64,
  wrap_u32,
}

-- 1_000_000_000
abbrev pub nanos_per_sec : ℕ
nanos_per_sec = 1000000000

-- `builtin_interfaces::Time`.
pub record Time : Type 0 where
  pub nanos_since_epoch : ℤ

-- `repr::Time`.
pub record Repr : Type 0 where
  pub sec : ℤ
  pub nanosec : ℕ

-- `Time::from_nanos`, `Time::to_nanos`.
abbrev pub time_from_nanos : ℤ → Time
time_from_nanos n = record { nanos_since_epoch = n }

abbrev pub time_to_nanos : Time → ℤ
time_to_nanos t = t.nanos_since_epoch

-- `impl From<repr::Time> for Time`: the arithmetic is in i64.
unfoldable pub time_from_repr : Repr → Time
time_from_repr rt =
    time_from_nanos (wrap_i64 (wrap_i64 (nanos_per_sec *ℤ rt.sec) +ℤ pos rt.nanosec))

-- The `if` on `quot` of the branch with a remainder that is not negative.
saturate_sec : ℤ → ℤ
saturate_sec q =
    if ltb_ℤ i32_max q then i32_max else if ltb_ℤ q i32_min then i32_min else wrap_i32 q

-- The `if` on `quot` of the branch with a negative remainder.
saturate_negative : ℤ → ℤ
saturate_negative q = if leb_ℤ i32_min q then wrap_i32 q else i32_min

-- `impl From<Time> for repr::Time`.
unfoldable pub repr_from_time : Time → Repr
unfolding saturate_sec saturate_negative
repr_from_time time =
    let t = time_to_nanos time in
    let q = quot t nanos_per_sec in
    let r = rem t nanos_per_sec in
    if leb_ℤ (pos 0) r then record { sec = saturate_sec q; nanosec = wrap_u32 r } else record {
      sec = wrap_i32 (saturate_negative q -ℤ pos 1);
      nanosec = wrap_u32 (pos nanos_per_sec +ℤ r);
    }

-- `builtin_interfaces::Duration`.
pub record Duration : Type 0 where
  pub sec : ℤ
  pub nanosec : ℕ

-- `Duration::from_nanos`.
unfoldable pub duration_from_nanos : ℤ → Duration
duration_from_nanos nanos =
    let q = quot nanos nanos_per_sec in
    let r = rem nanos nanos_per_sec in
    if leb_ℤ (pos 0) r
    then if ltb_ℤ i32_max q
      then record { sec = i32_max; nanosec = 2 ^ 32 - 1 }
      else if leb_ℤ q i32_min
      then record { sec = i32_min; nanosec = 0 }
      else record { sec = wrap_i32 q; nanosec = wrap_u32 r }
    else if leb_ℤ q i32_min
    then record { sec = i32_min; nanosec = 0 }
    else record { sec = wrap_i32 (q +ℤ pos 1); nanosec = wrap_u32 (pos nanos_per_sec +ℤ r) }

-- `Duration::from_millis`: the product is in i64.
unfoldable pub duration_from_millis : ℤ → Duration
duration_from_millis millis = duration_from_nanos (wrap_i64 (1000000 *ℤ millis))

-- `Duration::to_nanos`.
unfoldable pub duration_to_nanos : Duration → ℤ
duration_to_nanos d = wrap_i64 (wrap_i64 (nanos_per_sec *ℤ d.sec) +ℤ pos d.nanosec)
