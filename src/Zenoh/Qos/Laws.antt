-- ===== src/Zenoh/Qos/Laws.antt =====
-- The round trip of QoS profiles, and the characters of their compact text.
use ros2_client.Base.{
  ℕ, ◌≤◌, ◌<◌, ◌≡◌, ◌≢◌, ◌⊎◌, refl, arith, false, List, [], ◌∷◌, Option, none, some, All,
  All-append, is_empty,
}
use ros2_client.Base.Text.{Text, Lacks, split-join, split_once, split_once-append, join}
use ros2_client.Base.Decimal.{to_string, parse_uint-to_string, to_string-Lacks, to_string-ne-nil}
use ros2_client.Zenoh.Qos.{
  Reliability, best_effort, reliable, Durability, volatile, transient_local, History, keep_last,
  keep_all, Liveliness, automatic, manual_by_topic, StdDuration, QosProfile, reliability_field,
  durability_field, liveliness_field, history_fields, duration_fields, comma, groups_of, encode_qos,
  decoded, u64_max, u32_max, nanos_per_sec, new_duration, parse_duration, split_in_three,
  decode_groups, with_groups, decode_qos, decode_history, decode_reliability, decode_durability,
  decode_liveliness,
}

-- A duration as `std::time::Duration` keeps it, if there is one.
abbrev pub DurationFits : Option StdDuration → Type 0
DurationFits none = Unit
DurationFits (some d) = (d.secs ≤ u64_max) × (d.nanos < nanos_per_sec)

abbrev pub DepthFits : History → Type 0
DepthFits (keep_last depth) = depth ≤ u64_max
DepthFits keep_all = Unit

-- The fields are in the ranges of their types.
pub record IsProfile (q : QosProfile) : Type 0 where
  pub depth_fits : DepthFits q.history
  pub deadline_fits : DurationFits q.deadline
  pub lifespan_fits : DurationFits q.lifespan
  pub lease_fits : DurationFits q.liveliness_lease

-- No digit, and none of `,`.
abbrev IsOutside : ℕ → Type 0
IsOutside c = ((c < b'0') ⊎ (b'9' < c)) × (c ≢ b',')

duration_fields-Lacks :
    (c : ℕ) (d : Option StdDuration)
    → (c < b'0') ⊎ (b'9' < c)
    → Lacks c (duration_fields d).0 × Lacks c (duration_fields d).1
unfolding duration_fields
duration_fields-Lacks c none h = (tt, tt)
duration_fields-Lacks c (some d) h = (to_string-Lacks c d.secs h, to_string-Lacks c d.nanos h)

comma-Lacks : (c : ℕ) (a b : Text) → c ≢ b',' → Lacks c a → Lacks c b → Lacks c (comma (a, b))
comma-Lacks c a b ne ha hb = All-append _ a (b',' ∷ b) ha (λ e. ne (ground arith), hb)

reliability-Lacks :
    (c : ℕ) (r : Reliability) → (c < b'0') ⊎ (b'9' < c) → Lacks c (reliability_field r)
reliability-Lacks c reliable h = tt
reliability-Lacks c best_effort h = (λ e. ground arith, tt)

durability-Lacks : (c : ℕ) (d : Durability) → (c < b'0') ⊎ (b'9' < c) → Lacks c (durability_field d)
durability-Lacks c volatile h = tt
durability-Lacks c transient_local h = (λ e. ground arith, tt)

liveliness-Lacks : (c : ℕ) (l : Liveliness) → (c < b'0') ⊎ (b'9' < c) → Lacks c (liveliness_field l)
liveliness-Lacks c automatic h = tt
liveliness-Lacks c manual_by_topic h = (λ e. ground arith, tt)

history-Lacks : (c : ℕ) (y : History) → (c < b'0') ⊎ (b'9' < c) → Lacks c (history_fields y).0
history-Lacks c (keep_last depth) h = tt
history-Lacks c keep_all h = (λ e. ground arith, tt)

groups_of-Lacks : (c : ℕ) (q : QosProfile) → IsOutside c → All (Lacks c) (groups_of q)
unfolding groups_of
groups_of-Lacks c q (h, ne) =
    let dl = duration_fields-Lacks c q.deadline h in
    let ls = duration_fields-Lacks c q.lifespan h in
    let lease = duration_fields-Lacks c q.liveliness_lease h in
    (
      reliability-Lacks c q.reliability h,
      (
        durability-Lacks c q.durability h,
        (
          comma-Lacks c _ _ ne (history-Lacks c q.history h) (to_string-Lacks c _ h),
          (
            comma-Lacks c _ _ ne dl.0 dl.1,
            (
              comma-Lacks c _ _ ne ls.0 ls.1,
              (
                comma-Lacks c _ _ ne (liveliness-Lacks c q.liveliness h)
                    (comma-Lacks c _ _ ne lease.0 lease.1),
                tt,
              ),
            ),
          ),
        ),
      ),
    )

join-Lacks : (c d : ℕ) (ts : List Text) → d ≢ c → All (Lacks c) ts → Lacks c (join d ts)
join-Lacks c d [] ne h = tt
join-Lacks c d (t ∷ []) ne (h, _) = h
join-Lacks c d (t ∷ u ∷ ts) ne (h, hs) =
    All-append _ t (d ∷ join d (u ∷ ts)) h (ne, join-Lacks c d (u ∷ ts) ne hs)

-- The compact text holds no slash: it is one chunk of a key expression.
pub encode_qos-Lacks : (q : QosProfile) → Lacks b'/' (encode_qos q)
unfolding encode_qos
encode_qos-Lacks q =
    join-Lacks b'/' b':' (groups_of q) (omega arith) (groups_of-Lacks b'/' q (omega arith))

parse_duration_lem :
    (d : Option StdDuration)
    → DurationFits d
    → parse_duration (duration_fields d).0 (duration_fields d).1 ≡ decoded d
unfolding parse_duration duration_fields new_duration
parse_duration_lem none h = refl
parse_duration_lem (some d) (s, n) = ground (
  arith,
  parse_uint-to_string u64_max d.secs s,
  parse_uint-to_string u32_max d.nanos (omega arith),
  to_string-ne-nil d.secs,
)

decode_reliability-field : (r : Reliability) → decode_reliability (reliability_field r) ≡ decoded r
decode_reliability-field reliable = refl
decode_reliability-field best_effort = refl

decode_durability-field : (d : Durability) → decode_durability (durability_field d) ≡ decoded d
decode_durability-field volatile = refl
decode_durability-field transient_local = refl

decode_liveliness-field : (l : Liveliness) → decode_liveliness (liveliness_field l) ≡ decoded l
decode_liveliness-field automatic = refl
decode_liveliness-field manual_by_topic = refl

decode_history-fields :
    (y : History) → decode_history (history_fields y).0 (history_fields y).1 ≡ decoded y
decode_history-fields (keep_last depth) = refl
decode_history-fields keep_all = refl

depth_fits_lem : (y : History) → DepthFits y → (history_fields y).1 ≤ u64_max
depth_fits_lem (keep_last depth) h = h
depth_fits_lem keep_all h = omega arith

split_once-comma : (a b : Text) → Lacks b',' a → split_once b',' (comma (a, b)) ≡ some (a, b)
split_once-comma a b h = split_once-append b',' a b h

split_in_three_lem :
    (s rest a b c : Text)
    → split_once b',' s ≡ some (a, rest)
    → split_once b',' rest ≡ some (b, c)
    → split_in_three s ≡ (a, b, c)
unfolding split_in_three
split_in_three_lem s rest a b c h k = ground (arith, h, k)

split_in_three-comma :
    (a b c : Text)
    → Lacks b',' a
    → Lacks b',' b
    → split_in_three (comma (a, comma (b, c))) ≡ (a, b, c)
split_in_three-comma a b c ha hb =
    split_in_three_lem _ (comma (b, c)) a b c (split_once-comma a (comma (b, c)) ha)
      (split_once-comma b c hb)

is_empty-to_string : (n : ℕ) → is_empty (to_string n) ≡ false
is_empty-to_string n = ground (arith, to_string-ne-nil n)

-- A profile whose depth and durations are in the ranges of their types is read back from its compact
-- text, with no field lost.
pub decode_qos-encode_qos : (q : QosProfile) → IsProfile q → decode_qos (encode_qos q) ≡ decoded q
unfolding decode_qos encode_qos with_groups decode_groups groups_of
decode_qos-encode_qos q v =
    let y = q.history in
    rw
      (
        split-join b':' _ _ (groups_of-Lacks b':' q (omega arith)),
        decode_reliability-field q.reliability,
        decode_durability-field q.durability,
        split_once-comma (history_fields y).0 (to_string (history_fields y).1)
            (history-Lacks b',' y (omega arith)),
        is_empty-to_string (history_fields y).1,
        parse_uint-to_string u64_max (history_fields y).1 (depth_fits_lem y v.depth_fits),
        decode_history-fields y,
        split_once-comma (duration_fields q.deadline).0 (duration_fields q.deadline).1
            (duration_fields-Lacks b',' q.deadline (omega arith)).0,
        parse_duration_lem q.deadline v.deadline_fits,
        split_once-comma (duration_fields q.lifespan).0 (duration_fields q.lifespan).1
            (duration_fields-Lacks b',' q.lifespan (omega arith)).0,
        parse_duration_lem q.lifespan v.lifespan_fits,
        split_in_three-comma (liveliness_field q.liveliness) (duration_fields q.liveliness_lease).0
            (duration_fields q.liveliness_lease).1
            (liveliness-Lacks b',' q.liveliness (omega arith))
            (duration_fields-Lacks b',' q.liveliness_lease (omega arith)).0,
        decode_liveliness-field q.liveliness,
        parse_duration_lem q.liveliness_lease v.lease_fits,
      )
      refl
