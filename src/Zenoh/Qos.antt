-- ===== src/Zenoh/Qos.antt =====
-- src/zenoh_backend/qos_encoding.rs: the compact QoS text of liveliness tokens.
pub mod Laws
use ros2_client.Base.{
  ℕ, suc, ◌+◌, ◌/◌, ◌%◌, ◌^◌, ◌-◌, Bool, true, false, not, ◌&&◌, List, [], ◌∷◌, ◌++◌, Option, none,
  some, if◌then◌else◌, is_empty, ltb,
}
use ros2_client.Base.Text.{Text, codes, text_eq, split, split_once, join}
pub use ros2_client.Qos.{
  Reliability, best_effort, reliable, Durability, volatile, transient_local, History, keep_last,
  keep_all, Liveliness, automatic, manual_by_topic, StdDuration, QosProfile,
}
use ros2_client.Base.Decimal.{to_string, parse_uint}

-- The text of a field, which is empty for the default profile's value.
abbrev pub reliability_field : Reliability → Text
reliability_field reliable = []
reliability_field best_effort = codes "2"

abbrev pub durability_field : Durability → Text
durability_field volatile = []
durability_field transient_local = codes "1"

abbrev pub liveliness_field : Liveliness → Text
liveliness_field automatic = []
liveliness_field manual_by_topic = codes "3"

abbrev pub history_fields : History → Text × ℕ
history_fields (keep_last depth) = ([], depth)
history_fields keep_all = (codes "2", 0)

-- `duration_fields`.
unfoldable pub duration_fields : Option StdDuration → Text × Text
duration_fields none = ([], [])
duration_fields (some d) = (to_string d.secs, to_string d.nanos)

abbrev pub comma : Text × Text → Text
comma f = f.0 ++ b',' ∷ f.1

-- The six groups of `encode_qos`.
unfoldable pub groups_of : QosProfile → List Text
groups_of q =
    reliability_field q.reliability
    ∷ durability_field q.durability
    ∷ comma ((history_fields q.history).0, to_string (history_fields q.history).1)
    ∷ comma (duration_fields q.deadline)
    ∷ comma (duration_fields q.lifespan)
    ∷ comma (liveliness_field q.liveliness, comma (duration_fields q.liveliness_lease))
    ∷ []

-- `encode_qos`.
unfoldable pub encode_qos : QosProfile → Text
unfolding groups_of
encode_qos q = join b':' (groups_of q)

-- A decoded value, `Err(QosDecodeError)`, or the panic of `Duration::new`.
pub data Decoded (A : Type 0) : Type 0 where
  decoded : A → Decoded A
  malformed : Decoded A
  panicked : Decoded A

infixl 5 ◌>>=◌
abbrev pub ◌>>=◌ : {A B : Type 0} → Decoded A → (A → Decoded B) → Decoded B
decoded a >>= f = f a
malformed >>= f = malformed
panicked >>= f = panicked

-- `ok_or(QosDecodeError)`.
abbrev pub or_malformed : {A : Type 0} → Option A → Decoded A
or_malformed none = malformed
or_malformed (some a) = decoded a

abbrev pub u32_max : ℕ
u32_max = 2 ^ 32 - 1

abbrev pub u64_max : ℕ
u64_max = 2 ^ 64 - 1

-- 1_000_000_000
abbrev pub nanos_per_sec : ℕ
nanos_per_sec = 1000000000

-- `Duration::new`: whole seconds among the nanoseconds are carried over.
unfoldable pub new_duration : ℕ → ℕ → Decoded StdDuration
new_duration s ns =
    let total = s + ns / nanos_per_sec in
    if ltb u64_max total
    then panicked
    else decoded (record { secs = total; nanos = ns % nanos_per_sec })

-- `parse_duration`.
unfoldable pub parse_duration : Text → Text → Decoded (Option StdDuration)
parse_duration sec nsec = if is_empty sec && is_empty nsec then decoded none else do
  s ← or_malformed (parse_uint u64_max sec)
  ns ← or_malformed (parse_uint u32_max nsec)
  d ← new_duration s ns
  decoded (some d)

abbrev pub decode_reliability : Text → Decoded Reliability
decode_reliability t =
    if is_empty t
    then decoded reliable
    else if text_eq t (codes "1")
    then decoded reliable
    else if text_eq t (codes "2")
    then decoded best_effort
    else malformed

abbrev pub decode_durability : Text → Decoded Durability
decode_durability t =
    if is_empty t
    then decoded volatile
    else if text_eq t (codes "1")
    then decoded transient_local
    else if text_eq t (codes "2")
    then decoded volatile
    else malformed

abbrev pub decode_liveliness : Text → Decoded Liveliness
decode_liveliness t =
    if is_empty t
    then decoded automatic
    else if text_eq t (codes "1")
    then decoded automatic
    else if text_eq t (codes "3")
    then decoded manual_by_topic
    else malformed

abbrev pub decode_history : Text → ℕ → Decoded History
decode_history t depth =
    if is_empty t
    then decoded (keep_last depth)
    else if text_eq t (codes "1")
    then decoded (keep_last depth)
    else if text_eq t (codes "2")
    then decoded keep_all
    else malformed

-- `splitn(3, ',')`, with empty parts where there are none.
unfoldable pub split_in_three : Text → Text × Text × Text
split_in_three s = elim (split_once b',' s) [
  | none ↦ (s, [], [])
  | some (a, rest) ↦ elim (split_once b',' rest) [ none ↦ (a, rest, []) | some (b, c) ↦ (a, b, c) ]
]

-- The decoding of the six groups, in the order of the source.
unfoldable pub decode_groups : Text → Text → Text → Text → Text → Text → Decoded QosProfile
decode_groups g0 g1 g2 g3 g4 g5 = do
  rel ← decode_reliability g0
  dur ← decode_durability g1
  hist_parts ← or_malformed (split_once b',' g2)
  depth ←
      if is_empty hist_parts.1 then decoded 0 else or_malformed (parse_uint u64_max hist_parts.1)
  hist ← decode_history hist_parts.0 depth
  dl ← or_malformed (split_once b',' g3)
  deadline ← parse_duration dl.0 dl.1
  ls ← or_malformed (split_once b',' g4)
  lifespan ← parse_duration ls.0 ls.1
  let liv = split_in_three g5
  liveliness ← decode_liveliness liv.0
  lease ← parse_duration liv.1 liv.2
  decoded (record {
    reliability = rel;
    durability = dur;
    history = hist;
    deadline = deadline;
    lifespan = lifespan;
    liveliness = liveliness;
    liveliness_lease = lease;
  })

-- `groups.len() != 6` is an error.
unfoldable pub with_groups : List Text → Decoded QosProfile
with_groups (g0 ∷ g1 ∷ g2 ∷ g3 ∷ g4 ∷ g5 ∷ []) = decode_groups g0 g1 g2 g3 g4 g5
with_groups _ = malformed

-- `decode_qos`.
unfoldable pub decode_qos : Text → Decoded QosProfile
decode_qos s = with_groups (split b':' s)
