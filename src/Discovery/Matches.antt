-- ===== src/Discovery/Matches.antt =====
-- The matched endpoints of a node (src/node.rs): the two maps that the spinner keeps by the events of
-- the domain participant. A GUID is a number, since only its identity and order are used. A BTreeSet
-- is a BTreeMap of units.
use ros2_client.Base.{
  ℕ, Bool, false, not, ◌&&◌, ◌||◌, List, [], ◌∷◌, none, some, ◌==◌, if◌then◌else◌, length, ◌≡◌,
  refl, arith, ◌∙◌, ap, inl, inr, Option-cases, ==_iff,
}
use ros2_client.Base.Ordered.{
  Map, nat_key, get, insert, remove, contains_key, get-insert, get-remove,
}

abbrev pub Guid : Type 0
Guid = ℕ

abbrev pub GuidSet : Type 0
GuidSet = Map Guid (Unit {0})

-- `DomainParticipantStatusEvent` of RustDDS, as far as the spinner reads it.
pub data StatusEvent : Type 0 where
  remote_reader_matched : Guid → Guid → StatusEvent
  remote_writer_matched : Guid → Guid → StatusEvent
  reader_lost : Guid → StatusEvent
  writer_lost : Guid → StatusEvent
  other_status : StatusEvent

-- `entry(local).and_modify(insert).or_insert(singleton)`.
unfoldable pub add_match : Guid → Guid → Map Guid GuidSet → Map Guid GuidSet
add_match local remote m = elim (get local m) [
  | none ↦ insert local (insert remote tt []) m
  | some remotes ↦ insert local (insert remote tt remotes) m
]

-- The loop over `values_mut` that removes a lost endpoint.
unfoldable pub drop_remote : Guid → Map Guid GuidSet → Map Guid GuidSet
drop_remote guid [] = []
drop_remote guid ((local, remotes) ∷ m) = (local, remove guid remotes) ∷ drop_remote guid m

pub record Matches : Type 0 where
  pub readers_to_remote_writers : Map Guid GuidSet
  pub writers_to_remote_readers : Map Guid GuidSet

-- The `match dp_status_event` of `Spinner::spin`.
unfoldable pub update_matches : StatusEvent → Matches → Matches
update_matches (remote_reader_matched local_writer remote_reader) m = record m {
  writers_to_remote_readers = add_match local_writer remote_reader m.writers_to_remote_readers;
}
update_matches (remote_writer_matched local_reader remote_writer) m = record m {
  readers_to_remote_writers = add_match local_reader remote_writer m.readers_to_remote_writers;
}
update_matches (reader_lost guid) m = record m {
  writers_to_remote_readers = drop_remote guid m.writers_to_remote_readers;
}
update_matches (writer_lost guid) m = record m {
  readers_to_remote_writers = drop_remote guid m.readers_to_remote_writers;
}
update_matches other_status m = m

abbrev pub run : Matches → List StatusEvent → Matches
run m [] = m
run m (e ∷ es) = run (update_matches e m) es

-- The count of `get_publisher_count` and `get_subscription_count`: 0 for an endpoint that is unknown.
unfoldable pub match_count : Guid → Map Guid GuidSet → ℕ
match_count local m = elim (get local m) [ none ↦ 0 | some remotes ↦ length remotes ]

abbrev pub get_publisher_count : Guid → Matches → ℕ
get_publisher_count subscription m = match_count subscription m.readers_to_remote_writers

abbrev pub get_subscription_count : Guid → Matches → ℕ
get_subscription_count publisher m = match_count publisher m.writers_to_remote_readers

-- Whether a remote endpoint is among the matches of a local one.
abbrev pub is_matched : Guid → Guid → Map Guid GuidSet → Bool
is_matched local remote m = elim (get local m) [
  | none ↦ false
  | some remotes ↦ contains_key remote remotes
]

abbrev remotes_of : Guid → Map Guid GuidSet → GuidSet
remotes_of local m = elim (get local m) [ none ↦ [] | some remotes ↦ remotes ]

get-add_match :
    (l local remote : Guid) (m : Map Guid GuidSet)
    → get l (add_match local remote m)
      ≡ (if local == l then some (insert remote tt (remotes_of local m)) else get l m)
unfolding add_match
get-add_match l local remote m = elim (Option-cases (get local m)) [
  | inl e ↦ rw (e, add_match, remotes_of) (get-insert local l (insert remote tt []) m)
  | inr (s, e) ↦ rw (e, add_match, remotes_of) (get-insert local l (insert remote tt s) m)
]

is_matched-add_match :
    (l r local remote : Guid) (m : Map Guid GuidSet)
    → is_matched l r (add_match local remote m) ≡ ((local == l && remote == r) || is_matched l r m)
unfolding get
is_matched-add_match l r local remote m =
    rw (get-add_match l local remote m, is_matched)
      (ground (arith, get-insert remote r tt (remotes_of local m), ==_iff local l))

is_matched-drop_remote :
    (l r guid : Guid) (m : Map Guid GuidSet)
    → is_matched l r (drop_remote guid m) ≡ (not (guid == r) && is_matched l r m)
unfolding drop_remote get
is_matched-drop_remote l r guid [] = ground arith
is_matched-drop_remote l r guid ((local, s) ∷ m) =
    ground (arith, is_matched-drop_remote l r guid m, get-remove guid r s)

-- What the last event on a local writer and a remote reader said of their match.
abbrev pub last_said : Guid → Guid → List StatusEvent → Bool → Bool
last_said l r [] b = b
last_said l r (remote_reader_matched local remote ∷ es) b =
    last_said l r es ((local == l && remote == r) || b)
last_said l r (reader_lost guid ∷ es) b = last_said l r es (not (guid == r) && b)
last_said l r (remote_writer_matched local remote ∷ es) b = last_said l r es b
last_said l r (writer_lost guid ∷ es) b = last_said l r es b
last_said l r (other_status ∷ es) b = last_said l r es b

-- After any events, a remote reader is among the matches of a local writer if and only if the last
-- event on them was their match, or there was none and it was before.
pub is_matched-run :
    (l r : Guid) (es : List StatusEvent) (m : Matches)
    → is_matched l r (run m es).writers_to_remote_readers
      ≡ last_said l r es (is_matched l r m.writers_to_remote_readers)
unfolding update_matches
is_matched-run l r [] m = refl
is_matched-run l r (remote_reader_matched local remote ∷ es) m =
    is_matched-run l r es (update_matches (remote_reader_matched local remote) m)
    ∙ ap (last_said l r es) (is_matched-add_match l r local remote m.writers_to_remote_readers)
is_matched-run l r (reader_lost guid ∷ es) m =
    is_matched-run l r es (update_matches (reader_lost guid) m)
    ∙ ap (last_said l r es) (is_matched-drop_remote l r guid m.writers_to_remote_readers)
is_matched-run l r (remote_writer_matched local remote ∷ es) m =
    is_matched-run l r es (update_matches (remote_writer_matched local remote) m)
is_matched-run l r (writer_lost guid ∷ es) m =
    is_matched-run l r es (update_matches (writer_lost guid) m)
is_matched-run l r (other_status ∷ es) m = is_matched-run l r es m
