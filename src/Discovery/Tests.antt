-- ===== src/Discovery/Tests.antt =====
-- The theorems on discovery at a node `/talker` beside a node `/listener`.
use ros2_client.Base.{
  ℕ, ◌<◌, Bool, true, false, List, [], ◌∷◌, some, contains, ◌≡◌, ◌⊎◌, inl, refl, All,
}
use ros2_client.Base.Text.{codes}
use ros2_client.Base.Ordered.{nat_key, get, insert}
use ros2_client.Names.NodeName.{fully_qualified_name}
use ros2_client.Discovery.Matches.{
  StatusEvent, remote_reader_matched, reader_lost, Matches, update_matches, add_match, run,
  is_matched, is_matched-run,
}
use ros2_client.Discovery.Wait
use ros2_client.Discovery.Context
use ros2_client.Discovery.Wait.{
  WaitState, starting, pending, resolved, matched, Step, records, announces, drains, checks, step,
  run-IsAwake,
}
use ros2_client.Discovery.Status.{Sender}
use ros2_client.Discovery.Context.{
  ContextInner, NodeEndpoints, generate_node_info, Op, adds_reader, suppresses, other_tells,
  adds_writer,
}
use ros2_client.Discovery.Context.Announce.{IsAnnounced, IsTold, IsApart, run-IsAnnounced}

abbrev none_yet : Matches
none_yet = record { readers_to_remote_writers = []; writers_to_remote_readers = [] }

abbrev events : List StatusEvent
events =
    remote_reader_matched 1 10
    ∷ reader_lost 10
    ∷ remote_reader_matched 1 10
    ∷ remote_reader_matched 1 11
    ∷ reader_lost 11
    ∷ []

is_matched-run_example : is_matched 1 10 (run none_yet events).writers_to_remote_readers ≡ true
is_matched-run_example = is_matched-run 1 10 events none_yet

abbrev fresh : WaitState
fresh = record { matches = none_yet; announcing = false; queued = 0; phase = starting }

abbrev steps : List Step
steps = drains ∷ checks ∷ records (remote_reader_matched 1 10) ∷ []

run-IsAwake_example :
    let s' = ros2_client.Discovery.Wait.run 1 fresh steps in
    (s'.phase ≡ pending → (0 < s'.queued) ⊎ (0 < (step 1 s' announces).queued))
    × ((ros2_client.Discovery.Wait.run 1 s' (drains ∷ checks ∷ [])).phase ≡ resolved)
unfolding matched get step update_matches add_match insert
run-IsAwake_example = run-IsAwake 1 fresh steps refl refl

abbrev senders : List (Sender ℕ)
senders =
    record { closed = true; queue = [] }
    ∷ record { closed = false; queue = 1 ∷ [] }
    ∷ record { closed = true; queue = 1 ∷ [] }
    ∷ record { closed = false; queue = 1 ∷ 2 ∷ 3 ∷ 4 ∷ 5 ∷ 6 ∷ 7 ∷ 8 ∷ [] }
    ∷ []

abbrev has_room : Sender ℕ → Bool
has_room s = contains 9 s.queue

abbrev talker : NodeEndpoints
talker = record {
  node_name = record { namespace = codes "/"; base_name = codes "talker" };
  readers = [];
  writers = [];
  parameter_events_writer = 100;
  rosout_writer = some 101;
  suppress = true;
}

abbrev listener : NodeEndpoints
listener = record talker {
  node_name = record { namespace = codes "/"; base_name = codes "listener" };
  suppress = false;
}

abbrev context : ContextInner
context = record { participant = 1; node_writer = 2; local_nodes = []; published = [] }

abbrev ops : List Op
ops = adds_reader 7 ∷ suppresses false ∷ other_tells listener ∷ adds_writer 8 ∷ []

ops-IsApart : All (IsApart (fully_qualified_name talker.node_name)) ops
unfolding fully_qualified_name
ops-IsApart = (tt, (tt, ((λ e. cc), (tt, tt))))

run-IsAnnounced_example :
    IsAnnounced (ros2_client.Discovery.Context.run (talker, context) ops)
    × IsTold (ros2_client.Discovery.Context.run (talker, context) ops).1
run-IsAnnounced_example = run-IsAnnounced talker context ops refl (inl (refl, refl)) ops-IsApart
