-- ===== src/Param/Tests.antt =====
-- The theorems on parameters at a node `/n` with a validator that counts its calls and rejects
-- strings, and at servers with short queues.
use ros2_client.Base.{ℕ, ◌+◌, true, false, List, [], ◌∷◌, none, some, ◌≡◌, refl, arith}
use ros2_client.Base.Int.{ℤ, pos}
use ros2_client.Base.Text.{Text, codes}
use ros2_client.Base.Ordered.{get, insert}
use ros2_client.Param.Value.{
  ParameterValue, boolean, integer, string, Parameter, SetResult, ok, err,
}
use ros2_client.Param.Store.{text_order, sim_time_name}
use ros2_client.Param.Store.Replay.{replay}
use ros2_client.Param.Node.{
  Options, NodeState, set_parameter, new_node, Event, sets, undeclares, requests, clock,
  set_request, run, delivered, check_all, validate_parameter_on_set, execute_parameter_set_actions,
}
use ros2_client.Param.Node.Set.{SetOutcome, set_parameter-SetOutcome}
use ros2_client.Param.Node.History.{replay-delivered}
use ros2_client.Param.Node.Threads.{
  Move, begins_set, begins_undeclare, advances, move, moves, begin_set, begin_undeclare, advance,
  advance_nth,
}
use ros2_client.Param.Node.Threads.Laws.{moves_undeclared, moves-set_parameter}
use ros2_client.Param.Node.Threads.Flag.{moves-new_node-IsSynced}
use ros2_client.Param.Node.Sync.{IsSynced}
use ros2_client.Param.Zenoh.{Queue, ParameterServer, client_set_request}
use ros2_client.Param.Zenoh.Server.{rounds, answered, rounds_answer}

abbrev validator : ℕ → Text → ParameterValue → ℕ × SetResult
validator n name (string s) = (n + 1, err (codes "no strings"))
validator n name value = (n + 1, ok)

abbrev options : Options ℕ
options = record {
  allow_undeclared_parameters = false;
  parameter_validator = some validator;
  parameter_set_action = none;
  node_name = codes "/n";
}

abbrev gain : Text
gain = codes "gain"

abbrev gain_is : ℤ → Parameter
gain_is i = record { name = gain; value = integer i }

abbrev gain_node : NodeState ℕ
gain_node = record {
  parameters = (gain, integer (pos 1)) ∷ [];
  use_sim_time = false;
  sim_time = pos 0;
  events = [];
  app = 0;
}

abbrev history : List Event
history =
    sets (pos 5) gain (string (codes "high"))
    ∷ sets (pos 6) gain (integer (pos 2))
    ∷ clock (pos 7)
    ∷ requests (pos 8) (set_request (client_set_request (gain_is (pos 3) ∷ [])))
    ∷ undeclares (pos 9) gain
    ∷ []

set_parameter-SetOutcome_example :
    SetOutcome options true gain
      (integer (pos 2))
      gain_node
      (set_parameter options (λ s. pos 5) gain (integer (pos 2)) gain_node).0
      (set_parameter options (λ s. pos 5) gain (integer (pos 2)) gain_node).1
unfolding get
set_parameter-SetOutcome_example =
    set_parameter-SetOutcome options (λ s. pos 5) gain (integer (pos 2)) gain_node

replay-delivered_example :
    replay
      (delivered (λ n. true) 0 (run options gain_node history).events)
      ((gain, integer (pos 1)) ∷ [])
    ≡ some (run options gain_node history).parameters
unfolding replay delivered
replay-delivered_example =
    replay-delivered options ((gain, integer (pos 1)) ∷ []) (λ n. true) gain_node history
      (λ n. refl) refl

-- While `gain` is set, another thread undeclares it and a third one tries to set `bias`; an event is lost.
abbrev tangled : List Move
tangled =
    begins_set gain (integer (pos 2))
    ∷ advances 0 true (pos 1)
    ∷ begins_undeclare gain
    ∷ begins_set (codes "bias") (integer (pos 3))
    ∷ advances 0 false (pos 2)
    ∷ advances 0 true (pos 3)
    ∷ advances 0 true (pos 4)
    ∷ advances 0 true (pos 5)
    ∷ []

moves_undeclared_example :
    get
      (codes "bias")
      (moves options (record { shared = gain_node; calls = [] }) tangled).shared.parameters
    ≡ none
unfolding get
moves_undeclared_example =
    moves_undeclared options (codes "bias") (record { shared = gain_node; calls = [] }) tangled refl
      refl tt

-- A set of `use_sim_time` with an undeclaration of `gain` in between.
abbrev flag_set : List Move
flag_set =
    begins_set sim_time_name (boolean true)
    ∷ advances 0 true (pos 1)
    ∷ advances 0 true (pos 2)
    ∷ begins_undeclare gain
    ∷ advances 1 true (pos 3)
    ∷ []

moves-new_node-IsSynced_example :
    IsSynced
      (moves options
        (record { shared = (new_node options (gain_is (pos 1) ∷ []) 0).0; calls = [] })
        flag_set).shared
unfolding moves move advance_nth advance begin_set begin_undeclare new_node get check_all insert
    validate_parameter_on_set execute_parameter_set_actions
moves-new_node-IsSynced_example =
    moves-new_node-IsSynced options (gain_is (pos 1) ∷ []) 0 flag_set
      (λ e. tt, (tt, (tt, (tt, (tt, tt))))) (tt, (tt, tt))

moves-set_parameter_example :
    moves options
      (record { shared = gain_node; calls = [] })
      (begins_set gain (integer (pos 2))
        ∷ advances 0 true (pos 9)
        ∷ advances 0 true (pos 9)
        ∷ advances 0 true (pos 9)
        ∷ advances 0 true (pos 9)
        ∷ [])
    ≡ record {
      shared = (set_parameter options (λ s. pos 9) gain (integer (pos 2)) gain_node).0;
      calls = [];
    }
moves-set_parameter_example = moves-set_parameter options (pos 9) gain (integer (pos 2)) gain_node

abbrev gain_server : ParameterServer
gain_server = record { node_fqn = codes "/n"; store = []; events = [] }

abbrev count : ℕ → ℕ → ℕ × ℕ
count r s = (s + r, s)

abbrev queue : Queue ℕ
queue = some (1, 10) ∷ none ∷ some (2, 20) ∷ []

rounds_answer_example :
    (answered count (rounds count 2 queue 0).1 ≡ 1 ∷ 2 ∷ []) × ((rounds count 2 queue 0).2 ≡ [])
rounds_answer_example = rounds_answer count 1 queue 0 (omega arith)
