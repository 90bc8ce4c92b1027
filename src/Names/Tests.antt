-- ===== src/Names/Tests.antt =====
-- The theorems on names at concrete names, and runs of the constructors.
use ros2_client.Base.{true, false, ◌∷◌, [], ◌≡◌, ◌↔◌, refl}
use ros2_client.Base.Text.{Text, codes}
use ros2_client.Names.Chars.{ok, err, bad_slash, find}
use ros2_client.Names.NodeName.{NodeName, check_namespace, new_node_name}
use ros2_client.Names.NodeName.Laws.{base_ok, namespace_ok, new_node_name_iff}
use ros2_client.Names.Name.{Name, parse, display}
use ros2_client.Names.Name.Laws.{IsName, parse-display, display-parse}

abbrev robot : Text
robot = codes "/robot1"

abbrev talker : NodeName
talker = record { namespace = robot; base_name = codes "talker" }

abbrev root_node : NodeName
root_node = record { namespace = codes "/"; base_name = codes "talker" }

abbrev scan : Name
scan = record {
  base_name = codes "scan";
  preceeding_tokens = codes "front" ∷ codes "laser" ∷ [];
  absolute = true;
}

abbrev chatter : Name
chatter = record { base_name = codes "chatter"; preceeding_tokens = []; absolute = false }

scan-IsName : IsName scan
scan-IsName = record { base_ok = refl; tokens_ok = (refl, (refl, tt)) }

talker_accepted : new_node_name robot (codes "talker") ≡ ok talker
unfolding new_node_name check_namespace find
talker_accepted = refl

slash_refused :
    new_node_name (codes "/robot1/") (codes "talker")
    ≡ err (bad_slash (codes "/robot1/") (codes "talker"))
unfolding new_node_name check_namespace find
slash_refused = refl

new_node_name_iff_example :
    (new_node_name robot (codes "talker") ≡ ok talker)
    ↔ ((base_ok (codes "talker") ≡ true) × (namespace_ok robot ≡ true) × (talker ≡ talker))
new_node_name_iff_example = new_node_name_iff robot (codes "talker") talker

parse-display_example : parse (display scan) ≡ ok scan
parse-display_example = parse-display scan scan-IsName

display-parse_example : IsName scan × (display scan ≡ display scan)
display-parse_example = display-parse (display scan) scan (parse-display scan scan-IsName)
