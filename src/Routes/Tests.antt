-- ===== src/Routes/Tests.antt =====
-- The routes page at concrete inputs.
use head_control.Common.{true, false, not, List, [], ◌∷◌, ◌≡◌, ◌↔◌, any, map, keep, All, some, none}
use head_control.Text.{Text, codes, includes}
use head_control.Dict.{get}
use head_control.Api.{Node}
use head_control.Format.{is_exit_route, node_is_exit_node, or_nil}
use head_control.Machines.{set_routes}
use head_control.Routes.{advertiser, prefix_rows, attention, exit_action}
use head_control.Routes.Rows.{is_listed, get-prefix_rows}
use head_control.Routes.Attention.{IsQuiet, attention-nil}
use head_control.Routes.Actions.{set_routes-exit_action}

-- A node that advertises some routes and has some approved.
abbrev node : Text → List Text → List Text → Node
node id available approved = record {
  id = id;
  machine_key = none;
  node_key = none;
  disco_key = none;
  ip_addresses = none;
  name = some id;
  user = none;
  last_seen = none;
  expiry = none;
  pre_auth_key = none;
  created_at = none;
  register_method = none;
  given_name = none;
  online = true;
  approved_routes = some approved;
  available_routes = some available;
  subnet_routes = none;
  tags = none;
}

abbrev lan : Text
lan = codes "10.0.0.0/24"

abbrev pair : List Node
pair =
    node (codes "1") (lan ∷ codes "0.0.0.0/0" ∷ []) [] ∷ node (codes "2") (lan ∷ []) (lan ∷ []) ∷ []

get-prefix_rows_example :
    or_nil (get lan (prefix_rows pair [])) ≡ map (λ n. advertiser n lan) (keep (is_listed lan) pair)
get-prefix_rows_example = get-prefix_rows lan pair

attention-nil_example : (attention pair ≡ []) ↔ All IsQuiet pair
attention-nil_example = attention-nil pair

abbrev waiting : Node
waiting = node (codes "1") (lan ∷ codes "0.0.0.0/0" ∷ []) []

set_routes-exit_action_example :
    (full : List Text) × (set_routes (or_nil waiting.approved_routes) (exit_action waiting)
      ≡ some full)
    × (any is_exit_route full ≡ not (node_is_exit_node waiting))
    × ((r : Text)
        → is_exit_route r ≡ false
        → includes r full ≡ includes r (or_nil waiting.approved_routes))
set_routes-exit_action_example = set_routes-exit_action waiting
