-- ===== src/Machines/Tests.antt =====
-- The machines page at concrete inputs.
use head_control.Common.{true, false, ◌&&◌, List, [], ◌∷◌, ◌≡◌, refl, any, all, some, none}
use head_control.Text.{Text, codes, includes, text_eq, join}
use head_control.Api.{Node}
use head_control.Format.{Browser, is_exit_route, or_nil}
use head_control.Machines.{
  NodeState, Filter, by_state, by_tag, by_feature, filter_kind, filter_matches, search_matches,
  node_matches, all_subnet, route_request, RouteRequest, set_routes,
}
use head_control.Machines.Routes.{set_routes-route_request}
use head_control.Machines.Filters.{node_matches-alternatives}

-- A router with one approved and one pending route, which advertises an exit node.
abbrev router : Node
router = record {
  id = codes "7";
  machine_key = none;
  node_key = none;
  disco_key = none;
  ip_addresses = some (codes "100.64.0.7" ∷ []);
  name = some (codes "router");
  user = none;
  last_seen = none;
  expiry = none;
  pre_auth_key = none;
  created_at = none;
  register_method = none;
  given_name = some (codes "router-1");
  online = true;
  approved_routes = some (codes "10.0.0.0/24" ∷ []);
  available_routes =
      some (codes "10.0.1.0/24" ∷ codes "10.0.0.0/24" ∷ codes "0.0.0.0/0" ∷ codes "::/0" ∷ []);
  subnet_routes = some (codes "10.0.0.0/24" ∷ []);
  tags = some (codes "tag:router" ∷ []);
}

-- The pending route is chosen, the approved one is not, and the exit node is switched on.
abbrev chosen : List Text
chosen = codes "10.0.1.0/24" ∷ []

set_routes-route_request_example :
    (full : List Text) × (set_routes
        (or_nil router.approved_routes)
        (route_request router chosen true)
      ≡ some full)
    × (any is_exit_route full ≡ true)
    × ((r : Text)
        → is_exit_route r ≡ false
        → includes r full ≡ (includes r (all_subnet router) && includes r chosen))
set_routes-route_request_example = set_routes-route_request router chosen true

abbrev small_request : RouteRequest
small_request = record {
  approve = codes "10.0.1.0/24" ∷ [];
  revoke = codes "10.0.0.0/24" ∷ [];
  expected_approved = codes "10.0.0.0/24" ∷ [];
}

taken : set_routes (codes "10.0.0.0/24" ∷ []) small_request ≡ some (codes "10.0.1.0/24" ∷ [])
unfolding set_routes text_eq
taken = refl

abbrev browser : Browser
browser = record {
  now = 1000;
  time_of = λ s. some 2000;
  date_text = λ s. s;
  date_time_text = λ s. s;
  lower_case = λ s. s;
}

abbrev filters : List Filter
filters =
    by_state NodeState.offline
    ∷ by_tag (codes "tag:router")
    ∷ by_state NodeState.online
    ∷ by_feature (codes "tagged")
    ∷ []

node_matches-alternatives_example : node_matches browser router (codes "100.64") filters ≡ (
    search_matches browser router (codes "100.64")
    && all
        (λ f.
          any
            (λ g. text_eq (filter_kind g) (filter_kind f) && filter_matches browser router g)
            filters)
        filters)
node_matches-alternatives_example =
    node_matches-alternatives browser router (codes "100.64") filters

shown : node_matches browser router (codes "100.64") filters ≡ true
unfolding node_matches join filter_matches
shown = refl
