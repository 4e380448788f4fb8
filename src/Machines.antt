-- ===== src/Machines.antt =====
-- The machines page, frontend/src/pages/MachinesPage.tsx: its filters and the dialog that edits
-- the routes of a node, with what the backend does with the request of the dialog
-- (handleSetRoutes of internal/server/handlers_nodes.go).
pub mod RouteLists
pub mod Routes
pub mod Filters
mod Tests
use head_control.Common.{
  ◌*◌, ltb, ◌==◌, Bool, true, false, not, ◌&&◌, ◌||◌, List, [], ◌∷◌, ◌++◌, Option, none, some, map,
  length, keep, any, all, if◌then◌else◌,
}
use head_control.Text.{contains, Text, codes, includes, text_eq, starts_with, join}
use head_control.Text.Sort.{sort}
use head_control.Dict.{Dict, get, set}
use head_control.Api.{Node, RegisterMethod, method_text}
use head_control.Acl.Ports.{dedup}
use head_control.Acl.Selector.{truthy}
use head_control.Format.{
  Browser, is_expired, expires_within, day, user_label, exit_routes, node_is_exit_node,
  node_advertises_exit, subnet_routes_of, or_nil,
}

pub data NodeState : Type 0 where
  online : NodeState
  offline : NodeState
  expired : NodeState
  expires_soon : NodeState

pub data Filter : Type 0 where
  by_state : NodeState → Filter
  by_user : Text → Filter
  by_tag : Text → Filter
  by_feature : Text → Filter
  by_registered : Text → Filter

abbrev text_or_nil : Option Text → Text
text_or_nil none = []
text_or_nil (some s) = s

unfoldable pub hay : Browser → Node → Text
hay b n = b.lower_case (
    join (codes " ") (
      text_or_nil n.given_name
      ∷ text_or_nil n.name
      ∷ (or_nil n.ip_addresses ++ (user_label n.user ∷ or_nil n.tags))))

unfoldable pub search_matches : Browser → Node → Text → Bool
unfolding text_eq contains hay
search_matches b n search = text_eq search [] || contains (hay b n) (b.lower_case search)

-- The group of a filter: each feature is a group of its own.
abbrev pub filter_kind : Filter → Text
filter_kind (by_state v) = codes "state"
filter_kind (by_user v) = codes "user"
filter_kind (by_tag v) = codes "tag"
filter_kind (by_feature v) = codes "is" ++ (codes ":" ++ v)
filter_kind (by_registered v) = codes "registered"

abbrev pub is_empty_list {ℓ} : {A : Type ℓ} → List A → Bool
is_empty_list [] = true
is_empty_list (x ∷ xs) = false

abbrev is_ephemeral : Node → Bool
is_ephemeral n = elim n.pre_auth_key [ none ↦ false | some k ↦ k.ephemeral ]

unfoldable pub feature_matches : Node → Text → Bool
unfolding text_eq
feature_matches n v =
    if text_eq v (codes "exit-node")
    then node_is_exit_node n
    else if text_eq v (codes "subnet-router")
    then not (is_empty_list (subnet_routes_of n).advertised)
    else if text_eq v (codes "ephemeral")
    then is_ephemeral n
    else if text_eq v (codes "tagged")
    then not (is_empty_list (or_nil n.tags))
    else if text_eq v (codes "pending-routes")
    then not (is_empty_list (subnet_routes_of n).pending)
      || (node_advertises_exit n && not (node_is_exit_node n))
    else if text_eq v (codes "never-expires")
    then is_empty_list (text_or_nil n.expiry)
    else true

abbrev method_or_nil : Option RegisterMethod → Text
method_or_nil none = []
method_or_nil (some m) = method_text m

unfoldable pub filter_matches : Browser → Node → Filter → Bool
unfolding includes text_eq contains feature_matches
filter_matches b n (by_state online) = n.online
filter_matches b n (by_state offline) = not n.online
filter_matches b n (by_state expired) = is_expired b n.expiry
filter_matches b n (by_state expires_soon) = expires_within b n.expiry (7 * day)
filter_matches b n (by_user v) = text_eq (user_label n.user) v
filter_matches b n (by_tag v) = includes v (or_nil n.tags)
filter_matches b n (by_registered v) = contains (b.lower_case (method_or_nil n.register_method)) v
filter_matches b n (by_feature v) = feature_matches n v

-- The map from each kind to its filters.
unfoldable pub filter_groups : List Filter → Dict (List Filter) → Dict (List Filter)
unfolding get set
filter_groups [] groups = groups
filter_groups (f ∷ fs) groups =
    let k = filter_kind f in filter_groups fs (set k (or_nil (get k groups) ++ f ∷ []) groups)

unfoldable pub node_matches : Browser → Node → Text → List Filter → Bool
unfolding search_matches filter_groups all any
node_matches b n search filters =
    search_matches b n search && all (λ g. any (filter_matches b n) g.1) (filter_groups filters [])

-- What the dialog asks the backend for.
pub record RouteRequest : Type 0 where
  pub approve : List Text
  pub revoke : List Text
  pub expected_approved : List Text

-- The routes that the dialog lists.
unfoldable pub all_subnet : Node → List Text
unfolding sort dedup
all_subnet n =
    let routes = subnet_routes_of n in sort (dedup (routes.advertised ++ routes.approved) [])

-- A click on the check box of a route.
unfoldable pub toggle_route : Text → Bool → List Text → List Text
unfolding includes text_eq keep
toggle_route r checked approved =
    if checked
    then if includes r approved then approved else approved ++ r ∷ []
    else keep (λ s. not (text_eq s r)) approved

-- The loop over the listed routes.
unfoldable pub route_changes : List Text → List Text → List Text → List Text × List Text
unfolding includes
route_changes approved selected [] = ([], [])
route_changes approved selected (r ∷ rs) =
    let rest = route_changes approved selected rs in
    let was = includes r approved in
    let is = includes r selected in
    (if not was && is then r ∷ rest.0 else rest.0, if was && not is then r ∷ rest.1 else rest.1)

unfoldable pub route_request : Node → List Text → Bool → RouteRequest
unfolding route_changes all_subnet
route_request n selected exit =
    let changes = route_changes (subnet_routes_of n).approved selected (all_subnet n) in
    let initial = node_is_exit_node n in
    record {
      approve = changes.0 ++ (if not initial && exit then exit_routes else []);
      revoke = changes.1 ++ (if initial && not exit then exit_routes else []);
      expected_approved = or_nil n.approved_routes;
    }

-- Exit routes travel as a pair.
unfoldable pub expand_exit : List Text → List Text
unfolding includes
expand_exit list =
    if includes (codes "0.0.0.0/0") list || includes (codes "::/0") list
    then list ++ exit_routes
    else list

unfoldable pub same_route_set : List Text → List Text → Bool
unfolding includes all
same_route_set xs ys = length xs == length ys && all (λ y. includes y xs) ys

-- The approved routes with those of one list added and those of another taken away. The backend
-- collects them in a map, whose order is forgotten, and sorts them.
unfoldable pub merged_routes : List Text → List Text → List Text → List Text
unfolding expand_exit sort dedup includes keep
merged_routes approved approve revoke =
    let desired =
      keep (λ r. not (includes r (expand_exit revoke))) (approved ++ expand_exit approve) in
    sort (dedup desired [])

-- What the backend sets as the approved routes of a node, from those that the node has now;
-- `none` is the answer 409.
unfoldable pub set_routes : List Text → RouteRequest → Option (List Text)
unfolding same_route_set merged_routes
set_routes approved req =
    if same_route_set approved req.expected_approved
    then some (merged_routes approved req.approve req.revoke)
    else none
