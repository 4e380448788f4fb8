-- ===== src/Routes/Actions.antt =====
-- What the buttons of the routes page achieve.
use head_control.Common.{
  Bool, true, false, not, List, [], ◌≡◌, refl, arith, any, some, if◌then◌else◌,
}
use head_control.Text.{Text, includes, text_eq}
use head_control.Api.{Node}
use head_control.Format.{is_exit_route, exit_routes, node_is_exit_node, or_nil}
use head_control.Machines.{merged_routes, set_routes}
use head_control.Machines.RouteLists.{
  includes-merged_routes, includes-expand_exit, any-is_exit_route, same_route_set_refl,
  includes-exit_routes, exit_v4, exit_v6, exit_v4-is_exit_route, exit_v6-is_exit_route,
}
use head_control.Routes.{exit_action, prefix_action}

module _ (n : Node) where
  abbrev now_approved : List Text
  now_approved = or_nil n.approved_routes

  abbrev after_exit : List Text
  after_exit = merged_routes now_approved (exit_action n).approve (exit_action n).revoke

  any-exit_routes : any is_exit_route exit_routes ≡ true
  unfolding any is_exit_route includes text_eq
  any-exit_routes = refl

  no_exit : any is_exit_route [] ≡ false
  unfolding any
  no_exit = refl

  includes-after_exit :
      (r : Text)
      → includes r after_exit
        ≡ (if is_exit_route r then not (node_is_exit_node n) else includes r now_approved)
  unfolding exit_action includes
  includes-after_exit r =
      let added = (exit_action n).approve in
      let removed = (exit_action n).revoke in
      ground (
        arith,
        includes-merged_routes r now_approved added removed,
        includes-expand_exit r added,
        includes-expand_exit r removed,
        includes-exit_routes r,
        any-exit_routes,
        no_exit,
      )

  includes-after_prefix :
      (p r : Text) (approved : Bool)
      → is_exit_route p ≡ false
      → includes r (
          merged_routes now_approved
            (prefix_action n p approved).approve
            (prefix_action n p approved).revoke)
        ≡ (if text_eq p r then not approved else includes r now_approved)
  unfolding prefix_action includes any
  includes-after_prefix p r approved h =
      let added = (prefix_action n p approved).approve in
      let removed = (prefix_action n p approved).revoke in
      ground (
        arith,
        includes-merged_routes r now_approved added removed,
        includes-expand_exit r added,
        includes-expand_exit r removed,
      )

-- The button of an exit node flips whether the node, if it has not changed, is an exit node, and
-- leaves its other routes as they are.
pub set_routes-exit_action :
    (n : Node)
    → (full : List Text) × (set_routes (or_nil n.approved_routes) (exit_action n) ≡ some full)
      × (any is_exit_route full ≡ not (node_is_exit_node n))
      × ((r : Text)
          → is_exit_route r ≡ false
          → includes r full ≡ includes r (or_nil n.approved_routes))
unfolding set_routes exit_action
set_routes-exit_action n = (
  after_exit n,
  ground (arith, same_route_set_refl (or_nil n.approved_routes)),
  ground (
    arith,
    any-is_exit_route (after_exit n),
    includes-after_exit n exit_v4,
    includes-after_exit n exit_v6,
    exit_v4-is_exit_route,
    exit_v6-is_exit_route,
  ),
  λ r h. ground (arith, includes-after_exit n r),
)

-- The button of a prefix that is not an exit route revokes it where the page shows it as approved
-- and approves it where it does not, and leaves the other routes of a node that has not changed.
pub set_routes-prefix_action :
    (n : Node) (prefix : Text) (approved : Bool)
    → is_exit_route prefix ≡ false
    → (full : List Text) × (set_routes (or_nil n.approved_routes) (prefix_action n prefix approved)
        ≡ some full)
      × ((r : Text)
          → includes r full
            ≡ (if text_eq prefix r then not approved else includes r (or_nil n.approved_routes)))
unfolding set_routes prefix_action
set_routes-prefix_action n prefix approved h = (
  merged_routes (or_nil n.approved_routes) (prefix_action n prefix approved).approve
      (prefix_action n prefix approved).revoke,
  ground (arith, same_route_set_refl (or_nil n.approved_routes)),
  λ r. includes-after_prefix n prefix r approved h,
)
