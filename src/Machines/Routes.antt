-- ===== src/Machines/Routes.antt =====
-- The dialog and the backend agree on the routes of a node.
use head_control.Common.{
  length, ap, Bool, true, false, not, ◌&&◌, ◌||◌, List, [], ◌∷◌, ◌≡◌, refl, arith, any, all, some,
  if◌then◌else◌,
}
use head_control.Text.{Text, includes}
use head_control.Text.Equal.{includes-append, text_eq_iff}
use head_control.Api.{Node}
use head_control.Format.{is_exit_route, exit_routes, node_is_exit_node, subnet_routes_of, or_nil}
use head_control.Machines.{
  merged_routes, RouteRequest, all_subnet, route_changes, route_request, same_route_set, set_routes,
}
use head_control.Machines.RouteLists.{
  exit_v4, exit_v6, any-is_exit_route, includes-approved, includes-approve, includes-revoke,
  includes-exit_routes, includes-expand_exit, same_route_set_refl, includes-listed,
  includes-merged_routes, exit_v4-is_exit_route, exit_v6-is_exit_route,
}

module _ (n : Node) (selected : List Text) (exit : Bool) where
  abbrev request : RouteRequest
  request = route_request n selected exit

  includes-approve_request :
      (r : Text)
      → includes r request.approve ≡ (
          if is_exit_route r
          then not (node_is_exit_node n) && exit
          else includes r (all_subnet n)
            && (not (includes r (or_nil n.approved_routes)) && includes r selected))
  unfolding route_request includes
  includes-approve_request r =
      let was = (subnet_routes_of n).approved in
      ground (
        arith,
        includes-append r (route_changes was selected (all_subnet n)).0
            (if not (node_is_exit_node n) && exit then exit_routes else []),
        includes-approve r was selected (all_subnet n),
        includes-listed n r,
        includes-approved n r,
        includes-exit_routes r,
      )

  includes-revoke_request :
      (r : Text)
      → includes r request.revoke ≡ (
          if is_exit_route r
          then node_is_exit_node n && not exit
          else includes r (all_subnet n)
            && (includes r (or_nil n.approved_routes) && not (includes r selected)))
  unfolding route_request includes
  includes-revoke_request r =
      let was = (subnet_routes_of n).approved in
      ground (
        arith,
        includes-append r (route_changes was selected (all_subnet n)).1
            (if node_is_exit_node n && not exit then exit_routes else []),
        includes-revoke r was selected (all_subnet n),
        includes-listed n r,
        includes-approved n r,
        includes-exit_routes r,
      )

  -- What the backend makes of the request.
  abbrev full : List Text
  full = merged_routes (or_nil n.approved_routes) request.approve request.revoke

  any-approve_request : any is_exit_route request.approve ≡ (not (node_is_exit_node n) && exit)
  any-approve_request = ground (
    arith,
    any-is_exit_route request.approve,
    includes-approve_request exit_v4,
    includes-approve_request exit_v6,
    exit_v4-is_exit_route,
    exit_v6-is_exit_route,
  )

  any-revoke_request : any is_exit_route request.revoke ≡ (node_is_exit_node n && not exit)
  any-revoke_request = ground (
    arith,
    any-is_exit_route request.revoke,
    includes-revoke_request exit_v4,
    includes-revoke_request exit_v6,
    exit_v4-is_exit_route,
    exit_v6-is_exit_route,
  )

  includes-full :
      (r : Text)
      → includes r full ≡ (
          if is_exit_route r
          then if exit
            then includes r (or_nil n.approved_routes) || not (node_is_exit_node n)
            else includes r (or_nil n.approved_routes) && not (node_is_exit_node n)
          else includes r (all_subnet n) && includes r selected)
  includes-full r = ground (
    arith,
    includes-merged_routes r (or_nil n.approved_routes) request.approve request.revoke,
    includes-expand_exit r request.approve,
    includes-expand_exit r request.revoke,
    includes-approve_request r,
    includes-revoke_request r,
    any-approve_request,
    any-revoke_request,
    includes-listed n r,
  )

  any-full : any is_exit_route full ≡ exit
  unfolding node_is_exit_node
  any-full = ground (
    arith,
    any-is_exit_route full,
    any-is_exit_route (or_nil n.approved_routes),
    includes-full exit_v4,
    includes-full exit_v6,
    exit_v4-is_exit_route,
    exit_v6-is_exit_route,
  )

-- The backend takes the dialog's request for a node that has not changed, and makes the node an
-- exit node exactly where the dialog says so, with exactly the listed routes approved that are
-- checked.
pub set_routes-route_request :
    (n : Node) (selected : List Text) (exit : Bool)
    → (full : List Text) × (set_routes (or_nil n.approved_routes) (route_request n selected exit)
        ≡ some full)
      × (any is_exit_route full ≡ exit)
      × ((r : Text)
          → is_exit_route r ≡ false
          → includes r full ≡ (includes r (all_subnet n) && includes r selected))
unfolding set_routes route_request
set_routes-route_request n selected exit = (
  full n selected exit,
  rw (same_route_set_refl (or_nil n.approved_routes)) refl,
  any-full n selected exit,
  λ r h. ground (arith, includes-full n selected exit r),
)

all-includes :
    (r : Text) (xs ys : List Text)
    → all (λ y. includes y xs) ys ≡ true
    → includes r ys ≡ true
    → includes r xs ≡ true
unfolding all includes
all-includes r xs [] h i = absurd (ground arith)
all-includes r xs (y ∷ ys) h i =
    ground (arith, all-includes r xs ys, text_eq_iff y r, ap (λ s. includes s xs))

-- Where the backend takes a request, the routes that the page has seen as approved are as many as
-- those of the node, and each of them is still approved.
pub set_routes-expected :
    (approved full : List Text) (req : RouteRequest)
    → set_routes approved req ≡ some full
    → (length req.expected_approved ≡ length approved)
      × ((r : Text) → includes r req.expected_approved ≡ true → includes r approved ≡ true)
unfolding set_routes same_route_set
set_routes-expected approved full req h =
    (ground arith, λ r i. all-includes r approved req.expected_approved (ground arith) i)
