-- ===== src/Machines/RouteLists.antt =====
-- The lists of routes that the dialog and the backend work with, by their members.
use head_control.Common.{
  true, not, ◌&&◌, ◌||◌, List, [], ◌∷◌, ◌++◌, ◌≡◌, refl, arith, keep, any, all,
}
use head_control.Text.{Text, codes, includes, text_eq}
use head_control.Text.Equal.{includes-append, text_eq_iff, text_eq_refl}
use head_control.Text.Sort.{includes-sort}
use head_control.Acl.Ports.{dedup}
use head_control.Acl.Ports.Merge.{includes-dedup}
use head_control.Acl.Diff.Sections.{includes-keep-not}
use head_control.Api.{Node}
use head_control.Format.{is_exit_route, exit_routes, subnet_routes_of, or_nil}
use head_control.Machines.{merged_routes, all_subnet, route_changes, expand_exit, same_route_set}

abbrev pub exit_v4 : Text
exit_v4 = codes "0.0.0.0/0"

abbrev pub exit_v6 : Text
exit_v6 = codes "::/0"

is_exit_route_eq : (r : Text) → is_exit_route r ≡ (text_eq exit_v4 r || text_eq exit_v6 r)
unfolding is_exit_route includes
is_exit_route_eq r = ground arith

pub any-is_exit_route :
    (rs : List Text) → any is_exit_route rs ≡ (includes exit_v4 rs || includes exit_v6 rs)
unfolding any includes
any-is_exit_route [] = refl
any-is_exit_route (r ∷ rs) = ground (
  arith,
  is_exit_route_eq r,
  any-is_exit_route rs,
  text_eq_iff exit_v4 r,
  text_eq_iff r exit_v4,
  text_eq_iff exit_v6 r,
  text_eq_iff r exit_v6,
)

-- A route that is not an exit route is approved exactly where the node's list has it.
pub includes-approved :
    (n : Node) (r : Text)
    → includes r (subnet_routes_of n).approved
      ≡ (includes r (or_nil n.approved_routes) && not (is_exit_route r))
unfolding subnet_routes_of
includes-approved n r = includes-keep-not r is_exit_route (or_nil n.approved_routes)

pub includes-advertised :
    (n : Node) (r : Text)
    → includes r (subnet_routes_of n).advertised
      ≡ (includes r (or_nil n.available_routes) && not (is_exit_route r))
unfolding subnet_routes_of
includes-advertised n r = includes-keep-not r is_exit_route (or_nil n.available_routes)

includes-all_subnet :
    (n : Node) (r : Text)
    → includes r (all_subnet n)
      ≡ (includes r (subnet_routes_of n).advertised || includes r (subnet_routes_of n).approved)
unfolding all_subnet includes
includes-all_subnet n r =
    let routes = subnet_routes_of n in
    ground (
      arith,
      includes-sort r (dedup (routes.advertised ++ routes.approved) []),
      includes-dedup r (routes.advertised ++ routes.approved) [],
      includes-append r routes.advertised routes.approved,
    )

pub includes-approve :
    (r : Text) (was is rs : List Text)
    → includes r (route_changes was is rs).0
      ≡ (includes r rs && (not (includes r was) && includes r is))
unfolding route_changes includes
includes-approve r was is [] = refl
includes-approve r was is (x ∷ rs) = ground (arith, includes-approve r was is rs, text_eq_iff x r)

pub includes-revoke :
    (r : Text) (was is rs : List Text)
    → includes r (route_changes was is rs).1
      ≡ (includes r rs && (includes r was && not (includes r is)))
unfolding route_changes includes
includes-revoke r was is [] = refl
includes-revoke r was is (x ∷ rs) = ground (arith, includes-revoke r was is rs, text_eq_iff x r)

pub includes-exit_routes : (r : Text) → includes r exit_routes ≡ is_exit_route r
unfolding is_exit_route
includes-exit_routes r = refl

pub includes-expand_exit :
    (r : Text) (rs : List Text)
    → includes r (expand_exit rs) ≡ (includes r rs || (any is_exit_route rs && is_exit_route r))
unfolding expand_exit
includes-expand_exit r rs =
    ground (arith, includes-append r rs exit_routes, includes-exit_routes r, any-is_exit_route rs)

includes-own :
    (xs ys : List Text)
    → ((x : Text) → includes x ys ≡ true → includes x xs ≡ true)
    → all (λ y. includes y xs) ys ≡ true
unfolding all includes
includes-own xs [] h = refl
includes-own xs (y ∷ ys) h =
    ground (arith, h y, text_eq_refl y, includes-own xs ys (λ x i. h x (ground arith)))

pub same_route_set_refl : (xs : List Text) → same_route_set xs xs ≡ true
unfolding same_route_set
same_route_set_refl xs = ground (arith, includes-own xs xs (λ x h. h))

-- The lists of the dialog hold no exit route.
pub includes-listed :
    (n : Node) (r : Text)
    → includes r (all_subnet n) ≡ (
        (includes r (or_nil n.available_routes) || includes r (or_nil n.approved_routes))
        && not (is_exit_route r))
includes-listed n r =
    ground (arith, includes-all_subnet n r, includes-advertised n r, includes-approved n r)

pub includes-merged_routes :
    (r : Text) (approved approve revoke : List Text)
    → includes r (merged_routes approved approve revoke) ≡ (
        (includes r approved || includes r (expand_exit approve))
        && not (includes r (expand_exit revoke)))
unfolding merged_routes includes
includes-merged_routes r approved approve revoke =
    let all_routes = approved ++ expand_exit approve in
    let desired = keep (λ s. not (includes s (expand_exit revoke))) all_routes in
    ground (
      arith,
      includes-sort r (dedup desired []),
      includes-dedup r desired [],
      includes-keep-not r (λ s. includes s (expand_exit revoke)) all_routes,
      includes-append r approved (expand_exit approve),
    )

pub exit_v4-is_exit_route : is_exit_route exit_v4 ≡ true
unfolding is_exit_route includes text_eq
exit_v4-is_exit_route = refl

pub exit_v6-is_exit_route : is_exit_route exit_v6 ≡ true
unfolding is_exit_route includes text_eq
exit_v6-is_exit_route = refl
