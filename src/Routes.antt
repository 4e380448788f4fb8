-- ===== src/Routes.antt =====
-- The routes page, frontend/src/pages/RoutesPage.tsx: what needs attention, and the rows of the
-- prefixes before the page sorts them by the order of the browser's language.
pub mod Gather
mod Rows
mod Actions
mod Attention
mod Tests
use head_control.Common.{
  Bool, true, false, not, ◌&&◌, ◌||◌, List, [], ◌∷◌, ◌++◌, Option, none, some, map, keep,
  if◌then◌else◌,
}
use head_control.Text.{Text, codes, includes, join}
use head_control.Dict.{Dict, get, set}
use head_control.Api.{Node}
use head_control.Acl.Ports.{dedup}
use head_control.Acl.Selector.{truthy}
use head_control.Format.{
  exit_routes, first_of, node_is_exit_node, node_advertises_exit, subnet_routes_of, or_nil,
}
use head_control.Machines.{RouteRequest, is_empty_list}

abbrev pub node_name : Node → Text
node_name n = first_of (n.given_name ∷ n.name ∷ []) (codes "node " ++ n.id)

pub data RouteAction : Type 0 where
  approve : RouteAction
  revoke : RouteAction

-- What a button of the page asks the backend for.
unfoldable pub action_request : Node → RouteAction → List Text → RouteRequest
action_request n approve routes = record {
  approve = routes;
  revoke = [];
  expected_approved = or_nil n.approved_routes;
}
action_request n revoke routes = record {
  approve = [];
  revoke = routes;
  expected_approved = or_nil n.approved_routes;
}

-- The button of an exit node, and that of a prefix.
unfoldable pub exit_action : Node → RouteRequest
unfolding action_request
exit_action n =
    action_request n (if node_is_exit_node n then RouteAction.revoke else RouteAction.approve)
      exit_routes

unfoldable pub prefix_action : Node → Text → Bool → RouteRequest
unfolding action_request
prefix_action n prefix approved =
    action_request n (if approved then RouteAction.revoke else RouteAction.approve) (prefix ∷ [])

pub data Tone : Type 0 where
  yellow : Tone
  red : Tone

pub record AttentionItem : Type 0 where
  pub key : Text
  pub node : Node
  pub tone : Tone
  pub label : Text
  pub text : Text

-- The exit node among the routes of a list.
abbrev pub with_exit : List Text → Bool → List Text
with_exit routes exit = routes ++ (if exit then codes "exit node" ∷ [] else [])

abbrev pub item_if : Bool → AttentionItem → List AttentionItem
item_if b i = if b then i ∷ [] else []

abbrev pub pending_routes : Node → List Text
pending_routes n =
    with_exit (subnet_routes_of n).pending (node_advertises_exit n && not (node_is_exit_node n))

abbrev pub stale_routes : Node → List Text
stale_routes n =
    with_exit (subnet_routes_of n).stale (node_is_exit_node n && not (node_advertises_exit n))

abbrev pub is_lost : Node → Bool
is_lost n = not n.online && not (is_empty_list (or_nil n.subnet_routes))

unfoldable pub attention_of : Node → List AttentionItem
unfolding join
attention_of n =
    item_if (not (is_empty_list (pending_routes n))) (record {
      key = n.id ++ codes ":pending";
      node = n;
      tone = yellow;
      label = codes "pending";
      text =
          node_name n ++ (codes " — awaiting approval: " ++ join (codes ", ") (pending_routes n));
    })
    ++ (item_if (not (is_empty_list (stale_routes n))) (record {
      key = n.id ++ codes ":stale";
      node = n;
      tone = red;
      label = codes "stale";
      text =
          node_name n
          ++ (codes " — approved but no longer advertised: " ++ join (codes ", ") (stale_routes n));
    })
        ++ item_if (is_lost n) (record {
          key = n.id ++ codes ":offline";
          node = n;
          tone = red;
          label = codes "offline";
          text =
              node_name n
              ++ (codes " is offline but approved to serve "
                  ++ (join (codes ", ") (or_nil n.subnet_routes)
                      ++ codes " — clients using these routes lose connectivity"));
        }))

unfoldable pub attention : List Node → List AttentionItem
unfolding attention_of
attention [] = []
attention (n ∷ ns) = attention_of n ++ attention ns

pub record Advertiser : Type 0 where
  pub node : Node
  pub advertised : Bool
  pub approved : Bool
  pub serving : Bool

abbrev pub advertiser : Node → Text → Advertiser
advertiser n p = record {
  node = n;
  advertised = includes p (subnet_routes_of n).advertised;
  approved = includes p (subnet_routes_of n).approved;
  serving = includes p (or_nil n.subnet_routes);
}

-- Each prefix of a node gets a row for the node.
unfoldable pub add_prefixes : Node → List Text → Dict (List Advertiser) → Dict (List Advertiser)
unfolding get set
add_prefixes n [] rows = rows
add_prefixes n (p ∷ ps) rows =
    add_prefixes n ps (set p (or_nil (get p rows) ++ advertiser n p ∷ []) rows)

-- The prefixes of a node, each once.
abbrev pub prefixes_of : Node → List Text
prefixes_of n = dedup ((subnet_routes_of n).advertised ++ (subnet_routes_of n).approved) []

unfoldable pub prefix_rows : List Node → Dict (List Advertiser) → Dict (List Advertiser)
unfolding add_prefixes dedup
prefix_rows [] rows = rows
prefix_rows (n ∷ ns) rows = prefix_rows ns (add_prefixes n (prefixes_of n) rows)

unfoldable pub exit_nodes : List Node → List Node
unfolding keep
exit_nodes = keep (λ n. node_advertises_exit n || node_is_exit_node n)
