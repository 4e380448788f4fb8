-- ===== src/Dashboard.antt =====
-- What needs attention on the dashboard: attentionItems of frontend/src/pages/DashboardPage.tsx.
mod Attention
mod Tests
use head_control.Common.{Bool, false, not, ◌&&◌, List, [], ◌∷◌, ◌++◌, keep, if◌then◌else◌}
use head_control.Text.{Text, codes, includes}
use head_control.Dict.{Dict}
use head_control.Api.{Node}
use head_control.Format.{subnet_routes_of}
use head_control.Machines.{is_empty_list}
use head_control.Routes.Gather.{gather_all}

pub data Tone : Type 0 where
  yellow red : Tone

-- What the text of an item names.
pub data Content : Type 0 where
  sole_router : Text → Node → Content
  stale_routes : Node → List Text → Content

pub record AttentionItem : Type 0 where
  pub key : Text
  pub tone : Tone
  pub badge : Text
  pub content : Content

-- The routes that are approved and still advertised.
unfoldable pub active : Node → List Text
unfolding keep includes
active n =
    let routes = subnet_routes_of n in keep (λ r. includes r routes.advertised) routes.approved

-- `routersByPrefix`
unfoldable pub routers_by_prefix : List Node → Dict (List Node)
unfolding gather_all active
routers_by_prefix nodes = gather_all active (λ n p. n) nodes []

abbrev pub sole_item : Text → Node → AttentionItem
sole_item prefix n = record {
  key = codes "sole-router:" ++ prefix;
  tone = red;
  badge = codes "router offline";
  content = sole_router prefix n;
}

abbrev pub stale_item : Node → List Text → AttentionItem
stale_item n stale = record {
  key = codes "stale:" ++ n.id;
  tone = yellow;
  badge = codes "stale approval";
  content = stale_routes n stale;
}

abbrev pub sole_items_of : Text → List Node → List AttentionItem
sole_items_of prefix (n ∷ []) = if not n.online then sole_item prefix n ∷ [] else []
sole_items_of prefix _ = []

-- The loop over the prefixes.
unfoldable pub sole_items : Dict (List Node) → List AttentionItem
sole_items [] = []
sole_items ((prefix, routers) ∷ rest) = sole_items_of prefix routers ++ sole_items rest

-- The loop over the nodes.
unfoldable pub stale_items : List Node → List AttentionItem
stale_items [] = []
stale_items (n ∷ nodes) =
    let stale = (subnet_routes_of n).stale in
    (if not (is_empty_list stale) then stale_item n stale ∷ [] else []) ++ stale_items nodes

unfoldable pub attention_items : List Node → List AttentionItem
unfolding routers_by_prefix sole_items stale_items
attention_items nodes = sole_items (routers_by_prefix nodes) ++ stale_items nodes
