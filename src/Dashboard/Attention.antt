-- ===== src/Dashboard/Attention.antt =====
-- Which items the dashboard shows.
use head_control.Common.{Bool, false, not, ◌&&◌, List, [], ◌∷◌, ◌++◌, some, none, any, Option}
use head_control.Text.{Text, codes, includes, text_eq}
use head_control.Dict.{Dict}
use head_control.Api.{Node}
use head_control.Format.{subnet_routes_of}
use head_control.Dashboard.{AttentionItem}

-- An item of a key is shown.
abbrev pub shows : Text → List AttentionItem → Bool
shows key items = any (λ i. text_eq i.key key) items

-- The node has the prefix approved and advertises it.
abbrev pub routes_prefix : Text → Node → Bool
routes_prefix p n =
    includes p (subnet_routes_of n).approved && includes p (subnet_routes_of n).advertised

-- One node, and it is offline.
abbrev pub only_offline : List Node → Bool
only_offline (n ∷ []) = not n.online
only_offline _ = false

abbrev sole_key : Text → Text
sole_key p = codes "sole-router:" ++ p

abbrev lost_at : Option (List Node) → Bool
lost_at none = false
lost_at (some ns) = only_offline ns

abbrev stale_key : Text → Text
stale_key id = codes "stale:" ++ id

-- A route of the node is approved and not advertised.
abbrev pub has_stale : Node → Bool
has_stale n =
    any (λ r. not (includes r (subnet_routes_of n).advertised)) (subnet_routes_of n).approved
