-- ===== src/Dashboard/Tests.antt =====
-- The items of the dashboard for concrete nodes.
use head_control.Common.{Bool, true, false, some, none, List, [], ◌∷◌, ◌≡◌, refl, map}
use head_control.Text.{Text, codes, text_eq}
use head_control.Api.{Node}
use head_control.Format.{is_exit_route, subnet_routes_of}
use head_control.Dashboard.{AttentionItem, attention_items}

abbrev node : Text → Bool → List Text → List Text → Node
node id online available approved = record {
  id = id;
  machine_key = none;
  node_key = none;
  disco_key = none;
  ip_addresses = none;
  name = some id;
  user = none;
  last_seen = none;
  expiry = none;
  pre_auth_key = none;
  created_at = none;
  register_method = none;
  given_name = none;
  online = online;
  approved_routes = some approved;
  available_routes = some available;
  subnet_routes = none;
  tags = none;
}

abbrev lan : Text
lan = codes "10.0.0.0/24"

abbrev dmz : Text
dmz = codes "10.0.1.0/24"

-- The first node is the only router of `lan`, and has `dmz` approved that the second one serves.
abbrev pair : List Node
pair =
    node (codes "1") false (lan ∷ []) (lan ∷ dmz ∷ [])
    ∷ node (codes "2") true (dmz ∷ lan ∷ []) (dmz ∷ [])
    ∷ []

attention_items_test :
    map (λ (i : AttentionItem). i.key) (attention_items pair)
    ≡ codes "sole-router:10.0.0.0/24" ∷ codes "stale:1" ∷ []
unfolding attention_items text_eq is_exit_route subnet_routes_of
attention_items_test = refl
