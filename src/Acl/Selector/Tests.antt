-- ===== src/Acl/Selector/Tests.antt =====
-- Selectors at concrete inputs.
use head_control.Common.{false, true, [], ◌∷◌, ◌≡◌, refl, none, some}
use head_control.Text.{codes, text_eq}
use head_control.Text.Decimal.{number}
use head_control.Dict.{inherited}
use head_control.Acl.Selector.{Side, SelectorContext, validate_selector}
use head_control.Acl.Selector.Cidr.{is_ip_or_cidr}
use head_control.Acl.Selector.Clean.{validate_selector-inherited}

abbrev sample : SelectorContext
sample = record {
  users =
      record { name = some (codes "ann"); email = some (codes "ann@x.org"); display_name = none }
      ∷ [];
  node_tags = (codes "tag:web", 2) ∷ [];
  groups = (codes "group:eng", codes "ann@" ∷ []) ∷ [];
  tag_owners = [];
  hosts = (codes "db1", codes "10.0.0.7") ∷ [];
}

prefix_too_long : is_ip_or_cidr (codes "10.0.0.0/33") ≡ false
unfolding is_ip_or_cidr number
prefix_too_long = refl

compressed_v6 : is_ip_or_cidr (codes "fd7a:115c::/48") ≡ true
unfolding is_ip_or_cidr number
compressed_v6 = refl

validate_selector-inherited_example : validate_selector (codes "constructor") Side.src sample ≡ none
unfolding inherited text_eq
validate_selector-inherited_example =
    validate_selector-inherited (codes "constructor") Side.src sample refl
