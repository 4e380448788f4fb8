-- ===== src/Acl/Selector/Restricted.antt =====
-- `restrictedSelector`: a picker that takes some kinds of selectors and some autogroups.
use head_control.Common.{
  true, false, not, List, [], ◌∷◌, ◌++◌, ◌≡◌, ◌↔◌, ◌⊎◌, arith, if◌then◌else◌, Option, none,
}
use head_control.Text.{Text, codes, includes, trim, join}
use head_control.Acl.Selector.{
  Side, SelectorKind, SelectorContext, Issue, an_error, classify, validate_selector,
}
use head_control.Acl.Selector.Options.{kind_eq, has_kind}

-- The names of the kinds, as they stand in a message.
abbrev kind_name : SelectorKind → Text
kind_name SelectorKind.user = codes "user"
kind_name SelectorKind.group = codes "group"
kind_name SelectorKind.tag = codes "tag"
kind_name SelectorKind.host = codes "host"
kind_name SelectorKind.autogroup = codes "autogroup"
kind_name SelectorKind.wildcard = codes "wildcard"
kind_name SelectorKind.cidr = codes "cidr"
kind_name SelectorKind.unknown = codes "unknown"

kind_names : List SelectorKind → List Text
kind_names [] = []
kind_names (k ∷ ks) = kind_name k ∷ kind_names ks

unfoldable pub restricted_selector :
    Text → Side → SelectorContext → List SelectorKind → List Text → Option Issue
unfolding join kind_names
restricted_selector s side ctx kinds groups =
    let kind = classify (trim s) ctx.hosts in
    if kind_eq kind SelectorKind.autogroup
    then if includes (trim s) groups
      then none
      else an_error (codes "only " ++ (join (codes ", ") groups ++ codes " are allowed here"))
    else if not (has_kind kind kinds)
    then an_error (
        s
        ++ (codes " is not allowed here (use "
            ++ (join (codes ", ") (kind_names kinds) ++ codes ")")))
    else validate_selector s side ctx

-- What the picker lets through: an autogroup of its list, or a selector of one of its kinds with
-- which `validateSelector` finds nothing wrong.
pub Allowed : Text → Side → SelectorContext → List SelectorKind → List Text → Type 0
Allowed s side ctx kinds groups =
    let kind = classify (trim s) ctx.hosts in
    ((kind_eq kind SelectorKind.autogroup ≡ true) × (includes (trim s) groups ≡ true))
    ⊎ ((kind_eq kind SelectorKind.autogroup ≡ false)
        × (has_kind kind kinds ≡ true)
        × (validate_selector s side ctx ≡ none))

pub restricted_selector_iff :
    (s : Text) (side : Side) (ctx : SelectorContext) (kinds : List SelectorKind)
    (groups : List Text)
    → (restricted_selector s side ctx kinds groups ≡ none) ↔ Allowed s side ctx kinds groups
unfolding restricted_selector Allowed
restricted_selector_iff s side ctx kinds groups = (λ h. ground arith, λ h. ground arith)
