-- ===== src/Acl/Selector.antt =====
-- Selectors: `isIpOrCidr`, `classify`, `userSelectors`, `validateSelector` and the checks built on
-- them, of frontend/src/pages/acls/model.ts.
pub mod Cidr
pub mod Clean
pub mod Options
pub mod Restricted
pub mod Fields
mod Tests
use head_control.Common.{
  ℕ, zero, suc, ◌-◌, Bool, true, false, not, ◌&&◌, ◌||◌, List, [], ◌∷◌, ◌++◌, map, ltb, leb, ◌==◌,
  if◌then◌else◌, Option, none, some, length, keep, find, any, all,
}
use head_control.Text.{Text, codes, text_eq, includes, trim, starts_with, has_unit, is_space}
use head_control.Dict.{Dict, get, has}
use Cidr.{is_ip_or_cidr}

pub data Side : Type 0 where
  src dst : Side

pub data SelectorKind : Type 0 where
  user group tag host autogroup wildcard cidr unknown : SelectorKind

pub data Level : Type 0 where
  error warn : Level

pub data IssueField : Type 0 where
  src dst ports proto name : IssueField

pub record Issue : Type 0 where
  pub level : Level
  pub text : Text
  pub field : Option IssueField

abbrev pub an_error : Text → Option Issue
an_error t = some (record { level = Level.error; text = t; field = none })

abbrev pub a_warning : Text → Option Issue
a_warning t = some (record { level = Level.warn; text = t; field = none })

abbrev pub side_eq : Side → Side → Bool
side_eq src src = true
side_eq dst dst = true
side_eq _ _ = false

abbrev pub has_side : Side → List Side → Bool
has_side s [] = false
has_side s (x ∷ xs) = side_eq x s || has_side s xs

pub record Autogroup : Type 0 where
  pub value : Text
  pub sides : List Side
  pub hint : Text

abbrev pub autogroups : List Autogroup
autogroups =
    record {
      value = codes "autogroup:member";
      sides = Side.src ∷ Side.dst ∷ [];
      hint = codes "all devices owned by a user";
    }
    ∷ record {
      value = codes "autogroup:tagged";
      sides = Side.src ∷ Side.dst ∷ [];
      hint = codes "all tagged devices";
    }
    ∷ record {
      value = codes "autogroup:self";
      sides = Side.dst ∷ [];
      hint = codes "the connecting user's own devices";
    }
    ∷ record {
      value = codes "autogroup:internet";
      sides = Side.dst ∷ [];
      hint = codes "the internet, via exit nodes";
    }
    ∷ record {
      value = codes "autogroup:danger-all";
      sides = Side.src ∷ [];
      hint = codes "ALL IPs, tailnet or not (0.29 replacement for *)";
    }
    ∷ []

unfoldable pub classify : Text → Dict Text → SelectorKind
classify selector hosts =
    if text_eq selector (codes "*")
    then wildcard
    else if starts_with selector (codes "autogroup:")
    then autogroup
    else if starts_with selector (codes "group:")
    then group
    else if starts_with selector (codes "tag:")
    then tag
    else if has_unit b'@' selector
    then user
    else if is_ip_or_cidr selector
    then cidr
    else if has selector hosts
    then host
    else unknown

pub record SelectorUser : Type 0 where
  pub name : Option Text
  pub email : Option Text
  pub display_name : Option Text

pub record SelectorContext : Type 0 where
  pub users : List SelectorUser
  pub node_tags : Dict ℕ
  pub groups : Dict (List Text)
  pub tag_owners : Dict (List Text)
  pub hosts : Dict Text

-- The value of an optional text that is tested for truth: absent and empty are alike.
abbrev pub truthy : Option Text → Option Text
truthy none = none
truthy (some []) = none
truthy (some (c ∷ s)) = some (c ∷ s)

abbrev name_selector : Option Text → List Text
name_selector none = []
name_selector (some n) = (n ++ codes "@") ∷ []

abbrev add_email : Option Text → List Text → List Text
add_email none out = out
add_email (some e) out = if includes e out then out else out ++ e ∷ []

unfoldable pub user_selectors : SelectorUser → List Text
user_selectors u = add_email (truthy u.email) (name_selector (truthy u.name))

-- `/\s/.test(s)`
unfoldable pub has_space : Text → Bool
has_space s = any is_space s

unfoldable pub find_autogroup : Text → Option Autogroup
find_autogroup s = find (λ a. text_eq a.value s) autogroups

abbrev side_name : List Side → Text
side_name (src ∷ _) = codes "source"
side_name _ = codes "destination"

unfoldable pub validate_autogroup : Text → Side → Option Autogroup → Option Issue
validate_autogroup s side none =
    an_error (s ++ codes " is not a known autogroup (autogroup:nonroot is SSH-only)")
validate_autogroup s side (some a) =
    if has_side side a.sides
    then none
    else an_error (s ++ (codes " can only be used as a " ++ side_name a.sides))

unfoldable pub is_known_user : Text → List SelectorUser → Bool
is_known_user s users = any (λ u. includes s (user_selectors u)) users

-- `ctx.groups[s].length === 0`
abbrev no_members : Option (List Text) → Bool
no_members (some []) = true
no_members _ = false

-- The `switch` of `validateSelector`.
unfoldable pub validate_kind : SelectorKind → Text → Side → SelectorContext → Option Issue
validate_kind wildcard s side ctx =
    if side_eq side Side.src
    then a_warning (
        codes
          "Since headscale 0.29, \"*\" as a source matches only tailnet addresses — use autogroup:danger-all to match all IPs.")
    else none
validate_kind autogroup s side ctx = validate_autogroup s side (find_autogroup s)
validate_kind group s side ctx =
    if not (has s ctx.groups)
    then an_error (s ++ codes " is not declared — add it under Groups first")
    else if no_members (get s ctx.groups)
    then a_warning (s ++ codes " has no members")
    else none
validate_kind tag s side ctx =
    if has s ctx.tag_owners
    then none
    else a_warning (
        s ++ codes " is not declared in Tag owners — headscale will reject the policy unless it is")
validate_kind user s side ctx =
    if is_known_user s ctx.users then none else a_warning (codes "no user matches " ++ s)
validate_kind cidr s side ctx = none
validate_kind host s side ctx = none
validate_kind unknown s side ctx =
    an_error (s ++ codes " is not a user, group, tag, host, autogroup or IP/CIDR")

unfoldable pub validate_selector : Text → Side → SelectorContext → Option Issue
validate_selector selector side ctx =
    let s = trim selector in
    if text_eq s [] || has_space s
    then an_error (codes "selectors cannot be empty or contain spaces")
    else validate_kind (classify s ctx.hosts) s side ctx
