-- ===== src/Acl/Elements.antt =====
-- The editors of grants, SSH rules, node attributes and tests of
-- frontend/src/pages/acls/PolicySections.tsx: the form that an element opens and
-- the element that is saved. A new element starts from one with no members.
mod Issues
mod Saved
mod Tests
use head_control.Common.{
  ◌+◌, ◌==◌, Bool, true, false, not, ◌&&◌, List, [], ◌∷◌, ◌++◌, any, length, if◌then◌else◌, Option,
  none, some,
}
use head_control.Text.{Text, codes, text_eq, trim, includes}
use head_control.Json.{Json, Items, Members, str, arr, obj, nil, cons, end}
use head_control.Json.Fields.{get_field, get_string, get_list, set_field}
use head_control.Acl.Selector.{Issue, Level, Side, SelectorKind, SelectorContext, validate_selector}
use head_control.Acl.Selector.Fields.{
  validate_grant_ip, validate_plain, validate_ssh_user, validate_test_target, validate_route_prefix,
}
use head_control.Acl.Selector.Restricted.{restricted_selector}

pub record GrantForm : Type 0 where
  pub src : List Text
  pub dst : List Text
  pub ip : List Text
  pub via : List Text
  pub app : Text

pub record SshForm : Type 0 where
  pub action : Text
  pub period : Text
  pub src : List Text
  pub dst : List Text
  pub users : List Text
  pub accept_env : List Text

pub record NodeAttrForm : Type 0 where
  pub target : List Text
  pub attr : List Text

pub record TestForm : Type 0 where
  pub src : List Text
  pub proto : Text
  pub accept : List Text
  pub deny : List Text

pub record SshTestForm : Type 0 where
  pub src : List Text
  pub dst : List Text
  pub accept : List Text
  pub check : List Text
  pub deny : List Text

-- `initial ?? {}`
abbrev pub base_of : Option Members → Members
base_of none = end
base_of (some o) = o

abbrev pub texts_items : List Text → Items
texts_items [] = nil
texts_items (s ∷ xs) = cons (str s) (texts_items xs)

abbrev pub texts : List Text → Option Json
texts xs = some (arr (texts_items xs))

-- `xs[0]`
abbrev pub first_text : List Text → Option Json
first_text [] = none
first_text (s ∷ xs) = some (str s)

abbrev is_object : Option Json → Bool
is_object (some (obj m)) = true
is_object _ = false

-- `parse` is JSON.parse, where `none` is a text that it does not take, and `print` is
-- JSON.stringify with an indentation of two.
module _ (parse : Text → Option Json) (print : Json → Text) where
  abbrev printed : Option Json → Text
  printed none = []
  printed (some v) = print v

  unfoldable pub grant_form : Members → GrantForm
  unfolding get_list get_field
  grant_form base = record {
    src = get_list base (codes "src");
    dst = get_list base (codes "dst");
    ip = get_list base (codes "ip");
    via = get_list base (codes "via");
    app = printed (get_field base (codes "app"));
  }

  unfoldable pub has_app : GrantForm → Bool
  unfolding trim text_eq
  has_app f = not (text_eq (trim f.app) [])

  unfoldable pub app_value : GrantForm → Option Json
  unfolding has_app
  app_value f = if has_app f then parse f.app else none

  unfoldable pub save_grant : Members → GrantForm → Members
  unfolding set_field app_value
  save_grant base f =
      let v₁ = set_field base (codes "src") (texts f.src) in
      let v₂ = set_field v₁ (codes "dst") (texts f.dst) in
      let v₃ = set_field v₂ (codes "ip") (texts f.ip) in
      let v₄ = set_field v₃ (codes "via") (texts f.via) in set_field v₄ (codes "app") (app_value f)

abbrev or_accept : Text → Text
or_accept [] = codes "accept"
or_accept (c ∷ s) = c ∷ s

unfoldable pub ssh_form : Members → SshForm
unfolding get_list get_string
ssh_form base = record {
  action = or_accept (get_string base (codes "action"));
  period = get_string base (codes "checkPeriod");
  src = get_list base (codes "src");
  dst = get_list base (codes "dst");
  users = get_list base (codes "users");
  accept_env = get_list base (codes "acceptEnv");
}

unfoldable pub check_period : SshForm → Option Json
unfolding trim text_eq
check_period f = if text_eq f.action (codes "check") then some (str (trim f.period)) else none

unfoldable pub save_ssh : Members → SshForm → Members
unfolding set_field check_period
save_ssh base f =
    let v₁ = set_field base (codes "action") (some (str f.action)) in
    let v₂ = set_field v₁ (codes "checkPeriod") (check_period f) in
    let v₃ = set_field v₂ (codes "src") (texts f.src) in
    let v₄ = set_field v₃ (codes "dst") (texts f.dst) in
    let v₅ = set_field v₄ (codes "users") (texts f.users) in
    set_field v₅ (codes "acceptEnv") (texts f.accept_env)

unfoldable pub node_attr_form : Members → NodeAttrForm
unfolding get_list
node_attr_form base = record {
  target = get_list base (codes "target");
  attr = get_list base (codes "attr");
}

unfoldable pub save_node_attr : Members → NodeAttrForm → Members
unfolding set_field
save_node_attr base f =
    set_field (set_field base (codes "target") (texts f.target)) (codes "attr") (texts f.attr)

unfoldable pub test_form : Members → TestForm
unfolding get_list get_string
test_form base = record {
  src = get_list base (codes "src");
  proto = get_string base (codes "proto");
  accept = get_list base (codes "accept");
  deny = get_list base (codes "deny");
}

unfoldable pub save_test : Members → TestForm → Members
unfolding set_field
save_test base f =
    let v₁ = set_field base (codes "src") (first_text f.src) in
    let v₂ = set_field v₁ (codes "proto") (some (str f.proto)) in
    let v₃ = set_field v₂ (codes "accept") (texts f.accept) in
    set_field v₃ (codes "deny") (texts f.deny)

unfoldable pub ssh_test_form : Members → SshTestForm
unfolding get_list
ssh_test_form base = record {
  src = get_list base (codes "src");
  dst = get_list base (codes "dst");
  accept = get_list base (codes "accept");
  check = get_list base (codes "check");
  deny = get_list base (codes "deny");
}

unfoldable pub save_ssh_test : Members → SshTestForm → Members
unfolding set_field
save_ssh_test base f =
    let v₁ = set_field base (codes "src") (first_text f.src) in
    let v₂ = set_field v₁ (codes "dst") (texts f.dst) in
    let v₃ = set_field v₂ (codes "accept") (texts f.accept) in
    let v₄ = set_field v₃ (codes "check") (texts f.check) in
    set_field v₄ (codes "deny") (texts f.deny)

-- What an editor has in its form.
pub data ElementForm : Type 0 where
  grant_of : GrantForm → ElementForm
  ssh_of : SshForm → ElementForm
  node_attr_of : NodeAttrForm → ElementForm
  test_of : TestForm → ElementForm
  ssh_test_of : SshTestForm → ElementForm

module _ (parse : Text → Option Json) (print : Json → Text) where
  -- The function `save` of each editor.
  unfoldable pub save_element : Members → ElementForm → Members
  unfolding save_grant save_ssh save_node_attr save_test save_ssh_test
  save_element base (grant_of f) = save_grant parse print base f
  save_element base (ssh_of f) = save_ssh base f
  save_element base (node_attr_of f) = save_node_attr base f
  save_element base (test_of f) = save_test base f
  save_element base (ssh_test_of f) = save_ssh_test base f
