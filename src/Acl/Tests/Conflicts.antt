-- ===== src/Acl/Tests/Conflicts.antt =====
-- Conflicts, change counts and checked forms at concrete inputs.
use head_control.Text.Decimal.{show, number}
use head_control.Acl.Ports.{proto_allows_ports, parse_ports, split_dst}
use head_control.Acl.Samples.{key_at, model, loaded, model-IsModel, rule_body}
use head_control.Common.{any, List, [], ◌∷◌, ◌≡◌, ◌≢◌, true, false, refl, ap, none, some, All}
use head_control.Acl.Selector.Cidr.{is_ip_or_cidr}
use head_control.Text.{has_unit, starts_with, is_space, Text, codes, includes, text_eq, trim}
use head_control.Dict.{Dict, get, own, has, inherited}
use head_control.Acl.Draft.{DraftRule, PolicyModel, draft_from_model}
use head_control.Acl.Diff.{diff_draft}
use head_control.Acl.Diff.Untouched.{diff_draft-draft_from_model}
use head_control.Acl.Diff.Zero.{IsSame, diff_draft-zero}
use head_control.Acl.Rebase.{rebase_rules, rebase_draft}
use head_control.Acl.Rebase.Rules.{body_at, version, body_at-rebase_rules}
use head_control.Acl.Rebase.Untouched.{rebase_draft-untouched}
use head_control.Acl.Selector.{
  has_space, validate_kind, classify, validate_selector, SelectorContext,
}
use head_control.Acl.Form.{
  own_ports_issues, port_issues, selector_issues, RuleForm, form_to_rule, validate_rule,
}
use head_control.Acl.Form.Valid.{has_error, form_to_rule-valid}

abbrev rule_at : Text → Text → DraftRule
rule_at key name = record {
  key = key;
  server_id = some key;
  body = record rule_body { name = name };
}

-- The user removed "r1" and changed "r2".
abbrev server_rules : List DraftRule
server_rules = rule_at (codes "r1") (codes "one") ∷ rule_at (codes "r2") (codes "two") ∷ []

abbrev my_rules : Dict DraftRule
my_rules = (codes "r2", rule_at (codes "r2") (codes "mine")) ∷ []

body_at-rebase_rules_example :
    body_at (codes "r2") (rebase_rules (codes "r1" ∷ []) server_rules my_rules).0
    ≡ version (get (codes "r2") my_rules) (body_at (codes "r2") server_rules)
unfolding includes text_eq
body_at-rebase_rules_example =
    body_at-rebase_rules (codes "r2") (codes "r1" ∷ []) server_rules my_rules (refl, (refl, tt))
      refl

-- The server's newer model, with another host.
abbrev newer : PolicyModel
newer = record model { hosts = (codes "db1", codes "10.0.0.8") ∷ [] }

rebase_draft-untouched_example :
    rebase_draft key_at 7 loaded newer (diff_draft model loaded) ≡ draft_from_model key_at 7 newer
rebase_draft-untouched_example = rebase_draft-untouched key_at 0 7 model newer model-IsModel

no_change : (diff_draft model loaded).count ≡ 0
no_change = ap (λ s. s.count) (diff_draft-draft_from_model key_at 0 model model-IsModel)

diff_draft-zero_example : IsSame model loaded (codes "db1")
unfolding inherited includes text_eq
diff_draft-zero_example = diff_draft-zero model loaded (codes "db1") model-IsModel no_change refl

abbrev ctx : SelectorContext
ctx = record {
  users = [];
  node_tags = [];
  groups = (codes "group:eng", codes "ann@" ∷ []) ∷ [];
  tag_owners = (codes "tag:web", codes "group:eng" ∷ []) ∷ [];
  hosts = (codes "db1", codes "10.0.0.7") ∷ [];
}

abbrev db_form : RuleForm
db_form = record {
  name = codes "db";
  description = [];
  enabled = true;
  proto = [];
  src = codes "group:eng" ∷ [];
  dst = codes "db1" ∷ codes "tag:web" ∷ [];
  ports = codes "5432, 443";
  dst_ports = [];
  original = none;
}

db_form-valid : has_error (validate_rule db_form ctx) ≡ false
unfolding validate_rule selector_issues validate_selector classify validate_kind has_space is_space
    trim text_eq starts_with has own includes get any port_issues own_ports_issues parse_ports
    proto_allows_ports number show has_unit is_ip_or_cidr
db_form-valid = refl

form_to_rule-valid_example :
    ((form_to_rule db_form).src ≢ [])
    × ((form_to_rule db_form).dst ≢ [])
    × All (λ d. (split_dst d).error ≡ none) (form_to_rule db_form).dst
form_to_rule-valid_example = form_to_rule-valid db_form ctx refl db_form-valid
