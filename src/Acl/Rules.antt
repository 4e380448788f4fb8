-- ===== src/Acl/Rules.antt =====
-- The tab of rules of frontend/src/pages/acls/RulesTab.tsx: its search, the badges of its rows and
-- what its editor shows and dispatches; and `ruleToHuJson` of frontend/src/pages/acls/model.ts.
mod Edited
mod Tests
use head_control.Common.{
  ◌==◌, Bool, true, false, not, ◌&&◌, ◌||◌, List, [], ◌∷◌, ◌++◌, map, any, keep, if◌then◌else◌,
  Option, none, some,
}
use head_control.Text.{Text, codes, text_eq, includes, trim, contains, join}
use head_control.Dict.{keys}
use head_control.Json.{quote}
use head_control.Acl.Selector.{truthy}
use head_control.Acl.Ports.{proto_allows_ports}
use head_control.Acl.Draft.{DraftRule, RuleBody, Draft}
use head_control.Acl.Diff.{RuleChange, ChangeSummary, same_rule, bool_eq}
use head_control.Acl.Form.{RuleForm, form_to_rule, rule_to_form}
use head_control.Acl.Reducer.{DraftAction, add_rule, update_rule, delete_rule}

abbrev text_or_nil : Option Text → Text
text_or_nil none = []
text_or_nil (some s) = s

-- The rules that a search shows; `lower_case` is `toLowerCase`.
unfoldable pub visible : (Text → Text) → Text → List DraftRule → List DraftRule
unfolding keep any contains trim text_eq
visible lower_case search =
    let q = lower_case (trim search) in
    keep λ r.
      text_eq q []
      || contains (lower_case r.body.name) q
      || contains (lower_case r.body.description) q
      || any (λ s. contains (lower_case s) q) r.body.src
      || any (λ d. contains (lower_case d) q) r.body.dst
      || contains (text_or_nil r.body.proto) q

-- A change of the content, where a rule that is only switched on or off is not one.
unfoldable pub is_edited : RuleChange → Bool
unfolding same_rule
is_edited c = not (
    same_rule (record (c.before) { enabled = c.after.body.enabled }) c.after
    && not (bool_eq c.before.enabled c.after.body.enabled))

unfoldable pub changed_keys : ChangeSummary → List Text
unfolding keep is_edited
changed_keys summary = map (λ c. c.after.key) (keep is_edited summary.rules.changed)

unfoldable pub added_keys : ChangeSummary → List Text
added_keys summary = map (λ r. r.key) summary.rules.added

unfoldable pub rule_status : ChangeSummary → DraftRule → Option Text
unfolding includes changed_keys added_keys
rule_status summary r =
    if includes r.key (added_keys summary)
    then some (codes "new")
    else if includes r.key (changed_keys summary)
    then some (codes "edited")
    else none

-- A rule of the server is deleted after a question, which `none` stands for.
unfoldable pub press_delete : DraftRule → Option DraftAction
press_delete r = elim (truthy r.server_id) [ some i ↦ none | none ↦ some (delete_rule r.key) ]

-- The choice of a protocol: one without ports has "*" for them.
unfoldable pub choose_proto : Text → RuleForm → RuleForm
unfolding proto_allows_ports
choose_proto proto f =
    if proto_allows_ports proto
    then record f { proto = proto }
    else record f { proto = proto; ports = codes "*" }

-- `[${xs.map((x) => JSON.stringify(x)).join(", ")}]`
quoted_list : List Text → Text
unfolding join quote
quoted_list xs = codes "[" ++ (join (codes ", ") (map quote xs) ++ codes "]")

abbrev proto_member : Option Text → Text
proto_member none = []
proto_member (some p) = codes ", \"proto\": " ++ quote p

unfoldable pub rule_to_hu_json : Option Text → List Text → List Text → Text
unfolding quoted_list
rule_to_hu_json proto src dst =
    codes "{\"action\": \"accept\""
    ++ (proto_member (truthy proto)
        ++ (codes ", \"src\": "
            ++ (quoted_list src ++ (codes ", \"dst\": " ++ (quoted_list dst ++ codes "}")))))

-- What the editor of a rule shows of the rule that it would save.
unfoldable pub preview : RuleForm → Text
unfolding form_to_rule rule_to_hu_json
preview f = let r = form_to_rule f in rule_to_hu_json r.proto r.src r.dst
