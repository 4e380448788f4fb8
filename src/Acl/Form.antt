-- ===== src/Acl/Form.antt =====
-- The form of one rule: `ruleToForm`, `formToRule` and `validateRule` of
-- frontend/src/pages/acls/model.ts. The snapshot is the value that the source prints by
-- `JSON.stringify`; two prints are equal exactly when the values are.
pub mod Untouched
pub mod Edited
pub mod Valid
use head_control.Common.{
  ℕ, Bool, true, false, not, ◌||◌, ◌&&◌, List, [], ◌∷◌, ◌++◌, map, ltb, length, if◌then◌else◌,
  Option, none, some,
}
use head_control.Text.{Text, codes, text_eq, includes, trim}
use head_control.Dict.{Dict, get, has, set}
use head_control.Acl.Ports.{
  Parsed, ok, fail, parse_ports, Destination, split_dst, join_dst, merge_ports, dedup,
  proto_allows_ports,
}
use head_control.Acl.Selector.{
  Issue, IssueField, Level, Side, SelectorContext, validate_selector, truthy,
}
use head_control.Acl.Draft.{RuleBody}
use head_control.Acl.Diff.{same_list, or_blank}

pub record Snapshot : Type 0 where
  pub dst : List Text
  pub ports : Text
  pub dst_ports : Dict Text

pub record Original : Type 0 where
  pub dst : List Text
  pub snapshot : Snapshot

pub record RuleForm : Type 0 where
  pub name : Text
  pub description : Text
  pub enabled : Bool
  pub proto : Text
  pub src : List Text
  pub dst : List Text
  pub ports : Text
  pub dst_ports : Dict Text
  pub original : Option Original

abbrev pub empty_form : RuleForm
empty_form = record {
  name = [];
  description = [];
  enabled = true;
  proto = [];
  src = [];
  dst = [];
  ports = codes "*";
  dst_ports = [];
  original = none;
}

unfoldable pub same_dict : Dict Text → Dict Text → Bool
same_dict [] [] = true
same_dict ((j, v) ∷ m) ((k, w) ∷ n) = text_eq j k && (text_eq v w && same_dict m n)
same_dict _ _ = false

unfoldable pub same_snapshot : Snapshot → Snapshot → Bool
same_snapshot a b =
    same_list a.dst b.dst && (text_eq a.ports b.ports && same_dict a.dst_ports b.dst_ports)

-- `selector in dstPorts ? mergePorts(dstPorts[selector], ports) : ports`. An inherited member is no
-- text: `mergePorts` gives "*" where the ports are "*" and else throws, which is `none`.
pub next_ports : Text → Text → Dict Text → Option Text
unfolding has
next_ports selector ports m =
    if has selector m
    then elim (get selector m) [
      | some old ↦ some (merge_ports old ports)
      | none ↦ if text_eq ports (codes "*") then some (codes "*") else none
    ]
    else some ports

-- `dstPorts[selector] = ports`, which sets no member where the selector is "__proto__".
abbrev pub put_ports : Text → Text → Dict Text → Dict Text
put_ports selector ports m =
    if text_eq selector (codes "__proto__") then m else set selector ports m

-- The loop of `ruleToForm`: the selectors, and the ports of each; `none` is an error thrown.
unfoldable pub collect_dst : List Text → List Text → Dict Text → Option (List Text × Dict Text)
unfolding next_ports
collect_dst [] dst ports = some (dst, ports)
collect_dst (d ∷ ds) dst ports =
    let s = split_dst d in
    elim (next_ports s.selector s.ports ports) [
      | none ↦ none
      | some merged ↦
          collect_dst ds (if includes s.selector dst then dst else dst ++ s.selector ∷ [])
            (put_ports s.selector merged ports)
    ]

-- The one specification, if there is one.
abbrev only : List Text → Text
only (p ∷ []) = p
only _ = []

abbrev pub values : Dict Text → List Text
values = map (λ e. e.1)

unfoldable pub shared_ports : Dict Text → Text
shared_ports m = only (dedup (values m) [])

abbrev pub form_of : RuleBody → List Text → Dict Text → RuleForm
form_of r dst dst_ports =
    let ports = shared_ports dst_ports in
    record {
      name = r.name;
      description = r.description;
      enabled = r.enabled;
      proto = or_blank r.proto;
      src = r.src;
      dst = dst;
      ports = ports;
      dst_ports = dst_ports;
      original = some (record {
        dst = r.dst;
        snapshot = record { dst = dst; ports = ports; dst_ports = dst_ports };
      });
    }

-- `none` is the error that the loop throws.
unfoldable pub rule_to_form : RuleBody → Option RuleForm
rule_to_form r = elim (collect_dst r.dst [] []) [
  | none ↦ none
  | some (dst, dst_ports) ↦ some (form_of r dst dst_ports)
]

-- Text that is not valid passes through.
abbrev normal_of : Text → Parsed → Text
normal_of spec (ok v) = v
normal_of spec (fail e) = trim spec

unfoldable pub normal_ports : Text → Text
normal_ports spec = normal_of spec (parse_ports spec)

unfoldable pub snapshot_of : RuleForm → Snapshot
snapshot_of f = record { dst = f.dst; ports = f.ports; dst_ports = f.dst_ports }

unfoldable pub new_dst : RuleForm → List Text
new_dst f =
    let shared = trim f.ports in
    map
      (λ sel.
        join_dst sel (
          normal_ports
            (if not (text_eq shared []) then shared else or_blank (get sel f.dst_ports))))
      f.dst

form_dst : RuleForm → Option Original → List Text
form_dst f none = new_dst f
form_dst f (some o) = if same_snapshot o.snapshot (snapshot_of f) then o.dst else new_dst f

unfoldable pub form_to_rule : RuleForm → RuleBody
unfolding form_dst
form_to_rule f = record {
  proto = truthy (some f.proto);
  src = f.src;
  dst = form_dst f f.original;
  name = trim f.name;
  description = trim f.description;
  enabled = f.enabled;
}

abbrev pub field_issue : Level → IssueField → Text → Issue
field_issue l f t = record { level = l; text = t; field = some f }

abbrev pub with_field : IssueField → Option Issue → List Issue
with_field f none = []
with_field f (some i) = record i { field = some f } ∷ []

-- `for (const s of xs) { const i = validateSelector(s, side, ctx); if (i) … }`
unfoldable pub selector_issues : IssueField → Side → SelectorContext → List Text → List Issue
selector_issues f side ctx [] = []
selector_issues f side ctx (s ∷ xs) =
    with_field f (validate_selector s side ctx) ++ selector_issues f side ctx xs

-- The issue of one specification, in front of which `before` and behind which `after` is printed.
ports_issue : Text → Text → Text → Bool → Parsed → List Issue
ports_issue before after proto allows (fail e) =
    field_issue Level.error IssueField.ports (before ++ e) ∷ []
ports_issue before after proto allows (ok v) =
    if not allows && not (text_eq v (codes "*"))
    then field_issue Level.error IssueField.ports
        (proto ++ (codes " has no ports — use *" ++ after))
      ∷ []
    else []

-- The ports of a selector where none are shared: absent and empty are alike.
own_ports_issue : Text → Bool → Text → Option Text → List Issue
unfolding ports_issue
own_ports_issue proto allows sel none =
    field_issue Level.error IssueField.ports (codes "ports required for " ++ sel) ∷ []
own_ports_issue proto allows sel (some own) =
    ports_issue (sel ++ codes ": ") (codes " for " ++ sel) proto allows (parse_ports own)

unfoldable pub own_ports_issues : Text → Bool → Dict Text → List Text → List Issue
unfolding own_ports_issue
own_ports_issues proto allows ports [] = []
own_ports_issues proto allows ports (sel ∷ sels) =
    own_ports_issue proto allows sel (truthy (get sel ports))
    ++ own_ports_issues proto allows ports sels

abbrev pub issue_if : Bool → Issue → List Issue
issue_if true i = i ∷ []
issue_if false i = []

abbrev pub is_empty : List Text → Bool
is_empty [] = true
is_empty (x ∷ xs) = false

unfoldable pub port_issues : RuleForm → List Issue
unfolding ports_issue own_ports_issues
port_issues f =
    let shared = trim f.ports in
    let allows = proto_allows_ports f.proto in
    if not (text_eq shared [])
    then ports_issue [] [] f.proto allows (parse_ports shared)
    else own_ports_issues f.proto allows f.dst_ports f.dst

unfoldable pub validate_rule : RuleForm → SelectorContext → List Issue
validate_rule f ctx =
    issue_if (is_empty f.src)
      (field_issue Level.error IssueField.src (codes "at least one source is required"))
    ++ (issue_if (is_empty f.dst)
          (field_issue Level.error IssueField.dst (codes "at least one destination is required"))
        ++ (selector_issues IssueField.src Side.src ctx f.src
            ++ (selector_issues IssueField.dst Side.dst ctx f.dst
                ++ (port_issues f
                    ++ (issue_if (text_eq f.proto (codes "icmp")) (
                          field_issue Level.warn IssueField.proto (
                            codes
                              "\"icmp\" matches ICMPv4 only since 0.29 — add a second rule with ipv6-icmp for IPv6."))
                        ++ issue_if (ltb 120 (length f.name)) (
                            field_issue Level.error IssueField.name
                              (codes "name is limited to 120 characters")))))))
