-- ===== src/Acl/Elements/Issues.antt =====
-- What stands against saving in the editors of frontend/src/pages/acls/PolicySections.tsx, but for
-- that of SSH rules, whose check of a duration adds floating point numbers.
use head_control.Common.{
  ◌+◌, ◌==◌, Bool, true, false, not, ◌&&◌, List, [], ◌∷◌, ◌++◌, any, length, if◌then◌else◌, Option,
  none, some,
}
use head_control.Text.{Text, codes, text_eq, trim, includes}
use head_control.Json.{Json, Members}
use head_control.Json.Fields.{get_list}
use head_control.Acl.Selector.{Issue, Level, Side, SelectorKind, SelectorContext, validate_selector}
use head_control.Acl.Selector.Fields.{
  validate_grant_ip, validate_plain, validate_ssh_user, validate_test_target, validate_route_prefix,
}
use head_control.Acl.Selector.Restricted.{restricted_selector}
use head_control.Acl.Elements.{
  is_object, GrantForm, NodeAttrForm, TestForm, SshTestForm, has_app, app_value,
}

abbrev issue_if : Bool → Text → List Issue
issue_if b text = if b then record { level = Level.error; text = text; field = none } ∷ [] else []

abbrev issue_list : Option Issue → List Issue
issue_list none = []
issue_list (some i) = i ∷ []

-- The findings of the check in the values of a picker.
unfoldable pub picker_issues : List Text → (Text → Option Issue) → List Issue
picker_issues [] check = []
picker_issues (s ∷ values) check = issue_list (check s) ++ picker_issues values check

-- An error keeps the button of the editor disabled.
unfoldable pub blocked : List Issue → Bool
unfolding any
blocked issues = any (λ i. elim (i.level) [ Level.error ↦ true | Level.warn ↦ false ]) issues

abbrev is_empty {ℓ} : {A : Type ℓ} → List A → Bool
is_empty [] = true
is_empty (x ∷ xs) = false

abbrev pub ssh_dst_autogroups : List Text
ssh_dst_autogroups =
    codes "autogroup:member" ∷ codes "autogroup:tagged" ∷ codes "autogroup:self" ∷ []

abbrev pub node_attr_autogroups : List Text
node_attr_autogroups = codes "autogroup:member" ∷ codes "autogroup:tagged" ∷ []

abbrev selector_kinds : List SelectorKind
selector_kinds =
    SelectorKind.user ∷ SelectorKind.group ∷ SelectorKind.tag ∷ SelectorKind.host
    ∷ SelectorKind.cidr ∷ SelectorKind.wildcard ∷ []

unfoldable pub node_attr_issues : SelectorContext → Members → NodeAttrForm → List Issue
unfolding picker_issues get_list
node_attr_issues ctx base f =
    issue_if (is_empty f.target) (codes "at least one target is required")
    ++ (issue_if (is_empty f.attr && is_empty (get_list base (codes "ipPool")))
          (codes "add at least one attribute")
        ++ (picker_issues f.target
              (λ s. restricted_selector s Side.src ctx selector_kinds node_attr_autogroups)
            ++ picker_issues f.attr (λ s. validate_plain s (codes "attributes"))))

unfoldable pub test_issues : SelectorContext → TestForm → List Issue
unfolding picker_issues
test_issues ctx f =
    issue_if (not (length f.src == 1)) (codes "a test has exactly one source")
    ++ (issue_if (length f.accept + length f.deny == 0)
          (codes "list at least one destination that must be reachable or blocked")
        ++ (picker_issues f.src (λ s. validate_selector s Side.src ctx)
            ++ picker_issues (f.accept ++ f.deny) validate_test_target))

unfoldable pub ssh_test_issues : SelectorContext → SshTestForm → List Issue
unfolding picker_issues
ssh_test_issues ctx f =
    issue_if (not (length f.src == 1)) (codes "an SSH test has exactly one source")
    ++ (issue_if (is_empty f.dst) (codes "at least one destination is required")
        ++ (issue_if (length f.accept + length f.check + length f.deny == 0)
              (codes "list at least one user under accept, check or deny")
            ++ (picker_issues f.src (λ s. validate_selector s Side.src ctx)
                ++ (picker_issues f.dst (λ s.
                      restricted_selector s Side.dst ctx (SelectorKind.tag ∷ SelectorKind.host ∷ [])
                        ssh_dst_autogroups)
                    ++ picker_issues (f.accept ++ (f.check ++ f.deny)) validate_ssh_user))))

abbrev prefix_issue : Option Text → List Issue
prefix_issue none = []
prefix_issue (some e) = record { level = Level.error; text = e; field = none } ∷ []

-- `route` is none for the approvers of exit nodes; otherwise the prefix that was edited, which is
-- empty for a new route.
unfoldable pub approver_issues :
    SelectorContext → Option Text → List Text → Text → List Text → List Issue
unfolding picker_issues text_eq trim includes
approver_issues ctx route existing prefix owners =
    let checked = picker_issues owners (λ s.
      restricted_selector s Side.src ctx
        (SelectorKind.user ∷ SelectorKind.group ∷ SelectorKind.tag ∷ []) []) in
    let p = trim prefix in
    elim route [
      | none ↦ checked
      | some old ↦
          checked
          ++ ((if text_eq p [] then [] else prefix_issue (validate_route_prefix p))
              ++ (issue_if (text_eq p []) (codes "a route prefix is required")
                  ++ (issue_if (not (text_eq p old) && includes p existing)
                        (p ++ codes " already has approvers")
                      ++ issue_if (is_empty owners) (codes "add at least one approver"))))
    ]

module _ (parse : Text → Option Json) (print : Json → Text) where
  unfoldable pub grant_issues : SelectorContext → GrantForm → List Issue
  unfolding has_app app_value picker_issues
  grant_issues ctx f =
      issue_if (has_app parse print f && not (is_object (app_value parse print f))) (
        codes
          "app must be a JSON object such as {\"tailscale.com/cap/drive\": [{\"shares\": [\"*\"], \"access\": \"rw\"}]}")
      ++ (issue_if (is_empty f.src) (codes "at least one source is required")
          ++ (issue_if (is_empty f.dst) (codes "at least one destination is required")
              ++ (issue_if (is_empty f.ip && not (has_app parse print f))
                    (codes "a grant needs ip ports, an app capability, or both")
                  ++ (picker_issues f.src (λ s. validate_selector s Side.src ctx)
                      ++ (picker_issues f.dst (λ s. validate_selector s Side.dst ctx)
                          ++ picker_issues f.ip validate_grant_ip)))))
