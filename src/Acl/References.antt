-- ===== src/Acl/References.antt =====
-- Labels of rules and the references to a selector: `ruleLabel`, `extraNoun` and `referencesOf` of
-- frontend/src/pages/acls/model.ts.
use head_control.Common.{
  ℕ, suc, ◌+◌, ◌-◌, Bool, ◌||◌, List, [], ◌∷◌, ◌++◌, map, ltb, length, any, if◌then◌else◌, Option,
  none, some,
}
use head_control.Text.{Text, codes, text_eq, includes, join, take, starts_with, lower}
use head_control.Text.Decimal.{show}
use head_control.Dict.{Dict}
use head_control.Json.Rename.{mentions}
use head_control.Acl.Ports.{split_dst}
use head_control.Acl.Draft.{DraftRule, ExtraItem, ExtraList, at, Draft}

pub data ReferenceKind : Type 0 where
  rule tag_owner policy : ReferenceKind

pub record Reference : Type 0 where
  pub kind : ReferenceKind
  pub key : Text
  pub label : Text

-- At most two of the texts, and how many more there are.
short : List Text → Text
unfolding join take show
short xs =
    if ltb 2 (length xs)
    then join (codes ", ") (take 2 xs) ++ (codes " +" ++ show (length xs - 2))
    else join (codes ", ") xs

unfoldable pub rule_label : Text → List Text → List Text → Option ℕ → Text
unfolding short
rule_label (c ∷ name) src dst index = c ∷ name
rule_label [] src dst index =
    let base = short src ++ (codes " → " ++ short (map (λ d. (split_dst d).selector) dst)) in
    elim index [ none ↦ base | some i ↦ codes "Rule " ++ (show (i + 1) ++ (codes ": " ++ base)) ]

abbrev pub extra_label : ExtraList → Text
extra_label ExtraList.grants = codes "Grant"
extra_label ExtraList.ssh = codes "SSH rule"
extra_label ExtraList.node_attrs = codes "Node attribute"
extra_label ExtraList.tests = codes "Test"
extra_label ExtraList.ssh_tests = codes "SSH test"

abbrev lower_first : Text → Text
lower_first [] = []
lower_first (c ∷ s) = lower c ∷ s

unfoldable pub extra_noun : ExtraList → Text
unfolding starts_with lower
extra_noun l =
    let label = extra_label l in
    if starts_with label (codes "SSH") then label else lower_first label

-- The rule has the selector among its sources, or as the target of a destination.
unfoldable pub rule_hits : Text → DraftRule → Bool
unfolding any includes
rule_hits selector r =
    includes selector r.body.src || any (λ d. text_eq (split_dst d).selector selector) r.body.dst

unfoldable pub rule_references : Text → ℕ → List DraftRule → List Reference
unfolding rule_hits rule_label
rule_references selector i [] = []
rule_references selector i (r ∷ rs) =
    let rest = rule_references selector (suc i) rs in
    if rule_hits selector r
    then record {
      kind = ReferenceKind.rule;
      key = r.key;
      label = rule_label r.body.name r.body.src r.body.dst (some i);
    }
      ∷ rest
    else rest

-- The entries of a dictionary of lists whose list holds the selector.
unfoldable pub entry_references :
    Text → ReferenceKind → Text → Text → Dict (List Text) → List Reference
unfolding includes
entry_references selector kind key label [] = []
entry_references selector kind key label ((k, xs) ∷ m) =
    let rest = entry_references selector kind key label m in
    if includes selector xs
    then record { kind = kind; key = key ++ k; label = label ++ k } ∷ rest
    else rest

unfoldable pub item_references : Text → ExtraList → ℕ → List ExtraItem → List Reference
unfolding show
item_references selector l i [] = []
item_references selector l i (it ∷ items) =
    let rest = item_references selector l (suc i) items in
    if mentions it.value selector
    then record {
      kind = ReferenceKind.policy;
      key = it.key;
      label = extra_label l ++ (codes " " ++ show (i + 1));
    }
      ∷ rest
    else rest

unfoldable pub references_of : Draft → Text → List Reference
unfolding rule_references entry_references item_references includes
references_of d selector =
    let items = λ (l : ExtraList). item_references selector l 0 (at d.extras l) in
    rule_references selector 0 d.rules
    ++ (entry_references selector ReferenceKind.tag_owner [] [] d.tag_owners
        ++ (items ExtraList.grants
            ++ (items ExtraList.ssh
                ++ (items ExtraList.node_attrs
                    ++ (items ExtraList.tests
                        ++ (items ExtraList.ssh_tests
                            ++ (entry_references selector ReferenceKind.policy (codes "route:")
                                  (codes "Auto-approved route ") d.auto_approvers.routes
                                ++ (if includes selector d.auto_approvers.exit_node
                                    then record {
                                      kind = ReferenceKind.policy;
                                      key = codes "exitNode";
                                      label = codes "Exit node auto-approval";
                                    }
                                      ∷ []
                                    else []))))))))
