-- ===== src/Acl/Page/Shown.antt =====
-- What the page of the editor says of the unsaved changes: the dots of its tabs, `describeSummary`
-- and the list of the review, all of frontend/src/pages/acls/AclsBetaPage.tsx.
pub mod Agree
use head_control.Common.{
  ℕ, ◌+◌, Bool, true, false, not, ◌||◌, ◌&&◌, List, [], ◌∷◌, ◌++◌, map, length, any, ltb, ◌==◌,
  if◌then◌else◌, Option, none, some,
}
use head_control.Text.{Text, codes, text_eq, join}
use head_control.Text.Decimal.{show}
use head_control.Dict.{keys}
use head_control.Acl.Ports.{split_dst}
use head_control.Acl.Draft.{PolicyModelRule, Draft, DraftRule, ExtraList, Extras, at}
use head_control.Acl.Diff.{
  KeyChanges, ListChanges, RuleChange, RuleChanges, ChangeSummary, list_change_count, or_blank,
  bool_eq,
}
use head_control.Acl.References.{rule_label, extra_label, extra_noun}

pub data Tab : Type 0 where
  rules groups tag_owners hosts : Tab

abbrev pub extra_lists : List ExtraList
extra_lists =
    ExtraList.grants ∷ ExtraList.ssh ∷ ExtraList.node_attrs ∷ ExtraList.tests ∷ ExtraList.ssh_tests
    ∷ []

unfoldable pub key_count : KeyChanges → ℕ
key_count k = length k.added + length k.removed + length k.changed

abbrev pub rule_count : RuleChanges → ℕ
rule_count r = length r.added + length r.removed + length r.changed

unfoldable pub tab_dirty : ChangeSummary → Tab → Bool
unfolding any
tab_dirty s rules =
    ltb 0 (rule_count s.rules)
    || (any (λ l. ltb 0 (list_change_count (at s.extras l))) extra_lists
        || (ltb 0 (key_count s.routes) || (s.exit_node_changed || s.randomize_changed)))
tab_dirty s groups = ltb 0 (key_count s.groups)
tab_dirty s tag_owners = ltb 0 (key_count s.tag_owners)
tab_dirty s hosts = ltb 0 (key_count s.hosts)

unfoldable pub tab_count : Draft → Tab → ℕ
tab_count d rules = length d.rules
tab_count d groups = length (keys d.groups)
tab_count d tag_owners = length (keys d.tag_owners)
tab_count d hosts = length (keys d.hosts)

-- `n === 1 ? "" : "s"`
abbrev plural_s : ℕ → Text
plural_s n = if n == 1 then [] else codes "s"

-- `if (n) parts.push(text)`
abbrev pub part_if {ℓ} : {A : Type ℓ} → ℕ → A → List A
part_if n text = if ltb 0 n then text ∷ [] else []

abbrev counted : ℕ → Text → Text
counted n noun = show n ++ (codes " " ++ noun)

abbrev pub approver_count : ChangeSummary → ℕ
approver_count s = key_count s.routes + (if s.exit_node_changed then 1 else 0)

abbrev list_part : ChangeSummary → ExtraList → List Text
list_part s l =
    let n = list_change_count (at s.extras l) in part_if n (counted n (extra_noun l ++ plural_s n))

unfoldable pub summary_parts : ChangeSummary → List Text
summary_parts s =
    part_if (rule_count s.rules)
      (counted (rule_count s.rules) (codes "rule" ++ plural_s (rule_count s.rules)))
    ++ (part_if (key_count s.groups) (counted (key_count s.groups) (codes "groups"))
        ++ (part_if (key_count s.tag_owners) (counted (key_count s.tag_owners) (codes "tag owners"))
            ++ (part_if (key_count s.hosts) (counted (key_count s.hosts) (codes "hosts"))
                ++ (list_part s ExtraList.grants
                    ++ (list_part s ExtraList.ssh
                        ++ (list_part s ExtraList.node_attrs
                            ++ (list_part s ExtraList.tests
                                ++ (list_part s ExtraList.ssh_tests
                                    ++ (part_if (approver_count s) (
                                          counted (approver_count s)
                                            (codes "auto-approver" ++ plural_s (approver_count s)))
                                        ++ (if s.randomize_changed
                                            then codes "options" ∷ []
                                            else []))))))))))

unfoldable pub describe_summary : ChangeSummary → Text
unfolding summary_parts join
describe_summary s = join (codes " · ") (summary_parts s)

pub data Sign : Type 0 where
  plus tilde minus : Sign

-- A line of the review.
pub record Line : Type 0 where
  pub sign : Sign
  pub text : Text

abbrev pub line : Sign → Text → Line
line sign text = record { sign = sign; text = text }

abbrev pub Section : Type 0
Section = Text × List Line

abbrev what_if : Bool → Text → List Text
what_if b text = if b then text ∷ [] else []

-- What changed in a rule; `xs.join()` puts commas between.
unfoldable pub rule_changes : RuleChange → List Text
unfolding text_eq join
rule_changes c =
    let b = c.before in
    let a = c.after.body in
    what_if (not (bool_eq b.enabled a.enabled))
      (if a.enabled then codes "enabled" else codes "disabled")
    ++ (what_if (not (text_eq (or_blank b.proto) (or_blank a.proto))) (codes "protocol")
        ++ (what_if (not (text_eq (join (codes ",") b.src) (join (codes ",") a.src)))
              (codes "sources")
            ++ (what_if (not (text_eq (join (codes ",") b.dst) (join (codes ",") a.dst)))
                  (codes "destinations")
                ++ what_if
                    (not (text_eq b.name a.name) || not (text_eq b.description a.description))
                    (codes "name/description"))))

abbrev draft_label : DraftRule → Text
draft_label r = rule_label r.body.name r.body.src r.body.dst none

abbrev removed_label : PolicyModelRule → Text
removed_label r =
    rule_label r.name r.src
      (map (λ d. (split_dst d).selector ++ (codes ":" ++ (split_dst d).ports)) r.dst) none

unfoldable pub rule_lines : RuleChanges → List Line
unfolding rule_changes join
rule_lines r =
    map (λ a. line plus (draft_label a)) r.added
    ++ (map
          (λ c. line tilde (
            draft_label c.after
            ++ (codes " (" ++ (join (codes ", ") (rule_changes c) ++ codes ")"))))
          r.changed
        ++ map (λ x. line minus (removed_label x)) r.removed)

unfoldable pub key_lines : Text → KeyChanges → List Line
key_lines prefix k =
    map (λ x. line plus (prefix ++ x)) k.added
    ++ (map (λ x. line tilde (prefix ++ x)) k.changed
        ++ map (λ x. line minus (prefix ++ x)) k.removed)

abbrev nouns : ExtraList → ℕ → Text
nouns l n = counted n (extra_noun l ++ plural_s n)

unfoldable pub list_lines : ExtraList → ListChanges → List Line
list_lines l c =
    part_if c.added (line plus (nouns l c.added ++ codes " added"))
    ++ (part_if c.changed (line tilde (nouns l c.changed ++ codes " edited"))
        ++ part_if c.removed (line minus (nouns l c.removed ++ codes " removed")))

-- A section with no line is left out.
abbrev pub section_of : Text → List Line → List Section
section_of title [] = []
section_of title (x ∷ xs) = (title, x ∷ xs) ∷ []

abbrev pub extra_section : ChangeSummary → ExtraList → List Section
extra_section s l = section_of (extra_label l ++ codes "s") (list_lines l (at s.extras l))

unfoldable pub approver_lines : ChangeSummary → List Line
approver_lines s =
    key_lines (codes "route ") s.routes
    ++ (if s.exit_node_changed then line tilde (codes "exit node approvers") ∷ [] else [])

unfoldable pub summary_sections : ChangeSummary → List Section
summary_sections s =
    section_of (codes "Rules") (rule_lines s.rules)
    ++ (section_of (codes "Groups") (key_lines [] s.groups)
        ++ (section_of (codes "Tag owners") (key_lines [] s.tag_owners)
            ++ (section_of (codes "Hosts") (key_lines [] s.hosts)
                ++ (extra_section s ExtraList.grants
                    ++ (extra_section s ExtraList.ssh
                        ++ (extra_section s ExtraList.node_attrs
                            ++ (extra_section s ExtraList.tests
                                ++ (extra_section s ExtraList.ssh_tests
                                    ++ (section_of (codes "Auto approvers") (approver_lines s)
                                        ++ section_of (codes "Options") (
                                            if s.randomize_changed
                                            then line tilde (codes "randomize client port") ∷ []
                                            else []))))))))))
