-- ===== src/Acl/Reducer/Renaming.antt =====
-- After a key is renamed, the sections of the draft refer to its new name.
use head_control.Common.{
  append-nil, ℕ, suc, true, false, List, [], ◌∷◌, ◌++◌, map, ◌≡◌, ◌≢◌, refl, arith, All, any,
  if◌then◌else◌, none,
}
use head_control.Text.{Text, codes, text_eq, includes}
use head_control.Text.Equal.{text_eq_iff}
use head_control.Dict.{Dict, has}
use head_control.Acl.Ports.{split_dst}
use head_control.Acl.Ports.Canonical.{parse_ports-IsSpec}
use head_control.Acl.Ports.Dst.{split_dst_sound, split_dst-join_dst}
use head_control.Acl.Draft.{ExtraList, DraftRule, Draft}
use head_control.Acl.References.{
  item_references, Reference, rule_hits, rule_references, entry_references, references_of,
  ReferenceKind,
}
use head_control.Acl.Reducer.{
  swap, map_values, rename_rule_dst, rename_in_rule, rename_references, rename_owners,
  rename_section, draft_reducer, rename_section_key, lists, groups,
}

-- The name after the renaming.
abbrev pub renamed : Text → Text → Text → Text
renamed from to x = if text_eq x from then to else x

-- A well-formed destination keeps its ports, and its selector is renamed.
pub split_dst-rename_rule_dst :
    (from to d : Text)
    → to ≢ []
    → (split_dst d).error ≡ none
    → split_dst (rename_rule_dst from to d) ≡ record {
      selector = renamed from to (split_dst d).selector;
      ports = (split_dst d).ports;
      error = none;
    }
unfolding rename_rule_dst
split_dst-rename_rule_dst from to d h e =
    let (ports, whole, some_selector, parsed) = split_dst_sound d e in
    let joined =
      split_dst-join_dst to (split_dst d).ports h
        (parse_ports-IsSpec ports (split_dst d).ports parsed) in
    ground (arith, joined)

includes-swap :
    (from to : Text) (xs : List Text) → from ≢ to → includes from (swap from to xs) ≡ false
unfolding includes swap
includes-swap from to [] h = refl
includes-swap from to (x ∷ xs) h =
    ground (arith, includes-swap from to xs h, text_eq_iff x from, text_eq_iff to from)

-- Every destination has a selector and ports.
abbrev pub HasPorts : DraftRule → Type 0
HasPorts r = All (λ d. (split_dst d).error ≡ none) r.body.dst

any-rename_rule_dst :
    (from to : Text) (ds : List Text)
    → from ≢ to
    → to ≢ []
    → All (λ d. (split_dst d).error ≡ none) ds
    → any (λ d. text_eq (split_dst d).selector from) (map (rename_rule_dst from to) ds) ≡ false
unfolding any
any-rename_rule_dst from to [] h k e = refl
any-rename_rule_dst from to (d ∷ ds) h k e = ground (
  arith,
  any-rename_rule_dst from to ds h k e.1,
  split_dst-rename_rule_dst from to d k e.0,
  text_eq_iff (split_dst d).selector from,
  text_eq_iff to from,
)

rule_hits-rename_in_rule :
    (from to : Text) (r : DraftRule)
    → from ≢ to
    → to ≢ []
    → HasPorts r
    → rule_hits from (rename_in_rule from to r) ≡ false
unfolding rule_hits rename_in_rule
rule_hits-rename_in_rule from to r h k e =
    ground (arith, includes-swap from to r.body.src h, any-rename_rule_dst from to r.body.dst h k e)

rule_references-rename :
    (from to : Text) (i : ℕ) (rs : List DraftRule)
    → from ≢ to
    → to ≢ []
    → All HasPorts rs
    → rule_references from i (map (rename_in_rule from to) rs) ≡ []
unfolding rule_references
rule_references-rename from to i [] h k e = refl
rule_references-rename from to i (r ∷ rs) h k e = ground (
  arith,
  rule_references-rename from to (suc i) rs h k e.1,
  rule_hits-rename_in_rule from to r h k e.0,
)

entry_references-swap :
    (from to : Text) (kind : ReferenceKind) (key label : Text) (m : Dict (List Text))
    → from ≢ to
    → entry_references from kind key label (map_values (swap from to) m) ≡ []
unfolding entry_references map_values
entry_references-swap from to kind key label [] h = refl
entry_references-swap from to kind key label ((k, xs) ∷ m) h =
    ground (arith, entry_references-swap from to kind key label m h, includes-swap from to xs h)

-- The references that the elements of the other sections make.
abbrev pub element_references : Draft → Text → List Reference
element_references d s =
    item_references s ExtraList.grants 0 d.extras.grants
    ++ (item_references s ExtraList.ssh 0 d.extras.ssh
        ++ (item_references s ExtraList.node_attrs 0 d.extras.node_attrs
            ++ (item_references s ExtraList.tests 0 d.extras.tests
                ++ item_references s ExtraList.ssh_tests 0 d.extras.ssh_tests)))

references_of-element :
    (d : Draft) (s : Text)
    → rule_references s 0 d.rules ≡ []
    → entry_references s ReferenceKind.tag_owner [] [] d.tag_owners ≡ []
    → entry_references s ReferenceKind.policy
        (codes "route:")
        (codes "Auto-approved route ")
        d.auto_approvers.routes
      ≡ []
    → includes s d.auto_approvers.exit_node ≡ false
    → references_of d s ≡ element_references d s
unfolding references_of
references_of-element d s rules owners routes exit =
    rw (rules, owners, routes, exit) (simp append-nil)

-- After a declared group is renamed, no rule, tag owner, approved route or exit node approval
-- refers to its old name: the references that are left, if any, are in the elements of the other
-- sections. The rules' destinations are well formed and the new name is another one and not empty.
pub references_of-rename_group :
    (key_at : ℕ → Text) (d : Draft) (n : ℕ) (from to : Text)
    → has from d.groups ≡ true
    → from ≢ to
    → to ≢ []
    → All HasPorts d.rules
    → references_of (draft_reducer key_at d n (rename_section_key (lists groups) from to)).0 from
      ≡ element_references
          (draft_reducer key_at d n (rename_section_key (lists groups) from to)).0
          from
unfolding draft_reducer rename_section rename_references rename_owners
references_of-rename_group key_at d n from to declared other some_name ports =
    let apart : text_eq from to ≡ false = ground (arith, text_eq_iff from to) in
    rw (apart, declared)
      (references_of-element (rename_section (lists groups) from to d) from
        (rule_references-rename from to 0 d.rules other some_name ports)
        (entry_references-swap from to ReferenceKind.tag_owner [] [] d.tag_owners other)
        (entry_references-swap from to ReferenceKind.policy (codes "route:")
          (codes "Auto-approved route ") d.auto_approvers.routes other)
        (includes-swap from to d.auto_approvers.exit_node other))
