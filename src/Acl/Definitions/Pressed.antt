-- ===== src/Acl/Definitions/Pressed.antt =====
-- What the buttons of the editors of groups and tag owners leave in the draft, for
-- frontend/src/pages/acls/DefinitionsTabs.tsx.
use head_control.Acl.Definitions.Renamed.{get_of_missing, dispatched-renaming, rename_if}
use head_control.Acl.Definitions.Tabs.{
  pressed, save_group, is_new, save_tag, group_pressed, tag_pressed, group_initial, entry_name,
  dispatched,
}
use head_control.Common.{
  ◌∙◌, ◌&&◌, ap, Option, ℕ, List, inl, inr, Bool-cases, ℕ, not, ◌≡◌, inl, inr, arith, if◌then◌else◌,
  none, some, Bool-cases, List,
}
use head_control.Text.{Text, text_eq}
use head_control.Text.Equal.{text_eq_iff}
use head_control.Dict.{keys, get, set, has}
use head_control.Dict.Laws.{get-set}
use head_control.Acl.Ports.Spec.{Distinct}
use head_control.Acl.Draft.{Draft}
use head_control.Acl.Reducer.{draft_reducer, groups, tag_owners}
use head_control.Acl.Definitions.{
  validate_member, validate_owner, section_prefix, SelectorContext, ListEntry, save_list_entry,
  sort, is_initial,
}
use head_control.Acl.Definitions.Saved.{Saved, save_list_entry-Saved, get-saved}

module _ (lower_case : Text → Text) (key_at : ℕ → Text) where
  -- The section after the button is pressed.
  groups_of_press :
      (ctx : SelectorContext) (editing name : Text) (members : List Text) (d : Draft) (n : ℕ)
      (e : ListEntry)
      → save_list_entry lower_case
          (section_prefix groups)
          (entry_name (group_initial d editing))
          (sort (keys d.groups))
          (validate_member ctx)
          name
          members
        ≡ some e
      → (group_pressed lower_case key_at ctx editing name members d n).0.groups
        ≡ set e.name e.members (
            if not (is_new editing) && not (text_eq e.name editing)
            then rename_if editing e.name d.groups
            else d.groups)
  unfolding group_pressed
  groups_of_press ctx editing name members d n e h =
      ap (λ o. (pressed key_at (save_group editing) o d n).0.groups) h
      ∙ (unfold pressed save_group in
          dispatched-renaming key_at groups (not (is_new editing) && not (text_eq e.name editing))
            editing e.name e.members d n)

  -- The button of the editor of a group, where it is enabled, saves the group.
  pub group_pressed-Saved :
      (ctx : SelectorContext) (editing name : Text) (members : List Text) (d : Draft) (n : ℕ)
      (e : ListEntry)
      → Distinct (keys d.groups)
      → save_list_entry lower_case
          (section_prefix groups)
          (entry_name (group_initial d editing))
          (sort (keys d.groups))
          (validate_member ctx)
          name
          members
        ≡ some e
      → Saved
          (section_prefix groups)
          (entry_name (group_initial d editing))
          e
          d.groups
          (group_pressed lower_case key_at ctx editing name members d n).0.groups
  group_pressed-Saved ctx editing name members d n e distinct h =
      save_list_entry-Saved lower_case (section_prefix groups)
        (entry_name (group_initial d editing)) (validate_member ctx) name members e d.groups
        (group_pressed lower_case key_at ctx editing name members d n).0.groups h
        λ k.
          ap (get k) (groups_of_press ctx editing name members d n e h)
          ∙ unfold group_initial in
            elim (Bool-cases (is_new editing)) [
              | inl new ↦ rw new (get-set e.name k e.members d.groups)
              | inr old ↦ rw old (get-saved editing e.name k e.members d.groups distinct)
            ]

  tags_of_press :
      (ctx : SelectorContext) (i : ListEntry) (name : Text) (members : List Text) (d : Draft)
      (n : ℕ) (e : ListEntry)
      → save_list_entry lower_case
          (section_prefix tag_owners)
          (some i.name)
          (sort (keys d.tag_owners))
          (validate_owner ctx)
          name
          members
        ≡ some e
      → (tag_pressed lower_case key_at ctx (some i) name members d n).0.tag_owners
        ≡ set e.name e.members (
            if has i.name d.tag_owners && not (text_eq e.name i.name)
            then rename_if i.name e.name d.tag_owners
            else d.tag_owners)
  unfolding tag_pressed
  tags_of_press ctx i name members d n e h =
      ap (λ o. (pressed key_at (save_tag d (some i)) o d n).0.tag_owners) h
      ∙ (unfold pressed save_tag in
          dispatched-renaming key_at tag_owners
            (has i.name d.tag_owners && not (text_eq e.name i.name)) i.name e.name e.members d n)

  tag_pressed-get :
      (ctx : SelectorContext) (editing : Option ListEntry) (name : Text) (members : List Text)
      (d : Draft) (n : ℕ) (e : ListEntry)
      → Distinct (keys d.tag_owners)
      → save_list_entry lower_case
          (section_prefix tag_owners)
          (entry_name editing)
          (sort (keys d.tag_owners))
          (validate_owner ctx)
          name
          members
        ≡ some e
      → (k : Text)
      → get k (tag_pressed lower_case key_at ctx editing name members d n).0.tag_owners ≡ (
          if text_eq e.name k
          then some e.members
          else if is_initial (entry_name editing) k
          then none
          else get k d.tag_owners)
  tag_pressed-get ctx none name members d n e distinct h k =
      unfold tag_pressed in
      ap (λ o. get k (pressed key_at (save_tag d none) o d n).0.tag_owners) h
      ∙ (unfold save_tag pressed dispatched draft_reducer in
          get-set e.name k e.members d.tag_owners)
  tag_pressed-get ctx (some i) name members d n e distinct h k =
      ap (get k) (tags_of_press ctx i name members d n e h)
      ∙ elim (Bool-cases (has i.name d.tag_owners)) [
        | inl old ↦
            ap
              (λ b. get k (
                set e.name e.members (
                  if b && not (text_eq e.name i.name)
                  then rename_if i.name e.name d.tag_owners
                  else d.tag_owners)))
              old
            ∙ (get-saved i.name e.name k e.members d.tag_owners distinct)
        | inr undeclared ↦ rw undeclared (
            ground (
              arith,
              get-set e.name k e.members d.tag_owners,
              get_of_missing i.name d.tag_owners undeclared,
              text_eq_iff i.name k,
            ))
      ]

  pub tag_pressed-Saved :
      (ctx : SelectorContext) (editing : Option ListEntry) (name : Text) (members : List Text)
      (d : Draft) (n : ℕ) (e : ListEntry)
      → Distinct (keys d.tag_owners)
      → save_list_entry lower_case
          (section_prefix tag_owners)
          (entry_name editing)
          (sort (keys d.tag_owners))
          (validate_owner ctx)
          name
          members
        ≡ some e
      → Saved
          (section_prefix tag_owners)
          (entry_name editing)
          e
          d.tag_owners
          (tag_pressed lower_case key_at ctx editing name members d n).0.tag_owners
  tag_pressed-Saved ctx editing name members d n e distinct h =
      save_list_entry-Saved lower_case (section_prefix tag_owners) (entry_name editing)
        (validate_owner ctx) name members e d.tag_owners
        (tag_pressed lower_case key_at ctx editing name members d n).0.tag_owners h
        (tag_pressed-get ctx editing name members d n e distinct h)
