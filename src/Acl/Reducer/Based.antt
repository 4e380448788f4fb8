-- ===== src/Acl/Reducer/Based.antt =====
-- The model that a draft starts from, which only its loading changes.
use head_control.Common.{
  not, ◌||◌, ℕ, Bool, true, false, List, ◌≡◌, refl, Option, none, some, [], if◌then◌else◌,
}
use head_control.Text.{Text, text_eq}
use head_control.Json.{Json}
use head_control.Acl.Selector.{truthy}
use head_control.Acl.Draft.{Draft, DraftRule, ExtraList, draft_from_model}
use head_control.Acl.Reducer.{
  DraftAction, draft_reducer, put_copy, put_extra, has_key, rename_section, KeySection, lists,
  groups, tag_owners, hosts, insert_copy, copy_rule, reset, add_rule, update_rule, duplicate_rule,
  delete_rule, toggle_rule, set_entry, set_host, delete_key, rename_section_key, set_extra,
  delete_extra, set_route, delete_route, set_exit_node, set_randomize,
}

-- The hash of a draft is that of the model that it starts from.
abbrev pub IsBased : Draft → Type 0
IsBased d = d.base_hash ≡ (elim d.base [ none ↦ [] | some b ↦ b.hash ])

put_extra-IsBased :
    (key_at : ℕ → Text) (d : Draft) (n : ℕ) (list : ExtraList) (key : Option Text) (value : Json)
    → IsBased d
    → IsBased (put_extra key_at d n list key value).0
unfolding put_extra
put_extra-IsBased key_at d n list none value h = h
put_extra-IsBased key_at d n list (some key) value h = h

put_copy-IsBased :
    (key_at : ℕ → Text) (d : Draft) (n : ℕ) (rules : Option (List DraftRule))
    → IsBased d
    → IsBased (put_copy key_at d n rules).0
unfolding put_copy
put_copy-IsBased key_at d n none h = h
put_copy-IsBased key_at d n (some rules) h = h

rename_section-IsBased :
    (b : Bool) (section : KeySection) (from to : Text) (d : Draft)
    → IsBased d
    → IsBased (if b then d else rename_section section from to d)
unfolding rename_section
rename_section-IsBased true section from to d h = h
rename_section-IsBased false (lists groups) from to d h = h
rename_section-IsBased false (lists tag_owners) from to d h = h
rename_section-IsBased false hosts from to d h = h

pub draft_reducer-IsBased :
    (key_at : ℕ → Text) (d : Draft) (n : ℕ) (a : DraftAction)
    → IsBased d
    → IsBased (draft_reducer key_at d n a).0
unfolding draft_reducer
draft_reducer-IsBased key_at d n (reset m) h = unfold draft_from_model in refl
draft_reducer-IsBased key_at d n (add_rule body) h = h
draft_reducer-IsBased key_at d n (update_rule key patch) h = h
draft_reducer-IsBased key_at d n (duplicate_rule key) h =
    put_copy-IsBased key_at d n (insert_copy key (copy_rule (key_at n)) d.rules) h
draft_reducer-IsBased key_at d n (delete_rule key) h = h
draft_reducer-IsBased key_at d n (toggle_rule key) h = h
draft_reducer-IsBased key_at d n (set_entry groups name members) h = h
draft_reducer-IsBased key_at d n (set_entry tag_owners name members) h = h
draft_reducer-IsBased key_at d n (set_host name cidr) h = h
draft_reducer-IsBased key_at d n (delete_key (lists groups) name) h = h
draft_reducer-IsBased key_at d n (delete_key (lists tag_owners) name) h = h
draft_reducer-IsBased key_at d n (delete_key hosts name) h = h
draft_reducer-IsBased key_at d n (rename_section_key section from to) h =
    rename_section-IsBased (text_eq from to || not (has_key section from d)) section from to d h
draft_reducer-IsBased key_at d n (set_extra list key value) h =
    put_extra-IsBased key_at d n list (truthy key) value h
draft_reducer-IsBased key_at d n (delete_extra list key) h = h
draft_reducer-IsBased key_at d n (set_route prefix owners from) h = h
draft_reducer-IsBased key_at d n (delete_route prefix) h = h
draft_reducer-IsBased key_at d n (set_exit_node owners) h = h
draft_reducer-IsBased key_at d n (set_randomize value) h = h
