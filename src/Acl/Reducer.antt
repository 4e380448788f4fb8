-- ===== src/Acl/Reducer.antt =====
-- `draftReducer` of frontend/src/pages/acls/model.ts, but for the action "rebase", which is
-- `Rebase`.
pub mod Keys
pub mod Renaming
pub mod Based
use head_control.Acl.Selector.{truthy}
use mathlib.Core.Option
use head_control.Common.{
  ℕ, suc, Bool, true, false, not, ◌||◌, ◌&&◌, List, [], ◌∷◌, ◌++◌, map, keep, find, if◌then◌else◌,
  Option, none, some,
}
use head_control.Text.{Text, codes, text_eq, includes}
use head_control.Dict.{Dict, get, set, has, remove, from_entries}
use head_control.Json.{Json, canonical}
use head_control.Json.Rename.{rename_in_value}
use head_control.Acl.Ports.{Destination, split_dst, join_dst}
use head_control.Acl.Draft.{
  PolicyModel, RuleBody, DraftRule, ExtraItem, ExtraList, Extras, at, by_list, put_at,
  AutoApprovers, Draft, draft_from_model,
}

pub data ListSection : Type 0 where
  groups tag_owners : ListSection

pub data KeySection : Type 0 where
  lists : ListSection → KeySection
  hosts : KeySection

-- `Partial<…>` of a rule's body: `none` leaves the field as it is.
pub record RulePatch : Type 0 where
  pub proto : Option (Option Text)
  pub src : Option (List Text)
  pub dst : Option (List Text)
  pub name : Option Text
  pub description : Option Text
  pub enabled : Option Bool

abbrev patched {ℓ} : {A : Type ℓ} → Option A → A → A
patched none a = a
patched (some b) a = b

unfoldable pub patch_body : RuleBody → RulePatch → RuleBody
patch_body b p = record {
  proto = patched p.proto b.proto;
  src = patched p.src b.src;
  dst = patched p.dst b.dst;
  name = patched p.name b.name;
  description = patched p.description b.description;
  enabled = patched p.enabled b.enabled;
}

-- `rules.map((r) => (r.key === key ? f(r) : r))`
unfoldable pub change_rule : Text → (RuleBody → RuleBody) → List DraftRule → List DraftRule
change_rule key f = map (λ r. if text_eq r.key key then record r { body = f r.body } else r)

-- The copy stands behind the rule; without the rule nothing changes, which `none` tells.
unfoldable pub insert_copy :
    Text → (DraftRule → DraftRule) → List DraftRule → Option (List DraftRule)
insert_copy key copy [] = none
insert_copy key copy (r ∷ rs) =
    let later = Option.map (◌∷◌ r) (insert_copy key copy rs) in
    if text_eq r.key key then some (r ∷ copy r ∷ rs) else later

unfoldable pub copy_name : Text → Text
copy_name [] = []
copy_name (c ∷ s) = (c ∷ s) ++ codes " (copy)"

unfoldable pub copy_rule : Text → DraftRule → DraftRule
unfolding copy_name
copy_rule key r = record {
  key = key;
  server_id = none;
  body = record (r.body) { name = copy_name r.body.name };
}

-- `d[section]`, written back
abbrev pub list_section : ListSection → Draft → Dict (List Text)
list_section groups d = d.groups
list_section tag_owners d = d.tag_owners

abbrev pub put_list_section : ListSection → Dict (List Text) → Draft → Draft
put_list_section groups m d = record d { groups = m }
put_list_section tag_owners m d = record d { tag_owners = m }

-- `Object.fromEntries(Object.entries(m).map(([k, v]) => [k === from ? to : k, v]))`
unfoldable pub rename_key {ℓ} : {V : Type ℓ} → Text → Text → Dict V → Dict V
unfolding from_entries
rename_key from to m = from_entries (map (λ e. (if text_eq e.0 from then to else e.0, e.1)) m)

-- `xs.map((x) => (x === from ? to : x))`
unfoldable pub swap : Text → Text → List Text → List Text
swap from to = map (λ x. if text_eq x from then to else x)

unfoldable pub rename_rule_dst : Text → Text → Text → Text
rename_rule_dst from to d =
    let s = split_dst d in if text_eq s.selector from then join_dst to s.ports else d

unfoldable pub rename_in_rule : Text → Text → DraftRule → DraftRule
unfolding swap rename_rule_dst
rename_in_rule from to r = record r {
  body = record (r.body) {
    src = swap from to r.body.src;
    dst = map (rename_rule_dst from to) r.body.dst;
  };
}

-- An element in which nothing is renamed stays the same object.
unfoldable pub rename_in_item : Text → Text → ExtraItem → ExtraItem
rename_in_item from to it =
    let value = rename_in_value it.value from to in
    if text_eq (canonical value) (canonical it.value) then it else record it { value = value }

-- `Object.fromEntries(Object.entries(m).map(([k, v]) => [k, f(v)]))`
unfoldable pub map_values {ℓ} : {V : Type ℓ} → (V → V) → Dict V → Dict V
map_values f = map (λ e. (e.0, f e.1))

-- The references to a renamed key, in the sections that hold some.
unfoldable pub rename_references : Text → Text → Draft → Draft
unfolding rename_in_rule rename_in_item map_values swap
rename_references from to d = record d {
  rules = map (rename_in_rule from to) d.rules;
  extras = by_list (λ l. map (rename_in_item from to) (at d.extras l));
  auto_approvers = record {
    routes = map_values (swap from to) d.auto_approvers.routes;
    exit_node = swap from to d.auto_approvers.exit_node;
  };
}

unfoldable pub rename_owners : Text → Text → Draft → Draft
unfolding map_values swap
rename_owners from to d = record d { tag_owners = map_values (swap from to) d.tag_owners }

unfoldable pub rename_section : KeySection → Text → Text → Draft → Draft
unfolding rename_key rename_references rename_owners
rename_section (lists groups) from to d =
    rename_references from to
      (rename_owners from to (record d { groups = rename_key from to d.groups }))
rename_section (lists tag_owners) from to d =
    rename_references from to (record d { tag_owners = rename_key from to d.tag_owners })
rename_section hosts from to d =
    rename_references from to (record d { hosts = rename_key from to d.hosts })

abbrev has_key : KeySection → Text → Draft → Bool
has_key (lists s) k d = has k (list_section s d)
has_key hosts k d = has k d.hosts

pub data DraftAction : Type 0 where
  reset : PolicyModel → DraftAction
  add_rule : RuleBody → DraftAction
  update_rule : Text → RulePatch → DraftAction
  duplicate_rule delete_rule toggle_rule : Text → DraftAction
  set_entry : ListSection → Text → List Text → DraftAction
  set_host : Text → Text → DraftAction
  delete_key : KeySection → Text → DraftAction
  rename_section_key : KeySection → Text → Text → DraftAction
  set_extra : ExtraList → Option Text → Json → DraftAction
  delete_extra : ExtraList → Text → DraftAction
  set_route : Text → List Text → Option Text → DraftAction
  delete_route : Text → DraftAction
  set_exit_node : List Text → DraftAction
  set_randomize : Bool → DraftAction

-- The items with a new value at the key.
abbrev change_item : Text → Json → List ExtraItem → List ExtraItem
change_item key value = map (λ it. if text_eq it.key key then record it { value = value } else it)

put_routes : Dict (List Text) → Draft → Draft
put_routes routes d = record d { auto_approvers = record (d.auto_approvers) { routes = routes } }

-- `delete routes[from]` if the prefix is renamed
abbrev drop_old : Option Text → Text → Dict (List Text) → Dict (List Text)
drop_old none prefix routes = routes
drop_old (some []) prefix routes = routes
drop_old (some (c ∷ s)) prefix routes =
    if text_eq (c ∷ s) prefix then routes else remove (c ∷ s) routes

module _ (key_at : ℕ → Text) where
  put_copy : Draft → ℕ → Option (List DraftRule) → Draft × ℕ
  put_copy d n none = (d, n)
  put_copy d n (some rules) = (record d { rules = rules }, suc n)

  -- With no key, or an empty one, the element is added.
  put_extra : Draft → ℕ → ExtraList → Option Text → Json → Draft × ℕ
  put_extra d n list none value = (
    record d {
      extras =
          put_at list
            (at d.extras list ++ record { key = key_at n; origin = none; value = value } ∷ [])
            d.extras;
    },
    suc n,
  )
  put_extra d n list (some key) value =
      (record d { extras = put_at list (change_item key value (at d.extras list)) d.extras }, n)

  -- The state is the draft and the number of keys that were made.
  unfoldable pub draft_reducer : Draft → ℕ → DraftAction → Draft × ℕ
  unfolding put_routes put_copy put_extra rename_section change_rule insert_copy
  draft_reducer d n (reset model) = draft_from_model key_at n model
  draft_reducer d n (add_rule body) = (
    record d { rules = d.rules ++ record { key = key_at n; server_id = none; body = body } ∷ [] },
    suc n,
  )
  draft_reducer d n (update_rule key patch) =
      (record d { rules = change_rule key (λ b. patch_body b patch) d.rules }, n)
  draft_reducer d n (duplicate_rule key) =
      put_copy d n (insert_copy key (copy_rule (key_at n)) d.rules)
  draft_reducer d n (delete_rule key) =
      (record d { rules = keep (λ r. not (text_eq r.key key)) d.rules }, n)
  draft_reducer d n (toggle_rule key) =
      (record d { rules = change_rule key (λ b. record b { enabled = not b.enabled }) d.rules }, n)
  draft_reducer d n (set_entry section name members) =
      (put_list_section section (set name members (list_section section d)) d, n)
  draft_reducer d n (set_host name cidr) = (record d { hosts = set name cidr d.hosts }, n)
  draft_reducer d n (delete_key (lists section) name) =
      (put_list_section section (remove name (list_section section d)) d, n)
  draft_reducer d n (delete_key hosts name) = (record d { hosts = remove name d.hosts }, n)
  draft_reducer d n (rename_section_key section from to) = (
    if text_eq from to || not (has_key section from d) then d else rename_section section from to d,
    n,
  )
  draft_reducer d n (set_extra list key value) = put_extra d n list (truthy key) value
  draft_reducer d n (delete_extra list key) = (
    record d {
      extras = put_at list (keep (λ it. not (text_eq it.key key)) (at d.extras list)) d.extras;
    },
    n,
  )
  draft_reducer d n (set_route prefix owners from) =
      (put_routes (set prefix owners (drop_old from prefix d.auto_approvers.routes)) d, n)
  draft_reducer d n (delete_route prefix) =
      (put_routes (remove prefix d.auto_approvers.routes) d, n)
  draft_reducer d n (set_exit_node owners) =
      (record d { auto_approvers = record (d.auto_approvers) { exit_node = owners } }, n)
  draft_reducer d n (set_randomize value) = (record d { randomize_client_port = value }, n)
