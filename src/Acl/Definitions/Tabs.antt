-- ===== src/Acl/Definitions/Tabs.antt =====
-- The three tabs of frontend/src/pages/acls/DefinitionsTabs.tsx: what their editors start from,
-- and the actions that they dispatch.
use head_control.Common.{
  ℕ, ◌==◌, Bool, false, not, ◌&&◌, ◌||◌, List, [], ◌∷◌, ◌++◌, map, keep, all, length, if◌then◌else◌,
  Option, none, some,
}
use head_control.Text.{Text, codes, text_eq, includes, trim, starts_with, is_digit}
use head_control.Text.Sort.{sort}
use head_control.Text.Decimal.{show}
use head_control.Dict.{keys, get, has}
use head_control.Acl.Selector.{SelectorContext, SelectorUser, SelectorKind}
use head_control.Acl.Selector.Cidr.{is_ip_or_cidr}
use head_control.Acl.Selector.Options.{SelectorOption, option, users_options}
use head_control.Acl.Draft.{Draft}
use head_control.Acl.Reducer.{
  groups, tag_owners, KeySection, lists, hosts, DraftAction, set_entry, set_host, delete_key,
  rename_section_key, draft_reducer,
}
use head_control.Acl.Definitions.{
  ListEntry, is_initial, is_letter, is_none, section_prefix, save_list_entry, validate_member,
  validate_owner,
}

-- The state `editing` of the tabs of groups and of hosts: closed, or a text, in which "new" stands
-- for a new entry.
abbrev pub is_new : Text → Bool
is_new editing = text_eq editing (codes "new")

abbrev list_or_nil : Option (List Text) → List Text
list_or_nil none = []
list_or_nil (some xs) = xs

abbrev text_or_nil : Option Text → Text
text_or_nil none = []
text_or_nil (some s) = s

unfoldable pub group_initial : Draft → Text → Option ListEntry
unfolding get
group_initial d editing =
    if is_new editing
    then none
    else some (record { name = editing; members = list_or_nil (get editing d.groups) })

abbrev pub entry_name : Option ListEntry → Option Text
entry_name none = none
entry_name (some e) = some e.name

unfoldable pub save_group : Text → ListEntry → List DraftAction
save_group editing e =
    (if not (is_new editing) && not (text_eq e.name editing)
      then rename_section_key (lists groups) editing e.name ∷ []
      else [])
    ++ set_entry groups e.name e.members ∷ []

-- The editor of the tag owners starts from an entry, or from `none` for a new tag.
abbrev pub rename_tag : Draft → Option ListEntry → Text → List DraftAction
rename_tag d none name = []
rename_tag d (some i) name =
    if has i.name d.tag_owners && not (text_eq name i.name)
    then rename_section_key (lists tag_owners) i.name name ∷ []
    else []

unfoldable pub save_tag : Draft → Option ListEntry → ListEntry → List DraftAction
save_tag d editing e = rename_tag d editing e.name ++ set_entry tag_owners e.name e.members ∷ []

-- The tags on devices that the draft does not declare, in their order.
unfoldable pub undeclared : SelectorContext → Draft → List Text
unfolding keep has sort
undeclared ctx d = sort (keep (λ t. not (has t d.tag_owners)) (keys ctx.node_tags))

unfoldable pub declare_tag : Text → ListEntry
declare_tag t = record { name = t; members = [] }

-- The options for the members of a group and for the owners of a tag.
unfoldable pub owner_options : Draft → List SelectorUser → List SelectorOption
unfolding show sort users_options get
owner_options d users =
    map
      (λ g.
        option g SelectorKind.group
          (some (show (length (list_or_nil (get g d.groups))) ++ codes " members")))
      (sort (keys d.groups))
    ++ users_options users

unfoldable pub is_host_unit : ℕ → Bool
unfolding is_digit is_letter
is_host_unit c = is_letter c || is_digit c || c == b'_' || c == b'.' || c == b'-'

-- `/^[A-Za-z0-9][A-Za-z0-9_.-]*$/.test(s)`
unfoldable pub is_host_name : Text → Bool
unfolding is_host_unit is_letter is_digit all
is_host_name [] = false
is_host_name (c ∷ s) = (is_letter c || is_digit c) && all is_host_unit s

-- `/^(group|tag|autogroup):/.test(s)`
pub is_reserved : Text → Bool
unfolding starts_with
is_reserved s =
    starts_with s (codes "group:")
    || starts_with s (codes "tag:")
    || starts_with s (codes "autogroup:")

unfoldable pub host_name_error : Option Text → List Text → Text → Option Text
unfolding text_eq includes is_host_name is_reserved
host_name_error initial existing n =
    if text_eq n []
    then some (codes "name is required")
    else if not (is_host_name n)
    then some (codes "letters, digits, dot, dash and underscore only")
    else if is_reserved n
    then some (codes "host names cannot use a reserved prefix")
    else if not (is_initial initial n) && includes n existing
    then some (n ++ codes " already exists")
    else none

unfoldable pub cidr_error : Text → Option Text
unfolding trim is_ip_or_cidr text_eq
cidr_error cidr =
    if text_eq (trim cidr) []
    then some (codes "address is required")
    else if not (is_ip_or_cidr (trim cidr))
    then some (codes "enter an IP (10.0.0.5) or CIDR (10.0.0.0/24)")
    else none

pub record Host : Type 0 where
  pub name : Text
  pub cidr : Text

unfoldable pub host_initial : Draft → Text → Option Host
unfolding get
host_initial d editing =
    if is_new editing
    then none
    else some (record { name = editing; cidr = text_or_nil (get editing d.hosts) })

abbrev pub host_entry_name : Option Host → Option Text
host_entry_name none = none
host_entry_name (some h) = some h.name

-- What the button of the editor of a host saves; `none` is a button that is disabled.
unfoldable pub save_host_entry : Option Text → List Text → Text → Text → Option Host
unfolding trim host_name_error cidr_error
save_host_entry initial existing name cidr =
    if is_none (host_name_error initial existing (trim name)) && is_none (cidr_error cidr)
    then some (record { name = trim name; cidr = trim cidr })
    else none

unfoldable pub save_host : Text → Host → List DraftAction
save_host editing h =
    (if not (is_new editing) && not (text_eq h.name editing)
      then rename_section_key hosts editing h.name ∷ []
      else [])
    ++ set_host h.name h.cidr ∷ []

-- The dialog of a deletion, when it is confirmed.
unfoldable pub confirm_delete : KeySection → Text → List DraftAction
confirm_delete section name = delete_key section name ∷ []

module _ (key_at : ℕ → Text) where
  -- The draft after the actions, in their order.
  unfoldable pub dispatched : Draft → ℕ → List DraftAction → Draft × ℕ
  unfolding draft_reducer
  dispatched d n [] = (d, n)
  dispatched d n (a ∷ more) = let (e, m) = draft_reducer key_at d n a in dispatched e m more

  -- What a button does with the entry that it saves; one that is disabled does nothing.
  unfoldable pub pressed {ℓ} :
      {E : Type ℓ} → (E → List DraftAction) → Option E → Draft → ℕ → Draft × ℕ
  unfolding dispatched
  pressed save none d n = (d, n)
  pressed save (some e) d n = dispatched d n (save e)

  -- Pressing the button of an editor.
  unfoldable pub host_pressed : Text → Text → Text → Draft → ℕ → Draft × ℕ
  unfolding pressed
  host_pressed editing name cidr d n =
      pressed (save_host editing)
        (save_host_entry (host_entry_name (host_initial d editing)) (sort (keys d.hosts)) name cidr)
        d n

module _ (lower_case : Text → Text) (key_at : ℕ → Text) where
  unfoldable pub group_pressed : SelectorContext → Text → Text → List Text → Draft → ℕ → Draft × ℕ
  unfolding pressed
  group_pressed ctx editing name members d n =
      pressed key_at (save_group editing)
        (save_list_entry lower_case (section_prefix groups) (entry_name (group_initial d editing))
          (sort (keys d.groups)) (validate_member ctx) name members)
        d n

  unfoldable pub tag_pressed :
      SelectorContext → Option ListEntry → Text → List Text → Draft → ℕ → Draft × ℕ
  unfolding pressed
  tag_pressed ctx editing name members d n =
      pressed key_at (save_tag d editing)
        (save_list_entry lower_case (section_prefix tag_owners) (entry_name editing)
          (sort (keys d.tag_owners)) (validate_owner ctx) name members)
        d n
