-- ===== src/Acl/Definitions.antt =====
-- The tabs of groups, tag owners and hosts of frontend/src/pages/acls/DefinitionsTabs.tsx: the
-- checks of their editors and what each of them dispatches.
mod Tabs
mod Renamed
mod Saved
mod Pressed
mod HostNames
mod Hosts
mod Tests
use head_control.Common.{
  ℕ, ◌==◌, Bool, true, false, not, ◌&&◌, ◌||◌, List, [], ◌∷◌, ◌++◌, map, leb, keep, any, all,
  length, if◌then◌else◌, Option, none, some,
}
use head_control.Text.{
  Text, codes, text_eq, includes, trim, starts_with, has_unit, lower, join, is_digit, take, drop,
}
use head_control.Text.Sort.{sort}
use head_control.Text.Decimal.{show}
use head_control.Dict.{Dict, keys, get, has}
use head_control.Acl.Selector.{
  Issue, Level, Side, an_error, has_space, user_selectors, validate_selector, SelectorContext,
  SelectorUser, SelectorKind, truthy,
}
use head_control.Acl.Selector.Cidr.{is_ip_or_cidr}
use head_control.Acl.Selector.Options.{SelectorOption}
use head_control.Acl.Draft.{Draft, or_empty}
use head_control.Acl.Diff.{KeyChanges}
use head_control.Acl.References.{Reference, ReferenceKind}
use head_control.Acl.Reducer.{
  ListSection, groups, tag_owners, KeySection, lists, hosts, list_section, DraftAction, set_entry,
  set_host, delete_key, rename_section_key, draft_reducer,
}

-- The badge of a row; a row with no change has none.
unfoldable pub status_of : Text → KeyChanges → Option Text
unfolding includes
status_of name ch =
    if includes name ch.added
    then some (codes "new")
    else if includes name ch.changed
    then some (codes "edited")
    else none

abbrev is_kind : ReferenceKind → Reference → Bool
is_kind k r = elim k [
  | ReferenceKind.rule ↦ elim r.kind [ ReferenceKind.rule ↦ true | _ ↦ false ]
  | ReferenceKind.tag_owner ↦ elim r.kind [ ReferenceKind.tag_owner ↦ true | _ ↦ false ]
  | ReferenceKind.policy ↦ elim r.kind [ ReferenceKind.policy ↦ true | _ ↦ false ]
]

abbrev ending : ℕ → Text
ending n = if n == 1 then [] else codes "s"

abbrev used_part : ℕ → Text → List Text
used_part n text = if n == 0 then [] else text ∷ []

unfoldable pub used_by : List Reference → Text
unfolding join show keep
used_by [] = codes "unused"
used_by (r ∷ refs) =
    let rules = length (keep (is_kind ReferenceKind.rule) (r ∷ refs)) in
    let owners = length (keep (is_kind ReferenceKind.tag_owner) (r ∷ refs)) in
    let policy = length (keep (is_kind ReferenceKind.policy) (r ∷ refs)) in
    join (codes ", ") (
      used_part rules (show rules ++ (codes " rule" ++ ending rules))
      ++ (used_part owners (show owners ++ (codes " tag owner" ++ ending owners))
          ++ used_part policy (show policy ++ codes " other")))

unfoldable pub key_noun : KeySection → Text
key_noun (lists groups) = codes "group"
key_noun (lists tag_owners) = codes "tag owner entry"
key_noun hosts = codes "host"

-- The prefix that the tab of a section gives to the editor.
abbrev pub section_prefix : ListSection → Text
section_prefix groups = codes "group:"
section_prefix tag_owners = codes "tag:"

-- `lower_case` is `toLowerCase`.
unfoldable pub normalize_name : (Text → Text) → Text → Text → Text
unfolding trim starts_with text_eq
normalize_name lower_case raw prefix =
    let s = lower_case (trim raw) in
    let t = if not (text_eq s []) && not (starts_with s prefix) then prefix ++ s else s in
    if text_eq t [] then prefix else t

unfoldable pub is_letter : ℕ → Bool
is_letter c = (leb b'A' c && leb c b'Z') || (leb b'a' c && leb c b'z')

abbrev starts_letter : Text → Bool
starts_letter [] = false
starts_letter (c ∷ s) = is_letter c

-- `/^tag:[A-Za-z]/.test(s)`
is_tag_name : Text → Bool
unfolding is_letter starts_with drop
is_tag_name s = starts_with s (codes "tag:") && starts_letter (drop 4 s)

pub record ListEntry : Type 0 where
  pub name : Text
  pub members : List Text

abbrev pub is_initial : Option Text → Text → Bool
is_initial none name = false
is_initial (some i) name = text_eq i name

-- What the editor says of a normalized name; `initial` is the name of the entry that it edits.
unfoldable pub name_error : Text → Option Text → List Text → Text → Option Text
unfolding has_space is_tag_name includes
name_error prefix initial existing normalized =
    if text_eq normalized prefix
    then some (codes "name is required")
    else if has_space normalized
    then some (codes "no whitespace allowed")
    else if text_eq prefix (codes "tag:") && not (is_tag_name normalized)
    then some (codes "tag names must start with a letter")
    else if not (is_initial initial normalized) && includes normalized existing
    then some (normalized ++ codes " already exists")
    else none

abbrev is_error : Option Issue → Bool
is_error none = false
is_error (some i) = elim (i.level) [ Level.error ↦ true | Level.warn ↦ false ]

abbrev pub is_none : Option Text → Bool
is_none none = true
is_none (some e) = false

-- What the button "Add" or "Update" saves; `none` is a button that is disabled.
unfoldable pub save_list_entry :
    (Text → Text)
    → Text
    → Option Text
    → List Text
    → (Text → Option Issue)
    → Text
    → List Text
    → Option ListEntry
unfolding name_error normalize_name any
save_list_entry lower_case prefix initial existing validate_member name members =
    let normalized = normalize_name lower_case name prefix in
    if is_none (name_error prefix initial existing normalized)
      && not (any (λ m. is_error (validate_member m)) members)
    then some (record { name = normalized; members = members })
    else none

unfoldable pub validate_member : SelectorContext → Text → Option Issue
unfolding trim has_space has_unit validate_selector
validate_member ctx raw =
    let s = trim raw in
    if text_eq s [] || has_space s
    then an_error (codes "users cannot be empty or contain spaces")
    else if not (has_unit b'@' s)
    then an_error (codes "write users as \"name@\" or an email address")
    else validate_selector s Side.src ctx

unfoldable pub validate_owner : SelectorContext → Text → Option Issue
unfolding trim has_space has_unit validate_selector starts_with
validate_owner ctx raw =
    let s = trim raw in
    if text_eq s [] || has_space s
    then an_error (codes "owners cannot be empty or contain spaces")
    else if not (starts_with s (codes "group:")) && not (has_unit b'@' s)
    then an_error (codes "owners are groups (group:…) or users (name@)")
    else validate_selector s Side.src ctx

-- The tab's check of the members.
abbrev section_validate : ListSection → SelectorContext → Text → Option Issue
section_validate groups = validate_member
section_validate tag_owners = validate_owner
