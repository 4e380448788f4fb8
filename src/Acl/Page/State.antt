-- ===== src/Acl/Page/State.antt =====
-- The state of the page of the editor, and what it reads off the draft and the records.
use head_control.Common.{ℕ, ◌+◌, Bool, false, not, ◌&&◌, List, [], ◌∷◌, ltb, Option, none, some}
use head_control.Text.{Text, text_eq}
use head_control.Dict.{Dict, get, set}
use head_control.Api.{Node}
use head_control.Format.{or_nil}
use head_control.Acl.Selector.{SelectorContext, SelectorUser}
use head_control.Acl.Draft.{PolicyModel, Draft, PolicyModelSave, empty_draft}
use head_control.Acl.Diff.{ChangeSummary, diff_draft, empty_summary}

-- What the body of a conflict carries: the records of the DNS page or the newer model.
pub data Current : Type 0 where
  records : Current
  model : PolicyModel → Current

pub record SaveResult : Type 0 where
  pub warning : Option Text
  pub policy_changed : Bool
  pub reload_pending : Bool

pub record Toast : Type 0 where
  pub is_error : Bool
  pub title : Text
  pub detail : Text

-- `saving` is the request under way, `reloads` counts the reloads after a save that are still
-- under way, and `made` the keys that the draft has taken.
pub record Page : Type 0 where
  pub model : Option PolicyModel
  pub draft : Draft
  pub made : ℕ
  pub save_open : Bool
  pub discard_open : Bool
  pub comment : Text
  pub save_error : Option Text
  pub conflict : Option (Option PolicyModel)
  pub saving : Option PolicyModelSave
  pub reloads : ℕ
  pub toasts : List Toast

abbrev pub start : Page
start = record {
  model = none;
  draft = empty_draft;
  made = 0;
  save_open = false;
  discard_open = false;
  comment = [];
  save_error = none;
  conflict = none;
  saving = none;
  reloads = 0;
  toasts = [];
}

-- Changes are measured against the model that the draft was loaded from.
unfoldable pub summary_of : Draft → ChangeSummary
unfolding diff_draft
summary_of d = elim d.base [ none ↦ empty_summary | some base ↦ diff_draft base d ]

unfoldable pub is_dirty : Draft → Bool
unfolding summary_of
is_dirty d = ltb 0 (summary_of d).count

abbrev pub is_writable : Option PolicyModel → Bool
is_writable none = false
is_writable (some m) = m.writable

-- The note that the server has a version that the draft does not start from.
unfoldable pub has_drifted : Page → Bool
unfolding is_dirty text_eq
has_drifted p = elim p.model [
  | none ↦ false
  | some m ↦ is_dirty p.draft && not (text_eq m.hash p.draft.base_hash)
]

-- The tags of the nodes, with the number of nodes that carry each.
abbrev tag_count : Option ℕ → ℕ
tag_count none = 0
tag_count (some n) = n

unfoldable pub count_tags : List Text → Dict ℕ → Dict ℕ
unfolding get set
count_tags [] counts = counts
count_tags (t ∷ ts) counts = count_tags ts (set t (tag_count (get t counts) + 1) counts)

unfoldable pub tags_of_nodes : List Node → Dict ℕ → Dict ℕ
unfolding count_tags
tags_of_nodes [] counts = counts
tags_of_nodes (n ∷ ns) counts = tags_of_nodes ns (count_tags (or_nil n.tags) counts)

unfoldable pub context : List SelectorUser → List Node → Draft → SelectorContext
unfolding tags_of_nodes
context users nodes d = record {
  users = users;
  node_tags = tags_of_nodes nodes [];
  groups = d.groups;
  tag_owners = d.tag_owners;
  hosts = d.hosts;
}
