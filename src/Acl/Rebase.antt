-- ===== src/Acl/Rebase.antt =====
-- The three-way merge after a conflict: `rebaseDraft` and `rebaseExtras` of
-- frontend/src/pages/acls/model.ts.
pub mod Merge
pub mod Rules
pub mod Untouched
use head_control.Acl.Reducer.{DraftAction, draft_reducer}
use head_control.Common.{
  ℕ, suc, ◌+◌, ◌-◌, Bool, true, false, not, ◌||◌, ◌&&◌, List, [], ◌∷◌, ◌++◌, map, ltb, ◌==◌, length,
  get_elem?, keep, if◌then◌else◌, Option, none, some,
}
use head_control.Text.{Text, text_eq, includes}
use head_control.Dict.{Dict, keys, get, set, remove}
use head_control.Json.{Json, canonical}
use head_control.Acl.Draft.{
  PolicyModel, PolicyModelRule, RuleBody, DraftRule, ExtraItem, ExtraList, Extras, at, by_list,
  AutoApprovers, Draft, model_list, draft_from_model, extra_items,
}
use head_control.Acl.Diff.{
  KeyChanges, RuleChange, RuleChanges, ListChanges, ChangeSummary, list_change_count,
  origin_element, or_blank, has_number,
}

module _ {ℓ} {V : Type ℓ} where
  -- `if (k in dv) out[k] = dv[k]`
  adopt_value : Text → Option V → Dict V → Dict V
  unfolding set
  adopt_value k none out = out
  adopt_value k (some v) out = set k v out

  unfoldable pub adopt : List Text → Dict V → Dict V → Dict V
  unfolding adopt_value get
  adopt [] dv out = out
  adopt (k ∷ ks) dv out = adopt ks dv (adopt_value k (get k dv) out)

  unfoldable pub remove_all : List Text → Dict V → Dict V
  unfolding remove
  remove_all [] out = out
  remove_all (k ∷ ks) out = remove_all ks (remove k out)

  unfoldable pub merge_keys : Dict V → Dict V → KeyChanges → Dict V
  unfolding adopt remove_all
  merge_keys sv dv ch = remove_all ch.removed (adopt (ch.added ++ ch.changed) dv sv)

-- `new Map(summary.rules.changed.map((c) => [c.after.serverId!, c.after]))`
unfoldable pub changed_rules : List RuleChange → Dict DraftRule → Dict DraftRule
unfolding set
changed_rules [] m = m
changed_rules (c ∷ cs) m = changed_rules cs (set (or_blank c.after.server_id) c.after m)

-- The rule of the server, or the user's version of it.
unfoldable pub chosen_rule : DraftRule → Option DraftRule → DraftRule
chosen_rule r none = r
chosen_rule r (some e) = record { key = r.key; server_id = some r.key; body = e.body }

-- The loop over the fresh rules: the rules to keep, and the changed rules that were not met.
unfoldable pub rebase_rules :
    List Text → List DraftRule → Dict DraftRule → List DraftRule × Dict DraftRule
unfolding get remove includes
rebase_rules removed [] changed = ([], changed)
rebase_rules removed (r ∷ rs) changed = elim (includes r.key removed) [
  | true ↦ rebase_rules removed rs changed
  | false ↦
      let rest = rebase_rules removed rs (remove r.key changed) in
      (chosen_rule r (get r.key changed) ∷ rest.0, rest.1)
]

abbrev add_origin : Option ℕ → List ℕ → List ℕ
add_origin none more = more
add_origin (some i) more = i ∷ more

-- `origin` of each item that has one
unfoldable pub kept_origins : List ExtraItem → List ℕ
kept_origins [] = []
kept_origins (it ∷ items) = add_origin it.origin (kept_origins items)

-- The canonical texts of the base's elements from the index `i` on that are not kept, as often as
-- they occur: the `Map` of counts.
unfoldable pub removed_texts : List ℕ → ℕ → List Json → List Text
unfolding canonical
removed_texts kept i [] = []
removed_texts kept i (v ∷ vs) =
    let rest = removed_texts kept (suc i) vs in
    if has_number i kept then rest else canonical v ∷ rest

-- `edited`: by the canonical text of the base's element, the value that the user gave it
edited_values : List Json → List ExtraItem → Dict Json → Dict Json
unfolding canonical origin_element set text_eq
edited_values base [] m = m
edited_values base (it ∷ items) m = elim (origin_element it.origin base) [
  | none ↦ edited_values base items m
  | some v ↦
      edited_values base items
        (if text_eq (canonical it.value) (canonical v) then m else set (canonical v) it.value m)
]

-- One less of a text that is to be removed.
unfoldable pub take_one : Text → List Text → List Text
take_one c [] = []
take_one c (x ∷ xs) = let rest = take_one c xs in if text_eq x c then xs else x ∷ rest

abbrev value_or : Json → Option Json → Json
value_or v none = v
value_or v (some e) = e

abbrev as_addition : DraftRule → DraftRule
as_addition r = record r { server_id = none }

module _ (key_at : ℕ → Text) where
  -- The loop over the fresh elements: the items, the edits that were not met, and the calls of
  -- `newKey`.
  fresh_items : ℕ → ℕ → List Json → List Text → Dict Json → List ExtraItem × Dict Json × ℕ
  unfolding canonical take_one get remove includes
  fresh_items n j [] removed edited = ([], edited, n)
  fresh_items n j (v ∷ vs) removed edited = elim (includes (canonical v) removed) [
    | true ↦ fresh_items n (suc j) vs (take_one (canonical v) removed) edited
    | false ↦
        let rest = fresh_items (suc n) (suc j) vs removed (remove (canonical v) edited) in
        (
          record { key = key_at n; origin = some j; value = value_or v (get (canonical v) edited) }
              ∷ rest.0,
          rest.1,
          rest.2,
        )
  ]

  -- Edits whose element vanished become additions.
  orphan_items : ℕ → Dict Json → List ExtraItem
  orphan_items n [] = []
  orphan_items n ((c, v) ∷ m) =
      record { key = key_at n; origin = none; value = v } ∷ orphan_items (suc n) m

  added_items : List Json → List ExtraItem → List ExtraItem
  unfolding origin_element
  added_items base [] = []
  added_items base (it ∷ items) = elim (origin_element it.origin base) [
    | none ↦ record it { origin = none } ∷ added_items base items
    | some v ↦ added_items base items
  ]

  unfoldable pub rebase_extras : ℕ → List Json → List ExtraItem → List Json → List ExtraItem × ℕ
  unfolding kept_origins removed_texts edited_values fresh_items orphan_items added_items
  rebase_extras n base items fresh =
      let removed = removed_texts (kept_origins items) 0 base in
      let met = fresh_items n 0 fresh removed (edited_values base items []) in
      (met.0 ++ (orphan_items met.2 met.1 ++ added_items base items), met.2 + length met.1)

  unfoldable pub orphan_rules : ℕ → Dict DraftRule → List DraftRule
  orphan_rules n [] = []
  orphan_rules n ((id, r) ∷ m) =
      record r { key = key_at n; server_id = none } ∷ orphan_rules (suc n) m

  -- A list that the user left alone, or that has no base, is the server's.
  unfoldable pub rebase_list :
      Option PolicyModel
      → PolicyModel
      → Draft
      → Draft
      → ChangeSummary
      → ℕ
      → ExtraList
      → List ExtraItem × ℕ
  unfolding rebase_extras list_change_count model_list
  rebase_list none server fresh d summary n l = (at fresh.extras l, n)
  rebase_list (some base) server fresh d summary n l =
      if list_change_count (at summary.extras l) == 0
      then (at fresh.extras l, n)
      else rebase_extras n (model_list base l) (at d.extras l) (model_list server l)

  unfoldable pub rebase_draft : ℕ → Draft → PolicyModel → ChangeSummary → Draft × ℕ
  rebase_draft n d server summary =
      let loaded = draft_from_model key_at n server in
      let fresh = loaded.0 in
      let removed = map (λ r. r.id) summary.rules.removed in
      let met = rebase_rules removed fresh.rules (changed_rules summary.rules.changed []) in
      let after_orphans = loaded.1 + length met.1 in
      let grants = rebase_list d.base server fresh d summary after_orphans ExtraList.grants in
      let ssh = rebase_list d.base server fresh d summary grants.1 ExtraList.ssh in
      let node_attrs = rebase_list d.base server fresh d summary ssh.1 ExtraList.node_attrs in
      let tests = rebase_list d.base server fresh d summary node_attrs.1 ExtraList.tests in
      let ssh_tests = rebase_list d.base server fresh d summary tests.1 ExtraList.ssh_tests in
      (
        record {
          base_hash = server.hash;
          base = some server;
          groups = merge_keys fresh.groups d.groups summary.groups;
          tag_owners = merge_keys fresh.tag_owners d.tag_owners summary.tag_owners;
          hosts = merge_keys fresh.hosts d.hosts summary.hosts;
          rules = met.0 ++ (orphan_rules loaded.1 met.1 ++ map as_addition summary.rules.added);
          extras = record {
            grants = grants.0;
            ssh = ssh.0;
            node_attrs = node_attrs.0;
            tests = tests.0;
            ssh_tests = ssh_tests.0;
          };
          auto_approvers = record {
            routes = merge_keys fresh.auto_approvers.routes d.auto_approvers.routes summary.routes;
            exit_node =
                if summary.exit_node_changed
                then d.auto_approvers.exit_node
                else fresh.auto_approvers.exit_node;
          };
          randomize_client_port =
              if summary.randomize_changed
              then d.randomize_client_port
              else fresh.randomize_client_port;
        },
        ssh_tests.1,
      )

-- The actions of the reducer, with the one that is not an edit.
pub data Action : Type 0 where
  edit : DraftAction → Action
  rebase : PolicyModel → ChangeSummary → Action

unfoldable pub reduce : (ℕ → Text) → Draft → ℕ → Action → Draft × ℕ
reduce key_at d n (edit a) = draft_reducer key_at d n a
reduce key_at d n (rebase model summary) = rebase_draft key_at n d model summary
