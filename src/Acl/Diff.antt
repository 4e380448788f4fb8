-- ===== src/Acl/Diff.antt =====
-- The change summary: `sameRule`, `diffKeys`, `diffExtras`, `extraStatus` and `diffDraft` of
-- frontend/src/pages/acls/model.ts. The count is the sum of the parts' lengths.
pub mod SameKeys
pub mod Untouched
pub mod Sections
pub mod Zero
use head_control.Common.{
  ℕ, suc, ◌+◌, ◌-◌, Bool, true, false, not, ◌||◌, ◌&&◌, List, [], ◌∷◌, ◌++◌, map, ltb, leb, ◌==◌,
  length, get_elem?, keep, find, if◌then◌else◌, Option, none, some,
}
use head_control.Text.{Text, codes, text_eq, includes}
use head_control.Dict.{Dict, keys, get, has}
use head_control.Json.{Json, canonical}
use head_control.Acl.Selector.{truthy}
use head_control.Acl.Draft.{
  PolicyModel, PolicyModelRule, RuleBody, DraftRule, ExtraItem, ExtraList, Extras, at, by_list,
  AutoApprovers, Draft, model_list, model_auto_approvers, is_true,
}

pub record KeyChanges : Type 0 where
  pub added : List Text
  pub removed : List Text
  pub changed : List Text

pub record RuleChange : Type 0 where
  pub before : PolicyModelRule
  pub after : DraftRule

pub record RuleChanges : Type 0 where
  pub added : List DraftRule
  pub removed : List PolicyModelRule
  pub changed : List RuleChange

pub record ListChanges : Type 0 where
  pub added : ℕ
  pub removed : ℕ
  pub changed : ℕ

pub record ChangeSummary : Type 0 where
  pub rules : RuleChanges
  pub groups : KeyChanges
  pub tag_owners : KeyChanges
  pub hosts : KeyChanges
  pub extras : Extras ListChanges
  pub routes : KeyChanges
  pub exit_node_changed : Bool
  pub randomize_changed : Bool
  pub count : ℕ

abbrev pub no_key_changes : KeyChanges
no_key_changes = record { added = []; removed = []; changed = [] }

abbrev pub no_list_changes : ListChanges
no_list_changes = record { added = 0; removed = 0; changed = 0 }

unfoldable pub list_change_count : ListChanges → ℕ
list_change_count c = c.added + c.removed + c.changed

abbrev pub empty_summary : ChangeSummary
empty_summary = record {
  rules = record { added = []; removed = []; changed = [] };
  groups = no_key_changes;
  tag_owners = no_key_changes;
  hosts = no_key_changes;
  extras = by_list (λ l. no_list_changes);
  routes = no_key_changes;
  exit_node_changed = false;
  randomize_changed = false;
  count = 0;
}

-- `sameList`
unfoldable pub same_list : List Text → List Text → Bool
unfolding text_eq
same_list [] [] = true
same_list (x ∷ xs) (y ∷ ys) = text_eq x y && same_list xs ys
same_list _ _ = false

-- `o ?? ""`
abbrev pub or_blank : Option Text → Text
or_blank none = []
or_blank (some t) = t

abbrev pub bool_eq : Bool → Bool → Bool
bool_eq true b = b
bool_eq false b = not b

unfoldable pub same_rule : PolicyModelRule → DraftRule → Bool
unfolding same_list text_eq
same_rule before after =
    text_eq (or_blank before.proto) (or_blank after.body.proto)
    && (same_list before.src after.body.src
        && (same_list before.dst after.body.dst
            && (text_eq before.name after.body.name
                && (text_eq before.description after.body.description
                    && bool_eq before.enabled after.body.enabled))))

-- `origin === undefined || origin >= base.length`, and the element of the base otherwise
unfoldable pub origin_element : Option ℕ → List Json → Option Json
origin_element none base = none
origin_element (some i) base = get_elem? base i

abbrev pub has_number : ℕ → List ℕ → Bool
has_number n [] = false
has_number n (m ∷ ms) = m == n || has_number n ms

-- `used.add(it.origin)`
abbrev use_origin : Option ℕ → List ℕ → List ℕ
use_origin none used = used
use_origin (some i) used = if has_number i used then used else i ∷ used

-- The loop of `diffExtras`, which collects the origins in use.
diff_extras_loop : List Json → List ExtraItem → List ℕ → ℕ → ℕ → ListChanges
unfolding canonical origin_element text_eq
diff_extras_loop base [] used added changed = record {
  added = added;
  removed = length base - length used;
  changed = changed;
}
diff_extras_loop base (it ∷ items) used added changed = elim (origin_element it.origin base) [
  | none ↦ diff_extras_loop base items used (added + 1) changed
  | some v ↦
      diff_extras_loop base items (use_origin it.origin used) added
        (if text_eq (canonical it.value) (canonical v) then changed else changed + 1)
]

unfoldable pub diff_extras : List Json → List ExtraItem → ListChanges
unfolding diff_extras_loop
diff_extras base items = diff_extras_loop base items [] 0 0

pub data ExtraStatus : Type 0 where
  new edited : ExtraStatus

abbrev base_list : Option PolicyModel → ExtraList → List Json
base_list none l = []
base_list (some m) l = model_list m l

unfoldable pub extra_status : Draft → ExtraList → ExtraItem → Option ExtraStatus
extra_status d list it = elim (origin_element it.origin (base_list d.base list)) [
  | none ↦ some ExtraStatus.new
  | some v ↦ if text_eq (canonical it.value) (canonical v) then none else some ExtraStatus.edited
]

module _ {ℓ} {V : Type ℓ} (eq : V → V → Bool) where
  -- `eq(server[k], draft[k])`; what an object inherits is equal to no value.
  unfoldable pub eq_at : V → Option V → Bool
  eq_at v none = false
  eq_at v (some w) = eq v w

  diff_server : Dict V → Dict V → KeyChanges
  diff_server [] draft = no_key_changes
  diff_server ((k, v) ∷ server) draft =
      let rest = diff_server server draft in
      if not (has k draft)
      then record rest { removed = k ∷ rest.removed }
      else if not (eq_at v (get k draft))
      then record rest { changed = k ∷ rest.changed }
      else rest

  -- The keys of the server in the order of its members, then those that the draft adds.
  unfoldable pub diff_keys : Dict V → Dict V → KeyChanges
  unfolding diff_server eq_at
  diff_keys server draft = record (diff_server server draft) {
    added = keep (λ k. not (has k server)) (keys draft);
  }

-- The server's rule with an id, which `new Map` keeps last for repeated ids.
unfoldable pub by_id : Text → List PolicyModelRule → Option PolicyModelRule
by_id id [] = none
by_id id (r ∷ rs) = elim (by_id id rs) [
  | some q ↦ some q
  | none ↦ if text_eq r.id id then some r else none
]

abbrev add_id : Option Text → List Text → List Text
add_id none more = more
add_id (some id) more = id ∷ more

-- `new Set(d.rules.map((r) => r.serverId).filter((x) => !!x))`
unfoldable pub draft_ids : List DraftRule → List Text
draft_ids [] = []
draft_ids (r ∷ rs) = add_id (truthy r.server_id) (draft_ids rs)

compare_rule : DraftRule → Option PolicyModelRule → RuleChanges → RuleChanges
compare_rule r none rest = record rest { added = r ∷ rest.added }
compare_rule r (some before) rest =
    if not (same_rule before r)
    then record rest { changed = record { before = before; after = r } ∷ rest.changed }
    else rest

rule_change : List PolicyModelRule → DraftRule → Option Text → RuleChanges → RuleChanges
unfolding compare_rule
rule_change server r none rest = record rest { added = r ∷ rest.added }
rule_change server r (some id) rest = compare_rule r (by_id id server) rest

-- The loop over the draft's rules.
draft_rule_changes : List PolicyModelRule → List DraftRule → RuleChanges
unfolding rule_change
draft_rule_changes server [] = record { added = []; removed = []; changed = [] }
draft_rule_changes server (r ∷ rs) =
    rule_change server r (truthy r.server_id) (draft_rule_changes server rs)

unfoldable pub diff_rules : List PolicyModelRule → List DraftRule → RuleChanges
unfolding draft_rule_changes draft_ids keep includes
diff_rules server rs = record (draft_rule_changes server rs) {
  removed = keep (λ r. not (includes r.id (draft_ids rs))) server;
}

abbrev key_change_count : KeyChanges → ℕ
key_change_count k = length k.added + length k.removed + length k.changed

unfoldable pub diff_draft : PolicyModel → Draft → ChangeSummary
unfolding diff_rules diff_keys diff_extras same_list list_change_count
diff_draft server d =
    let rules = diff_rules server.rules d.rules in
    let groups = diff_keys same_list server.groups d.groups in
    let tag_owners = diff_keys same_list server.tag_owners d.tag_owners in
    let hosts = diff_keys text_eq server.hosts d.hosts in
    let extras : Extras ListChanges =
      by_list (λ l. diff_extras (model_list server l) (at d.extras l)) in
    let approvers = model_auto_approvers server in
    let routes = diff_keys same_list approvers.routes d.auto_approvers.routes in
    let exit_node_changed = not (same_list approvers.exit_node d.auto_approvers.exit_node) in
    let randomize_changed =
      not (bool_eq (is_true server.randomize_client_port) d.randomize_client_port) in
    record {
      rules = rules;
      groups = groups;
      tag_owners = tag_owners;
      hosts = hosts;
      extras = extras;
      routes = routes;
      exit_node_changed = exit_node_changed;
      randomize_changed = randomize_changed;
      count =
          length rules.added
          + length rules.removed
          + length rules.changed
          + (key_change_count groups
              + key_change_count tag_owners
              + key_change_count hosts
              + key_change_count routes)
          + (list_change_count extras.grants
              + list_change_count extras.ssh
              + list_change_count extras.node_attrs
              + list_change_count extras.tests
              + list_change_count extras.ssh_tests)
          + (if exit_node_changed then 1 else 0)
          + (if randomize_changed then 1 else 0);
    }
