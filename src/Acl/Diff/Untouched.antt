-- ===== src/Acl/Diff/Untouched.antt =====
-- A draft that was just loaded has no changes.
use mathlib.Core.List.{map-append}
use mathlib.Core.Path.{subst}
use head_control.Common.{
  All-imp, length-append, append-nil, ◌<◌, append_assoc, ◌∙◌, ℕ, suc, ◌+◌, Bool, true, false, not,
  List, [], ◌∷◌, ◌++◌, map, ◌≡◌, ◌≢◌, refl, sym, ap, arith, All, length, get_elem?, keep, none,
  some,
}
use head_control.Text.{Text, text_eq, includes}
use head_control.Text.Equal.{includes-append, text_eq_refl}
use head_control.Json.{Json, canonical}
use head_control.Acl.Ports.Spec.{Distinct}
use head_control.Acl.Draft.{
  calls_before, PolicyModel, PolicyModelRule, rule_from_model, extra_items, draft_from_model,
  model_list,
}
use head_control.Acl.Diff.{
  is_true, origin_element, ExtraList, has_number, model_auto_approvers, rule_change,
  no_list_changes, empty_summary, same_list, bool_eq, by_id, draft_ids, diff_rules,
  draft_rule_changes, diff_extras_loop, diff_draft,
}
use head_control.Acl.Diff.SameKeys.{
  same_list_refl, diff_keys_self, IsModel, truthy_of_ne, same_rule-rule_from_model,
}

-- Each rule is found by its id.
Found : List PolicyModelRule → List PolicyModelRule → Type 0
Found server rs = All (λ r. (by_id r.id server ≡ some r) × (r.id ≢ [])) rs

by_id_of_absent :
    (id : Text) (rs : List PolicyModelRule)
    → includes id (map (λ r. r.id) rs) ≡ false
    → by_id id rs ≡ none
unfolding by_id includes
by_id_of_absent id [] h = refl
by_id_of_absent id (r ∷ rs) h = ground (arith, by_id_of_absent id rs)

Found-cons :
    (q : PolicyModelRule) (server rs : List PolicyModelRule)
    → Found server rs
    → Found (q ∷ server) rs
unfolding Found by_id
Found-cons q server [] h = tt
Found-cons q server (r ∷ rs) h = (ground arith, Found-cons q server rs h.1)

Found-self :
    (rs : List PolicyModelRule)
    → Distinct (map (λ r. r.id) rs)
    → All (λ r. r.id ≢ []) rs
    → Found rs rs
unfolding Found by_id
Found-self [] d h = tt
Found-self (r ∷ rs) d h = (
  (ground (arith, by_id_of_absent r.id rs d.0, text_eq_refl r.id), h.0),
  Found-cons r rs rs (Found-self rs d.1 h.1),
)

server_id-rule_from_model : (r : PolicyModelRule) → (rule_from_model r).server_id ≡ some r.id
unfolding rule_from_model
server_id-rule_from_model r = refl

draft_rule_changes_of_Found :
    (server rs : List PolicyModelRule)
    → Found server rs
    → draft_rule_changes server (map rule_from_model rs)
      ≡ record { added = []; removed = []; changed = [] }
unfolding Found draft_rule_changes
draft_rule_changes_of_Found server [] h = refl
draft_rule_changes_of_Found server (r ∷ rs) h =
    unfold rule_change in
    ground (
      arith,
      draft_rule_changes_of_Found server rs h.1,
      truthy_of_ne r.id h.0.1,
      h.0.0,
      same_rule-rule_from_model r,
      server_id-rule_from_model r,
    )

draft_ids-rule_from_model :
    (rs : List PolicyModelRule)
    → All (λ r. r.id ≢ []) rs
    → draft_ids (map rule_from_model rs) ≡ map (λ r. r.id) rs
unfolding draft_ids
draft_ids-rule_from_model [] h = refl
draft_ids-rule_from_model (r ∷ rs) h =
    ground
      (arith, draft_ids-rule_from_model rs h.1, truthy_of_ne r.id h.0, server_id-rule_from_model r)

none_removed :
    (ids : List Text) (rs : List PolicyModelRule)
    → All (λ r. includes r.id ids ≡ true) rs
    → keep (λ r. not (includes r.id ids)) rs ≡ []
unfolding keep
none_removed ids [] h = refl
none_removed ids (r ∷ rs) h = ground (arith, none_removed ids rs h.1, h.0)

ids_listed :
    (before rs : List PolicyModelRule)
    → All (λ r. includes r.id (map (λ r. r.id) (before ++ rs)) ≡ true) rs
unfolding includes
ids_listed before [] = tt
ids_listed before (r ∷ rs) = (
  ground (
    arith,
    ap (includes r.id) (map-append (λ r. r.id) before (r ∷ rs)),
    includes-append r.id (map (λ r. r.id) before) (r.id ∷ map (λ r. r.id) rs),
    text_eq_refl r.id,
  ),
  subst (λ t. All (λ r. includes r.id (map (λ r. r.id) t) ≡ true) rs)
      (append_assoc before (r ∷ []) rs) (ids_listed (before ++ r ∷ []) rs),
)

diff_rules_self :
    (rs : List PolicyModelRule)
    → Distinct (map (λ r. r.id) rs)
    → All (λ r. r.id ≢ []) rs
    → diff_rules rs (map rule_from_model rs) ≡ record { added = []; removed = []; changed = [] }
unfolding diff_rules
diff_rules_self rs d h =
    let removed = none_removed (draft_ids (map rule_from_model rs)) rs (
      subst (λ t. All (λ r. includes r.id t ≡ true) rs) (sym (draft_ids-rule_from_model rs h))
        (ids_listed [] rs)) in
    ground (arith, draft_rule_changes_of_Found rs rs (Found-self rs d h), removed)

get_elem?-length :
    (before : List Json) (v : Json) (vs : List Json)
    → get_elem? (before ++ v ∷ vs) (length before) ≡ some v
get_elem?-length [] v vs = refl
get_elem?-length (x ∷ before) v vs = get_elem?-length before v vs

has_number_of_lt : (n : ℕ) (used : List ℕ) → All (λ i. i < n) used → has_number n used ≡ false
has_number_of_lt n [] h = refl
has_number_of_lt n (m ∷ used) h = ground (arith, has_number_of_lt n used h.1, h.0)

All-lt-suc : (n : ℕ) (used : List ℕ) → All (λ i. i < n) used → All (λ i. i < suc n) used
All-lt-suc n used = All-imp (λ i. i < n) (λ i. i < suc n) used (λ i h. omega arith)

-- The origins in use, all below the next one.
diff_extras_loop_self :
    (key_at : ℕ → Text) (n : ℕ) (before vs : List Json) (used : List ℕ)
    → All (λ i. i < length before) used
    → length used ≡ length before
    → diff_extras_loop (before ++ vs) (extra_items key_at n (length before) vs) used 0 0
      ≡ no_list_changes
unfolding diff_extras_loop extra_items
diff_extras_loop_self key_at n before [] used h e = ground (arith, append-nil before, e)
diff_extras_loop_self key_at n before (v ∷ vs) used h e =
    let i = length before in
    let longer = before ++ v ∷ [] in
    let size : length longer ≡ suc i = length-append before (v ∷ []) ∙ omega arith in
    let below : All (λ j. j < length longer) (i ∷ used) =
      subst (λ t. All (λ j. j < t) (i ∷ used)) (sym size) (omega arith, All-lt-suc i used h) in
    let ih = diff_extras_loop_self key_at (suc n) longer vs (i ∷ used) below (omega arith) in
    let shifted =
      subst
        (λ t.
          diff_extras_loop t (extra_items key_at (suc n) (suc i) vs) (i ∷ used) 0 0
          ≡ no_list_changes)
        (append_assoc before (v ∷ []) vs)
        (subst
          (λ t.
            diff_extras_loop (longer ++ vs) (extra_items key_at (suc n) t vs) (i ∷ used) 0 0
            ≡ no_list_changes)
          size ih) in
    unfold origin_element in
    ground (
      arith,
      get_elem?-length before v vs,
      has_number_of_lt i used h,
      text_eq_refl (canonical v),
      shifted,
    )

bool_eq_refl : (b : Bool) → bool_eq b b ≡ true
bool_eq_refl true = refl
bool_eq_refl false = refl

-- A draft that was just loaded from a model differs from it in nothing: the summary is empty and
-- counts 0.
pub diff_draft-draft_from_model :
    (key_at : ℕ → Text) (n : ℕ) (m : PolicyModel)
    → IsModel m
    → diff_draft m (draft_from_model key_at n m).0 ≡ empty_summary
unfolding diff_draft draft_from_model
diff_draft-draft_from_model key_at n m h =
    let items = λ (l : ExtraList).
      diff_extras_loop_self key_at (n + calls_before key_at m l) [] (model_list m l) [] tt refl in
    ground (
      arith,
      diff_rules_self m.rules h.ids h.named,
      diff_keys_self same_list same_list_refl m.groups h.groups,
      diff_keys_self same_list same_list_refl m.tag_owners h.tag_owners,
      diff_keys_self text_eq text_eq_refl m.hosts h.hosts,
      diff_keys_self same_list same_list_refl (model_auto_approvers m).routes h.routes,
      same_list_refl (model_auto_approvers m).exit_node,
      bool_eq_refl (is_true m.randomize_client_port),
      items ExtraList.grants,
      items ExtraList.ssh,
      items ExtraList.node_attrs,
      items ExtraList.tests,
      items ExtraList.ssh_tests,
    )
