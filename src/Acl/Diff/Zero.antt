-- ===== src/Acl/Diff/Zero.antt =====
-- A summary that counts 0 means that the sections of the draft are the server's.
use head_control.Acl.Diff.SameKeys.{IsModel}
use head_control.Common.{
  inr, inl, Bool, true, false, List, [], ◌∷◌, ◌≡◌, refl, sym, ap, ◌∙◌, arith, length, Option-cases,
}
use head_control.Text.{text_eq, Text, includes}
use head_control.Text.Equal.{text_eq_iff}
use head_control.Dict.{Dict, keys, get, inherited}
use head_control.Dict.Laws.{own-get}
use head_control.Acl.Ports.Spec.{Distinct}
use head_control.Acl.Diff.{
  is_true, model_auto_approvers, Draft, bool_eq, PolicyModel, diff_draft, same_list, diff_keys,
  key_change_count,
}
use head_control.Acl.Diff.Sections.{diff_keys_exact}

same_list_sound : (xs ys : List Text) → same_list xs ys ≡ true → xs ≡ ys
unfolding same_list
same_list_sound [] [] h = refl
same_list_sound [] (y ∷ ys) h = ground arith
same_list_sound (x ∷ xs) [] h = ground arith
same_list_sound (x ∷ xs) (y ∷ ys) h = ground (arith, text_eq_iff x y, same_list_sound xs ys)

nil_of_length {ℓ} : {A : Type ℓ} (xs : List A) → length xs ≡ 0 → xs ≡ []
nil_of_length [] h = refl
nil_of_length (x ∷ xs) h = absurd (omega arith)

module _ {ℓ} {V : Type ℓ} (eq : V → V → Bool) (sound : (v w : V) → eq v w ≡ true → v ≡ w) where
  -- With no key to report, each key has the same value on both sides.
  get-diff_keys_zero :
      (k : Text) (server draft : Dict V)
      → inherited k ≡ false
      → Distinct (keys server)
      → key_change_count (diff_keys eq server draft) ≡ 0
      → get k draft ≡ get k server
  get-diff_keys_zero k server draft i d h =
      let ch = diff_keys eq server draft in
      let (added, removed, changed) = diff_keys_exact eq k server draft i d in
      let none_added : ch.added ≡ [] = nil_of_length ch.added (omega arith) in
      let none_removed : ch.removed ≡ [] = nil_of_length ch.removed (omega arith) in
      let none_changed : ch.changed ≡ [] = nil_of_length ch.changed (omega arith) in
      let added' = ap (includes k) (sym none_added) ∙ added in
      let removed' = ap (includes k) (sym none_removed) ∙ removed in
      let changed' = ap (includes k) (sym none_changed) ∙ changed in
      elim (Option-cases (get k server)) [
        | inl e ↦ elim (Option-cases (get k draft)) [
          | inl e' ↦ e' ∙ sym e
          | inr (w, e') ↦
              unfold includes in ground (arith, added', own-get k draft, own-get k server)
        ]
        | inr (v, e) ↦ elim (Option-cases (get k draft)) [
          | inl e' ↦ unfold includes in ground (arith, removed', own-get k draft, own-get k server)
          | inr (w, e') ↦ unfold includes in ground (arith, changed', sound v w)
        ]
      ]

bool_eq_sound : (a b : Bool) → bool_eq a b ≡ true → a ≡ b
bool_eq_sound true b h = sym h
bool_eq_sound false true h = cc
bool_eq_sound false false h = refl

-- The sections of a draft with no change, read at one key.
pub record IsSame (m : PolicyModel) (d : Draft) (k : Text) : Type 0 where
  pub groups : get k d.groups ≡ get k m.groups
  pub tag_owners : get k d.tag_owners ≡ get k m.tag_owners
  pub hosts : get k d.hosts ≡ get k m.hosts
  pub routes : get k d.auto_approvers.routes ≡ get k (model_auto_approvers m).routes
  pub exit_node : d.auto_approvers.exit_node ≡ (model_auto_approvers m).exit_node
  pub randomize : d.randomize_client_port ≡ is_true m.randomize_client_port

-- Each part of the count is 0.
record Zeros (m : PolicyModel) (d : Draft) : Type 0 where
  groups : key_change_count (diff_keys same_list m.groups d.groups) ≡ 0
  tag_owners : key_change_count (diff_keys same_list m.tag_owners d.tag_owners) ≡ 0
  hosts : key_change_count (diff_keys text_eq m.hosts d.hosts) ≡ 0
  routes :
      key_change_count (diff_keys same_list (model_auto_approvers m).routes d.auto_approvers.routes)
      ≡ 0
  exit_node : same_list (model_auto_approvers m).exit_node d.auto_approvers.exit_node ≡ true
  randomize : bool_eq (is_true m.randomize_client_port) d.randomize_client_port ≡ true

diff_draft-Zeros : (m : PolicyModel) (d : Draft) → (diff_draft m d).count ≡ 0 → Zeros m d
unfolding diff_draft
diff_draft-Zeros m d h = record {
  groups = omega arith;
  tag_owners = omega arith;
  hosts = omega arith;
  routes = omega arith;
  exit_node = ground arith;
  randomize = ground arith;
}

-- Where the summary of a draft counts 0, the draft has at every key that no object inherits the
-- group, tag owners, host and approved route of the server's model, and its exit node approvals
-- and its setting for the client port. The ids of the rules of the model are distinct and not
-- empty, and none of its sections has a key twice.
pub diff_draft-zero :
    (m : PolicyModel) (d : Draft) (k : Text)
    → IsModel m
    → (diff_draft m d).count ≡ 0
    → inherited k ≡ false
    → IsSame m d k
diff_draft-zero m d k v h i =
    let z = diff_draft-Zeros m d h in
    let lists = get-diff_keys_zero same_list same_list_sound k in
    record {
      groups = lists m.groups d.groups i v.groups z.groups;
      tag_owners = lists m.tag_owners d.tag_owners i v.tag_owners z.tag_owners;
      hosts =
          get-diff_keys_zero text_eq (λ a b. (text_eq_iff a b).0) k m.hosts d.hosts i v.hosts
            z.hosts;
      routes = lists (model_auto_approvers m).routes d.auto_approvers.routes i v.routes z.routes;
      exit_node = sym (
          same_list_sound (model_auto_approvers m).exit_node d.auto_approvers.exit_node
            z.exit_node);
      randomize =
          sym (bool_eq_sound (is_true m.randomize_client_port) d.randomize_client_port z.randomize);
    }
