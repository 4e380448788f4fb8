-- ===== src/Acl/Draft/Save.antt =====
-- Loading a model and saving the untouched draft.
use head_control.Common.{
  ◌+◌, ℕ, suc, List, [], ◌∷◌, map, ◌≡◌, refl, ap, ap₂, Option, none, some, arith,
}
use head_control.Text.{Text}
use head_control.Json.{Json}
use head_control.Acl.Selector.{truthy}
use head_control.Acl.Draft.{
  calls_before, PolicyModel, PolicyModelRule, RuleBody, ExtraList, by_list, model_list,
  model_auto_approvers, is_true, rule_from_model, extra_items, draft_from_model, save_rule,
  to_save_body,
}

pub values-extra_items :
    (key_at : ℕ → Text) (n i : ℕ) (vs : List Json)
    → map (λ it. it.value) (extra_items key_at n i vs) ≡ vs
unfolding extra_items
values-extra_items key_at n i [] = refl
values-extra_items key_at n i (v ∷ vs) = ap (◌∷◌ v) (values-extra_items key_at (suc n) (suc i) vs)

-- The rule of the model, without its id.
abbrev body_of : PolicyModelRule → RuleBody
body_of r = record {
  proto = truthy r.proto;
  src = r.src;
  dst = r.dst;
  name = r.name;
  description = r.description;
  enabled = r.enabled;
}

truthy_idempotent : (o : Option Text) → truthy (truthy o) ≡ truthy o
truthy_idempotent none = refl
truthy_idempotent (some []) = refl
truthy_idempotent (some (c ∷ s)) = refl

save_rule-rule_from_model : (r : PolicyModelRule) → save_rule (rule_from_model r) ≡ body_of r
unfolding save_rule rule_from_model
save_rule-rule_from_model r = ground (arith, truthy_idempotent r.proto)

rules_saved : (rs : List PolicyModelRule) → map save_rule (map rule_from_model rs) ≡ map body_of rs
rules_saved [] = refl
rules_saved (r ∷ rs) = ap₂ ◌∷◌ (save_rule-rule_from_model r) (rules_saved rs)

-- Saving a draft that was loaded and not touched sends back the model: every section as it came,
-- each rule without its id, and the hash that it was loaded with.
pub to_save_body-draft_from_model :
    (key_at : ℕ → Text) (n : ℕ) (m : PolicyModel)
    → to_save_body (draft_from_model key_at n m).0 none ≡ record {
      base_hash = m.hash;
      comment = none;
      groups = m.groups;
      tag_owners = m.tag_owners;
      hosts = m.hosts;
      rules = map body_of m.rules;
      elements = by_list (model_list m);
      auto_approvers = model_auto_approvers m;
      randomize_client_port = is_true m.randomize_client_port;
    }
unfolding to_save_body draft_from_model
to_save_body-draft_from_model key_at n m =
    let sent = λ (l : ExtraList).
      values-extra_items key_at (n + calls_before key_at m l) 0 (model_list m l) in
    let elements : by_list (λ l.
      map (λ it. it.value) (extra_items key_at (n + calls_before key_at m l) 0 (model_list m l)))
        ≡ by_list (model_list m) =
      λ i. by_list (λ l. sent l i) in
    λ i. record {
      base_hash = m.hash;
      comment = none;
      groups = m.groups;
      tag_owners = m.tag_owners;
      hosts = m.hosts;
      rules = rules_saved m.rules i;
      elements = elements i;
      auto_approvers = model_auto_approvers m;
      randomize_client_port = is_true m.randomize_client_port;
    }
