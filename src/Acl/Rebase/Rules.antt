-- ===== src/Acl/Rebase/Rules.antt =====
-- Which rules a rebase keeps, and in which version.
use mathlib.Core.Path.{subst}
use head_control.Common.{
  inr, ap, inl, true, false, List, [], ◌∷◌, ◌≡◌, refl, arith, if◌then◌else◌, Option, none, some,
  Bool-cases,
}
use head_control.Text.{Text, text_eq, includes}
use head_control.Text.Equal.{text_eq_iff}
use head_control.Dict.{Dict, get, remove}
use head_control.Dict.Laws.{get-remove}
use head_control.Acl.Ports.Spec.{Distinct}
use head_control.Acl.Draft.{RuleBody, DraftRule}
use head_control.Acl.Rebase.{chosen_rule, rebase_rules}
use head_control.Acl.Reducer.Keys.{rule_keys}

-- The body of the first rule with the key.
unfoldable pub body_at : Text → List DraftRule → Option RuleBody
body_at k [] = none
body_at k (r ∷ rs) = let rest = body_at k rs in if text_eq r.key k then some r.body else rest

-- The user's version of a rule, where there is one.
abbrev pub version : Option DraftRule → Option RuleBody → Option RuleBody
version none body = body
version (some e) body = some e.body

key-chosen_rule : (r : DraftRule) (e : Option DraftRule) → (chosen_rule r e).key ≡ r.key
unfolding chosen_rule
key-chosen_rule r none = refl
key-chosen_rule r (some e) = refl

body-chosen_rule :
    (r : DraftRule) (e : Option DraftRule) → some (chosen_rule r e).body ≡ version e (some r.body)
unfolding chosen_rule
body-chosen_rule r none = refl
body-chosen_rule r (some e) = refl

rebase_rules-absent :
    (k : Text) (removed : List Text) (rs : List DraftRule) (changed : Dict DraftRule)
    → includes k (rule_keys rs) ≡ false
    → body_at k (rebase_rules removed rs changed).0 ≡ none
unfolding body_at includes rebase_rules
rebase_rules-absent k removed [] changed h = refl
rebase_rules-absent k removed (r ∷ rs) changed h = ground (
  arith,
  rebase_rules-absent k removed rs changed,
  rebase_rules-absent k removed rs (remove r.key changed),
  key-chosen_rule r (get r.key changed),
)

-- A rule of the server that the user removed is gone; one that the user changed has the user's
-- version, and any other the server's. The server's keys are distinct.
pub body_at-rebase_rules :
    (k : Text) (removed : List Text) (rs : List DraftRule) (changed : Dict DraftRule)
    → Distinct (rule_keys rs)
    → includes k (rule_keys rs) ≡ true
    → body_at k (rebase_rules removed rs changed).0
      ≡ (if includes k removed then none else version (get k changed) (body_at k rs))
unfolding body_at includes rebase_rules
body_at-rebase_rules k removed [] changed d h = cc
body_at-rebase_rules k removed (r ∷ rs) changed d h = elim (Bool-cases (text_eq r.key k)) [
  | inl here ↦
      let same : r.key ≡ k = (text_eq_iff r.key k).0 here in
      let gone : includes k (rule_keys rs) ≡ false =
        subst (λ t. includes t (rule_keys rs) ≡ false) same d.0 in
      let removed_test = ap (λ t. includes t removed) same in
      let changed_value = ap (λ t. get t changed) same in
      ground (
        arith,
        removed_test,
        rebase_rules-absent k removed rs changed gone,
        key-chosen_rule r (get r.key changed),
        body-chosen_rule r (get r.key changed),
        changed_value,
      )
  | inr other ↦ ground (
    arith,
    body_at-rebase_rules k removed rs changed d.1,
    body_at-rebase_rules k removed rs (remove r.key changed) d.1,
    get-remove r.key k changed,
    key-chosen_rule r (get r.key changed),
  )
]
