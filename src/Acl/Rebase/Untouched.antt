-- ===== src/Acl/Rebase/Untouched.antt =====
-- A rebase of a draft that the user did not touch loads the server's model.
use head_control.Common.{
  ℕ, List, [], ◌∷◌, ◌≡◌, refl, ap, ◌∙◌, arith, append-nil, Option, none, some,
}
use native.Mathlib.Nat.{add-zero}
use head_control.Text.{Text}
use head_control.Acl.Draft.{at, DraftRule, PolicyModel, Draft, ExtraList, draft_from_model}
use head_control.Acl.Diff.{empty_summary, diff_draft}
use head_control.Acl.Diff.Untouched.{diff_draft-draft_from_model}
use head_control.Acl.Diff.SameKeys.{IsModel}
use head_control.Acl.Rebase.{
  merge_keys, changed_rules, rebase_rules, rebase_list, rebase_draft, orphan_rules, chosen_rule,
}

rebase_rules-empty : (rs : List DraftRule) → rebase_rules [] rs [] ≡ (rs, [])
unfolding rebase_rules chosen_rule
rebase_rules-empty [] = refl
rebase_rules-empty (r ∷ rs) = ground (arith, rebase_rules-empty rs)

rebase_list-empty :
    (key_at : ℕ → Text) (base : Option PolicyModel) (server : PolicyModel) (fresh d : Draft) (n : ℕ)
    (l : ExtraList)
    → rebase_list key_at base server fresh d empty_summary n l ≡ (at fresh.extras l, n)
unfolding rebase_list
rebase_list-empty key_at none server fresh d n l = refl
rebase_list-empty key_at (some base) server fresh d n ExtraList.grants = refl
rebase_list-empty key_at (some base) server fresh d n l = refl

rebase_draft-empty :
    (key_at : ℕ → Text) (n : ℕ) (d : Draft) (server : PolicyModel)
    → rebase_draft key_at n d server empty_summary ≡ draft_from_model key_at n server
unfolding rebase_draft draft_from_model merge_keys rebase_rules changed_rules orphan_rules
rebase_draft-empty key_at n d server =
    simp (rebase_rules-empty, rebase_list-empty, append-nil, add-zero)

-- A draft that was loaded and not touched is, after a rebase with its own summary, the draft of the
-- server's newer model. The ids of the rules of the older model are distinct and not empty, and
-- none of its sections has a key twice.
pub rebase_draft-untouched :
    (key_at : ℕ → Text) (k n : ℕ) (base server : PolicyModel)
    → IsModel base
    → rebase_draft key_at n
        (draft_from_model key_at k base).0
        server
        (diff_draft base (draft_from_model key_at k base).0)
      ≡ draft_from_model key_at n server
rebase_draft-untouched key_at k n base server h =
    let d = (draft_from_model key_at k base).0 in
    ap (rebase_draft key_at n d server) (diff_draft-draft_from_model key_at k base h)
    ∙ rebase_draft-empty key_at n d server
