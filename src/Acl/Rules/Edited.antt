-- ===== src/Acl/Rules/Edited.antt =====
-- The badge "edited" of frontend/src/pages/acls/RulesTab.tsx.
use head_control.Common.{true, false, not, ◌≡◌, refl, arith, Bool}
use head_control.Acl.Diff.{RuleChange, same_rule}
use head_control.Acl.Rules.{is_edited}
use head_control.Acl.Diff.{bool_eq}

bool_eq_refl : (b : Bool) → bool_eq b b ≡ true
bool_eq_refl true = refl
bool_eq_refl false = refl

-- Of the rules that the summary lists as changed, exactly those count as edited that differ in more
-- than being switched on or off.
is_edited_lem :
    (c : RuleChange)
    → same_rule c.before c.after ≡ false
    → is_edited c ≡ not (same_rule (record (c.before) { enabled = c.after.body.enabled }) c.after)
unfolding is_edited same_rule
is_edited_lem c h = ground (arith, bool_eq_refl c.after.body.enabled)
