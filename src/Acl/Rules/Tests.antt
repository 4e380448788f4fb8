-- ===== src/Acl/Rules/Tests.antt =====
-- The tab of rules at a concrete draft.
use head_control.Common.{[], ◌∷◌, ◌≡◌, refl, some, map}
use head_control.Text.{codes, lower}
use head_control.Acl.Samples.{loaded}
use head_control.Acl.Draft.{draft_from_model}
use head_control.Acl.Rules.{visible, rule_to_hu_json}

found : visible (map lower) (codes " ENG") loaded.rules ≡ loaded.rules
unfolding visible draft_from_model lower
found = refl

none_found : visible (map lower) (codes "db") loaded.rules ≡ []
unfolding visible draft_from_model lower
none_found = refl

printed :
    rule_to_hu_json (some (codes "tcp")) (codes "group:eng" ∷ []) (codes "tag:web:443" ∷ [])
    ≡ codes
        "{\"action\": \"accept\", \"proto\": \"tcp\", \"src\": [\"group:eng\"], \"dst\": [\"tag:web:443\"]}"
unfolding rule_to_hu_json
printed = refl
