-- ===== src/Acl/Samples.antt =====
-- A model and its draft, at which the theorems are tried.
use head_control.Common.{ℕ, [], ◌∷◌, ◌≡◌, true, refl, ap, ◌∙◌, sym, none, some}
use head_control.Text.{Text, codes, includes, text_eq}
use head_control.Text.Decimal.{show, number, number-show}
use head_control.Json.{str}
use head_control.Acl.Draft.{
  PolicyModel, PolicyModelRule, RuleBody, Draft, by_list, model_auto_approvers, draft_from_model,
}
use head_control.Acl.Diff.SameKeys.{IsModel}
use head_control.Acl.Reducer.{}
use head_control.Acl.Reducer.Renaming.{}

-- Keys that begin with a letter that no id of the model begins with.
abbrev pub key_at : ℕ → Text
key_at n = b'k' ∷ show n

unprefixed : Text → Text
unprefixed [] = []
unprefixed (c ∷ s) = s

pub key_at_injective : (i j : ℕ) → key_at i ≡ key_at j → i ≡ j
unfolding unprefixed
key_at_injective i j h = sym (number-show i) ∙ ap (λ t. number (unprefixed t)) h ∙ number-show j

abbrev rule : PolicyModelRule
rule = record {
  id = codes "r1";
  proto = some (codes "tcp");
  src = codes "group:eng" ∷ [];
  dst = codes "tag:web:443" ∷ codes "tag:web:80" ∷ [];
  name = codes "web";
  description = [];
  enabled = true;
}

abbrev pub rule_body : RuleBody
rule_body = record {
  proto = some (codes "tcp");
  src = codes "group:eng" ∷ [];
  dst = codes "tag:web:443" ∷ codes "tag:web:80" ∷ [];
  name = codes "web";
  description = [];
  enabled = true;
}

abbrev pub model : PolicyModel
model = record {
  hash = codes "h1";
  groups = (codes "group:eng", codes "ann@" ∷ []) ∷ [];
  tag_owners = (codes "tag:web", codes "group:eng" ∷ []) ∷ [];
  hosts = (codes "db1", codes "10.0.0.7") ∷ [];
  rules = rule ∷ [];
  elements = by_list (λ l. some (str (codes "x") ∷ []));
  auto_approvers = none;
  randomize_client_port = none;
  writable = true;
}

abbrev pub loaded : Draft
loaded = (draft_from_model key_at 0 model).0

pub model-IsModel : IsModel model
unfolding includes text_eq model_auto_approvers
model-IsModel = record {
  ids = (refl, tt);
  named = (cc, tt);
  groups = (refl, tt);
  tag_owners = (refl, tt);
  hosts = (refl, tt);
  routes = tt;
}
