-- ===== src/Acl/Draft.antt =====
-- The draft of the editor and the model that the server sends: the types of
-- frontend/src/pages/acls/model.ts and frontend/src/api/types.ts, `draftFromModel` and `toSaveBody`.
-- `newKey` takes the next key of a supply: `key_at n` is the key of the n-th call, and a function
-- that makes keys takes the number of calls so far and returns it beside its result.
pub mod Save
use head_control.Common.{
  ℕ, suc, ◌+◌, Bool, true, false, List, [], ◌∷◌, map, if◌then◌else◌, Option, none, some,
}
use head_control.Text.{Text, text_eq, trim}
use head_control.Dict.{Dict}
use head_control.Json.{Json}
use head_control.Acl.Selector.{truthy}

pub record PolicyModelRule : Type 0 where
  pub id : Text
  pub proto : Option Text
  pub src : List Text
  pub dst : List Text
  pub name : Text
  pub description : Text
  pub enabled : Bool

-- `Omit<DraftRule, "key" | "serverId">`; the action is always "accept".
pub record RuleBody : Type 0 where
  pub proto : Option Text
  pub src : List Text
  pub dst : List Text
  pub name : Text
  pub description : Text
  pub enabled : Bool

pub record DraftRule : Type 0 where
  pub key : Text
  pub server_id : Option Text
  pub body : RuleBody

pub record ExtraItem : Type 0 where
  pub key : Text
  pub origin : Option ℕ
  pub value : Json

pub data ExtraList : Type 0 where
  grants ssh node_attrs tests ssh_tests : ExtraList

-- `Record<ExtraList, A>`
pub record Extras {ℓ} (A : Type ℓ) : Type ℓ where
  pub grants : A
  pub ssh : A
  pub node_attrs : A
  pub tests : A
  pub ssh_tests : A

module _ {ℓ} {A : Type ℓ} where
  -- `r[list]`
  abbrev pub at : Extras A → ExtraList → A
  at r grants = r.grants
  at r ssh = r.ssh
  at r node_attrs = r.node_attrs
  at r tests = r.tests
  at r ssh_tests = r.ssh_tests

  -- `Object.fromEntries(EXTRA_LISTS.map((l) => [l, f(l)]))`
  abbrev pub by_list : (ExtraList → A) → Extras A
  by_list f = record {
    grants = f ExtraList.grants;
    ssh = f ExtraList.ssh;
    node_attrs = f ExtraList.node_attrs;
    tests = f ExtraList.tests;
    ssh_tests = f ExtraList.ssh_tests;
  }

  -- `{ ...r, [list]: a }`
  abbrev pub put_at : ExtraList → A → Extras A → Extras A
  put_at grants a r = record r { grants = a }
  put_at ssh a r = record r { ssh = a }
  put_at node_attrs a r = record r { node_attrs = a }
  put_at tests a r = record r { tests = a }
  put_at ssh_tests a r = record r { ssh_tests = a }

pub record AutoApprovers : Type 0 where
  pub routes : Dict (List Text)
  pub exit_node : List Text

-- The parts of `PolicyModel` that the editor reads; an older server may leave some of them out.
pub record PolicyModel : Type 0 where
  pub hash : Text
  pub writable : Bool
  pub groups : Dict (List Text)
  pub tag_owners : Dict (List Text)
  pub hosts : Dict Text
  pub rules : List PolicyModelRule
  pub elements : Extras (Option (List Json))
  pub auto_approvers : Option AutoApprovers
  pub randomize_client_port : Option Bool

pub record Draft : Type 0 where
  pub base_hash : Text
  pub base : Option PolicyModel
  pub groups : Dict (List Text)
  pub tag_owners : Dict (List Text)
  pub hosts : Dict Text
  pub rules : List DraftRule
  pub extras : Extras (List ExtraItem)
  pub auto_approvers : AutoApprovers
  pub randomize_client_port : Bool

abbrev pub or_empty {ℓ} : {A : Type ℓ} → Option (List A) → List A
or_empty none = []
or_empty (some xs) = xs

unfoldable pub model_list : PolicyModel → ExtraList → List Json
model_list m l = or_empty (at m.elements l)

abbrev no_approvers : AutoApprovers
no_approvers = record { routes = []; exit_node = [] }

unfoldable pub model_auto_approvers : PolicyModel → AutoApprovers
model_auto_approvers m = elim m.auto_approvers [ none ↦ no_approvers | some a ↦ a ]

-- `!!b`
abbrev pub is_true : Option Bool → Bool
is_true none = false
is_true (some b) = b

unfoldable pub rule_from_model : PolicyModelRule → DraftRule
rule_from_model r = record {
  key = r.id;
  server_id = some r.id;
  body = record {
    proto = truthy r.proto;
    src = r.src;
    dst = r.dst;
    name = r.name;
    description = r.description;
    enabled = r.enabled;
  };
}

abbrev pub empty_draft : Draft
empty_draft = record {
  base_hash = [];
  base = none;
  groups = [];
  tag_owners = [];
  hosts = [];
  rules = [];
  extras = by_list (λ l. []);
  auto_approvers = no_approvers;
  randomize_client_port = false;
}

module _ (key_at : ℕ → Text) where
  -- The items for `elements`, the first with the origin `i` and the key of the call `n`.
  unfoldable pub extra_items : ℕ → ℕ → List Json → List ExtraItem
  extra_items n i [] = []
  extra_items n i (v ∷ vs) =
      record { key = key_at n; origin = some i; value = v } ∷ extra_items (suc n) (suc i) vs

  abbrev pub count {ℓ} : {A : Type ℓ} → List A → ℕ
  count [] = 0
  count (x ∷ xs) = suc (count xs)

  -- The calls of `newKey` before the list `l` is reached.
  abbrev pub calls_before : PolicyModel → ExtraList → ℕ
  calls_before m ExtraList.grants = 0
  calls_before m ExtraList.ssh = count (model_list m ExtraList.grants)
  calls_before m ExtraList.node_attrs =
      count (model_list m ExtraList.grants) + count (model_list m ExtraList.ssh)
  calls_before m ExtraList.tests =
      count (model_list m ExtraList.grants)
      + count (model_list m ExtraList.ssh)
      + count (model_list m ExtraList.node_attrs)
  calls_before m ExtraList.ssh_tests =
      count (model_list m ExtraList.grants)
      + count (model_list m ExtraList.ssh)
      + count (model_list m ExtraList.node_attrs)
      + count (model_list m ExtraList.tests)

  unfoldable pub draft_from_model : ℕ → PolicyModel → Draft × ℕ
  unfolding extra_items model_list model_auto_approvers rule_from_model
  draft_from_model n m = (
    record {
      base_hash = m.hash;
      base = some m;
      groups = m.groups;
      tag_owners = m.tag_owners;
      hosts = m.hosts;
      rules = map rule_from_model m.rules;
      extras = by_list (λ l. extra_items (n + calls_before m l) 0 (model_list m l));
      auto_approvers = model_auto_approvers m;
      randomize_client_port = is_true m.randomize_client_port;
    },
    n + calls_before m ExtraList.ssh_tests + count (model_list m ExtraList.ssh_tests),
  )

-- The body of a save.
pub record PolicyModelSave : Type 0 where
  pub base_hash : Text
  pub comment : Option Text
  pub groups : Dict (List Text)
  pub tag_owners : Dict (List Text)
  pub hosts : Dict Text
  pub rules : List RuleBody
  pub elements : Extras (List Json)
  pub auto_approvers : AutoApprovers
  pub randomize_client_port : Bool

-- `comment?.trim() || undefined`
abbrev trimmed : Option Text → Option Text
trimmed none = none
trimmed (some c) = truthy (some (trim c))

unfoldable pub save_rule : DraftRule → RuleBody
save_rule r = record {
  proto = truthy r.body.proto;
  src = r.body.src;
  dst = r.body.dst;
  name = r.body.name;
  description = r.body.description;
  enabled = r.body.enabled;
}

unfoldable pub to_save_body : Draft → Option Text → PolicyModelSave
unfolding save_rule
to_save_body d comment = record {
  base_hash = d.base_hash;
  comment = trimmed comment;
  groups = d.groups;
  tag_owners = d.tag_owners;
  hosts = d.hosts;
  rules = map save_rule d.rules;
  elements = by_list (λ l. map (λ it. it.value) (at d.extras l));
  auto_approvers = d.auto_approvers;
  randomize_client_port = d.randomize_client_port;
}
