-- ===== src/Acl/Tests.antt =====
-- The draft at concrete inputs: a model with one rule of each kind of change.
mod Conflicts
use head_control.Text.Equal.{ne_of_text_eq}
use head_control.Common.{
  ℕ, List, [], ◌∷◌, ◌≡◌, ◌&&◌, true, false, not, refl, ap, ◌∙◌, sym, none, some, if◌then◌else◌,
}
use head_control.Text.{Text, codes, includes, text_eq, trim}
use head_control.Text.Decimal.{show, number, number-show}
use head_control.Dict.{Dict, get, own, has, inherited}
use head_control.Json.{str}
use head_control.Acl.Ports.{ok, parse_ports, split_dst}
use head_control.Acl.Draft.{
  PolicyModel, PolicyModelRule, RuleBody, DraftRule, Draft, by_list, model_list,
  model_auto_approvers, draft_from_model, to_save_body, rule_from_model,
}
use head_control.Acl.Draft.Save.{to_save_body-draft_from_model}
use head_control.Acl.Diff.{diff_keys, diff_draft, empty_summary}
use head_control.Acl.Diff.Sections.{diff_keys_exact, same_at}
use head_control.Acl.Diff.Untouched.{diff_draft-draft_from_model}
use head_control.Acl.Diff.SameKeys.{IsModel}
use head_control.Acl.Rebase.{merge_keys}
use head_control.Acl.Rebase.Merge.{merge_keys-diff_keys}
use head_control.Acl.References.{references_of}
use head_control.Acl.Reducer.{
  draft_reducer, duplicate_rule, rename_section_key, lists, groups, rename_rule_dst, insert_copy,
  copy_rule,
}
use head_control.Acl.Reducer.Keys.{IsKeyed, IsCopied, insert_copy-IsCopied}
use head_control.Acl.Reducer.Keys.Keyed.{draft_reducer-IsKeyed}
use head_control.Acl.Reducer.Renaming.{
  renamed, split_dst-rename_rule_dst, element_references, references_of-rename_group,
}
use head_control.Acl.Form.{RuleForm, collect_dst, rule_to_form, form_to_rule}
use head_control.Acl.Form.Untouched.{NoInherited, form_to_rule-rule_to_form}
use head_control.Acl.Form.Edited.{rule_to_form-form_to_rule}
use head_control.Acl.Samples.{key_at, key_at_injective, model, loaded, model-IsModel, rule_body}

diff_draft-draft_from_model_example :
    diff_draft model (draft_from_model key_at 0 model).0 ≡ empty_summary
diff_draft-draft_from_model_example = diff_draft-draft_from_model key_at 0 model model-IsModel

to_save_body-draft_from_model_example :
    to_save_body (draft_from_model key_at 0 model).0 none ≡ record {
      base_hash = codes "h1";
      comment = none;
      groups = model.groups;
      tag_owners = model.tag_owners;
      hosts = model.hosts;
      rules = rule_body ∷ [];
      elements = by_list (model_list model);
      auto_approvers = model_auto_approvers model;
      randomize_client_port = false;
    }
to_save_body-draft_from_model_example = to_save_body-draft_from_model key_at 0 model

-- The user changed "a" and removed "b"; the server changed "b" and added "c".
abbrev old_hosts : Dict Text
old_hosts = (codes "a", codes "10.0.0.1") ∷ (codes "b", codes "10.0.0.2") ∷ []

abbrev my_hosts : Dict Text
my_hosts = (codes "a", codes "10.0.0.9") ∷ []

abbrev server_hosts : Dict Text
server_hosts =
    (codes "a", codes "10.0.0.1")
    ∷ (codes "b", codes "10.0.0.3")
    ∷ (codes "c", codes "10.0.0.4")
    ∷ []

merge_keys-diff_keys_example :
    get (codes "a") (merge_keys server_hosts my_hosts (diff_keys text_eq old_hosts my_hosts)) ≡ (
      if same_at text_eq (codes "a") old_hosts my_hosts
      then get (codes "a") server_hosts
      else get (codes "a") my_hosts)
unfolding inherited text_eq includes
merge_keys-diff_keys_example =
    merge_keys-diff_keys text_eq (codes "a") old_hosts server_hosts my_hosts refl (refl, (refl, tt))

loaded-IsKeyed : IsKeyed key_at loaded 5
unfolding draft_from_model rule_from_model includes text_eq
loaded-IsKeyed = record { distinct = (refl, tt); fresh = λ i h. refl }

draft_reducer-IsKeyed_example :
    IsKeyed key_at
      (draft_reducer key_at loaded 5 (duplicate_rule (codes "r1"))).0
      (draft_reducer key_at loaded 5 (duplicate_rule (codes "r1"))).1
draft_reducer-IsKeyed_example =
    draft_reducer-IsKeyed key_at key_at_injective loaded 5 (duplicate_rule (codes "r1")) tt
      loaded-IsKeyed

abbrev form_body : RuleBody
form_body = record {
  proto = none;
  src = codes "group:eng" ∷ [];
  dst = codes "db1" ∷ codes "tag:web: 443,80" ∷ [];
  name = codes " web ";
  description = [];
  enabled = true;
}

abbrev two_rules : List DraftRule
two_rules =
    record { key = codes "r1"; server_id = none; body = form_body }
    ∷ record { key = codes "r2"; server_id = none; body = form_body }
    ∷ []

abbrev two_rules_copied : List DraftRule
two_rules_copied =
    record { key = codes "r1"; server_id = none; body = form_body }
    ∷ record {
      key = codes "k0";
      server_id = none;
      body = record form_body { name = codes " web  (copy)" };
    }
    ∷ record { key = codes "r2"; server_id = none; body = form_body }
    ∷ []

copied : insert_copy (codes "r1") (copy_rule (codes "k0")) two_rules ≡ some (two_rules_copied)
unfolding insert_copy text_eq copy_rule
copied = refl

references_of-rename_group_example :
    references_of
      (draft_reducer key_at loaded 5
        (rename_section_key (lists groups) (codes "group:eng") (codes "group:dev"))).0
      (codes "group:eng")
    ≡ element_references
        (draft_reducer key_at loaded 5
          (rename_section_key (lists groups) (codes "group:eng") (codes "group:dev"))).0
        (codes "group:eng")
unfolding draft_from_model has own includes text_eq rule_from_model split_dst number show
references_of-rename_group_example =
    references_of-rename_group key_at loaded 5 (codes "group:eng") (codes "group:dev") refl
      (ne_of_text_eq (codes "group:eng") (codes "group:dev") refl) (cc) ((refl, (refl, tt)), tt)

form_body-NoInherited : NoInherited form_body.dst
unfolding split_dst inherited includes text_eq number show
form_body-NoInherited = (refl, (refl, tt))

form_to_rule-rule_to_form_example :
    (f : RuleForm) × (rule_to_form form_body ≡ some f)
    × (form_to_rule f
        ≡ record form_body { proto = none; name = trim (codes " web "); description = trim [] })
form_to_rule-rule_to_form_example = form_to_rule-rule_to_form form_body form_body-NoInherited

-- The loop throws at an inherited member.
rule_to_form_inherited :
    rule_to_form (record form_body { dst = codes "constructor:443" ∷ [] }) ≡ none
unfolding rule_to_form collect_dst split_dst inherited includes text_eq number show own get has
rule_to_form_inherited = refl

abbrev new_form : RuleForm
new_form = record {
  name = codes "db";
  description = [];
  enabled = true;
  proto = codes "tcp";
  src = codes "group:eng" ∷ [];
  dst = codes "db1" ∷ codes "tag:web" ∷ [];
  ports = codes " 5432, 443 ";
  dst_ports = [];
  original = none;
}

valid_ports : parse_ports (trim (codes " 5432, 443 ")) ≡ ok (codes "5432,443")
unfolding trim parse_ports number show
valid_ports = refl

rule_to_form-form_to_rule_example :
    (g : RuleForm) × (rule_to_form (form_to_rule new_form) ≡ some g)
    × (g.dst ≡ codes "db1" ∷ codes "tag:web" ∷ [])
    × (g.ports ≡ codes "5432,443")
unfolding inherited trim includes text_eq
rule_to_form-form_to_rule_example =
    rule_to_form-form_to_rule new_form (codes "5432,443") refl (cc) (cc, (cc, tt))
      (refl, (refl, tt)) (refl, (refl, tt)) (cc) valid_ports
