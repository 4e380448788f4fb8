-- ===== src/Acl/Diff/SameKeys.antt =====
-- A section that is compared with itself, and a rule with its model.
use head_control.Common.{
  append_assoc, ◌∙◌, Bool, true, false, not, List, [], ◌∷◌, ◌++◌, map, ◌≡◌, ◌≢◌, refl, sym, ap,
  arith, All, keep, Option, none, some,
}
use head_control.Text.{Text, includes}
use head_control.Text.Equal.{includes-append, text_eq_iff, text_eq_refl}
use head_control.Dict.{Dict, keys, get, own, has}
use head_control.Dict.Laws.{own-get}
use head_control.Acl.Ports.Spec.{Distinct}
use head_control.Acl.Selector.{truthy}
use head_control.Acl.Draft.{PolicyModel, PolicyModelRule, rule_from_model}
use head_control.Acl.Diff.{
  model_auto_approvers, no_key_changes, diff_keys, diff_server, eq_at, same_list, same_rule,
  or_blank,
}

pub same_list_refl : (xs : List Text) → same_list xs xs ≡ true
unfolding same_list
same_list_refl [] = refl
same_list_refl (x ∷ xs) = ground (arith, text_eq_refl x, same_list_refl xs)

module _ {ℓ} {V : Type ℓ} (eq : V → V → Bool) (eq_refl : (v : V) → eq v v ≡ true) where
  -- The draft has what the server has.
  abbrev Agrees : Dict V → Dict V → Type ℓ
  Agrees server draft = All (λ e. get e.0 draft ≡ some e.1) server

  diff_server_of_Agrees :
      (server draft : Dict V) → Agrees server draft → diff_server eq server draft ≡ no_key_changes
  unfolding diff_server eq_at has
  diff_server_of_Agrees [] draft h = refl
  diff_server_of_Agrees ((k, v) ∷ server) draft h =
      ground (arith, diff_server_of_Agrees server draft h.1, h.0, own-get k draft, eq_refl v)

  Agrees-cons :
      (k : Text) (v : V) (server draft : Dict V)
      → includes k (keys server) ≡ false
      → Agrees server draft
      → Agrees server ((k, v) ∷ draft)
  unfolding includes get
  Agrees-cons k v [] draft h a = tt
  Agrees-cons k v ((j, w) ∷ server) draft h a = (
    ground (arith, text_eq_iff k j, text_eq_iff j k, a.0),
    Agrees-cons k v server draft (ground arith) a.1,
  )

  Agrees-self : (m : Dict V) → Distinct (keys m) → Agrees m m
  unfolding get
  Agrees-self [] d = tt
  Agrees-self ((k, v) ∷ m) d =
      (ground (arith, text_eq_refl k), Agrees-cons k v m m d.0 (Agrees-self m d.1))

  none_added :
      (xs ys : List Text) (m : Dict V) → keys m ≡ xs ++ ys → keep (λ k. not (has k m)) ys ≡ []
  unfolding keep has own
  none_added xs [] m e = refl
  none_added xs (y ∷ ys) m e =
      unfold includes in
      ground (
        arith,
        ap (includes y) e,
        includes-append y xs (y ∷ ys),
        text_eq_refl y,
        none_added (xs ++ y ∷ []) ys m (e ∙ sym (append_assoc xs (y ∷ []) ys)),
      )

  pub diff_keys_self : (m : Dict V) → Distinct (keys m) → diff_keys eq m m ≡ no_key_changes
  unfolding diff_keys
  diff_keys_self m d =
      ground (arith, diff_server_of_Agrees m m (Agrees-self m d), none_added [] (keys m) m refl)

-- The rules of a model have distinct ids, none of them empty.
pub record IsModel (m : PolicyModel) : Type 0 where
  pub ids : Distinct (map (λ r. r.id) m.rules)
  pub named : All (λ r. r.id ≢ []) m.rules
  pub groups : Distinct (keys m.groups)
  pub tag_owners : Distinct (keys m.tag_owners)
  pub hosts : Distinct (keys m.hosts)
  pub routes : Distinct (keys (model_auto_approvers m).routes)

or_blank-truthy : (o : Option Text) → or_blank (truthy o) ≡ or_blank o
or_blank-truthy none = refl
or_blank-truthy (some []) = refl
or_blank-truthy (some (c ∷ s)) = refl

pub truthy_of_ne : (t : Text) → t ≢ [] → truthy (some t) ≡ some t
truthy_of_ne [] h = absurd (h refl)
truthy_of_ne (c ∷ s) h = refl

pub same_rule-rule_from_model : (r : PolicyModelRule) → same_rule r (rule_from_model r) ≡ true
unfolding same_rule rule_from_model
same_rule-rule_from_model r = ground (
  arith,
  or_blank-truthy r.proto,
  text_eq_refl (or_blank r.proto),
  same_list_refl r.src,
  same_list_refl r.dst,
  text_eq_refl r.name,
  text_eq_refl r.description,
)
