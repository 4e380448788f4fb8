-- ===== src/Acl/Elements/Saved.antt =====
-- What the editors of frontend/src/pages/acls/PolicySections.tsx leave in an element.
use head_control.Json.Fields.Laws.{get_field-set_field, Distinct-set_field}
use head_control.Json.Fields.{same_name, stored, set_field}
use head_control.Acl.Elements.{
  first_text, ssh_test_of, save_ssh_test, check_period, test_of, save_test, save_node_attr,
  app_value, node_attr_of, ssh_of, texts, save_ssh, grant_of, save_grant, get_field, ElementForm,
  save_element,
}
use head_control.Common.{
  true, false, List, [], ◌∷◌, ◌≡◌, refl, arith, map, if◌then◌else◌, Option, none, some, Bool-cases,
  inl, inr, ap, ◌∙◌,
}
use head_control.Json.Fields.Laws.{lower_names}
use head_control.Text.{Text, codes, text_eq, lower, includes}
use head_control.Text.Equal.{text_eq_iff}
use head_control.Acl.Ports.Spec.{Distinct}
use head_control.Json.{Json, Members, str}

-- The fields that the form of an editor shows, and what it puts there.
module _ (parse : Text → Option Json) (print : Json → Text) where
  pub form_fields : ElementForm → List (Text × Option Json)
  form_fields (grant_of f) =
      (codes "src", texts f.src)
      ∷ (codes "dst", texts f.dst)
      ∷ (codes "ip", texts f.ip)
      ∷ (codes "via", texts f.via)
      ∷ (codes "app", app_value parse print f)
      ∷ []
  form_fields (ssh_of f) =
      (codes "action", some (str f.action))
      ∷ (codes "checkPeriod", check_period f)
      ∷ (codes "src", texts f.src)
      ∷ (codes "dst", texts f.dst)
      ∷ (codes "users", texts f.users)
      ∷ (codes "acceptEnv", texts f.accept_env)
      ∷ []
  form_fields (node_attr_of f) =
      (codes "target", texts f.target) ∷ (codes "attr", texts f.attr) ∷ []
  form_fields (test_of f) =
      (codes "src", first_text f.src)
      ∷ (codes "proto", some (str f.proto))
      ∷ (codes "accept", texts f.accept)
      ∷ (codes "deny", texts f.deny)
      ∷ []
  form_fields (ssh_test_of f) =
      (codes "src", first_text f.src)
      ∷ (codes "dst", texts f.dst)
      ∷ (codes "accept", texts f.accept)
      ∷ (codes "check", texts f.check)
      ∷ (codes "deny", texts f.deny)
      ∷ []

-- The first of the fields with the name.
pub shown_at : Text → List (Text × Option Json) → Option (Option Json)
shown_at j [] = none
shown_at j ((n, v) ∷ fs) = let rest = shown_at j fs in if same_name n j then some v else rest

set_fields : List (Text × Option Json) → Members → Members
set_fields [] o = o
set_fields ((n, v) ∷ fs) o = set_fields fs (set_field o n v)

shown_at_of_missing :
    (n j : Text) (fs : List (Text × Option Json))
    → includes (map lower n) (map (λ f. map lower f.0) fs) ≡ false
    → same_name n j ≡ true
    → shown_at j fs ≡ none
unfolding shown_at includes same_name
shown_at_of_missing n j [] h e = refl
shown_at_of_missing n j ((k, v) ∷ fs) h e = ground (
  arith,
  shown_at_of_missing n j fs,
  text_eq_iff (map lower n) (map lower j),
  text_eq_iff (map lower k) (map lower j),
  text_eq_iff (map lower k) (map lower n),
)

-- What a field holds: what the form puts there, or else what it held.
abbrev pub field_after : Option (Option Json) → Option Json → Option Json
field_after none old = old
field_after (some v) old = stored v

field_after-cons :
    (n j : Text) (v : Option Json) (fs : List (Text × Option Json)) (old : Option Json)
    → includes (map lower n) (map (λ f. map lower f.0) fs) ≡ false
    → field_after (shown_at j fs) (if same_name n j then stored v else old)
      ≡ field_after (shown_at j ((n, v) ∷ fs)) old
field_after-cons n j v fs old h = elim (Bool-cases (same_name n j)) [
  | inl e ↦ unfold shown_at in rw (e, shown_at_of_missing n j fs h e) refl
  | inr e ↦ unfold shown_at in rw e refl
]

get_field-set_fields :
    (fs : List (Text × Option Json)) (o : Members) (j : Text)
    → Distinct (map (λ f. map lower f.0) fs)
    → Distinct (lower_names o)
    → get_field (set_fields fs o) j ≡ field_after (shown_at j fs) (get_field o j)
unfolding set_fields
get_field-set_fields [] o j d e = unfold shown_at in refl
get_field-set_fields ((n, v) ∷ fs) o j d e =
    get_field-set_fields fs (set_field o n v) j d.1 (Distinct-set_field o n v e)
    ∙ (ap (field_after (shown_at j fs)) (get_field-set_field o n j v e)
        ∙ field_after-cons n j v fs (get_field o j) d.0)

module _ (parse : Text → Option Json) (print : Json → Text) where
  save_element-set_fields :
      (f : ElementForm) (base : Members)
      → save_element parse print base f ≡ set_fields (form_fields parse print f) base
  unfolding save_element form_fields set_fields save_grant save_ssh save_node_attr save_test
      save_ssh_test
  save_element-set_fields (grant_of f) base = refl
  save_element-set_fields (ssh_of f) base = refl
  save_element-set_fields (node_attr_of f) base = refl
  save_element-set_fields (test_of f) base = refl
  save_element-set_fields (ssh_test_of f) base = refl

  Distinct-form_fields :
      (f : ElementForm) → Distinct (map (λ g. map lower g.0) (form_fields parse print f))
  unfolding form_fields includes lower text_eq
  Distinct-form_fields (grant_of f) = (refl, (refl, (refl, (refl, (refl, tt)))))
  Distinct-form_fields (ssh_of f) = (refl, (refl, (refl, (refl, (refl, (refl, tt))))))
  Distinct-form_fields (node_attr_of f) = (refl, (refl, tt))
  Distinct-form_fields (test_of f) = (refl, (refl, (refl, (refl, tt))))
  Distinct-form_fields (ssh_test_of f) = (refl, (refl, (refl, (refl, (refl, tt)))))

  -- After an element is saved, a field that the form shows holds what the form puts there, whatever
  -- the spelling of its name, and every other field holds what it held before; no two fields of the
  -- element have one name.
  pub get_field-save_element :
      (f : ElementForm) (base : Members) (j : Text)
      → Distinct (lower_names base)
      → get_field (save_element parse print base f) j
        ≡ field_after (shown_at j (form_fields parse print f)) (get_field base j)
  get_field-save_element f base j d =
      ap (λ o. get_field o j) (save_element-set_fields f base)
      ∙ get_field-set_fields (form_fields parse print f) base j (Distinct-form_fields f) d
