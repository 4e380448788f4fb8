-- ===== src/Acl/Form/Valid.antt =====
-- What a form without an error writes.
use mathlib.Core.Path.{subst}
use head_control.Common.{
  List-cases, Bool, true, false, ◌||◌, List, [], ◌∷◌, ◌++◌, map, ◌≡◌, ◌≢◌, inl, inr, refl, sym, ap,
  arith, All, any, Option, none, some, Bool-cases, Option-cases,
}
use head_control.Text.{Text, codes, text_eq, trim}
use head_control.Dict.{Dict, get}
use head_control.Acl.Ports.{parse_ports, split_dst, join_dst}
use head_control.Acl.Ports.Canonical.{parse_ports-IsSpec, Parsed-cases}
use head_control.Acl.Ports.Dst.{split_dst-join_dst}
use head_control.Acl.Selector.{
  Issue, Level, IssueField, Side, SelectorContext, validate_selector, truthy,
}
use head_control.Acl.Form.{
  field_issue, is_empty, issue_if, proto_allows_ports, or_blank, with_field, RuleForm,
  validate_rule, selector_issues, port_issues, own_ports_issues, own_ports_issue, ports_issue,
  form_to_rule, form_dst, new_dst, normal_ports,
}

abbrev is_error : Issue → Bool
is_error i = elim i.level [ Level.error ↦ true | Level.warn ↦ false ]

-- Some issue is an error, which keeps the form from being saved.
abbrev pub has_error : List Issue → Bool
has_error is = any is_error is

has_error-append : (is js : List Issue) → has_error (is ++ js) ≡ (has_error is || has_error js)
unfolding any
has_error-append [] js = refl
has_error-append (i ∷ is) js = ground (arith, has_error-append is js)

no_error-append :
    (is js : List Issue)
    → has_error (is ++ js) ≡ false
    → (has_error is ≡ false) × (has_error js ≡ false)
no_error-append is js h = ground (arith, has_error-append is js)

-- A selector that is accepted is not empty.
validate_selector-ne-nil :
    (s : Text) (side : Side) (ctx : SelectorContext)
    → has_error (with_field IssueField.dst (validate_selector s side ctx)) ≡ false
    → s ≢ []
unfolding validate_selector trim text_eq any
validate_selector-ne-nil [] side ctx h = cc
validate_selector-ne-nil (c ∷ s) side ctx h = cc

selectors-ne-nil :
    (ctx : SelectorContext) (sels : List Text)
    → has_error (selector_issues IssueField.dst Side.dst ctx sels) ≡ false
    → All (λ s. s ≢ []) sels
unfolding selector_issues
selectors-ne-nil ctx [] h = tt
selectors-ne-nil ctx (s ∷ sels) h =
    let first = with_field IssueField.dst (validate_selector s Side.dst ctx) in
    let more = selector_issues IssueField.dst Side.dst ctx sels in
    let split = has_error-append first more in
    (
      validate_selector-ne-nil s Side.dst ctx (ground (arith, split)),
      selectors-ne-nil ctx sels (ground (arith, split)),
    )

-- Every destination that the form writes is well formed.
abbrev AllSplit : List Text → Type 0
AllSplit ds = All (λ d. (split_dst d).error ≡ none) ds

split-normal_ports :
    (sel spec : Text) (before after proto : Text) (allows : Bool)
    → sel ≢ []
    → has_error (ports_issue before after proto allows (parse_ports spec)) ≡ false
    → (split_dst (join_dst sel (normal_ports spec))).error ≡ none
unfolding ports_issue normal_ports any
split-normal_ports sel spec before after proto allows h e = elim (Parsed-cases (parse_ports spec)) [
  | inl (v, p) ↦ ground (arith, split_dst-join_dst sel v h (parse_ports-IsSpec spec v p))
  | inr (why, p) ↦ ground arith
]

truthy-eq-some : (o : Option Text) (t : Text) → truthy o ≡ some t → or_blank o ≡ t
truthy-eq-some none t h = cc
truthy-eq-some (some []) t h = cc
truthy-eq-some (some (c ∷ s)) t h = cc

-- The ports of a selector that has its own.
split-own_ports :
    (proto : Text) (allows : Bool) (sel : Text) (o : Option Text)
    → sel ≢ []
    → has_error (own_ports_issue proto allows sel (truthy o)) ≡ false
    → (split_dst (join_dst sel (normal_ports (or_blank o)))).error ≡ none
unfolding own_ports_issue any
split-own_ports proto allows sel o h e = elim (Option-cases (truthy o)) [
  | inl z ↦ ground arith
  | inr (own, z) ↦ rw (truthy-eq-some o own z) (
      split-normal_ports sel own (sel ++ codes ": ") (codes " for " ++ sel) proto allows h
        (ground (arith, z)))
]

AllSplit-shared :
    (shared proto : Text) (allows : Bool) (sels : List Text)
    → All (λ s. s ≢ []) sels
    → has_error (ports_issue [] [] proto allows (parse_ports shared)) ≡ false
    → AllSplit (map (λ sel. join_dst sel (normal_ports shared)) sels)
AllSplit-shared shared proto allows [] h e = tt
AllSplit-shared shared proto allows (s ∷ sels) h e = (
  split-normal_ports s shared [] [] proto allows h.0 e,
  AllSplit-shared shared proto allows sels h.1 e,
)

AllSplit-own :
    (m : Dict Text) (proto : Text) (allows : Bool) (sels : List Text)
    → All (λ s. s ≢ []) sels
    → has_error (own_ports_issues proto allows m sels) ≡ false
    → AllSplit (map (λ sel. join_dst sel (normal_ports (or_blank (get sel m)))) sels)
AllSplit-own m proto allows [] h e = tt
AllSplit-own m proto allows (s ∷ sels) h e =
    let all_parts : (has_error (own_ports_issue proto allows s (truthy (get s m))) ≡ false)
        × (has_error (own_ports_issues proto allows m sels) ≡ false) =
      unfold own_ports_issues in
      no_error-append (own_ports_issue proto allows s (truthy (get s m)))
        (own_ports_issues proto allows m sels) e in
    (
      split-own_ports proto allows s (get s m) h.0 all_parts.0,
      AllSplit-own m proto allows sels h.1 all_parts.1,
    )

new_dst-AllSplit :
    (f : RuleForm)
    → All (λ s. s ≢ []) f.dst
    → has_error (port_issues f) ≡ false
    → AllSplit (new_dst f)
unfolding new_dst port_issues
new_dst-AllSplit f h e = elim (Bool-cases (text_eq (trim f.ports) [])) [
  | inl blank ↦
      rw blank
        (AllSplit-own f.dst_ports f.proto (proto_allows_ports f.proto) f.dst h (rw blank at e))
  | inr shared ↦
      rw shared (
        AllSplit-shared (trim f.ports) f.proto (proto_allows_ports f.proto) f.dst h
          (rw shared at e))
]

new_dst-ne-nil : (f : RuleForm) → f.dst ≢ [] → new_dst f ≢ []
unfolding new_dst
new_dst-ne-nil f h = elim (List-cases f.dst) [ inl e ↦ absurd (h e) | inr (s, more, e) ↦ rw e (cc) ]

is_empty-ne-nil :
    (xs : List Text) (i : Issue)
    → is_error i ≡ true
    → has_error (issue_if (is_empty xs) i) ≡ false
    → xs ≢ []
unfolding any
is_empty-ne-nil [] i k h = cc
is_empty-ne-nil (x ∷ xs) i k h = cc

-- The parts of a validation without an error.
no_errors :
    (f : RuleForm) (ctx : SelectorContext)
    → has_error (validate_rule f ctx) ≡ false
    → (f.src ≢ [])
      × (f.dst ≢ [])
      × (has_error (selector_issues IssueField.dst Side.dst ctx f.dst) ≡ false)
      × (has_error (port_issues f) ≡ false)
unfolding validate_rule
no_errors f ctx h =
    let no_source : Issue =
      field_issue Level.error IssueField.src (codes "at least one source is required") in
    let no_target : Issue =
      field_issue Level.error IssueField.dst (codes "at least one destination is required") in
    let (a, r) = no_error-append (issue_if (is_empty f.src) no_source) _ h in
    let (b, r') = no_error-append (issue_if (is_empty f.dst) no_target) _ r in
    let (c, q) = no_error-append (selector_issues IssueField.src Side.src ctx f.src) _ r' in
    let (d, q') = no_error-append (selector_issues IssueField.dst Side.dst ctx f.dst) _ q in
    (
      is_empty-ne-nil f.src no_source refl a,
      is_empty-ne-nil f.dst no_target refl b,
      d,
      (no_error-append (port_issues f) _ q').0,
    )

-- A new form in which no issue is an error makes a rule with at least one source and at least one
-- destination, each of which splits into a selector and ports without an error.
pub form_to_rule-valid :
    (f : RuleForm) (ctx : SelectorContext)
    → f.original ≡ none
    → has_error (validate_rule f ctx) ≡ false
    → ((form_to_rule f).src ≢ [])
      × ((form_to_rule f).dst ≢ [])
      × All (λ d. (split_dst d).error ≡ none) (form_to_rule f).dst
form_to_rule-valid f ctx o h =
    let parts = no_errors f ctx h in
    let written : (form_to_rule f).dst ≡ new_dst f =
      unfold form_to_rule form_dst in ap (form_dst f) o in
    (
      unfold form_to_rule in parts.0,
      subst (λ t. t ≢ []) (sym written) (new_dst-ne-nil f parts.1),
      subst AllSplit (sym written)
          (new_dst-AllSplit f (selectors-ne-nil ctx f.dst parts.2) parts.3),
    )
