-- ===== src/Acl/Definitions/HostNames.antt =====
-- A name that the editor of hosts of frontend/src/pages/acls/DefinitionsTabs.tsx takes is a selector
-- in rules.
use head_control.Text.Equal.{text_eq_iff}
use mathlib.Core.Path.{subst}
use head_control.Dict.{own}
use head_control.Acl.Definitions.{
  is_ip_or_cidr, has, SelectorKind, Dict, SelectorContext, is_letter,
}
use head_control.Text.{codes, text_eq, trim, is_space, is_digit, Text, has_unit, starts_with}
use head_control.Acl.Selector.{classify, validate_kind, Side, validate_selector, has_space}
use head_control.Acl.Definitions.Tabs.{is_host_unit, is_host_name}
use head_control.Dict.{has}
use head_control.Common.{
  ◌==◌, ℕ, true, false, [], ◌∷◌, ◌≡◌, ◌⊎◌, inl, inr, refl, ap, ◌∙◌, arith, any, all, none,
  Bool-cases, sym,
}

unit-NoSpace : (c : ℕ) → is_host_unit c ≡ true → is_space c ≡ false
unfolding is_host_unit is_letter is_digit is_space
unit-NoSpace c h = ground arith

has_space_of_units : (s : Text) → all is_host_unit s ≡ true → has_space s ≡ false
unfolding has_space all any
has_space_of_units [] h = refl
has_space_of_units (c ∷ s) h = ground (arith, unit-NoSpace c, has_space_of_units s)

has_unit_of_units :
    (c : ℕ) (s : Text) → is_host_unit c ≡ false → all is_host_unit s ≡ true → has_unit c s ≡ false
unfolding has_unit all
has_unit_of_units c [] out h = refl
has_unit_of_units c (x ∷ s) out h = elim (Bool-cases (x == c)) [
  | inl e ↦
      let same : x ≡ c = ground arith in
      let unit : is_host_unit x ≡ true = ground arith in
      absurd (ground (arith, ap is_host_unit same))
  | inr e ↦ ground (arith, has_unit_of_units c s out)
]

-- A unit of a prefix is one of the text.
has_unit_of_prefix :
    (c : ℕ) (s p : Text) → starts_with s p ≡ true → has_unit c p ≡ true → has_unit c s ≡ true
unfolding starts_with has_unit
has_unit_of_prefix c s [] h u = absurd (ground arith)
has_unit_of_prefix c [] (b ∷ p) h u = absurd (ground arith)
has_unit_of_prefix c (a ∷ s) (b ∷ p) h u = ground (arith, has_unit_of_prefix c s p)

units_of_name : (s : Text) → is_host_name s ≡ true → all is_host_unit s ≡ true
unfolding is_host_name all is_host_unit
units_of_name [] h = absurd (ground arith)
units_of_name (c ∷ s) h = ground arith

-- Units that no name has, and a name that is none.
colon_out : (is_host_unit b':' ≡ false) × (is_host_unit b'@' ≡ false) × (is_host_unit b'*' ≡ false)
unfolding is_host_unit is_letter is_digit
colon_out = (refl, refl, refl)

no_prefix :
    (s p : Text) → all is_host_unit s ≡ true → has_unit b':' p ≡ true → starts_with s p ≡ false
no_prefix s p h u =
    ground (arith, has_unit_of_prefix b':' s p, has_unit_of_units b':' s colon_out.0 h)

not_star : (s : Text) → all is_host_unit s ≡ true → text_eq s (codes "*") ≡ false
not_star s h = elim (Bool-cases (text_eq s (codes "*"))) [
  | inl e ↦
      let star : has_unit b'*' s ≡ true =
        subst (λ t. has_unit b'*' t ≡ true) (sym ((text_eq_iff s (codes "*")).0 e))
          (unfold has_unit in refl) in
      absurd (ground (arith, has_unit_of_units b'*' s colon_out.2 h))
  | inr e ↦ e
]

classify_of_host :
    (s : Text) (m : Dict Text)
    → is_host_name s ≡ true
    → own s m ≡ true
    → (classify s m ≡ SelectorKind.cidr) ⊎ (classify s m ≡ SelectorKind.host)
classify_of_host s m h o =
    let units = units_of_name s h in
    let no = λ (p : Text). no_prefix s p units in
    let auto : starts_with s (codes "autogroup:") ≡ false =
      no (codes "autogroup:") (unfold has_unit in refl) in
    let group : starts_with s (codes "group:") ≡ false =
      no (codes "group:") (unfold has_unit in refl) in
    let tag : starts_with s (codes "tag:") ≡ false = no (codes "tag:") (unfold has_unit in refl) in
    let at : has_unit b'@' s ≡ false = has_unit_of_units b'@' s colon_out.1 units in
    let star = not_star s units in
    let declared : has s m ≡ true = unfold has in ground arith in
    unfold classify in
    rw (star, auto, group, tag, at, declared)
      elim (Bool-cases (is_ip_or_cidr s)) [ inl e ↦ inl (rw e refl) | inr e ↦ inr (rw e refl) ]

-- A name of a host that is declared is a selector without a finding.
pub validate_selector_of_host :
    (s : Text) (side : Side) (ctx : SelectorContext)
    → trim s ≡ s
    → text_eq s [] ≡ false
    → is_host_name s ≡ true
    → own s ctx.hosts ≡ true
    → validate_selector s side ctx ≡ none
unfolding validate_selector
validate_selector_of_host s side ctx t e h o =
    let word = has_space_of_units s (units_of_name s h) in
    rw (t, e, word)
      elim (classify_of_host s ctx.hosts h o) [
        | inl k ↦ ap (λ x. validate_kind x s side ctx) k ∙ (unfold validate_kind in refl)
        | inr k ↦ ap (λ x. validate_kind x s side ctx) k ∙ (unfold validate_kind in refl)
      ]
