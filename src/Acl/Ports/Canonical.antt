-- ===== src/Acl/Ports/Canonical.antt =====
-- `parsePorts` returns exactly the specifications in normal form, and leaves those as they are.
use head_control.Common.{
  ℕ, ◌≤◌, ◌+◌, false, List, [], ◌∷◌, ◌++◌, map, ◌≡◌, ◌⊎◌, ◌↔◌, inl, inr, refl, sym, ap, ◌∙◌, arith,
  All, All-append, length, Bool-cases, ne_of_length-ne, length-append, Option-cases, length-map,
}
use mathlib.Core.Path.{subst}
use mathlib.Core.List.{map-append}
use head_control.Text.{Text, codes, includes, text_eq, trim, split}
use head_control.Text.Equal.{text_eq_iff}
use head_control.Text.Decimal.{}
use head_control.Text.Trim.{trim_of_NoSpace}
use head_control.Text.Split.{length-split}
use head_control.Acl.Ports.{
  Parsed, ok, fail, show_range, match_range, check_range, check_part, check_parts, parse_ports,
}
use head_control.Acl.Ports.Spec.{IsRange, Distinct, show_ranges, IsSpec, Distinct-concat}
use head_control.Acl.Ports.Printed.{
  check_parts-show_ranges, trim_parts, show_ranges-ne, show_ranges-NoSpace, split-show_ranges,
}

-- A specification in normal form is left as it is.
pub parse_ports_of_IsSpec : (v : Text) → IsSpec v → parse_ports v ≡ ok v
unfolding parse_ports
parse_ports_of_IsSpec v (inl e) = rw e
parse_ports_of_IsSpec v (inr (rs, (some_range, h, d), e)) =
    let whole = show_ranges rs in
    let (no_empty, no_star) = show_ranges-ne rs some_range in
    let parts : map trim (split b',' whole) ≡ map show_range rs =
      ap (map trim) (split-show_ranges rs some_range) ∙ trim_parts rs in
    rw e (
      ground (
        arith,
        trim_of_NoSpace whole (show_ranges-NoSpace rs),
        text_eq_iff whole [],
        text_eq_iff whole (codes "*"),
        parts,
        check_parts-show_ranges rs [] h d,
      ))

-- What `check_part` returns is a printed range.
check_part-IsRange :
    (part norm : Text) → check_part part ≡ ok norm → (r : ℕ × ℕ) × IsRange r × (norm ≡ show_range r)
unfolding check_part check_range
check_part-IsRange part norm h = elim (Option-cases (match_range part)) [
  | inl missed ↦ ground arith
  | inr (r, found) ↦ (r, ground arith, ground arith)
]

pub Parsed-cases : (p : Parsed) → ((v : Text) × (p ≡ ok v)) ⊎ ((e : Text) × (p ≡ fail e))
Parsed-cases (ok v) = inl (v, refl)
Parsed-cases (fail e) = inr (e, refl)

-- A round that does not fail.
check_parts_step :
    (part : Text) (parts out : List Text) (v : Text)
    → check_parts (part ∷ parts) out ≡ ok v
    → (norm : Text) × (check_part part ≡ ok norm)
      × (includes norm out ≡ false)
      × (check_parts parts (out ++ norm ∷ []) ≡ ok v)
unfolding check_parts
check_parts_step part parts out v h = elim (Parsed-cases (check_part part)) [
  | inl (norm, e) ↦ (norm, e, ground arith, ground arith)
  | inr (why, e) ↦ ground arith
]

check_parts-IsRanges :
    (parts : List Text) (rs : List (ℕ × ℕ)) (v : Text)
    → All IsRange rs
    → Distinct (map show_range rs)
    → check_parts parts (map show_range rs) ≡ ok v
    → (qs : List (ℕ × ℕ)) × All IsRange qs
      × Distinct (map show_range qs)
      × (v ≡ show_ranges qs)
      × (length qs ≡ length rs + length parts)
check_parts-IsRanges [] rs v h d e = (rs, h, d, unfold check_parts in ground arith, omega arith)
check_parts-IsRanges (part ∷ parts) rs v h d e =
    let (norm, checked, fresh, later) = check_parts_step part parts (map show_range rs) v e in
    let (r, range, printed) = check_part-IsRange part norm checked in
    let longer : map show_range rs ++ norm ∷ [] ≡ map show_range (rs ++ r ∷ []) =
      ap (λ t. map show_range rs ++ t ∷ []) printed ∙ sym (map-append show_range rs (r ∷ [])) in
    let (qs, ranges, distinct, whole, count) =
      check_parts-IsRanges parts (rs ++ r ∷ []) v (All-append IsRange rs (r ∷ []) h (range, tt))
        (subst Distinct longer (Distinct-concat (map show_range rs) norm d fresh))
        (subst (λ t. check_parts parts t ≡ ok v) longer later) in
    (qs, ranges, distinct, whole, omega (arith, count, length-append rs (r ∷ [])))

-- Whatever `parsePorts` accepts, it returns a specification in normal form.
pub parse_ports-IsSpec : (s v : Text) → parse_ports s ≡ ok v → IsSpec v
unfolding parse_ports
parse_ports-IsSpec s v h = elim (Bool-cases (text_eq (trim s) (codes "*"))) [
  | inl star ↦ inl (ground arith)
  | inr other ↦
      let parts = map trim (split b',' (trim s)) in
      let checked : check_parts parts [] ≡ ok v = ground arith in
      let (qs, ranges, distinct, whole, count) = check_parts-IsRanges parts [] v tt tt checked in
      let some_part : 1 ≤ length parts =
        omega (arith, length-map trim (split b',' (trim s)), length-split b',' (trim s)) in
      inr (qs, (ne_of_length-ne qs [] (omega arith), ranges, distinct), whole)
]

-- A text is in normal form exactly when `parsePorts` returns it unchanged.
pub parse_ports-self_iff : (v : Text) → (parse_ports v ≡ ok v) ↔ IsSpec v
parse_ports-self_iff v = (parse_ports-IsSpec v v, parse_ports_of_IsSpec v)

-- Validating the value that `parsePorts` returned returns it again.
pub parse_ports_idempotent : (s v : Text) → parse_ports s ≡ ok v → parse_ports v ≡ ok v
parse_ports_idempotent s v h = parse_ports_of_IsSpec v (parse_ports-IsSpec s v h)
