-- ===== src/Json/Fields/Laws.antt =====
-- What a field holds after `setField` of frontend/src/pages/acls/model.ts.
use head_control.Json.Fields.First.{
  write_first_of_other, write_member-write_first, write_first_of_same, get_field-field, write_first,
  field,
}
use mathlib.Core.Path.{subst}
use head_control.Acl.Ports.Spec.{Distinct}
use head_control.Json.Fields.{stored, set_field, get_field, same_name}
use head_control.Common.{◌||◌, ap₂}
use head_control.Common.{
  Bool, true, false, List, [], ◌∷◌, ◌≡◌, refl, arith, map, if◌then◌else◌, Option, none, some,
  Bool-cases, inl, inr, sym, ap, ◌∙◌,
}
use head_control.Text.{includes, Text, text_eq, lower}
use head_control.Text.Equal.{text_eq_iff}
use head_control.Json.{Json, Members, end, member}

-- The names of the fields, in lower case.
abbrev pub lower_names : Members → List Text
lower_names end = []
lower_names (member k v m) = map lower k ∷ lower_names m

-- A name that is missing has no field.
field_of_missing :
    (n : Text) (o : Members) → includes (map lower n) (lower_names o) ≡ false → field n o ≡ none
unfolding field includes same_name
field_of_missing n end h = refl
field_of_missing n (member k v m) h = ground (arith, field_of_missing n m)

field_of_same_name : (a b : Text) (o : Members) → same_name a b ≡ true → field a o ≡ field b o
unfolding field same_name
field_of_same_name a b end h = refl
field_of_same_name a b (member k v m) h =
    let same : map lower a ≡ map lower b = (text_eq_iff (map lower a) (map lower b)).0 h in
    ap₂ (λ x rest. if text_eq (map lower k) x then some v else rest) same
      (field_of_same_name a b m h)

same_name_trans : (k n j : Text) → same_name k n ≡ true → same_name k j ≡ same_name n j
unfolding same_name
same_name_trans k n j h =
    ap (λ x. text_eq x (map lower j)) ((text_eq_iff (map lower k) (map lower n)).0 h)

same_name_apart :
    (k n j : Text) → same_name k n ≡ false → same_name n j ≡ true → same_name k j ≡ false
unfolding same_name
same_name_apart k n j h e =
    let a = map lower k in
    let b = map lower n in
    let c = map lower j in ground (arith, text_eq_iff a b, text_eq_iff b c, text_eq_iff a c)

field-write_first :
    (n j : Text) (v : Option Json) (o : Members)
    → Distinct (lower_names o)
    → field j (write_first n v o) ≡ (if same_name n j then v else field j o)
unfolding field
field-write_first n j none end d = unfold write_first in ground arith
field-write_first n j (some x) end d = unfold write_first in ground arith
field-write_first n j none (member k w m) d = elim (Bool-cases (same_name k n)) [
  | inl e ↦
      let gone : field k m ≡ none = field_of_missing k m d.0 in
      let same = same_name_trans k n j e in
      ap (field j) (write_first_of_same n k none w m e)
      ∙ (ground (arith, gone, same, field_of_same_name k j m))
  | inr e ↦
      ap (field j) (write_first_of_other n k none w m e)
      ∙ (ground (arith, field-write_first n j none m d.1, same_name_apart k n j e))
]
field-write_first n j (some x) (member k w m) d = elim (Bool-cases (same_name k n)) [
  | inl e ↦
      let same = same_name_trans k n j e in
      ap (field j) (write_first_of_same n k (some x) w m e) ∙ (ground (arith, same))
  | inr e ↦
      ap (field j) (write_first_of_other n k (some x) w m e)
      ∙ (ground (arith, field-write_first n j (some x) m d.1, same_name_apart k n j e))
]

or_false : (a b : Bool) → (a || b) ≡ false → (a ≡ false) × (b ≡ false)
or_false a b h = ground arith

includes-write_first :
    (x n : Text) (v : Option Json) (o : Members)
    → includes x (lower_names o) ≡ false
    → text_eq (map lower n) x ≡ false
    → includes x (lower_names (write_first n v o)) ≡ false
unfolding write_first includes
includes-write_first x n none end h e = h
includes-write_first x n (some y) end h e = ground arith
includes-write_first x n none (member k w m) h e =
    let (first, later) = or_false (text_eq (map lower k) x) (includes x (lower_names m)) h in
    let rest = includes-write_first x n none m later e in
    elim (Bool-cases (same_name k n)) [ inl s ↦ rw s later | inr s ↦ rw (s, first) rest ]
includes-write_first x n (some y) (member k w m) h e =
    let (first, later) = or_false (text_eq (map lower k) x) (includes x (lower_names m)) h in
    let rest = includes-write_first x n (some y) m later e in
    elim (Bool-cases (same_name k n)) [ inl s ↦ rw (s, first) later | inr s ↦ rw (s, first) rest ]

apart : (n k : Text) → same_name k n ≡ false → text_eq (map lower n) (map lower k) ≡ false
unfolding same_name
apart n k h =
    let a = map lower n in let b = map lower k in ground (arith, text_eq_iff a b, text_eq_iff b a)

Distinct-write_first :
    (n : Text) (v : Option Json) (o : Members)
    → Distinct (lower_names o)
    → Distinct (lower_names (write_first n v o))
Distinct-write_first n none end d = unfold write_first in d
Distinct-write_first n (some y) end d = unfold write_first includes in (refl, tt)
Distinct-write_first n none (member k w m) d = elim (Bool-cases (same_name k n)) [
  | inl e ↦ subst (λ o. Distinct (lower_names o)) (sym (write_first_of_same n k none w m e)) d.1
  | inr e ↦
      subst (λ o. Distinct (lower_names o)) (sym (write_first_of_other n k none w m e))
        (
          includes-write_first (map lower k) n none m d.0 (apart n k e),
          Distinct-write_first n none m d.1,
        )
]
Distinct-write_first n (some y) (member k w m) d = elim (Bool-cases (same_name k n)) [
  | inl e ↦ subst (λ o. Distinct (lower_names o)) (sym (write_first_of_same n k (some y) w m e)) d
  | inr e ↦
      subst (λ o. Distinct (lower_names o)) (sym (write_first_of_other n k (some y) w m e))
        (
          includes-write_first (map lower k) n (some y) m d.0 (apart n k e),
          Distinct-write_first n (some y) m d.1,
        )
]

set_field-write_first :
    (o : Members) (n : Text) (v : Option Json) → set_field o n v ≡ write_first n (stored v) o
unfolding set_field
set_field-write_first o n v = write_member-write_first n (stored v) o

-- `setField` writes one field, whatever the spelling of its name, and no other.
pub get_field-set_field :
    (o : Members) (n j : Text) (v : Option Json)
    → Distinct (lower_names o)
    → get_field (set_field o n v) j ≡ (if same_name n j then stored v else get_field o j)
get_field-set_field o n j v d =
    get_field-field (set_field o n v) j
    ∙ (ap (field j) (set_field-write_first o n v)
        ∙ (field-write_first n j (stored v) o d
            ∙ ap (λ r. if same_name n j then stored v else r) (sym (get_field-field o j))))

pub Distinct-set_field :
    (o : Members) (n : Text) (v : Option Json)
    → Distinct (lower_names o)
    → Distinct (lower_names (set_field o n v))
Distinct-set_field o n v d =
    subst (λ r. Distinct (lower_names r)) (sym (set_field-write_first o n v))
      (Distinct-write_first n (stored v) o d)
