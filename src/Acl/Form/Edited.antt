-- ===== src/Acl/Form/Edited.antt =====
-- A form that is filled in and written to a rule.
use mathlib.Core.Path.{subst}
use mathlib.Core.List.{map-append}
use head_control.Common.{
  map-ext, ap₂, Bool-cases, inl, inr, true, some, if◌then◌else◌, false, List, [], ◌∷◌, ◌++◌, map,
  ◌≡◌, ◌≢◌, refl, sym, ap, ◌∙◌, arith, All, none, append_assoc, append-nil,
}
use head_control.Text.{Text, codes, text_eq, includes, trim}
use head_control.Text.Equal.{text_eq_iff, text_eq_refl}
use head_control.Dict.{Dict, keys, has, own, set, inherited}
use head_control.Acl.Form.Untouched.{collect_dst_step, rule_to_form-some}
use head_control.Acl.Ports.{ok, parse_ports, join_dst, dedup}
use head_control.Acl.Ports.Spec.{IsSpec, Distinct}
use head_control.Acl.Ports.Canonical.{parse_ports-IsSpec}
use head_control.Acl.Ports.Printed.{Distinct-middle}
use head_control.Acl.Ports.Dst.{split_dst-join_dst}
use head_control.Acl.Form.{
  RuleForm, collect_dst, next_ports, put_ports, form_of, values, shared_ports, rule_to_form,
  form_to_rule, form_dst, normal_ports, new_dst,
}

-- Each selector with the same ports.
abbrev with_ports : Text → List Text → List Text
with_ports v = map (λ sel. join_dst sel v)

new_dst-shared :
    (f : RuleForm) (v : Text)
    → trim f.ports ≢ []
    → parse_ports (trim f.ports) ≡ ok v
    → new_dst f ≡ with_ports v f.dst
unfolding new_dst normal_ports
new_dst-shared f v h p =
    map-ext _ (λ sel. join_dst sel v) f.dst λ sel. ground (arith, text_eq_iff (trim f.ports) [])

set_new : (k v : Text) (m : Dict Text) → includes k (keys m) ≡ false → set k v m ≡ m ++ (k, v) ∷ []
unfolding set includes
set_new k v [] h = refl
set_new k v ((j, w) ∷ m) h = ground (arith, set_new k v m)

-- A selector that no object inherits and that was not met gets its ports as they are.
next_ports_new :
    (k v : Text) (m : Dict Text)
    → inherited k ≡ false
    → includes k (keys m) ≡ false
    → next_ports k v m ≡ some v
unfolding next_ports has own
next_ports_new k v m i h = rw (h, i) refl

inherited_proto : inherited (codes "__proto__") ≡ true
unfolding inherited text_eq includes
inherited_proto = refl

put_ports_new :
    (k v : Text) (m : Dict Text)
    → inherited k ≡ false
    → includes k (keys m) ≡ false
    → put_ports k v m ≡ m ++ (k, v) ∷ []
put_ports_new k v m i h = elim (Bool-cases (text_eq k (codes "__proto__"))) [
  | inl e ↦
      absurd (cc (i, ap inherited ((text_eq_iff k (codes "__proto__")).0 e) ∙ inherited_proto))
  | inr e ↦ rw e (set_new k v m h)
]

-- No selector is met before.
AreNew : List Text → List Text → Type 0
AreNew [] out = Unit
AreNew (s ∷ sels) out = (includes s out ≡ false) × AreNew sels (out ++ s ∷ [])

collect_dst-with_ports :
    (v : Text) (sels : List Text) (out : List Text) (m : Dict Text)
    → IsSpec v
    → All (λ s. s ≢ []) sels
    → All (λ s. inherited s ≡ false) sels
    → AreNew sels out
    → keys m ≡ out
    → collect_dst (with_ports v sels) out m ≡ some (out ++ sels, m ++ map (λ s. (s, v)) sels)
unfolding collect_dst AreNew
collect_dst-with_ports v [] out m spec h o new e = ground (arith, append-nil out, append-nil m)
collect_dst-with_ports v (s ∷ sels) out m spec h o new e =
    let fresh : includes s (keys m) ≡ false = ap (includes s) e ∙ new.0 in
    let rest =
      collect_dst-with_ports v sels (out ++ s ∷ []) (m ++ (s, v) ∷ []) spec h.1 o.1 new.1
        (map-append (λ e. e.0) m ((s, v) ∷ []) ∙ ap (λ t. t ++ s ∷ []) e) in
    let shifted = rest ∙ (λ i. some (
      append_assoc out (s ∷ []) sels i,
      append_assoc m ((s, v) ∷ []) (map (λ s. (s, v)) sels) i,
    )) in
    let d = split_dst-join_dst s v h.0 spec in
    collect_dst_step (join_dst s v) v (with_ports v sels) out m
      (ap (λ d. next_ports d.selector d.ports m) d ∙ next_ports_new s v m o.0 fresh)
    ∙ ap
        (λ d.
          collect_dst (with_ports v sels)
            (if includes d.selector out then out else out ++ d.selector ∷ [])
            (put_ports d.selector v m))
        d
    ∙ ap₂ (λ t u. collect_dst (with_ports v sels) t u) (rw (new.0) refl)
        (put_ports_new s v m o.0 fresh)
    ∙ shifted

AreNew-of_Distinct : (sels out : List Text) → Distinct (out ++ sels) → AreNew sels out
unfolding AreNew
AreNew-of_Distinct [] out d = tt
AreNew-of_Distinct (s ∷ sels) out d = (
  Distinct-middle out s sels d,
  AreNew-of_Distinct sels (out ++ s ∷ []) (subst Distinct (sym (append_assoc out (s ∷ []) sels)) d),
)

-- One value, however often, is one value in a set.
dedup-same :
    (v : Text) (sels : List Text) → dedup (values (map (λ s. (s, v)) sels)) (v ∷ []) ≡ v ∷ []
unfolding dedup includes
dedup-same v [] = refl
dedup-same v (s ∷ sels) = ground (arith, dedup-same v sels, text_eq_refl v)

shared_ports-same :
    (v : Text) (sels : List Text) → sels ≢ [] → shared_ports (map (λ s. (s, v)) sels) ≡ v
unfolding shared_ports dedup includes
shared_ports-same v [] h = absurd (h refl)
shared_ports-same v (s ∷ sels) h = ground (arith, dedup-same v sels)

-- A new form with distinct selectors, none of which every object inherits, and valid shared ports
-- makes a rule that the form reads back with the same selectors, and with the ports in normal form.
pub rule_to_form-form_to_rule :
    (f : RuleForm) (v : Text)
    → f.original ≡ none
    → f.dst ≢ []
    → All (λ s. s ≢ []) f.dst
    → All (λ s. inherited s ≡ false) f.dst
    → Distinct f.dst
    → trim f.ports ≢ []
    → parse_ports (trim f.ports) ≡ ok v
    → (g : RuleForm) × (rule_to_form (form_to_rule f) ≡ some g) × (g.dst ≡ f.dst) × (g.ports ≡ v)
unfolding form_to_rule form_dst
rule_to_form-form_to_rule f v o some_dst h own d some_ports p =
    let written : form_dst f f.original ≡ with_ports v f.dst =
      ap (form_dst f) o ∙ new_dst-shared f v some_ports p in
    let made = map (λ s. (s, v)) f.dst in
    let read : collect_dst (form_dst f f.original) [] [] ≡ some (f.dst, made) =
      ap (λ t. collect_dst t [] []) written
      ∙ collect_dst-with_ports v f.dst [] [] (parse_ports-IsSpec (trim f.ports) v p) h own
          (AreNew-of_Distinct f.dst [] d) refl in
    (
      form_of (form_to_rule f) f.dst made,
      rule_to_form-some (form_to_rule f) f.dst made read,
      refl,
      shared_ports-same v f.dst some_dst,
    )
