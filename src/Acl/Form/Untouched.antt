-- ===== src/Acl/Form/Untouched.antt =====
-- A rule that is loaded into the form and written back untouched.
use head_control.Common.{
  ap, ◌∙◌, true, [], ◌∷◌, ◌≡◌, refl, arith, Option, none, some, false, List, All, inl, inr,
  if◌then◌else◌, ◌++◌, Bool-cases, Option-cases,
}
use head_control.Text.{Text, trim, includes}
use head_control.Text.Equal.{text_eq_refl}
use head_control.Dict.{Dict, get, has, inherited}
use head_control.Dict.Laws.{own-get}
use head_control.Acl.Ports.{split_dst, merge_ports}
use head_control.Acl.Selector.{truthy}
use head_control.Acl.Draft.{RuleBody}
use head_control.Acl.Diff.{or_blank}
use head_control.Acl.Diff.SameKeys.{same_list_refl}
use head_control.Acl.Form.{
  Snapshot, RuleForm, same_dict, same_snapshot, collect_dst, next_ports, put_ports, form_of,
  rule_to_form, form_to_rule, snapshot_of,
}

same_dict_refl : (m : Dict Text) → same_dict m m ≡ true
unfolding same_dict
same_dict_refl [] = refl
same_dict_refl ((k, v) ∷ m) = ground (arith, text_eq_refl k, text_eq_refl v, same_dict_refl m)

same_snapshot_refl : (s : Snapshot) → same_snapshot s s ≡ true
unfolding same_snapshot
same_snapshot_refl s =
    ground (arith, same_list_refl s.dst, text_eq_refl s.ports, same_dict_refl s.dst_ports)

truthy-or_blank : (o : Option Text) → truthy (some (or_blank o)) ≡ truthy o
truthy-or_blank none = refl
truthy-or_blank (some []) = refl
truthy-or_blank (some (c ∷ s)) = refl

-- An own member that is read is one of the object.
has-get-none : (k : Text) (m : Dict Text) → inherited k ≡ false → get k m ≡ none → has k m ≡ false
unfolding has
has-get-none k m i h = ground (arith, own-get k m)

-- The selector of no destination is the name of an inherited member.
abbrev pub NoInherited : List Text → Type 0
NoInherited ds = All (λ d. inherited (split_dst d).selector ≡ false) ds

next_ports-some :
    (k ports : Text) (m : Dict Text)
    → inherited k ≡ false
    → (merged : Text) × (next_ports k ports m ≡ some merged)
unfolding next_ports
next_ports-some k ports m i = elim (Option-cases (get k m)) [
  | inl e ↦ (ports, rw (has-get-none k m i e) refl)
  | inr (old, e) ↦ elim (Bool-cases (has k m)) [
    | inl h ↦ (merge_ports old ports, rw (h, e) refl)
    | inr h ↦ (ports, rw h refl)
  ]
]

pub collect_dst_step :
    (d merged : Text) (ds out : List Text) (m : Dict Text)
    → next_ports (split_dst d).selector (split_dst d).ports m ≡ some merged
    → collect_dst (d ∷ ds) out m
      ≡ collect_dst ds
          (if includes (split_dst d).selector out then out else out ++ (split_dst d).selector ∷ [])
          (put_ports (split_dst d).selector merged m)
unfolding collect_dst
collect_dst_step d merged ds out m e =
    ap
      (λ (o : Option Text). elim o [
        | none ↦ none
        | some merged ↦
            collect_dst ds
              (if includes (split_dst d).selector out
                then out
                else out ++ (split_dst d).selector ∷ [])
              (put_ports (split_dst d).selector merged m)
      ])
      e

-- The loop throws at no destination whose selector is not inherited.
collect_dst-some :
    (ds out : List Text) (m : Dict Text)
    → NoInherited ds
    → (fields : List Text × Dict Text) × (collect_dst ds out m ≡ some fields)
unfolding collect_dst
collect_dst-some [] out m h = ((out, m), refl)
collect_dst-some (d ∷ ds) out m h =
    let s = split_dst d in
    let (merged, e) = next_ports-some s.selector s.ports m h.0 in
    let (fields, rest) =
      collect_dst-some ds (if includes s.selector out then out else out ++ s.selector ∷ [])
        (put_ports s.selector merged m) h.1 in
    (fields, collect_dst_step d merged ds out m e ∙ rest)

form_to_rule-form_of :
    (r : RuleBody) (dst : List Text) (dst_ports : Dict Text)
    → form_to_rule (form_of r dst dst_ports)
      ≡ record r { proto = truthy r.proto; name = trim r.name; description = trim r.description }
unfolding form_to_rule snapshot_of
form_to_rule-form_of r dst dst_ports =
    ground
      (arith, truthy-or_blank r.proto, same_snapshot_refl (snapshot_of (form_of r dst dst_ports)))

-- A form is made where the loop has not thrown.
pub rule_to_form-some :
    (r : RuleBody) (dst : List Text) (dst_ports : Dict Text)
    → collect_dst r.dst [] [] ≡ some (dst, dst_ports)
    → rule_to_form r ≡ some (form_of r dst dst_ports)
unfolding rule_to_form
rule_to_form-some r dst dst_ports e =
    ap
      (λ (o : Option (List Text × Dict Text)). elim o [
        | none ↦ none
        | some (dst, dst_ports) ↦ some (form_of r dst dst_ports)
      ])
      e

-- A rule none of whose destinations has the name of an inherited member for its selector is loaded
-- into the form, and the untouched form writes its destinations back as they were, whatever their
-- ports are; only white space around the name and the description is lost, and an empty protocol is
-- left out.
pub form_to_rule-rule_to_form :
    (r : RuleBody)
    → NoInherited r.dst
    → (f : RuleForm) × (rule_to_form r ≡ some f)
      × (form_to_rule f ≡ record r {
        proto = truthy r.proto;
        name = trim r.name;
        description = trim r.description;
      })
form_to_rule-rule_to_form r h =
    let ((dst, dst_ports), e) = collect_dst-some r.dst [] [] h in
    (
      form_of r dst dst_ports,
      rule_to_form-some r dst dst_ports e,
      form_to_rule-form_of r dst dst_ports,
    )
