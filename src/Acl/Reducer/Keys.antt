-- ===== src/Acl/Reducer/Keys.antt =====
-- The keys of the draft's rules: what each action does to them, and that they stay distinct.
use mathlib.Core.List.{map-append}
use mathlib.Core.Path.{subst}
pub mod Keyed
use head_control.Common.{
  Option-cases, append_assoc, inr, inl, ◌∙◌, ℕ, ◌≤◌, false, not, ◌||◌, ◌&&◌, List, [], ◌∷◌, ◌++◌,
  map, keep, ◌≡◌, refl, sym, ap, arith, some, Bool-cases,
}
use head_control.Text.{Text, text_eq, includes}
use head_control.Text.Equal.{text_eq_iff, includes-append}
use head_control.Acl.Ports.Spec.{Distinct}
use head_control.Acl.Draft.{RuleBody, DraftRule, Draft}
use head_control.Acl.Reducer.{change_rule, insert_copy, copy_rule, rename_in_rule}

abbrev pub rule_keys : List DraftRule → List Text
rule_keys = map (λ r. r.key)

-- The draft's rules have distinct keys, none of which the supply makes from `n` on.
pub record IsKeyed (key_at : ℕ → Text) (d : Draft) (n : ℕ) : Type 0 where
  pub distinct : Distinct (rule_keys d.rules)
  pub fresh : (i : ℕ) → n ≤ i → includes (key_at i) (rule_keys d.rules) ≡ false

pub rule_keys-change_rule :
    (key : Text) (f : RuleBody → RuleBody) (rs : List DraftRule)
    → rule_keys (change_rule key f rs) ≡ rule_keys rs
unfolding change_rule
rule_keys-change_rule key f [] = refl
rule_keys-change_rule key f (r ∷ rs) = ground (arith, rule_keys-change_rule key f rs)

pub rule_keys-rename_in_rule :
    (from to : Text) (rs : List DraftRule)
    → rule_keys (map (rename_in_rule from to) rs) ≡ rule_keys rs
unfolding rename_in_rule
rule_keys-rename_in_rule from to [] = refl
rule_keys-rename_in_rule from to (r ∷ rs) = ap (◌∷◌ r.key) (rule_keys-rename_in_rule from to rs)

pub includes-keep :
    (s key : Text) (rs : List DraftRule)
    → includes s (rule_keys (keep (λ r. not (text_eq r.key key)) rs))
      ≡ (includes s (rule_keys rs) && not (text_eq s key))
unfolding keep includes
includes-keep s key [] = refl
includes-keep s key (r ∷ rs) =
    ground
      (arith, includes-keep s key rs, text_eq_iff r.key key, text_eq_iff r.key s, text_eq_iff s key)

pub Distinct-keep :
    (key : Text) (rs : List DraftRule)
    → Distinct (rule_keys rs)
    → Distinct (rule_keys (keep (λ r. not (text_eq r.key key)) rs))
unfolding keep
Distinct-keep key [] d = tt
Distinct-keep key (r ∷ rs) d = ground (arith, Distinct-keep key rs d.1, includes-keep r.key key rs)

-- A copy is put right behind the first rule with the key; all other rules stay in their places.
pub record IsCopied (key : Text) (copy : DraftRule → DraftRule) (rs qs : List DraftRule)
    : Type 0 where
  pub before : List DraftRule
  pub rule : DraftRule
  pub after : List DraftRule
  pub listed : rs ≡ before ++ rule ∷ after
  pub named : rule.key ≡ key
  pub first : includes key (rule_keys before) ≡ false
  pub copied : qs ≡ before ++ rule ∷ copy rule ∷ after

pub insert_copy-IsCopied :
    (key : Text) (copy : DraftRule → DraftRule) (rs qs : List DraftRule)
    → insert_copy key copy rs ≡ some qs
    → IsCopied key copy rs qs
unfolding insert_copy includes
insert_copy-IsCopied key copy [] qs h = cc
insert_copy-IsCopied key copy (r ∷ rs) qs h = elim (Bool-cases (text_eq r.key key)) [
  | inl e ↦ record {
    before = [];
    rule = r;
    after = rs;
    listed = refl;
    named = (text_eq_iff r.key key).0 e;
    first = refl;
    copied = ground arith;
  }
  | inr e ↦ elim (Option-cases (insert_copy key copy rs)) [
    | inl z ↦ ground arith
    | inr (more, z) ↦
        let c = insert_copy-IsCopied key copy rs more z in
        record {
          before = r ∷ c.before;
          rule = c.rule;
          after = c.after;
          listed = ap (◌∷◌ r) c.listed;
          named = c.named;
          first = ground (arith, e, c.first);
          copied = ground (arith, c.copied);
        }
  ]
]

Distinct-insert :
    (xs : List Text) (x : Text) (ys : List Text)
    → Distinct (xs ++ ys)
    → includes x (xs ++ ys) ≡ false
    → Distinct (xs ++ x ∷ ys)
unfolding includes
Distinct-insert [] x ys d h = (h, d)
Distinct-insert (y ∷ xs) x ys d h = ground (
  arith,
  Distinct-insert xs x ys d.1,
  includes-append y xs ys,
  includes-append y xs (x ∷ ys),
  text_eq_iff x y,
  text_eq_iff y x,
)

includes-middle :
    (s : Text) (xs : List Text) (x : Text) (ys : List Text)
    → includes s (xs ++ x ∷ ys) ≡ (text_eq x s || includes s (xs ++ ys))
unfolding includes
includes-middle s xs x ys = ground (arith, includes-append s xs (x ∷ ys), includes-append s xs ys)

-- The keys with a copy, and without it.
copied_keys :
    (new key : Text) (rs qs : List DraftRule)
    → (c : IsCopied key (copy_rule new) rs qs)
    → (rule_keys qs ≡ rule_keys (c.before ++ c.rule ∷ []) ++ new ∷ rule_keys c.after)
      × (rule_keys rs ≡ rule_keys (c.before ++ c.rule ∷ []) ++ rule_keys c.after)
unfolding copy_rule
copied_keys new key rs qs c = (
  ap rule_keys c.copied ∙ simp (map-append, append_assoc),
  ap rule_keys c.listed ∙ simp (map-append, append_assoc),
)

pub includes-insert_copy :
    (s key new : Text) (rs qs : List DraftRule)
    → insert_copy key (copy_rule new) rs ≡ some qs
    → includes s (rule_keys qs) ≡ (text_eq new s || includes s (rule_keys rs))
includes-insert_copy s key new rs qs h =
    let c = insert_copy-IsCopied key (copy_rule new) rs qs h in
    let (after, before) = copied_keys new key rs qs c in
    rw (after, before)
      (includes-middle s (rule_keys (c.before ++ c.rule ∷ [])) new (rule_keys c.after))

pub Distinct-insert_copy :
    (key new : Text) (rs qs : List DraftRule)
    → insert_copy key (copy_rule new) rs ≡ some qs
    → Distinct (rule_keys rs)
    → includes new (rule_keys rs) ≡ false
    → Distinct (rule_keys qs)
Distinct-insert_copy key new rs qs h d i =
    let c = insert_copy-IsCopied key (copy_rule new) rs qs h in
    let (after, before) = copied_keys new key rs qs c in
    subst Distinct (sym after) (
      Distinct-insert (rule_keys (c.before ++ c.rule ∷ [])) new (rule_keys c.after)
        (subst Distinct before d) (subst (λ t. includes new t ≡ false) before i))
