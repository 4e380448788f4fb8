-- ===== src/Acl/Reducer/Keys/Keyed.antt =====
-- Every action keeps the keys of the draft's rules distinct.
use head_control.Common.{
  Option, ◌||◌, Bool-cases, inr, inl, Option-cases, ℕ, suc, ◌≤◌, false, not, List, [], ◌∷◌, ◌++◌,
  map, keep, ◌≡◌, refl, sym, ap, arith, none, some,
}
use head_control.Text.{Text, text_eq, includes}
use head_control.Text.Equal.{text_eq_iff, includes-append}
use head_control.Acl.Ports.Spec.{Distinct, Distinct-concat}
use head_control.Acl.Draft.{
  ExtraList, draft_from_model, RuleBody, DraftRule, Draft, PolicyModel, PolicyModelRule,
  rule_from_model,
}
use head_control.Acl.Reducer.{
  set_randomize, set_exit_node, delete_route, set_route, delete_extra, truthy, set_extra, has_key,
  Json, put_extra, rename_section_key, delete_key, set_host, set_entry, toggle_rule, delete_rule,
  update_rule, add_rule, duplicate_rule, draft_reducer, Dict, insert_copy, copy_rule,
  rename_references, rename_owners, rename_section, KeySection, ListSection, DraftAction,
  put_list_section, reset, lists, groups, tag_owners, hosts,
}
use head_control.Acl.Reducer.Keys.{
  rule_keys-change_rule, subst, map-append, rule_keys, IsKeyed, rule_keys-rename_in_rule,
  includes-keep, Distinct-keep, includes-insert_copy, Distinct-insert_copy,
}

abbrev pub ids : List PolicyModelRule → List Text
ids = map (λ r. r.id)

rule_keys-rule_from_model :
    (rs : List PolicyModelRule) → rule_keys (map rule_from_model rs) ≡ ids rs
unfolding rule_from_model
rule_keys-rule_from_model [] = refl
rule_keys-rule_from_model (r ∷ rs) = ap (◌∷◌ r.id) (rule_keys-rule_from_model rs)

module _ (key_at : ℕ → Text) where
  -- The supply makes none of the rules' ids, which are distinct.
  pub record IsIdentified (m : PolicyModel) : Type 0 where
    pub distinct : Distinct (ids m.rules)
    pub apart : (i : ℕ) → includes (key_at i) (ids m.rules) ≡ false

  -- A model that is loaded has such ids; nothing is asked of the other actions.
  abbrev pub Fits : DraftAction → Type 0
  Fits (reset m) = IsIdentified m
  Fits _ = Unit

  module _ {d : Draft} {n : ℕ} (k : IsKeyed key_at d n) where
    same_keys : (d' : Draft) → rule_keys d'.rules ≡ rule_keys d.rules → IsKeyed key_at d' n
    same_keys d' e = record {
      distinct = subst Distinct (sym e) k.distinct;
      fresh = λ i h. subst (λ t. includes (key_at i) t ≡ false) (sym e) (k.fresh i h);
    }

    put_list_section-keys :
        (s : ListSection) (m : Dict (List Text)) → IsKeyed key_at (put_list_section s m d) n
    put_list_section-keys groups m = same_keys (put_list_section groups m d) refl
    put_list_section-keys tag_owners m = same_keys (put_list_section tag_owners m d) refl

    rename_section-keys :
        (s : KeySection) (from to : Text) → IsKeyed key_at (rename_section s from to d) n
    unfolding rename_section rename_references rename_owners
    rename_section-keys (lists groups) from to =
        same_keys (rename_section (lists groups) from to d)
          (rule_keys-rename_in_rule from to d.rules)
    rename_section-keys (lists tag_owners) from to =
        same_keys (rename_section (lists tag_owners) from to d)
          (rule_keys-rename_in_rule from to d.rules)
    rename_section-keys hosts from to =
        same_keys (rename_section hosts from to d) (rule_keys-rename_in_rule from to d.rules)

    deleted_keys :
        (key : Text)
        → IsKeyed key_at (record d { rules = keep (λ r. not (text_eq r.key key)) d.rules }) n
    deleted_keys key = record {
      distinct = Distinct-keep key d.rules k.distinct;
      fresh = λ i h. ground (arith, includes-keep (key_at i) key d.rules, k.fresh i h);
    }

    module _ (injective : (i j : ℕ) → key_at i ≡ key_at j → i ≡ j) where
      later_key : (i : ℕ) → suc n ≤ i → text_eq (key_at n) (key_at i) ≡ false
      later_key i h = ground (arith, text_eq_iff (key_at n) (key_at i), injective n i)

      added_keys :
          (body : RuleBody)
          → IsKeyed key_at
              (record d {
                rules = d.rules ++ record { key = key_at n; server_id = none; body = body } ∷ [];
              })
              (suc n)
      unfolding includes
      added_keys body =
          let new : DraftRule = record { key = key_at n; server_id = none; body = body } in
          let e : rule_keys (d.rules ++ new ∷ []) ≡ rule_keys d.rules ++ key_at n ∷ [] =
            map-append (λ r. r.key) d.rules (new ∷ []) in
          record {
            distinct = subst Distinct (sym e) (
                Distinct-concat (rule_keys d.rules) (key_at n) k.distinct
                  (k.fresh n (omega arith)));
            fresh = λ i h. ground (
              arith,
              ap (includes (key_at i)) e,
              includes-append (key_at i) (rule_keys d.rules) (key_at n ∷ []),
              later_key i h,
              k.fresh i (omega arith),
            );
          }

      copied_rule_keys :
          (key : Text) (qs : List DraftRule)
          → insert_copy key (copy_rule (key_at n)) d.rules ≡ some qs
          → IsKeyed key_at (record d { rules = qs }) (suc n)
      copied_rule_keys key qs e = record {
        distinct =
            Distinct-insert_copy key (key_at n) d.rules qs e k.distinct (k.fresh n (omega arith));
        fresh = λ i h. ground (
          arith,
          includes-insert_copy (key_at i) key (key_at n) d.rules qs e,
          later_key i h,
          k.fresh i (omega arith),
        );
      }

reset-IsKeyed :
    (key_at : ℕ → Text) (n k : ℕ) (m : PolicyModel)
    → IsIdentified key_at m
    → IsKeyed key_at (draft_from_model key_at n m).0 k
unfolding draft_from_model
reset-IsKeyed key_at n k m h =
    let e = rule_keys-rule_from_model m.rules in
    record {
      distinct = subst Distinct (sym e) h.distinct;
      fresh = λ i _. subst (λ t. includes (key_at i) t ≡ false) (sym e) (h.apart i);
    }

module _ (key_at : ℕ → Text) (injective : (i j : ℕ) → key_at i ≡ key_at j → i ≡ j) where
  duplicate-IsKeyed :
      (d : Draft) (n : ℕ) (key : Text)
      → IsKeyed key_at d n
      → IsKeyed key_at
          (draft_reducer key_at d n (duplicate_rule key)).0
          (draft_reducer key_at d n (duplicate_rule key)).1
  unfolding draft_reducer
  duplicate-IsKeyed d n key k =
      elim (Option-cases (insert_copy key (copy_rule (key_at n)) d.rules)) [
        | inl e ↦ rw e k
        | inr (qs, e) ↦ rw e (copied_rule_keys key_at k injective key qs e)
      ]

  set_extra-IsKeyed :
      (d : Draft) (n : ℕ) (list : ExtraList) (key : Option Text) (value : Json)
      → IsKeyed key_at d n
      → IsKeyed key_at
          (put_extra key_at d n list key value).0
          (put_extra key_at d n list key value).1
  unfolding put_extra
  set_extra-IsKeyed d n list none value k = record {
    distinct = k.distinct;
    fresh = λ i h. k.fresh i (omega arith);
  }
  set_extra-IsKeyed d n list (some key) value k = same_keys key_at k _ refl

  -- Where the supply of keys never repeats itself, and a loaded model has distinct ids that the
  -- supply does not make, every action leaves the rules with distinct keys that the supply will
  -- not make again.
  pub draft_reducer-IsKeyed :
      (d : Draft) (n : ℕ) (a : DraftAction)
      → Fits key_at a
      → IsKeyed key_at d n
      → IsKeyed key_at (draft_reducer key_at d n a).0 (draft_reducer key_at d n a).1
  unfolding draft_reducer
  draft_reducer-IsKeyed d n (reset m) f k = reset-IsKeyed key_at n _ m f
  draft_reducer-IsKeyed d n (add_rule body) f k = added_keys key_at k injective body
  draft_reducer-IsKeyed d n (update_rule key patch) f k =
      same_keys key_at k _ (rule_keys-change_rule key _ d.rules)
  draft_reducer-IsKeyed d n (duplicate_rule key) f k = duplicate-IsKeyed d n key k
  draft_reducer-IsKeyed d n (delete_rule key) f k = deleted_keys key_at k key
  draft_reducer-IsKeyed d n (toggle_rule key) f k =
      same_keys key_at k _ (rule_keys-change_rule key _ d.rules)
  draft_reducer-IsKeyed d n (set_entry section name members) f k =
      put_list_section-keys key_at k section _
  draft_reducer-IsKeyed d n (set_host name cidr) f k = same_keys key_at k _ refl
  draft_reducer-IsKeyed d n (delete_key (lists section) name) f k =
      put_list_section-keys key_at k section _
  draft_reducer-IsKeyed d n (delete_key hosts name) f k = same_keys key_at k _ refl
  draft_reducer-IsKeyed d n (rename_section_key section from to) f k =
      elim (Bool-cases (text_eq from to || not (has_key section from d))) [
        | inl e ↦ rw e k
        | inr e ↦ rw e (rename_section-keys key_at k section from to)
      ]
  draft_reducer-IsKeyed d n (set_extra list key value) f k =
      set_extra-IsKeyed d n list (truthy key) value k
  draft_reducer-IsKeyed d n (delete_extra list key) f k = same_keys key_at k _ refl
  draft_reducer-IsKeyed d n (set_route prefix owners from) f k = same_keys key_at k _ refl
  draft_reducer-IsKeyed d n (delete_route prefix) f k = same_keys key_at k _ refl
  draft_reducer-IsKeyed d n (set_exit_node owners) f k = same_keys key_at k _ refl
  draft_reducer-IsKeyed d n (set_randomize value) f k = same_keys key_at k _ refl
