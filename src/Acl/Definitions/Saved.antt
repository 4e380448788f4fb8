-- ===== src/Acl/Definitions/Saved.antt =====
-- What the editors of frontend/src/pages/acls/DefinitionsTabs.tsx leave in the section they edit.
use head_control.Acl.Definitions.Renamed.{get-rename_if, rename_if}
use mathlib.Core.Path.{subst}
use head_control.Acl.Selector.Clean.{has_space-NoSpace}
use head_control.Text.Sort.{includes-sort}
use head_control.Text.Trim.{NoSpace}
use head_control.Acl.Definitions.Tabs.{pressed}
use head_control.Common.{
  and-eq-true, any, ◌&&◌, ◌≢◌, true, ◌⊎◌, ap, Option, Bool, List, ◌++◌, inl, inr, Bool-cases, false,
  not, [], ◌∷◌, ◌≡◌, inl, inr, refl, arith, if◌then◌else◌, none, some, Bool-cases, List,
}
use head_control.Text.{trim, starts_with, Text, text_eq}
use head_control.Text.Equal.{ne_of_text_eq, text_eq_iff}
use head_control.Dict.{Dict, keys, get, own, set}
use head_control.Dict.Laws.{get-set}
use head_control.Acl.Ports.Spec.{Distinct}
use head_control.Acl.Definitions.{
  is_error, ListEntry, Issue, normalize_name, save_list_entry, has_space, sort, is_none, is_initial,
  name_error,
}

-- After an editor that started from an entry, or from none, has saved a name with a value: the name
-- has the value, the entry it started from is gone if its name is another, every other entry is as
-- before, and the name was either not there or that of the entry it started from.
abbrev pub Saves {ℓ} : {V : Type ℓ} → Option Text → Text → V → Dict V → Dict V → Type ℓ
Saves initial name v before after =
    ((k : Text)
      → get k after
        ≡ (if text_eq name k then some v else if is_initial initial k then none else get k before))
    × ((own name before ≡ false) ⊎ (initial ≡ some name))

module _ {ℓ} {V : Type ℓ} where
  pub get-saved :
      (i name k : Text) (v : V) (m : Dict V)
      → Distinct (keys m)
      → get k (set name v (if not (text_eq name i) then rename_if i name m else m))
        ≡ (if text_eq name k then some v else if text_eq i k then none else get k m)
  get-saved i name k v m d = elim (Bool-cases (text_eq name i)) [
    | inl e ↦ ground (arith, get-set name k v m, text_eq_iff name i)
    | inr e ↦
        let moved = get-rename_if i name k m d in
        rw e (ground (arith, get-set name k v (rename_if i name m), moved))
  ]

pub initial_sound :
    (initial : Option Text) (n : Text) → is_initial initial n ≡ true → initial ≡ some n
initial_sound none n h = absurd (ground arith)
initial_sound (some i) n h = ap some ((text_eq_iff i n).0 h)

-- A name without an error is new, or that of the entry that is edited; it is one word, and more
-- than the prefix.
name_error_lem {ℓ} :
    {V : Type ℓ} (prefix : Text) (initial : Option Text) (m : Dict V) (n : Text)
    → is_none (name_error prefix initial (sort (keys m)) n) ≡ true
    → ((own n m ≡ false) ⊎ (initial ≡ some n)) × NoSpace n × (n ≢ prefix)
name_error_lem prefix initial m n h =
    let word : (has_space n ≡ false) × (text_eq n prefix ≡ false) =
      unfold name_error in ground arith in
    let fresh : (is_initial initial n ≡ true) ⊎ (own n m ≡ false) =
      unfold name_error own in ground (arith, includes-sort n (keys m)) in
    let place : (own n m ≡ false) ⊎ (initial ≡ some n) = elim fresh [
      | inl e ↦ inr (initial_sound initial n e)
      | inr e ↦ inl e
    ] in
    (place, has_space-NoSpace n word.0, ne_of_text_eq n prefix word.1)

starts_with-append : (p s : Text) → starts_with (p ++ s) p ≡ true
unfolding starts_with
starts_with-append [] [] = refl
starts_with-append [] (c ∷ s) = refl
starts_with-append (a ∷ p) s = ground (arith, starts_with-append p s)

starts_with_self : (p : Text) → starts_with p p ≡ true
unfolding starts_with
starts_with_self [] = refl
starts_with_self (a ∷ p) = ground (arith, starts_with_self p)

starts_with-normalize_name :
    (lower_case : Text → Text) (raw prefix : Text)
    → starts_with (normalize_name lower_case raw prefix) prefix ≡ true
unfolding normalize_name
starts_with-normalize_name lower_case raw prefix =
    ground (arith, starts_with-append prefix (lower_case (trim raw)), starts_with_self prefix)

pub some_if {ℓ} :
    {A : Type ℓ} (c : Bool) (a e : A) → (if c then some a else none) ≡ some e → (c ≡ true) × (a ≡ e)
some_if true a e h = (refl, ground arith)
some_if false a e h = absurd (ground arith)

save_list_entry_lem :
    (lower_case : Text → Text) (prefix : Text) (initial : Option Text) (existing : List Text)
    (v : Text → Option Issue) (name : Text) (members : List Text) (e : ListEntry)
    → save_list_entry lower_case prefix initial existing v name members ≡ some e
    → (is_none (name_error prefix initial existing e.name) ≡ true)
      × (normalize_name lower_case name prefix ≡ e.name)
save_list_entry_lem lower_case prefix initial existing v name members e h =
    let n = normalize_name lower_case name prefix in
    let (pressed, same) =
      some_if
        (is_none (name_error prefix initial existing n) && not (any (λ m. is_error (v m)) members))
        (record { name = n; members = members }) e (unfold save_list_entry in h) in
    let named : n ≡ e.name = ap (λ x. x.name) same in
    (
      subst (λ t. is_none (name_error prefix initial existing t) ≡ true) named
          ((and-eq-true (is_none (name_error prefix initial existing n))
              (not (any (λ m. is_error (v m)) members))).0
            pressed).0,
      named,
    )

-- What is saved: a name with the prefix and more, in one word, and the entry in its section.
abbrev pub Saved : Text → Option Text → ListEntry → Dict (List Text) → Dict (List Text) → Type 0
Saved prefix initial e before after =
    (starts_with e.name prefix ≡ true)
    × (e.name ≢ prefix)
    × NoSpace e.name
    × Saves initial e.name e.members before after

pub save_list_entry-Saved :
    (lower_case : Text → Text) (prefix : Text) (initial : Option Text) (v : Text → Option Issue)
    (name : Text) (members : List Text) (e : ListEntry) (before after : Dict (List Text))
    → save_list_entry lower_case prefix initial (sort (keys before)) v name members ≡ some e
    → ((k : Text)
        → get k after ≡ (
            if text_eq e.name k
            then some e.members
            else if is_initial initial k
            then none
            else get k before))
    → Saved prefix initial e before after
save_list_entry-Saved lower_case prefix initial v name members e before after h found =
    let (fine, named) =
      save_list_entry_lem lower_case prefix initial (sort (keys before)) v name members e h in
    let (place, word, more) = name_error_lem prefix initial before e.name fine in
    (
      subst (λ t. starts_with t prefix ≡ true) named
          (starts_with-normalize_name lower_case name prefix),
      more,
      word,
      (found, place),
    )
