-- ===== src/Acl/Definitions/Renamed.antt =====
-- A section of the draft after `renameKey` and `setEntry` or `setHost`, as the tabs of
-- frontend/src/pages/acls/DefinitionsTabs.tsx dispatch them.
use head_control.Acl.Definitions.Tabs.{dispatched}
use head_control.Common.{
  true, ap, ℕ, Bool, List, ◌++◌, inl, inr, Bool-cases, ℕ, false, not, ◌||◌, [], ◌∷◌, ◌≡◌, inl, inr,
  refl, arith, map, if◌then◌else◌, none, some, Bool-cases, List,
}
use head_control.Text.{Text, text_eq}
use head_control.Text.Equal.{text_eq_iff}
use head_control.Dict.{inherited, Dict, keys, get, own, set, has, fold_entries, from_entries}
use head_control.Dict.Laws.{get-set, own-get}
use head_control.Acl.Ports.Spec.{Distinct}
use head_control.Acl.Draft.{Draft}
use head_control.Acl.Reducer.{
  rename_key, ListSection, list_section, KeySection, lists, hosts, rename_section_key,
  draft_reducer, rename_section, groups, tag_owners, rename_references, rename_owners,
}
use head_control.Acl.Definitions.{set_entry, set_host, DraftAction}

module _ {ℓ} {V : Type ℓ} where
  -- The entry that is folded is moved where it has the old name.
  get-fold_entries :
      (from to k : Text) (es m : Dict V)
      → Distinct (keys es)
      → text_eq to k ≡ false
      → get k (fold_entries (map (λ e. (if text_eq e.0 from then to else e.0, e.1)) es) m)
        ≡ (if text_eq from k then get k m else elim (get k es) [ none ↦ get k m | some v ↦ some v ])
  unfolding fold_entries get own
  get-fold_entries from to k [] m d h = ground arith
  get-fold_entries from to k ((j, w) ∷ es) m d h =
      let j' = if text_eq j from then to else j in
      ground (
        arith,
        get-fold_entries from to k es (set j' w m) d.1 h,
        get-set j' k w m,
        own-get k es,
        text_eq_iff j k,
        text_eq_iff from k,
        text_eq_iff j from,
        text_eq_iff to k,
        d.0,
      )

  -- The dictionary after a renaming that does nothing where the old name is missing.
  abbrev pub rename_if : Text → Text → Dict V → Dict V
  rename_if from to m = if text_eq from to || not (has from m) then m else rename_key from to m

  pub get_of_missing : (k : Text) (m : Dict V) → has k m ≡ false → get k m ≡ none
  get_of_missing k m h =
      let split : has k m ≡ (own k m || inherited k) = unfold has in refl in
      ground (arith, split, own-get k m)

  pub get-rename_if :
      (from to k : Text) (m : Dict V)
      → Distinct (keys m)
      → text_eq to k ≡ false
      → get k (rename_if from to m) ≡ (if text_eq from k then none else get k m)
  get-rename_if from to k m d h =
      let empty : get {V = V} k [] ≡ none = unfold get in refl in
      let moved : get k (rename_key from to m) ≡ (if text_eq from k then none else get k m) =
        unfold rename_key from_entries in
        ground (arith, get-fold_entries from to k m [] d h, empty) in
      ground (arith, moved, get_of_missing from m, text_eq_iff from k, text_eq_iff from to)

-- A list of actions that renames a section's key, where it is asked to, and then sets an entry.
abbrev pub renaming : Bool → KeySection → Text → Text → DraftAction → List DraftAction
renaming b s from to a = (if b then rename_section_key s from to ∷ [] else []) ++ a ∷ []

module _ (key_at : ℕ → Text) where
  rename_section-list :
      (s : ListSection) (from to : Text) (d : Draft) (n : ℕ)
      → list_section s (draft_reducer key_at d n (rename_section_key (lists s) from to)).0
        ≡ rename_if from to (list_section s d)
  unfolding draft_reducer rename_section rename_references rename_owners
  rename_section-list groups from to d n =
      elim (Bool-cases (text_eq from to || not (has from d.groups))) [
        | inl e ↦ rw e refl
        | inr e ↦ rw e refl
      ]
  rename_section-list tag_owners from to d n =
      elim (Bool-cases (text_eq from to || not (has from d.tag_owners))) [
        | inl e ↦ rw e refl
        | inr e ↦ rw e refl
      ]

  rename_section-hosts :
      (from to : Text) (d : Draft) (n : ℕ)
      → (draft_reducer key_at d n (rename_section_key hosts from to)).0.hosts
        ≡ rename_if from to d.hosts
  unfolding draft_reducer rename_section rename_references
  rename_section-hosts from to d n = elim (Bool-cases (text_eq from to || not (has from d.hosts))) [
    | inl e ↦ rw e refl
    | inr e ↦ rw e refl
  ]

  pub dispatched-renaming :
      (s : ListSection) (b : Bool) (from to : Text) (v : List Text) (d : Draft) (n : ℕ)
      → list_section s (dispatched key_at d n (renaming b (lists s) from to (set_entry s to v))).0
        ≡ set to v (if b then rename_if from to (list_section s d) else list_section s d)
  unfolding dispatched draft_reducer
  dispatched-renaming groups true from to v d n =
      ap (set to v) (rename_section-list groups from to d n)
  dispatched-renaming groups false from to v d n = refl
  dispatched-renaming tag_owners true from to v d n =
      ap (set to v) (rename_section-list tag_owners from to d n)
  dispatched-renaming tag_owners false from to v d n = refl

  pub dispatched-renaming_host :
      (b : Bool) (from to cidr : Text) (d : Draft) (n : ℕ)
      → (dispatched key_at d n (renaming b hosts from to (set_host to cidr))).0.hosts
        ≡ set to cidr (if b then rename_if from to d.hosts else d.hosts)
  unfolding dispatched draft_reducer
  dispatched-renaming_host true from to cidr d n =
      ap (set to cidr) (rename_section-hosts from to d n)
  dispatched-renaming_host false from to cidr d n = refl
