-- ===== src/Machines/Filters.antt =====
-- Filters of one kind are alternatives, and all kinds must match.
use mathlib.Core.Path.{subst}
use head_control.Common.{
  Bool, true, false, ◌&&◌, ◌||◌, List, [], ◌∷◌, ◌++◌, ◌≡◌, inl, inr, refl, sym, ap, ◌∙◌, arith, any,
  all, some, Option-cases, any-append,
}
use head_control.Text.{Text, includes, text_eq}
use head_control.Text.Equal.{text_eq_iff, text_eq_refl, Text-cases}
use head_control.Dict.{Dict, keys, get, set, own}
use head_control.Dict.Laws.{get-set, own-get, own-set}
use head_control.Acl.Ports.Spec.{Distinct}
use head_control.Api.{Node}
use head_control.Format.{Browser, or_nil}
use head_control.Machines.{
  Filter, filter_kind, filter_groups, filter_matches, search_matches, node_matches,
}

module _ {ℓ} {V : Type ℓ} where
  pub Distinct-set :
      (k : Text) (v : V) (m : Dict V) → Distinct (keys m) → Distinct (keys (set k v m))
  unfolding set includes own
  Distinct-set k v [] d = (refl, tt)
  Distinct-set k v ((j, w) ∷ m) d =
      ground (arith, text_eq_iff j k, text_eq_iff k j, Distinct-set k v m d.1, own-set k j v m)

  -- What holds of every entry holds of every value found.
  all-get :
      (p : V → Bool) (m : Dict V) (k : Text) (v : V)
      → all (λ e. p e.1) m ≡ true
      → get k m ≡ some v
      → p v ≡ true
  unfolding all get
  all-get p [] k v h e = absurd (ground arith)
  all-get p ((j, w) ∷ m) k v h e = ground (arith, all-get p m k v, ap p)

  get-all :
      (p : V → Bool) (m : Dict V)
      → Distinct (keys m)
      → ((k : Text) (v : V) → get k m ≡ some v → p v ≡ true)
      → all (λ e. p e.1) m ≡ true
  unfolding all get own
  get-all p [] d h = refl
  get-all p ((j, w) ∷ m) d h =
      let later : (k : Text) (v : V) → get k m ≡ some v → p v ≡ true = λ k v e.
        elim (Text-cases j k) [
          | inl same ↦
              absurd (
                ground (arith, d.0, own-get k m, subst (λ s. includes s (keys m) ≡ false) same d.0))
          | inr other ↦ h k v (ground (arith, text_eq_iff j k))
        ] in
      ground (arith, text_eq_refl j, h j w, get-all p m d.1 later)

module _ (matches : Filter → Bool) where
  -- Some filter of the kind matches.
  abbrev alternative : Text → List Filter → Bool
  alternative k fs = any (λ g. text_eq (filter_kind g) k && matches g) fs

  any-filter_groups :
      (k : Text) (fs : List Filter) (groups : Dict (List Filter))
      → any matches (or_nil (get k (filter_groups fs groups)))
        ≡ (any matches (or_nil (get k groups)) || alternative k fs)
  unfolding filter_groups any
  any-filter_groups k [] groups = ground arith
  any-filter_groups k (f ∷ fs) groups =
      let j = filter_kind f in
      let old = or_nil (get j groups) in
      let next = set j (old ++ f ∷ []) groups in
      elim (Text-cases j k) [
        | inl same ↦ ground (
          arith,
          any-filter_groups k fs next,
          get-set j k (old ++ f ∷ []) groups,
          any-append matches old (f ∷ []),
          text_eq_iff j k,
          ap (λ s. any matches (or_nil (get s groups))) same,
        )
        | inr other ↦ ground (
          arith,
          any-filter_groups k fs next,
          get-set j k (old ++ f ∷ []) groups,
          text_eq_iff j k,
        )
      ]

own-filter_groups :
    (k : Text) (fs : List Filter) (groups : Dict (List Filter))
    → own k (filter_groups fs groups) ≡ (own k groups || any (λ f. text_eq (filter_kind f) k) fs)
unfolding filter_groups any
own-filter_groups k [] groups = ground arith
own-filter_groups k (f ∷ fs) groups =
    let j = filter_kind f in
    let old = or_nil (get j groups) in
    let next = set j (old ++ f ∷ []) groups in
    ground (arith, own-filter_groups k fs next, own-set j k (old ++ f ∷ []) groups)

Distinct-filter_groups :
    (fs : List Filter) (groups : Dict (List Filter))
    → Distinct (keys groups)
    → Distinct (keys (filter_groups fs groups))
unfolding filter_groups
Distinct-filter_groups [] groups d = d
Distinct-filter_groups (f ∷ fs) groups d =
    let j = filter_kind f in
    let old = or_nil (get j groups) in
    Distinct-filter_groups fs (set j (old ++ f ∷ []) groups)
      (Distinct-set j (old ++ f ∷ []) groups d)

-- What holds of the kind of every filter holds of every kind that a filter has.
all-kind :
    (p : Text → Bool) (fs : List Filter) (k : Text)
    → all (λ f. p (filter_kind f)) fs ≡ true
    → any (λ f. text_eq (filter_kind f) k) fs ≡ true
    → p k ≡ true
unfolding all any
all-kind p [] k h a = absurd (ground arith)
all-kind p (f ∷ fs) k h a = ground (arith, all-kind p fs k, text_eq_iff (filter_kind f) k, ap p)

kind-all :
    (p : Text → Bool) (fs : List Filter)
    → ((k : Text) → any (λ f. text_eq (filter_kind f) k) fs ≡ true → p k ≡ true)
    → all (λ f. p (filter_kind f)) fs ≡ true
unfolding all any
kind-all p [] h = refl
kind-all p (f ∷ fs) h = ground (
  arith,
  text_eq_refl (filter_kind f),
  h (filter_kind f),
  kind-all p fs (λ k a. h k (ground arith)),
)

module _ (matches : Filter → Bool) (fs : List Filter) where
  abbrev groups : Dict (List Filter)
  groups = filter_groups fs []

  -- What is found under a kind are its filters.
  any-found :
      (k : Text) (v : List Filter)
      → get k groups ≡ some v
      → any matches v ≡ alternative matches k fs
  any-found k v e =
      let found = any-filter_groups matches k fs [] in
      unfold get any in ground (arith, found, ap (λ o. any matches (or_nil o)) e)

  own-groups : (k : Text) → own k groups ≡ any (λ f. text_eq (filter_kind f) k) fs
  unfolding own includes
  own-groups k = ground (arith, own-filter_groups k fs [])

  groups-alternatives :
      all (λ e. any matches e.1) groups ≡ true
      → all (λ f. alternative matches (filter_kind f) fs) fs ≡ true
  groups-alternatives h =
      kind-all (λ k. alternative matches k fs) fs
        λ k a. elim (Option-cases (get k groups)) [
          | inl e ↦ absurd (ground (arith, own-groups k, own-get k groups))
          | inr (v, e) ↦ sym (any-found k v e) ∙ all-get (any matches) groups k v h e
        ]

  alternatives-groups :
      all (λ f. alternative matches (filter_kind f) fs) fs ≡ true
      → all (λ e. any matches e.1) groups ≡ true
  alternatives-groups h = get-all (any matches) groups (Distinct-filter_groups fs [] tt) λ k v e.
      any-found k v e
      ∙ all-kind (λ j. alternative matches j fs) fs k h
          (ground (arith, own-groups k, own-get k groups))

-- A node is shown exactly where it matches the search and, for each filter, some filter of the
-- same kind; each feature is a kind of its own.
pub node_matches-alternatives :
    (b : Browser) (n : Node) (search : Text) (filters : List Filter)
    → node_matches b n search filters ≡ (
        search_matches b n search
        && all
            (λ f.
              any (λ g. text_eq (filter_kind g) (filter_kind f) && filter_matches b n g) filters)
            filters)
unfolding node_matches
node_matches-alternatives b n search filters =
    let m = filter_matches b n in
    ground (arith, groups-alternatives m filters, alternatives-groups m filters)
