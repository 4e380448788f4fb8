-- ===== src/Routes/Gather.antt =====
-- Dictionaries that gather values under keys: `m.set(k, [...(m.get(k) ?? []), v])` in a loop.
use mathlib.Core.Path.{subst}
use head_control.Common.{
  Bool, true, false, ◌||◌, List, [], ◌∷◌, ◌++◌, ◌≡◌, inl, inr, sym, ap, some, ◌∙◌, arith, All, map,
  keep, append-nil, append_assoc, if◌then◌else◌,
}
use head_control.Text.{Text, includes, text_eq}
use head_control.Text.Equal.{text_eq_iff, Text-cases}
use head_control.Dict.{Dict, get, set, keys}
use head_control.Dict.Laws.{get-set}
use head_control.Acl.Ports.Spec.{Distinct}
use head_control.Machines.Filters.{Distinct-set}
use head_control.Format.{or_nil}

abbrev pub one_if {ℓ} : {A : Type ℓ} → Bool → A → List A
one_if b a = if b then a ∷ [] else []

module _ {ℓ} {V : Type ℓ} where
  unfoldable pub gather : (Text → V) → List Text → Dict (List V) → Dict (List V)
  unfolding get set
  gather f [] rows = rows
  gather f (p ∷ ps) rows = gather f ps (set p (or_nil (get p rows) ++ f p ∷ []) rows)

  pub get-gather :
      (f : Text → V) (p : Text) (ps : List Text) (rows : Dict (List V))
      → Distinct ps
      → or_nil (get p (gather f ps rows)) ≡ or_nil (get p rows) ++ one_if (includes p ps) (f p)
  unfolding gather includes
  get-gather f p [] rows d = sym (append-nil (or_nil (get p rows)))
  get-gather f p (q ∷ ps) rows d =
      let added = or_nil (get q rows) ++ f q ∷ [] in
      let next = set q added rows in
      let later = get-gather f p ps next d.1 in
      let found = get-set q p added rows in
      elim (Text-cases q p) [
        | inl same ↦
            let gone : includes p ps ≡ false = subst (λ s. includes s ps ≡ false) same d.0 in
            let matches : text_eq q p ≡ true = (text_eq_iff q p).1 same in
            let here : or_nil (get p next) ≡ or_nil (get p rows) ++ f p ∷ [] =
              ap or_nil (found ∙ ap (λ b. if b then some added else get p rows) matches)
              ∙ ap (λ s. or_nil (get s rows) ++ f s ∷ []) same in
            later
            ∙ ap (λ b. or_nil (get p next) ++ one_if b (f p)) gone
            ∙ append-nil (or_nil (get p next))
            ∙ here
            ∙ ap (λ b. or_nil (get p rows) ++ one_if (b || includes p ps) (f p)) (sym matches)
        | inr other ↦
            let differs : text_eq q p ≡ false = ground (arith, text_eq_iff q p) in
            later
            ∙ ap (λ o. or_nil o ++ one_if (includes p ps) (f p))
                (found ∙ ap (λ b. if b then some added else get p rows) differs)
            ∙ ap (λ b. or_nil (get p rows) ++ one_if (b || includes p ps) (f p)) (sym differs)
      ]

  pub Distinct-gather :
      (f : Text → V) (ps : List Text) (rows : Dict (List V))
      → Distinct (keys rows)
      → Distinct (keys (gather f ps rows))
  unfolding gather
  Distinct-gather f [] rows d = d
  Distinct-gather f (p ∷ ps) rows d =
      let added = or_nil (get p rows) ++ f p ∷ [] in
      Distinct-gather f ps (set p added rows) (Distinct-set p added rows d)

module _ {ℓ κ} {A : Type ℓ} {V : Type κ} (keys_of : A → List Text) (value : A → Text → V) where
  -- The loop over values that each have keys of their own.
  unfoldable pub gather_all : List A → Dict (List V) → Dict (List V)
  unfolding gather
  gather_all [] rows = rows
  gather_all (a ∷ bs) rows = gather_all bs (gather (value a) (keys_of a) rows)

  joined :
      (p : Text) (b : Bool) (a : A) (bs : List A) (xs : List V)
      → (xs ++ one_if b (value a p)) ++ map (λ c. value c p) bs
        ≡ xs ++ map (λ c. value c p) (if b then a ∷ bs else bs)
  joined p true a bs xs = append_assoc xs (value a p ∷ []) (map (λ c. value c p) bs)
  joined p false a bs xs = ap (λ ys. ys ++ map (λ c. value c p) bs) (append-nil xs)

  -- Under a key stand the values of those that have it, in their order.
  pub get-gather_all :
      (p : Text) (bs : List A) (rows : Dict (List V))
      → All (λ a. Distinct (keys_of a)) bs
      → or_nil (get p (gather_all bs rows))
        ≡ or_nil (get p rows) ++ map (λ a. value a p) (keep (λ a. includes p (keys_of a)) bs)
  unfolding gather_all keep
  get-gather_all p [] rows d = sym (append-nil (or_nil (get p rows)))
  get-gather_all p (a ∷ bs) rows d =
      let kept = keep (λ c. includes p (keys_of c)) bs in
      get-gather_all p bs (gather (value a) (keys_of a) rows) d.1
      ∙ ap (λ xs. xs ++ map (λ c. value c p) kept) (get-gather (value a) p (keys_of a) rows d.0)
      ∙ joined p (includes p (keys_of a)) a kept (or_nil (get p rows))

  pub Distinct-gather_all :
      (bs : List A) (rows : Dict (List V))
      → Distinct (keys rows)
      → Distinct (keys (gather_all bs rows))
  unfolding gather_all
  Distinct-gather_all [] rows d = d
  Distinct-gather_all (a ∷ bs) rows d =
      Distinct-gather_all bs (gather (value a) (keys_of a) rows)
        (Distinct-gather (value a) (keys_of a) rows d)
