-- ===== src/Text/Split.antt =====
-- `split` and `join` on one code unit, and the positions that `indexOf` and `lastIndexOf` find.
use head_control.Common.{
  Option-cases, ◌<◌, ℕ, suc, List, [], ◌∷◌, ◌++◌, ◌≡◌, ◌≢◌, refl, arith, All, ap, some, none,
  length, ◌≤◌, List-cases, inl, inr,
}
use head_control.Text.{Text, split, join, last_index_of, take, drop}

abbrev pub Lacks : ℕ → Text → Type 0
Lacks b = All (λ c. c ≢ b)

pub split_of_Lacks : (sep : ℕ) (p : Text) → Lacks sep p → split sep p ≡ p ∷ []
unfolding split
split_of_Lacks sep [] h = refl
split_of_Lacks sep (c ∷ p) h = ground (arith, split_of_Lacks sep p h.1)

pub split-append :
    (sep : ℕ) (p rest : Text) → Lacks sep p → split sep (p ++ sep ∷ rest) ≡ p ∷ split sep rest
unfolding split
split-append sep [] rest h = ground arith
split-append sep (c ∷ p) rest h = ground (arith, split-append sep p rest h.1)

-- The parts of a join are found again, if none holds the separator.
pub split-join :
    (sep : ℕ) (ps : List Text) → ps ≢ [] → All (Lacks sep) ps → split sep (join (sep ∷ []) ps) ≡ ps
unfolding join
split-join sep [] h _ = absurd (h refl)
split-join sep (p ∷ []) _ h = split_of_Lacks sep p h.0
split-join sep (p ∷ q ∷ ps) _ h =
    rw (split-append sep p (join (sep ∷ []) (q ∷ ps)) h.0)
      (ap (◌∷◌ p) (split-join sep (q ∷ ps) (cc) h.1))

pub last_index_of_of_Lacks : (c : ℕ) (s : Text) → Lacks c s → last_index_of c s ≡ none
unfolding last_index_of
last_index_of_of_Lacks c [] h = refl
last_index_of_of_Lacks c (x ∷ s) h = ground (arith, last_index_of_of_Lacks c s h.1)

pub last_index_of-append :
    (c : ℕ) (s t : Text) → Lacks c t → last_index_of c (s ++ c ∷ t) ≡ some (length s)
unfolding last_index_of
last_index_of-append c [] t h = ground (arith, last_index_of_of_Lacks c t h)
last_index_of-append c (x ∷ s) t h = ground (arith, last_index_of-append c s t h)

module _ {ℓ} {A : Type ℓ} where
  pub take-length-append : (s t : List A) → take (length s) (s ++ t) ≡ s
  unfolding take
  take-length-append [] t = refl
  take-length-append (x ∷ s) t = ap (◌∷◌ x) (take-length-append s t)

  pub drop-length-append :
      (s : List A) (x : A) (t : List A) → drop (suc (length s)) (s ++ x ∷ t) ≡ t
  unfolding drop
  drop-length-append [] x t = refl
  drop-length-append (y ∷ s) x t = drop-length-append s x t

pub length-split : (sep : ℕ) (s : Text) → 1 ≤ length (split sep s)
unfolding split
length-split sep [] = omega arith
length-split sep (c ∷ s) = elim (List-cases (split sep s)) [
  | inl e ↦ ground (arith, length-split sep s)
  | inr (p, ps, e) ↦ ground arith
]

-- The text around the last `c`.
pub last_index_of-split :
    (c : ℕ) (s : Text) (i : ℕ)
    → last_index_of c s ≡ some i
    → (s ≡ take i s ++ c ∷ drop (suc i) s) × (length (take i s) ≡ i) × (i < length s)
unfolding last_index_of take drop
last_index_of-split c [] i h = ground arith
last_index_of-split c (x ∷ s) i h = elim (Option-cases (last_index_of c s)) [
  | inl e ↦ ground arith
  | inr (j, e) ↦ ground (arith, last_index_of-split c s j e)
]
