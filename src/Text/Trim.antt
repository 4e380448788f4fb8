-- ===== src/Text/Trim.antt =====
-- `trim` removes white space at both ends and nothing else.
use head_control.Common.{
  false, [], ◌∷◌, ◌++◌, ◌≡◌, refl, reverse, arith, All, All-append, Bool-cases, inl, inr, sym, ap,
  ◌∙◌,
}
use mathlib.Core.Path.{subst}
use mathlib.Core.List.{reverse-reverse, reverse-cons, reverse-append}
use head_control.Text.{Text, is_space, trim, trim_start}

abbrev pub NoSpace : Text → Type 0
NoSpace = All (λ c. is_space c ≡ false)

trim_start_of_NoSpace : (s : Text) → NoSpace s → trim_start s ≡ s
unfolding trim_start
trim_start_of_NoSpace [] h = refl
trim_start_of_NoSpace (c ∷ s) h = rw (h.0)

NoSpace-reverse : (s : Text) → NoSpace s → NoSpace (reverse s)
NoSpace-reverse [] h = tt
NoSpace-reverse (c ∷ s) h =
    rw reverse-cons
      (All-append (λ c. is_space c ≡ false) (reverse s) (c ∷ []) (NoSpace-reverse s h.1) (h.0, tt))

pub trim_of_NoSpace : (s : Text) → NoSpace s → trim s ≡ s
unfolding trim
trim_of_NoSpace s h =
    rw (trim_start_of_NoSpace s h, trim_start_of_NoSpace (reverse s) (NoSpace-reverse s h))
      (reverse-reverse s)

-- A text that does not start with white space.
abbrev Bare : Text → Type 0
Bare [] = Unit
Bare (c ∷ s) = is_space c ≡ false

trim_start-Bare : (s : Text) → Bare (trim_start s)
unfolding trim_start
trim_start-Bare [] = tt
trim_start-Bare (c ∷ s) = ground (arith, trim_start-Bare s)

trim_start_of_Bare : (s : Text) → Bare s → trim_start s ≡ s
unfolding trim_start
trim_start_of_Bare [] h = refl
trim_start_of_Bare (c ∷ s) h = rw h

Bare-append : (s t : Text) → Bare (s ++ t) → Bare s
Bare-append [] t h = tt
Bare-append (c ∷ s) t h = h

-- What `trim_start` keeps is an end of the text.
trim_start-suffix : (s : Text) → (p : Text) × (s ≡ p ++ trim_start s)
unfolding trim_start
trim_start-suffix [] = ([], refl)
trim_start-suffix (c ∷ s) = elim (Bool-cases (is_space c)) [
  | inl space ↦ let (p, e) = trim_start-suffix s in rw space (c ∷ p, ap (◌∷◌ c) e)
  | inr other ↦ rw other ([], refl)
]

trim-Bare : (s : Text) → Bare (trim s)
unfolding trim
trim-Bare s =
    let a = trim_start s in
    let (p, e) = trim_start-suffix (reverse a) in
    let whole : a ≡ reverse (trim_start (reverse a)) ++ reverse p =
      sym (reverse-reverse a) ∙ ap reverse e ∙ reverse-append p (trim_start (reverse a)) in
    Bare-append (reverse (trim_start (reverse a))) (reverse p)
      (subst Bare whole (trim_start-Bare s))

-- Trimming twice is trimming once.
pub trim_idempotent : (s : Text) → trim (trim s) ≡ trim s
trim_idempotent s =
    let b = trim_start (reverse (trim_start s)) in
    let same : trim_start (trim s) ≡ trim s = trim_start_of_Bare (trim s) (trim-Bare s) in
    let fixed : trim_start b ≡ b =
      trim_start_of_Bare b (trim_start-Bare (reverse (trim_start s))) in
    unfold trim in
    ap (λ t. reverse (trim_start (reverse t))) same
    ∙ ap (λ t. reverse (trim_start t)) (reverse-reverse b)
    ∙ ap reverse fixed
