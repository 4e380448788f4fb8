-- ===== src/Text/Sort.antt =====
-- `xs.sort()` on texts: by code units, equal texts in their order.
use head_control.Common.{
  Bool, true, false, ◌&&◌, ◌||◌, List, [], ◌∷◌, ◌≡◌, refl, arith, ltb, ◌==◌, if◌then◌else◌,
}
use head_control.Text.{Text, text_eq, includes}

-- `s < t`
unfoldable pub text_lt : Text → Text → Bool
text_lt s [] = false
text_lt [] (b ∷ t) = true
text_lt (a ∷ s) (b ∷ t) = ltb a b || (a == b && text_lt s t)

insert : Text → List Text → List Text
insert x [] = x ∷ []
insert x (y ∷ ys) = let rest = insert x ys in if text_lt y x then y ∷ rest else x ∷ y ∷ ys

unfoldable pub sort : List Text → List Text
unfolding insert
sort [] = []
sort (x ∷ xs) = insert x (sort xs)

includes-insert :
    (s x : Text) (ys : List Text) → includes s (insert x ys) ≡ (text_eq x s || includes s ys)
unfolding insert includes
includes-insert s x [] = refl
includes-insert s x (y ∷ ys) = ground (arith, includes-insert s x ys)

-- Sorting keeps the members.
pub includes-sort : (s : Text) (xs : List Text) → includes s (sort xs) ≡ includes s xs
unfolding sort includes
includes-sort s [] = refl
includes-sort s (x ∷ xs) = ground (arith, includes-insert s x (sort xs), includes-sort s xs)
