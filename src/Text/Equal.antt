-- ===== src/Text/Equal.antt =====
-- Equality of texts and membership decide what they stand for.
use head_control.Common.{false, true, List, [], ◌∷◌, ◌++◌, ◌≡◌, refl, ◌↔◌, ◌⊎◌, ◌||◌, arith, ◌≢◌}
use head_control.Text.{Text, text_eq, includes}

eq_sound : (s t : Text) → text_eq s t ≡ true → s ≡ t
unfolding text_eq
eq_sound [] [] h = refl
eq_sound [] (b ∷ t) h = ground arith
eq_sound (a ∷ s) [] h = ground arith
eq_sound (a ∷ s) (b ∷ t) h = ground (arith, eq_sound s t)

pub text_eq_refl : (s : Text) → text_eq s s ≡ true
unfolding text_eq
text_eq_refl [] = refl
text_eq_refl (a ∷ s) = ground (arith, text_eq_refl s)

pub text_eq_iff : (s t : Text) → (text_eq s t ≡ true) ↔ (s ≡ t)
text_eq_iff s t = (eq_sound s t, λ e. ground (arith, text_eq_refl s))

pub Text-cases : (s t : Text) → (s ≡ t) ⊎ (s ≢ t)
Text-cases s t = ground (arith, text_eq_iff s t)

pub includes-append :
    (s : Text) (xs ys : List Text) → includes s (xs ++ ys) ≡ (includes s xs || includes s ys)
unfolding includes
includes-append s [] ys = refl
includes-append s (x ∷ xs) ys = ground (arith, includes-append s xs ys)

pub ne_of_text_eq : (s t : Text) → text_eq s t ≡ false → s ≢ t
ne_of_text_eq s t h = ground (arith, text_eq_iff s t)
