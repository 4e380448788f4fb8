-- ===== src/Acl/Ports/Spec.antt =====
-- What a port specification in normal form is, stated without the parser.
use head_control.Common.{
  ℕ, ◌≤◌, true, false, List, [], ◌∷◌, ◌++◌, map, ◌≡◌, ◌≢◌, ◌⊎◌, inl, inr, refl, arith, All, All-imp,
  All-append,
}
use head_control.Text.{Text, codes, includes, join, is_digit}
use head_control.Text.Equal.{text_eq_iff, includes-append}
use head_control.Text.Decimal.{show, show-AllDigits}
use head_control.Acl.Ports.{show_range}

-- A range of ports.
abbrev pub IsRange : ℕ × ℕ → Type 0
IsRange r = (1 ≤ r.0) × (r.0 ≤ r.1) × (r.1 ≤ 65535)

-- No entry occurs twice.
abbrev pub Distinct : List Text → Type 0
Distinct [] = Unit
Distinct (x ∷ xs) = (includes x xs ≡ false) × Distinct xs

abbrev pub show_ranges : List (ℕ × ℕ) → Text
show_ranges rs = join (codes ",") (map show_range rs)

-- A list of distinct ranges that is not empty.
abbrev pub IsRanges : List (ℕ × ℕ) → Type 0
IsRanges rs = (rs ≢ []) × All IsRange rs × Distinct (map show_range rs)

-- "*", or one or more ranges, each printed in one way, with a comma between two.
abbrev pub IsSpec : Text → Type 0
IsSpec v = (v ≡ codes "*") ⊎ ((rs : List (ℕ × ℕ)) × IsRanges rs × (v ≡ show_ranges rs))

-- The units of a range.
abbrev pub IsRangeUnit : ℕ → Type 0
IsRangeUnit c = (is_digit c ≡ true) ⊎ (c ≡ b'-')

pub show_range-units : (r : ℕ × ℕ) → All IsRangeUnit (show_range r)
unfolding show_range
show_range-units (lo, hi) =
    let digits = λ (n : ℕ).
      All-imp (λ c. is_digit c ≡ true) IsRangeUnit (show n) (λ c h. inl h) (show-AllDigits n) in
    ground (
      arith,
      digits lo,
      All-append IsRangeUnit (show lo) (b'-' ∷ show hi) (digits lo) (inr refl, digits hi),
    )

pub Distinct-concat :
    (xs : List Text) (x : Text) → Distinct xs → includes x xs ≡ false → Distinct (xs ++ x ∷ [])
unfolding includes
Distinct-concat [] x d h = (refl, tt)
Distinct-concat (y ∷ xs) x d h = ground (
  arith,
  includes-append y xs (x ∷ []),
  text_eq_iff x y,
  text_eq_iff y x,
  Distinct-concat xs x d.1,
)
