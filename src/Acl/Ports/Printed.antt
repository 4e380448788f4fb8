-- ===== src/Acl/Ports/Printed.antt =====
-- Specifications in normal form, part by part.
use head_control.Common.{
  ℕ, ◌≤◌, true, false, List, [], ◌∷◌, ◌++◌, map, ◌≡◌, ◌≢◌, refl, sym, ap, ◌∙◌, arith, All, All-imp,
  All-append, All-map, length, all, some, append_assoc, append-nil, ne_of_length-ne, length-append,
  ap₂,
}
use mathlib.Core.Path.{subst}
use head_control.Text.{Text, codes, includes, join, is_digit, is_space, trim, split, is_number}
use head_control.Text.Equal.{text_eq_iff, includes-append}
use head_control.Text.Decimal.{
  AllDigits, show, number-show, show-AllDigits, length-show, length-show-pos,
}
use head_control.Text.Trim.{NoSpace, trim_of_NoSpace}
use head_control.Text.Split.{Lacks, split_of_Lacks, split-append, split-join}
use head_control.Acl.Ports.{ok, show_range, match_range, check_range, check_part, check_parts}
use head_control.Acl.Ports.Spec.{IsRange, Distinct, show_ranges, IsRangeUnit, show_range-units}

all-AllDigits : (s : Text) → AllDigits s → all is_digit s ≡ true
unfolding all
all-AllDigits [] h = refl
all-AllDigits (c ∷ s) h = ground (arith, all-AllDigits s h.1)

is_number-show : (n : ℕ) → n ≤ 65535 → is_number 5 (show n) ≡ true
unfolding is_number
is_number-show n h =
    let short : length (show n) ≤ 5 = length-show 4 n (omega arith) in
    ground (arith, all-AllDigits (show n) (show-AllDigits n), short, length-show-pos n)

show-Lacks_dash : (n : ℕ) → Lacks b'-' (show n)
show-Lacks_dash n =
    All-imp (λ c. is_digit c ≡ true) (λ c. c ≢ b'-') (show n)
      (λ c h. unfold is_digit in ground arith) (show-AllDigits n)

-- Reading a printed range gives the range back.
match_range-show_range : (r : ℕ × ℕ) → IsRange r → match_range (show_range r) ≡ some r
unfolding match_range show_range
match_range-show_range (lo, hi) h = ground (
  arith,
  split_of_Lacks b'-' (show lo) (show-Lacks_dash lo),
  split-append b'-' (show lo) (show hi) (show-Lacks_dash lo),
  split_of_Lacks b'-' (show hi) (show-Lacks_dash hi),
  is_number-show lo,
  is_number-show hi,
  number-show lo,
  number-show hi,
)

length-show_range : (r : ℕ × ℕ) → 1 ≤ length (show_range r)
unfolding show_range
length-show_range (lo, hi) =
    ground (arith, length-show-pos lo, length-append (show lo) (b'-' ∷ show hi))

pub show_range-ne : (r : ℕ × ℕ) → (show_range r ≢ []) × (show_range r ≢ codes "*")
unfolding is_digit
show_range-ne r = (
  ne_of_length-ne (show_range r) [] (omega (arith, length-show_range r)),
  λ e. let bad = subst (All IsRangeUnit) e (show_range-units r) in ground (arith, bad),
)

check_part-show_range : (r : ℕ × ℕ) → IsRange r → check_part (show_range r) ≡ ok (show_range r)
unfolding check_part check_range
check_part-show_range r h =
    let (some_text, no_star) = show_range-ne r in
    ground (
      arith,
      text_eq_iff (show_range r) [],
      text_eq_iff (show_range r) (codes "*"),
      match_range-show_range r h,
    )

-- No entry of `rs` is printed as one of `out`.
abbrev AllNew : List Text → List (ℕ × ℕ) → Type 0
AllNew out rs = Distinct (out ++ map show_range rs)

pub Distinct-middle :
    (out : List Text) (x : Text) (xs : List Text)
    → Distinct (out ++ x ∷ xs)
    → includes x out ≡ false
unfolding includes
Distinct-middle [] x xs d = refl
Distinct-middle (y ∷ out) x xs d = ground (
  arith,
  Distinct-middle out x xs d.1,
  includes-append y out (x ∷ xs),
  text_eq_iff x y,
  text_eq_iff y x,
)

pub check_parts-show_ranges :
    (rs : List (ℕ × ℕ)) (out : List Text)
    → All IsRange rs
    → AllNew out rs
    → check_parts (map show_range rs) out ≡ ok (join (codes ",") (out ++ map show_range rs))
unfolding check_parts
check_parts-show_ranges [] out h d = rw append-nil
check_parts-show_ranges (r ∷ rs) out (hr, h) d =
    let x = show_range r in
    let shifted : (out ++ x ∷ []) ++ map show_range rs ≡ out ++ x ∷ map show_range rs =
      append_assoc out (x ∷ []) (map show_range rs) in
    let tail : check_parts (map show_range rs) (out ++ x ∷ [])
        ≡ ok (join (codes ",") (out ++ x ∷ map show_range rs)) =
      check_parts-show_ranges rs (out ++ x ∷ []) h (subst Distinct (sym shifted) d)
      ∙ ap (λ t. ok (join (codes ",") t)) shifted in
    ground (arith, check_part-show_range r hr, Distinct-middle out x (map show_range rs) d, tail)

show_range-Lacks_comma : (r : ℕ × ℕ) → Lacks b',' (show_range r)
show_range-Lacks_comma r =
    All-imp IsRangeUnit (λ c. c ≢ b',') (show_range r) (λ c h. unfold is_digit in ground arith)
      (show_range-units r)

show_range-NoSpace : (r : ℕ × ℕ) → NoSpace (show_range r)
show_range-NoSpace r =
    All-imp IsRangeUnit (λ c. is_space c ≡ false) (show_range r)
      (λ c h. unfold is_digit is_space in ground arith) (show_range-units r)

-- What holds of each range's units and of the comma holds of a whole specification.
pub All-show_ranges :
    (P : ℕ → Type 0) (rs : List (ℕ × ℕ))
    → P b','
    → ((c : ℕ) → IsRangeUnit c → P c)
    → All P (show_ranges rs)
unfolding join
All-show_ranges P [] comma f = tt
All-show_ranges P (r ∷ []) comma f = All-imp IsRangeUnit P (show_range r) f (show_range-units r)
All-show_ranges P (r ∷ q ∷ rs) comma f =
    All-append P (show_range r) (codes "," ++ show_ranges (q ∷ rs))
      (All-imp IsRangeUnit P (show_range r) f (show_range-units r))
      (comma, All-show_ranges P (q ∷ rs) comma f)

All-show_range :
    (P : Text → Type 0)
    → ((r : ℕ × ℕ) → P (show_range r))
    → (rs : List (ℕ × ℕ)) → All (λ r. P (show_range r)) rs
All-show_range P f [] = tt
All-show_range P f (r ∷ rs) = (f r, All-show_range P f rs)

pub trim_parts : (rs : List (ℕ × ℕ)) → map trim (map show_range rs) ≡ map show_range rs
trim_parts [] = refl
trim_parts (r ∷ rs) =
    ap₂ ◌∷◌ (trim_of_NoSpace (show_range r) (show_range-NoSpace r)) (trim_parts rs)

map-show_range-ne-nil : (rs : List (ℕ × ℕ)) → rs ≢ [] → map show_range rs ≢ []
map-show_range-ne-nil [] h = absurd (h refl)
map-show_range-ne-nil (r ∷ rs) h = cc

pub show_ranges-ne :
    (rs : List (ℕ × ℕ)) → rs ≢ [] → (show_ranges rs ≢ []) × (show_ranges rs ≢ codes "*")
unfolding join
show_ranges-ne [] h = absurd (h refl)
show_ranges-ne (r ∷ []) h = show_range-ne r
show_ranges-ne (r ∷ q ∷ rs) h =
    let rest = show_ranges (q ∷ rs) in
    let long : 2 ≤ length (show_range r ++ b',' ∷ rest) =
      omega (arith, length-append (show_range r) (b',' ∷ rest), length-show_range r) in
    (
      ne_of_length-ne (show_range r ++ b',' ∷ rest) [] (omega arith),
      ne_of_length-ne (show_range r ++ b',' ∷ rest) (codes "*") (omega arith),
    )

pub show_ranges-NoSpace : (rs : List (ℕ × ℕ)) → NoSpace (show_ranges rs)
show_ranges-NoSpace rs =
    All-show_ranges (λ c. is_space c ≡ false) rs (unfold is_space in refl)
      λ c h. unfold is_digit is_space in ground arith

pub split-show_ranges :
    (rs : List (ℕ × ℕ)) → rs ≢ [] → split b',' (show_ranges rs) ≡ map show_range rs
split-show_ranges rs h =
    split-join b',' (map show_range rs) (map-show_range-ne-nil rs h)
      (All-map (Lacks b',') show_range rs (All-show_range (Lacks b',') show_range-Lacks_comma rs))
