-- ===== src/Text/Decimal.antt =====
-- `String(n)` and `Number(digits)` for natural numbers, and their round trip.
use head_control.Common.{
  ℕ, zero, suc, ◌+◌, ◌-◌, ◌*◌, ◌/◌, ◌%◌, ◌^◌, ◌≤◌, ◌<◌, true, [], ◌∷◌, ◌≡◌, arith, ◌==◌,
  if◌then◌else◌, All, length,
}
use native.Mathlib.Nat.{pow-suc}
use head_control.Text.{Text, is_digit}

-- The digits of `n` in front of `out`, for `n` at most the fuel.
show_from : ℕ → ℕ → Text → Text
show_from zero n out = out
show_from (suc f) n out =
    let rest = show_from f (n / 10) ((b'0' + n % 10) ∷ out) in if n == 0 then out else rest

unfoldable pub show : ℕ → Text
unfolding show_from
show n = if n == 0 then b'0' ∷ [] else show_from n n []

unfoldable pub number_from : ℕ → Text → ℕ
number_from n [] = n
number_from n (c ∷ s) = number_from (n * 10 + (c - b'0')) s

unfoldable pub number : Text → ℕ
unfolding number_from
number s = number_from 0 s

abbrev pub AllDigits : Text → Type 0
AllDigits = All (λ c. is_digit c ≡ true)

number_from-show_from :
    (f n : ℕ) (out : Text) → n ≤ f → number_from 0 (show_from f n out) ≡ number_from n out
unfolding number_from show_from
number_from-show_from zero n out h = ground arith
number_from-show_from (suc f) n out h =
    ground (arith, number_from-show_from f (n / 10) ((b'0' + n % 10) ∷ out))

pub number-show : (n : ℕ) → number (show n) ≡ n
unfolding number show
number-show n = ground (arith, number_from-show_from n n [])

show_from-AllDigits : (f n : ℕ) (out : Text) → AllDigits out → AllDigits (show_from f n out)
unfolding show_from is_digit
show_from-AllDigits zero n out h = h
show_from-AllDigits (suc f) n out h =
    ground (arith, show_from-AllDigits f (n / 10) ((b'0' + n % 10) ∷ out))

pub show-AllDigits : (n : ℕ) → AllDigits (show n)
unfolding show is_digit
show-AllDigits n = ground (arith, show_from-AllDigits n n [] tt)

length-show_from :
    (k f n : ℕ) (out : Text) → n < 10 ^ k → length (show_from f n out) ≤ k + length out
unfolding show_from
length-show_from k zero n out h = omega arith
length-show_from zero (suc f) n out h = ground arith
length-show_from (suc k) (suc f) n out h =
    ground (arith, pow-suc 10 k, length-show_from k f (n / 10) ((b'0' + n % 10) ∷ out))

pub length-show : (k n : ℕ) → n < 10 ^ suc k → length (show n) ≤ suc k
unfolding show
length-show k n h = ground (arith, length-show_from (suc k) n n [] h)

le-length-show_from : (f n : ℕ) (out : Text) → length out ≤ length (show_from f n out)
unfolding show_from
le-length-show_from zero n out = omega arith
le-length-show_from (suc f) n out =
    ground (arith, le-length-show_from f (n / 10) ((b'0' + n % 10) ∷ out))

pub length-show-pos : (n : ℕ) → 1 ≤ length (show n)
unfolding show
length-show-pos zero = ground arith
length-show-pos (suc n) =
    unfold show_from in
    ground (arith, le-length-show_from n (suc n / 10) ((b'0' + suc n % 10) ∷ []))
