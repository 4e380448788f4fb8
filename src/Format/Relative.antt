-- ===== src/Format/Relative.antt =====
-- Which texts relativeTime prints.
use head_control.Common.{
  false, ℕ, ◌≤◌, ◌<◌, ◌*◌, ◌+◌, Bool, ◌≡◌, ◌⊎◌, inl, inr, refl, arith, ltb, if◌then◌else◌,
  Bool-cases, ltb→lt,
}
use head_control.Text.{Text, codes}
use head_control.Format.{relative, rounded, ago}

-- A number of a unit, within bounds, that differs from the time by at most half a unit and what
-- the smaller units were rounded by.
pub record IsUnits (past : Bool) (diff : ℕ) (t : Text) (unit : Text) (ms lo hi slack : ℕ)
    : Type 0 where
  pub count : ℕ
  pub text : t ≡ ago count unit past
  pub low : lo ≤ count
  pub high : count < hi
  pub near_low : count * ms ≤ diff + slack
  pub near_high : diff < count * ms + slack

late :
    (diff : ℕ) → ltb (rounded (rounded (rounded diff 60000) 60) 24) 60 ≡ false → 5138970000 ≤ diff
late diff h = ground arith

-- A difference below 30 seconds is "just now" or "in <1 min"; otherwise the text is a number of
-- minutes from 1 to 59, of hours from 1 to 47 or of days from 2 to 59, no more than half a unit and
-- the rounding of the smaller units off, or it is the date, where the difference is no less than
-- 59 days, 11 hours, 29 minutes and 30 seconds.
pub relative-IsUnits :
    (past : Bool) (diff : ℕ) (date : Text)
    → ((diff < 30000)
        × (relative past diff date ≡ (if past then codes "just now" else codes "in <1 min")))
      ⊎ (IsUnits past diff (relative past diff date) (codes "min") 60000 1 60 30000
          ⊎ (IsUnits past diff (relative past diff date) (codes "h") 3600000 1 48 1830000
              ⊎ (IsUnits past diff (relative past diff date) (codes "d") 86400000 2 60 45030000
                  ⊎ ((5138970000 ≤ diff) × (relative past diff date ≡ date)))))
unfolding relative
relative-IsUnits past diff date =
    let mins = rounded diff 60000 in
    let hours = rounded mins 60 in
    let days = rounded hours 24 in
    elim (Bool-cases (ltb mins 1)) [
      | inl a ↦ inl (omega (arith, ltb→lt mins 1 a), rw a refl)
      | inr a ↦ elim (Bool-cases (ltb mins 60)) [
        | inl b ↦ inr (
            inl (record {
              count = mins;
              text = rw (a, b) refl;
              low = ground arith;
              high = ground arith;
              near_low = omega arith;
              near_high = omega arith;
            }))
        | inr b ↦ elim (Bool-cases (ltb hours 48)) [
          | inl c ↦ inr (
              inr (
                inl (record {
                  count = hours;
                  text = rw (a, b, c) refl;
                  low = ground arith;
                  high = ground arith;
                  near_low = omega arith;
                  near_high = omega arith;
                })))
          | inr c ↦ elim (Bool-cases (ltb days 60)) [
            | inl d ↦ inr (
                inr (
                  inr (
                    inl (record {
                      count = days;
                      text = rw (a, b, c, d) refl;
                      low = ground arith;
                      high = ground arith;
                      near_low = omega arith;
                      near_high = omega arith;
                    }))))
            | inr d ↦ inr (inr (inr (inr (late diff d, rw (a, b, c, d) refl))))
          ]
        ]
      ]
    ]
