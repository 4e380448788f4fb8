-- ===== src/Keys/Lockout/Tests.antt =====
-- The tab of API keys at concrete events.
use head_control.Common.{true, false, List, [], ◌∷◌, ◌++◌, ◌≡◌, refl, arith, All}
use head_control.Text.{Text, codes, includes, text_eq}
use head_control.Keys.Lockout.{Event, expire, run, start}
use head_control.Keys.Lockout.Guarded.{ConfirmsOwn, run-ConfirmsOwn}
use head_control.Keys.Lockout.Kept.{includes-gone}

abbrev own : Text
own = codes "ab12"

-- Expire the UI's own key: the backend refuses, the second dialog opens, and confirms nothing yet.
abbrev refusal : List Event
refusal =
    Event.opened expire own ∷ Event.confirmed ∷ Event.answered expire true ∷ Event.confirmed ∷ []

includes-gone_example : includes own (run own start refusal).gone ≡ false
includes-gone_example = includes-gone own refusal (λ e. ground arith) (tt, (tt, (tt, (tt, tt))))

abbrev typed_out : List Event
typed_out = refusal ++ Event.typed_in own ∷ Event.confirmed ∷ Event.answered expire true ∷ []

gone_test : (run own start typed_out).gone ≡ own ∷ []
unfolding run text_eq
gone_test = refl

run-ConfirmsOwn_test : All (ConfirmsOwn own) (run own start typed_out).sent
run-ConfirmsOwn_test = run-ConfirmsOwn own typed_out
