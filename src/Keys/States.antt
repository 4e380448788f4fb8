-- ===== src/Keys/States.antt =====
-- The states of a pre-auth key that the page filters by.
use head_control.Common.{true, false, ◌&&◌, ◌||◌, ◌≡◌, arith}
use head_control.Api.{PreAuthKey}
use head_control.Format.{Browser}
use head_control.Keys.{PakState, PakFilters, pak_matches_state, is_shown}

-- Every key that the other filters let through is shown under "active", "used" or "expired", none
-- under both "active" and "expired", and under both "active" and "used" only if it is reusable.
pub is_shown-states :
    (b : Browser) (f : PakFilters) (k : PreAuthKey)
    → let under = λ (s : PakState). is_shown b (record f { state = s }) k in
      (under PakState.all
        ≡ (under PakState.active || (under PakState.used || under PakState.expired)))
      × ((under PakState.active && under PakState.expired) ≡ false)
      × ((under PakState.active && under PakState.used) ≡ true → k.reusable ≡ true)
unfolding is_shown pak_matches_state
is_shown-states b f k = (ground arith, ground arith, ground arith)
