-- ===== src/Client/Tests.antt =====
-- The client at concrete answers.
use head_control.Common.{ℕ, true, ◌≡◌, ◌↔◌, refl, none, some}
use head_control.Text.{Text, codes, text_eq}
use head_control.Client.{Response, ApiError, Fetched, response, failed, api_outcome, notifies}
use head_control.Client.Errors.{HasStatus, SaysCode, HasFailed, api_outcome-failed}

-- The answer to a request whose session is gone.
abbrev expired : Fetched Text ℕ
expired = response (record {
  status = 401;
  answer = none;
  error_body = some (record {
    detail = some (record {
      code = some (codes "unauthenticated");
      message = some (codes "log in first");
      headscale_message = none;
    });
    current = none;
  });
})

api_outcome-failed_example :
    (HasFailed expired
      ↔ ((e : ApiError ℕ) × (api_outcome expired ≡ failed e) × HasStatus e expired))
    × ((notifies expired ≡ true) ↔ (
        (r : Response Text ℕ) × (expired ≡ response r)
        × (r.status ≡ 401)
        × SaysCode r (codes "unauthenticated")))
api_outcome-failed_example = api_outcome-failed expired

expired-notifies : notifies expired ≡ true
unfolding notifies api_outcome text_eq
expired-notifies = refl
