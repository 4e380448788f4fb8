-- ===== src/Session/Tests.antt =====
-- The session at concrete events: no session yet, then a login.
use head_control.Common.{ℕ, List, [], ◌∷◌, ◌≡◌, ◌≢◌, false, refl, none, some, All}
use head_control.Text.{Text, codes, text_eq}
use head_control.Dict.{get}
use head_control.Client.{response, api_request, api_outcome}
use head_control.Session.{
  signed_in, start, Event, session_checked, login_submitted, login_done, run,
}
use head_control.Session.Reached.{HasNewToken, run-request}

abbrev token : Text
token = codes "t1"

abbrev events : List (Event ℕ)
events =
    session_checked (
      response (record {
        status = 200;
        answer = some (record { authenticated = false; csrf_token = none });
        error_body = none;
      }))
    ∷ login_submitted
    ∷ login_done (record { of_undefined = []; of_json = [] })
        (response (record { status = 200; answer = some token; error_body = none }))
    ∷ []

events-HasNewToken : All HasNewToken events
unfolding api_outcome
events-HasNewToken = (tt, (tt, ((λ t e. cc), tt)))

shows : (run start events).auth ≡ signed_in
unfolding run
shows = refl

run-request_example :
    ((run start events).csrf_token ≢ [])
    × (get
          (codes "X-CSRF-Token")
          (api_request
            (codes "/ui")
            (run start events).csrf_token
            (codes "POST")
            (codes "/api/hs/users")
            none).headers
        ≡ some (run start events).csrf_token)
unfolding text_eq
run-request_example =
    run-request events (codes "/ui") (codes "POST") (codes "/api/hs/users") none events-HasNewToken
      shows refl
