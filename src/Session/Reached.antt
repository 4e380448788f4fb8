-- ===== src/Session/Reached.antt =====
-- What holds of the session whatever the answers of the backend and their order.
use head_control.Text.Equal.{text_eq_refl}
use head_control.Common.{
  ◌||◌, Bool, true, false, List, [], ◌∷◌, ◌≡◌, ◌≢◌, refl, arith, All, Option, none, some,
}
use head_control.Text.{Text, codes, text_eq}
use head_control.Dict.{set, get}
use head_control.Acl.Selector.{truthy}
use head_control.Client.{
  Outcome, answered, no_content, bad_json, failed, api_outcome, notifies, request_headers,
  api_request,
}
use head_control.Session.{
  check_token, logged_in, checked, notify, Thrown, SessionAnswer, Session, signed_in, start, Event,
  session_checked, login_submitted, login_done, call_done, session_answered, login_answered, step,
  run,
}

-- The backend answers a login with a token that is not empty.
abbrev pub HasNewToken : {C : Type 0} → Event C → Type 0
HasNewToken (session_checked f) = Unit
HasNewToken login_submitted = Unit
HasNewToken (login_done t f) = (token : Text) → api_outcome f ≡ answered token → token ≢ []
HasNewToken (call_done f) = Unit

abbrev HasToken : Session → Type 0
HasToken s = s.auth ≡ signed_in → s.csrf_token ≢ []

truthy-ne : (o : Option Text) (t : Text) → truthy o ≡ some t → t ≢ []
truthy-ne none t h = cc
truthy-ne (some []) t h = cc
truthy-ne (some (c ∷ s)) t h = cc

notify-HasToken : (b : Bool) (s : Session) → HasToken s → HasToken (notify b s)
notify-HasToken true s h = λ e. cc
notify-HasToken false s h = h

check_token-HasToken :
    (o : Option Text) (b : Bool) (s : Session)
    → ((token : Text) → o ≡ some token → token ≢ [])
    → HasToken (check_token o b s)
check_token-HasToken none b s n = λ e. cc
check_token-HasToken (some token) true s n = λ e. n token refl
check_token-HasToken (some token) false s n = λ e. cc

module _ {C : Type 0} where
  checked-HasToken : (o : Outcome SessionAnswer C) (s : Session) → HasToken (checked o s)
  checked-HasToken (answered a) s =
      check_token-HasToken (truthy a.csrf_token) a.authenticated s (truthy-ne a.csrf_token)
  checked-HasToken no_content s = λ h. cc
  checked-HasToken bad_json s = λ h. cc
  checked-HasToken (failed e) s = λ h. cc

  logged_in-HasToken :
      (t : Thrown) (o : Outcome Text C) (s : Session)
      → ((token : Text) → o ≡ answered token → token ≢ [])
      → HasToken s
      → HasToken (logged_in t o s)
  logged_in-HasToken t (answered token) s n h = λ e. n token refl
  logged_in-HasToken t no_content s n h = h
  logged_in-HasToken t bad_json s n h = h
  logged_in-HasToken t (failed e) s n h = h

  step-HasToken : (s : Session) (e : Event C) → HasNewToken e → HasToken s → HasToken (step s e)
  unfolding step session_answered login_answered
  step-HasToken s (session_checked f) n h = checked-HasToken (api_outcome f) (notify (notifies f) s)
  step-HasToken s login_submitted n h = h
  step-HasToken s (login_done t f) n h =
      logged_in-HasToken t (api_outcome f) (notify (notifies f) s) n
        (notify-HasToken (notifies f) s h)
  step-HasToken s (call_done f) n h = notify-HasToken (notifies f) s h

  run-HasToken :
      (s : Session) (es : List (Event C)) → All HasNewToken es → HasToken s → HasToken (run s es)
  unfolding run
  run-HasToken s [] n h = h
  run-HasToken s (e ∷ es) n h = run-HasToken (step s e) es n.1 (step-HasToken s e n.0 h)

abbrev pub is_safe_method : Text → Bool
is_safe_method method = text_eq method (codes "GET") || text_eq method (codes "HEAD")

pub get-request_headers :
    (token method : Text) (body : Option Text)
    → is_safe_method method ≡ false
    → get (codes "X-CSRF-Token") (request_headers token method body) ≡ some token
unfolding request_headers get set
get-request_headers token method none h = ground (arith, text_eq_refl (codes "X-CSRF-Token"))
get-request_headers token method (some b) h = ground arith

-- Whenever the app shows its pages, each request of a method other than GET and HEAD carries the
-- token of the session, which is not empty, whatever the backend has answered and in which order;
-- the backend answers a login with a token that is not empty.
pub run-request :
    {C : Type 0} (es : List (Event C)) (api_base method path : Text) (body : Option Text)
    → All HasNewToken es
    → (run start es).auth ≡ signed_in
    → is_safe_method method ≡ false
    → ((run start es).csrf_token ≢ [])
      × (get
            (codes "X-CSRF-Token")
            (api_request api_base (run start es).csrf_token method path body).headers
          ≡ some (run start es).csrf_token)
unfolding api_request
run-request es api_base method path body n h m = (
  run-HasToken start es n (λ e. cc) h,
  get-request_headers (run start es).csrf_token method body m,
)
