-- ===== src/Session.antt =====
-- The session of the browser: the state of App in frontend/src/App.tsx with the token of
-- frontend/src/api/client.ts, and the form of frontend/src/pages/LoginPage.tsx. Every answer of the
-- backend, to whichever call, is an event; the answers may come in any order.
pub mod Reached
mod Tests
use head_control.Common.{◌∷◌, Bool, true, false, ◌&&◌, Option, none, some, List, [], if◌then◌else◌}
use head_control.Text.{Text, codes}
use head_control.Acl.Selector.{truthy}
use head_control.Client.{
  Fetched, Outcome, answered, no_content, bad_json, failed, api_outcome, notifies,
}

pub data AuthState : Type 0 where
  checking signed_in signed_out : AuthState

-- The state of the login form.
pub record LoginForm : Type 0 where
  pub error : Text
  pub busy : Bool

pub record Session : Type 0 where
  pub auth : AuthState
  pub csrf_token : Text
  pub login : LoginForm

abbrev pub start : Session
start = record { auth = checking; csrf_token = []; login = record { error = []; busy = false } }

-- The answer of `/api/auth/session`.
pub record SessionAnswer : Type 0 where
  pub authenticated : Bool
  pub csrf_token : Option Text

-- The listener that App registers.
abbrev notify : Bool → Session → Session
notify b s = if b then record s { auth = signed_out } else s

abbrev sign_in : Text → Session → Session
sign_in token s = record s { csrf_token = token; auth = signed_in }

-- What is thrown where the code reads a field of `undefined`, or where a body is no JSON: a text
-- that the browser chooses.
pub record Thrown : Type 0 where
  pub of_undefined : Text
  pub of_json : Text

-- `if (s.authenticated && s.csrfToken)`
abbrev check_token : Option Text → Bool → Session → Session
check_token none b s = record s { auth = signed_out }
check_token (some token) b s = if b then sign_in token s else record s { auth = signed_out }

abbrev login_failed : Text → Session → Session
login_failed text s = record s { login = record { error = text; busy = false } }

-- What happens to the session.
pub data Event (C : Type 0) : Type 1 where
  session_checked : Fetched SessionAnswer C → Event C
  login_submitted : Event C
  login_done : Thrown → Fetched Text C → Event C
  call_done : {A : Type 0} → Fetched A C → Event C

module _ {C : Type 0} where
  -- The effect that checks the session when the app starts.
  abbrev checked : Outcome SessionAnswer C → Session → Session
  checked (answered a) s = check_token (truthy a.csrf_token) a.authenticated s
  checked no_content s = record s { auth = signed_out }
  checked bad_json s = record s { auth = signed_out }
  checked (failed e) s = record s { auth = signed_out }

  unfoldable pub session_answered : Fetched SessionAnswer C → Session → Session
  unfolding api_outcome notifies
  session_answered f s = checked (api_outcome f) (notify (notifies f) s)

  -- `submit` of the login form, after the call.
  abbrev logged_in : Thrown → Outcome Text C → Session → Session
  logged_in t (answered token) s = record (sign_in token s) {
    login = record (s.login) { busy = false };
  }
  logged_in t no_content s = login_failed t.of_undefined s
  logged_in t bad_json s = login_failed t.of_json s
  logged_in t (failed e) s = login_failed e.message s

  unfoldable pub login_answered : Thrown → Fetched Text C → Session → Session
  unfolding api_outcome notifies
  login_answered t f s = logged_in t (api_outcome f) (notify (notifies f) s)

  unfoldable pub step : Session → Event C → Session
  unfolding session_answered login_answered notifies
  step s (session_checked f) = session_answered f s
  step s login_submitted = record s { login = record { error = []; busy = true } }
  step s (login_done t f) = login_answered t f s
  step s (call_done f) = notify (notifies f) s

  -- The states that a list of events leads to.
  unfoldable pub run : Session → List (Event C) → Session
  unfolding step
  run s [] = s
  run s (e ∷ es) = run (step s e) es
