-- ===== src/Client.antt =====
-- The client of the backend, frontend/src/api/client.ts. The browser's `fetch` and the printing of
-- a body as JSON are parameters; what `resp.json()` gives is read twice, as the answer and as the
-- body of an error, and is `none` where the text is no JSON.
mod Errors
mod Tests
use head_control.Common.{
  ℕ, Bool, false, not, ◌&&◌, [], ◌++◌, Option, none, some, leb, ◌==◌, if◌then◌else◌,
}
use head_control.Text.{Text, codes, text_eq}
use head_control.Text.Decimal.{show}
use head_control.Dict.{Dict, set}
use head_control.Acl.Selector.{truthy}

-- `ApiErrorBody["error"]`, of which nothing is sure to be there.
pub record ErrorDetail : Type 0 where
  pub code : Option Text
  pub message : Option Text
  pub headscale_message : Option Text

-- `ApiErrorBody`, with the newer state that a conflict carries.
pub record ErrorBody (C : Type 0) : Type 0 where
  pub detail : Option ErrorDetail
  pub current : Option C

pub record ApiError (C : Type 0) : Type 0 where
  pub status : ℕ
  pub code : Text
  pub message : Text
  pub headscale_message : Option Text
  pub body : Option (ErrorBody C)

pub record Request : Type 0 where
  pub method : Text
  pub url : Text
  pub headers : Dict Text
  pub body : Option Text

pub record Response (A C : Type 0) : Type 0 where
  pub status : ℕ
  pub answer : Option A
  pub error_body : Option (ErrorBody C)

-- What `await fetch(…)` comes to.
pub data Fetched (A C : Type 0) : Type 0 where
  unreachable : Fetched A C
  response : Response A C → Fetched A C

-- What a call of `api` comes to: a value, `undefined`, an `ApiError`, or the error that the parser
-- of JSON throws at the body of a successful response.
pub data Outcome (A C : Type 0) : Type 0 where
  answered : A → Outcome A C
  no_content : Outcome A C
  bad_json : Outcome A C
  failed : ApiError C → Outcome A C

abbrev pub text_or : Option Text → Text → Text
text_or none s = s
text_or (some t) s = t

abbrev code_of : Option ErrorDetail → Option Text
code_of none = none
code_of (some d) = d.code

abbrev message_of : Option ErrorDetail → Option Text
message_of none = none
message_of (some d) = d.message

abbrev headscale_message_of : Option ErrorDetail → Option Text
headscale_message_of none = none
headscale_message_of (some d) = d.headscale_message

module _ {C : Type 0} where
  abbrev detail_of : Option (ErrorBody C) → Option ErrorDetail
  detail_of none = none
  detail_of (some b) = b.detail

  -- The constructor of `ApiError`.
  unfoldable pub api_error : ℕ → Option (ErrorBody C) → Text → ApiError C
  api_error status body fallback = record {
    status = status;
    code = text_or (code_of (detail_of body)) (codes "unknown");
    message = text_or (truthy (message_of (detail_of body))) fallback;
    headscale_message = headscale_message_of (detail_of body);
    body = body;
  }

  unfoldable pub is_session_expired : ApiError C → Bool
  unfolding text_eq
  is_session_expired e = e.status == 401 && text_eq e.code (codes "unauthenticated")

-- The headers of a request: the token goes with every method that may change something.
unfoldable pub request_headers : Text → Text → Option Text → Dict Text
unfolding text_eq set
request_headers csrf_token method body =
    let typed : Dict Text = elim body [
      | none ↦ []
      | some b ↦ set (codes "Content-Type") (codes "application/json") []
    ] in
    if not (text_eq method (codes "GET")) && not (text_eq method (codes "HEAD"))
    then set (codes "X-CSRF-Token") csrf_token typed
    else typed

unfoldable pub api_request : Text → Text → Text → Text → Option Text → Request
unfolding request_headers
api_request api_base csrf_token method path body = record {
  method = method;
  url = api_base ++ path;
  headers = request_headers csrf_token method body;
  body = body;
}

-- `resp.ok`
abbrev pub is_ok : ℕ → Bool
is_ok status = leb 200 status && leb status 299

module _ {A C : Type 0} where
  abbrev answer_of : Option A → Outcome A C
  answer_of none = bad_json
  answer_of (some a) = answered a

  unfoldable pub failure : Response A C → ApiError C
  unfolding api_error
  failure r = api_error r.status r.error_body (
      codes "unexpected "
      ++ (show r.status
          ++ codes " response from the server — check your reverse proxy configuration"))

  -- What the call comes to, once the browser has an answer.
  unfoldable pub api_outcome : Fetched A C → Outcome A C
  unfolding api_error failure
  api_outcome unreachable =
      failed (api_error 0 none (codes "cannot reach the Head-Control server — is it running?"))
  api_outcome (response r) =
      if is_ok r.status
      then if r.status == 204 then no_content else answer_of r.answer
      else failed (failure r)

  abbrev pub is_expiry : Outcome A C → Bool
  is_expiry (answered a) = false
  is_expiry no_content = false
  is_expiry bad_json = false
  is_expiry (failed e) = is_session_expired e

  -- Whether the listeners of `onSessionExpired` are called: not where the server is out of reach.
  unfoldable pub notifies : Fetched A C → Bool
  unfolding is_session_expired
  notifies unreachable = false
  notifies (response r) = is_expiry (api_outcome (response r))

abbrev pub get_method : Text
get_method = codes "GET"

abbrev pub post_method : Text
post_method = codes "POST"

abbrev pub put_method : Text
put_method = codes "PUT"

abbrev pub delete_method : Text
delete_method = codes "DELETE"
