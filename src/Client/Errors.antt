-- ===== src/Client/Errors.antt =====
-- The errors that the client throws.
use head_control.Common.{
  ◌∙◌, ap, arith, inl, inr, Bool-cases, Option-cases, Bool, true, false, ◌≡◌, ◌≢◌, ◌↔◌, refl, sym,
  Option, none, some, ◌==◌, if◌then◌else◌, ℕ,
}
use head_control.Text.{Text, codes}
use head_control.Text.Equal.{text_eq_iff}
use head_control.Client.{
  ErrorBody, ErrorDetail, answer_of, failure, is_expiry, ApiError, Response, Fetched, unreachable,
  response, Outcome, answered, no_content, bad_json, failed, api_error, is_session_expired, is_ok,
  api_outcome, notifies,
}

-- The status of an error: that of the answer, or 0 where there is none.
abbrev pub HasStatus : {A C : Type 0} → ApiError C → Fetched A C → Type 0
HasStatus e unreachable = e.status ≡ 0
HasStatus e (response r) = e.status ≡ r.status

-- The body of the answer is an error with that code.
abbrev pub SaysCode : {A C : Type 0} → Response A C → Text → Type 0
SaysCode {C} r c =
    (b : ErrorBody C) × (d : ErrorDetail) × (r.error_body ≡ some b)
    × (b.detail ≡ some d)
    × (d.code ≡ some c)

-- The server is out of reach, or answers with a status that is no success.
abbrev pub HasFailed : {A C : Type 0} → Fetched A C → Type 0
HasFailed unreachable = Unit
HasFailed (response r) = is_ok r.status ≡ false

abbrev error_status : {A C : Type 0} → Outcome A C → ℕ
error_status (answered a) = 0
error_status no_content = 0
error_status bad_json = 0
error_status (failed e) = e.status

unlike_unknown : codes "unknown" ≢ codes "unauthenticated"
unlike_unknown h = ground arith

-- An answer that is no failure is not that of an expired session.
is_expiry-ok :
    {A : Type 0} (C : Type 0) (o : Option A) (bare : Bool)
    → is_expiry {C = C} (if bare then no_content else answer_of o) ≡ false
is_expiry-ok C o true = refl
is_expiry-ok C none false = refl
is_expiry-ok C (some a) false = refl

module _ {A C : Type 0} where
  answer_of-ne-failed : (o : Option A) (e : ApiError C) → answer_of o ≢ failed e
  answer_of-ne-failed none e = λ h. cc
  answer_of-ne-failed (some a) e = λ h. cc

  failure_status : (r : Response A C) → (failure r).status ≡ r.status
  unfolding failure api_error
  failure_status r = refl

  -- An outcome is the failure of the response only where the status is no success.
  outcome-failed :
      (r : Response A C) (e : ApiError C) (ok bare : Bool)
      → (if ok then if bare then no_content else answer_of r.answer else failed (failure r))
        ≡ failed e
      → (e.status ≡ r.status) × (ok ≡ false)
  outcome-failed r e true true h = cc
  outcome-failed r e true false h = absurd (answer_of-ne-failed r.answer e h)
  outcome-failed r e false bare h = (sym (ap error_status h) ∙ failure_status r, refl)

  failed-status :
      (f : Fetched A C) (e : ApiError C) → api_outcome f ≡ failed e → HasStatus e f × HasFailed f
  unfolding api_outcome api_error
  failed-status unreachable e h = (sym (ap error_status h), tt)
  failed-status (response r) e h = outcome-failed r e (is_ok r.status) (r.status == 204) h

  response-failed :
      (r : Response A C) → is_ok r.status ≡ false → api_outcome (response r) ≡ failed (failure r)
  unfolding api_outcome
  response-failed r h = rw h refl

  failed-HasFailed :
      (f : Fetched A C)
      → HasFailed f
      → (e : ApiError C) × (api_outcome f ≡ failed e) × HasStatus e f
  unfolding api_outcome api_error
  failed-HasFailed unreachable h = (_, refl, refl)
  failed-HasFailed (response r) h = (failure r, response-failed r h, failure_status r)

  -- The code of an error is that of the body, and "unauthenticated" is no code of its own.
  failure_code :
      (r : Response A C)
      → (failure r).code ≡ codes "unauthenticated"
      → SaysCode r (codes "unauthenticated")
  unfolding failure api_error
  failure_code r h = elim (Option-cases r.error_body) [
    | inl none_ ↦ ground (arith, unlike_unknown)
    | inr (b, e) ↦ elim (Option-cases b.detail) [
      | inl none_ ↦ ground (arith, unlike_unknown)
      | inr (d, k) ↦ elim (Option-cases d.code) [
        | inl none_ ↦ ground (arith, unlike_unknown)
        | inr (c, l) ↦ (b, d, e, k, ground arith)
      ]
    ]
  ]

  notifies-response :
      (f : Fetched A C)
      → notifies f ≡ true
      → (r : Response A C) × (f ≡ response r)
        × (r.status ≡ 401)
        × SaysCode r (codes "unauthenticated")
  unfolding notifies api_outcome is_session_expired
  notifies-response unreachable h = cc
  notifies-response (response r) h = elim (Bool-cases (is_ok r.status)) [
    | inl e ↦ ground (arith, is_expiry-ok C r.answer (r.status == 204))
    | inr e ↦
        let expired : is_session_expired (failure r) ≡ true = ground arith in
        (
          r,
          refl,
          sym (failure_status r) ∙ ground (arith),
          failure_code r
              ((text_eq_iff (failure r).code (codes "unauthenticated")).0 (ground arith)),
        )
  ]

  notifies-expired :
      (r : Response A C)
      → r.status ≡ 401
      → SaysCode r (codes "unauthenticated")
      → notifies (response r) ≡ true
  unfolding notifies api_outcome is_session_expired failure api_error
  notifies-expired r s (b, d, e, k, l) =
      ground (arith, text_eq_iff (codes "unauthenticated") (codes "unauthenticated"))

-- A call throws an `ApiError` exactly where the server is out of reach or answers with a status that
-- is no success, and the error has status 0 in the one case and that of the answer in the other; and
-- the listeners of an expired session are called exactly where the server answers with status 401
-- and an error whose code is "unauthenticated".
pub api_outcome-failed :
    {A C : Type 0} (f : Fetched A C)
    → (HasFailed f ↔ ((e : ApiError C) × (api_outcome f ≡ failed e) × HasStatus e f))
      × ((notifies f ≡ true) ↔ (
          (r : Response A C) × (f ≡ response r)
          × (r.status ≡ 401)
          × SaysCode r (codes "unauthenticated")))
api_outcome-failed f = (
  (failed-HasFailed f, λ h. (failed-status f h.0 h.1).1),
  (notifies-response f, λ h. ap notifies h.1 ∙ notifies-expired h.0 h.2 h.3),
)
