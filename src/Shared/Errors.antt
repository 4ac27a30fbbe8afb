-- ===== src/Shared/Errors.antt =====
-- libs/shared/src/errors/index.ts: the error codes, their HTTP statuses and the response body.
use estoque_saas.Base.{ℕ, ◌≤◌, ◌≡◌, refl, Option, none, arith, Text}

pub data ErrorCode : Type 0 where
  validation_error unauthorized forbidden not_found conflict plan_limit_reached : ErrorCode
  payment_required rate_limited payment_unavailable internal_error : ErrorCode

unfoldable pub status_by_code : ErrorCode → ℕ
status_by_code validation_error = 400
status_by_code unauthorized = 401
status_by_code forbidden = 403
status_by_code not_found = 404
status_by_code conflict = 409
status_by_code plan_limit_reached = 409
status_by_code payment_required = 402
status_by_code rate_limited = 429
status_by_code payment_unavailable = 503
status_by_code internal_error = 500

-- `AppError`: the code fixes the status; `Details` is the type of the free-form details.
pub record AppError (Details : Type 0) : Type 0 where
  pub code : ErrorCode
  pub message : Text
  pub status : ℕ
  pub details : Option Details

-- The constructor of `AppError` and of its subclasses, each with its own code.
unfoldable pub app_error : {D : Type 0} → ErrorCode → Text → Option D → AppError D
app_error code message details = record {
  code = code;
  message = message;
  status = status_by_code code;
  details = details;
}

-- What a handler can throw: an `AppError`, or anything else with its internal message.
pub data Thrown (Details : Type 0) : Type 0 where
  app : AppError Details → Thrown Details
  unknown : Text → Thrown Details

pub record ErrorResponseBody (Details : Type 0) : Type 0 where
  pub code : ErrorCode
  pub message : Text
  pub details : Option Details
  pub trace_id : Text

-- `generic` is the fixed text "Erro interno inesperado.".
unfoldable pub to_error_response : {D : Type 0} → Text → Thrown D → Text → ℕ × ErrorResponseBody D
to_error_response generic (app e) trace =
    (e.status, record { code = e.code; message = e.message; details = e.details; trace_id = trace })
to_error_response generic (unknown secret) trace =
    (500, record { code = internal_error; message = generic; details = none; trace_id = trace })

-- The response to an error of the code's own has the status of its code, between 400 and 503, and
-- carries its code, message and details; it is a 500 exactly when its code is the internal one.
pub to_error_response_app :
    {D : Type 0} (generic message trace : Text) (code : ErrorCode) (details : Option D)
    → let (status, body) = to_error_response generic (app (app_error code message details)) trace in
      (status ≡ status_by_code code)
      × (400 ≤ status)
      × (status ≤ 503)
      × (body.code ≡ code)
      × (body.message ≡ message)
      × (body.details ≡ details)
      × (status ≡ 500 → code ≡ internal_error)
unfolding to_error_response app_error status_by_code
to_error_response_app g m t code d = ground arith

-- The response to an unknown error is the same 500 for every such error: nothing of its internal
-- message reaches the client.
pub to_error_response_unknown :
    {D : Type 0} (generic trace secret other : Text)
    → (to_error_response {D = D} generic (unknown secret) trace
        ≡ to_error_response generic (unknown other) trace)
      × ((to_error_response {D = D} generic (unknown secret) trace).0 ≡ 500)
unfolding to_error_response
to_error_response_unknown g t s o = (refl, refl)
