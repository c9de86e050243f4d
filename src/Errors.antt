-- ===== src/Errors.antt =====
-- pkg/common/httpresponse/errors.go and internal/domain/entity/errors.go: Go's error values, the
-- chain that `errors.Is` and `errors.As` walk, `HTTPError` with its shortcuts, and the global
-- error handler's choice of the response.
pub mod Chain
use test_lintaspay_backend.Common.{
  ℕ, String, Bool, true, false, Option, none, some, List, ltb, if◌then◌else◌,
}
use Prim.Native.String

-- The errors that the program compares by identity: `entity.ErrNotFound`,
-- `entity.ErrIdempotencyKeyExists` and `gorm.ErrRecordNotFound`.
pub data Sentinel : Type 0 where
  not_found idempotency_key_exists record_not_found : Sentinel

abbrev pub same_sentinel : Sentinel → Sentinel → Bool
same_sentinel not_found not_found = true
same_sentinel idempotency_key_exists idempotency_key_exists = true
same_sentinel record_not_found record_not_found = true
same_sentinel _ _ = false

-- What `HTTPError.Details` and `ErrorResponse.Error`, of type `any`, hold in the program.
pub data Details : Type 0 where
  nil : Details
  text : String → Details
  messages : List String → Details
  fields : List (String × String) → Details

-- `mysql` is the driver's `*MySQLError`, `fiber` is `*fiber.Error`, `wrapped` an error made by
-- `fmt.Errorf` with `%w`, `other` an error with no structure.
mutual
  pub data GoError : Type 0 where
    sentinel : Sentinel → GoError
    mysql : (number : ℕ) → String → GoError
    fiber : (code : ℕ) → String → GoError
    other : String → GoError
    wrapped : String → GoError → GoError
    http : HttpError → GoError

  pub data HttpError : Type 0 where
    http_error : (code : ℕ) → (message : String) → (details : Details) → Cause → HttpError

  pub data Cause : Type 0 where
    no_cause : Cause
    cause : GoError → Cause

abbrev pub code_of : HttpError → ℕ
code_of (http_error code _ _ _) = code

abbrev pub message_of : HttpError → String
message_of (http_error _ message _ _) = message

abbrev pub details_of : HttpError → Details
details_of (http_error _ _ details _) = details

-- `Unwrap`
abbrev pub unwrap : HttpError → Cause
unwrap (http_error _ _ _ c) = c

unfoldable pub new_http_error : ℕ → String → HttpError
new_http_error code message = http_error code message nil no_cause

unfoldable pub with_details : Details → HttpError → HttpError
with_details d (http_error code message _ c) = http_error code message d c

unfoldable pub with_err : GoError → HttpError → HttpError
with_err e (http_error code message d _) = http_error code message d (cause e)

unfoldable pub bad_request : String → HttpError
unfolding new_http_error
bad_request = new_http_error 400

unfoldable pub unauthorized : String → HttpError
unfolding new_http_error
unauthorized = new_http_error 401

unfoldable pub forbidden : String → HttpError
unfolding new_http_error
forbidden = new_http_error 403

unfoldable pub not_found_error : String → HttpError
unfolding new_http_error
not_found_error = new_http_error 404

unfoldable pub conflict : String → HttpError
unfolding new_http_error
conflict = new_http_error 409

unfoldable pub unprocessable_entity : String → HttpError
unfolding new_http_error
unprocessable_entity = new_http_error 422

unfoldable pub internal : String → HttpError
unfolding new_http_error
internal = new_http_error 500

unfoldable pub service_unavailable : String → HttpError
unfolding new_http_error
service_unavailable = new_http_error 503

infixl 65 ◌<>◌
abbrev pub ◌<>◌ : String → String → String
a <> b = String.◌++◌ a b

-- `Error()`
unfoldable mutual
  pub error_text : GoError → String
  error_text (sentinel not_found) = "record not found"
  error_text (sentinel idempotency_key_exists) = "idempotency key already exists"
  error_text (sentinel record_not_found) = "record not found"
  error_text (mysql _ s) = s
  error_text (fiber _ s) = s
  error_text (other s) = s
  error_text (wrapped s e) = s <> ": " <> error_text e
  error_text (http h) = http_text h

  pub http_text : HttpError → String
  http_text (http_error _ message _ c) = message <> cause_text c

  pub cause_text : Cause → String
  cause_text no_cause = ""
  cause_text (cause e) = ": " <> error_text e

-- `errors.Is(err, target)`
unfoldable mutual
  pub errors_is : Sentinel → GoError → Bool
  errors_is t (sentinel s) = same_sentinel s t
  errors_is t (mysql _ _) = false
  errors_is t (fiber _ _) = false
  errors_is t (other _) = false
  errors_is t (wrapped _ e) = errors_is t e
  errors_is t (http h) = http_is t h

  pub http_is : Sentinel → HttpError → Bool
  http_is t (http_error _ _ _ c) = cause_is t c

  pub cause_is : Sentinel → Cause → Bool
  cause_is t no_cause = false
  cause_is t (cause e) = errors_is t e

-- `errors.As(err, &httpErr)`: the first `HTTPError` of the chain.
unfoldable pub as_http : GoError → Option HttpError
as_http (http h) = some h
as_http (wrapped _ e) = as_http e
as_http _ = none

-- `errors.As(err, &fiberErr)`, as its code and message.
unfoldable mutual
  pub as_fiber : GoError → Option (ℕ × String)
  as_fiber (fiber code s) = some (code, s)
  as_fiber (wrapped _ e) = as_fiber e
  as_fiber (http h) = http_as_fiber h
  as_fiber (sentinel _) = none
  as_fiber (mysql _ _) = none
  as_fiber (other _) = none

  pub http_as_fiber : HttpError → Option (ℕ × String)
  http_as_fiber (http_error _ _ _ c) = cause_as_fiber c

  pub cause_as_fiber : Cause → Option (ℕ × String)
  cause_as_fiber no_cause = none
  cause_as_fiber (cause e) = as_fiber e

-- `errors.As(err, &mysqlErr)`, as its number.
unfoldable mutual
  pub as_mysql : GoError → Option ℕ
  as_mysql (mysql number _) = some number
  as_mysql (wrapped _ e) = as_mysql e
  as_mysql (http h) = http_as_mysql h
  as_mysql (sentinel _) = none
  as_mysql (fiber _ _) = none
  as_mysql (other _) = none

  pub http_as_mysql : HttpError → Option ℕ
  http_as_mysql (http_error _ _ _ c) = cause_as_mysql c

  pub cause_as_mysql : Cause → Option ℕ
  cause_as_mysql no_cause = none
  cause_as_mysql (cause e) = as_mysql e

pub record ErrorResponse : Type 0 where
  pub code : ℕ
  pub message : String
  pub error : Details

-- `resp.Error`, for an `HTTPError` with these parts.
abbrev shown : ℕ → Details → Cause → Details
shown code nil (cause e) = if ltb code 500 then text (error_text e) else nil
shown code nil no_cause = nil
shown code d _ = d

abbrev render_http : HttpError → ErrorResponse
render_http (http_error code message d c) = record {
  code = code;
  message = message;
  error = shown code d c;
}

abbrev render_fiber : Option (ℕ × String) → ErrorResponse
render_fiber (some (code, message)) = record { code = code; message = message; error = nil }
render_fiber none = record { code = 500; message = "internal server error"; error = nil }

abbrev render : Option HttpError → GoError → ErrorResponse
render (some h) e = render_http h
render none e = render_fiber (as_fiber e)

-- The response that `NewErrorHandler` writes, with its code as the status.
unfoldable pub error_response : GoError → ErrorResponse
unfolding error_text as_http as_fiber http_as_fiber cause_as_fiber
error_response e = render (as_http e) e

-- Whether `NewErrorHandler` logs "request failed".
unfoldable pub logs_failure : GoError → Bool
unfolding error_response
logs_failure e = if ltb (error_response e).code 500 then false else true
