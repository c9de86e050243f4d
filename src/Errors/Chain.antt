-- ===== src/Errors/Chain.antt =====
-- What the error chain and the error handler guarantee.
use test_lintaspay_backend.Common.{ℕ, ◌≤◌, String, ◌≡◌, refl, arith}
use test_lintaspay_backend.Errors.{http, http_error, nil, Cause, cause, no_cause, error_response}

-- An `HTTPError` of status 500 or above that carries no details shows its client its code and its
-- message, and nothing of the error that it wraps.
pub error_response-hides_cause :
    (code : ℕ) (message : String) (c c' : Cause)
    → 500 ≤ code
    → error_response (http (http_error code message nil c))
      ≡ error_response (http (http_error code message nil c'))
unfolding error_response
error_response-hides_cause code message no_cause no_cause h = refl
error_response-hides_cause code message no_cause (cause e) h = ground arith
error_response-hides_cause code message (cause e) no_cause h = ground arith
error_response-hides_cause code message (cause e) (cause e') h = ground arith
