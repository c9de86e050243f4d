-- ===== src/Middlewares/Status.antt =====
-- The status that the request log shows, against the status that the client receives.
use test_lintaspay_backend.Common.{ℕ, ◌≡◌, refl, Option, none, some, arith}
use test_lintaspay_backend.Errors.{GoError, error_response}
use test_lintaspay_backend.Middlewares.{logged_status}

-- fiber's rule: an error goes to the global error handler, and its response is what is sent.
abbrev pub sent_status : ℕ → Option GoError → ℕ
sent_status written none = written
sent_status written (some e) = (error_response e).code

-- For every written status and every error, nested in whatever way, the log line shows the status
-- that the error handler sends.
pub logged_status-eq-sent :
    (written : ℕ) (e : Option GoError) → logged_status written e ≡ sent_status written e
unfolding logged_status error_response
logged_status-eq-sent written none = refl
logged_status-eq-sent written (some e) = ground arith
