-- ===== src/Middlewares.antt =====
-- pkg/middlewares: the request id, the bearer token, the roles, the rate limiter's configuration and
-- the logged status. Server.antt puts them, the request log and the recovery into the chain of a
-- request; fiber's limiter itself is a parameter there.
pub mod Status
pub mod Access
pub mod Issued
use Prim.Native.Char.{code}
use Prim.Native.String
use test_lintaspay_backend.Common.{
  ℕ, String, Bool, false, ◌||◌, not, ℤ, pos, Option, none, some, List, [], ◌∷◌, eqb, ◌==◌,
  if◌then◌else◌,
}
use test_lintaspay_backend.Errors.{
  GoError, HttpError, unauthorized, forbidden, new_http_error, as_http, as_fiber, code_of,
}
use test_lintaspay_backend.Reqctx.{Context, with_request_id, with_user}
use test_lintaspay_backend.External.{Services, Result, ok, err, Method, hmac, other, TokenClaims}
use test_lintaspay_backend.Monad.{M, pure, fail, ◌>>=◌, attempt, on_host, new_uuid}

-- `c.Locals(…)` and `c.UserContext()`; the locals have the same keys as the context.
pub record Session : Type 0 where
  pub locals : Context
  pub context : Context

abbrev pub text_or_empty : Option String → String
text_or_empty none = ""
text_or_empty (some s) = s

-- strings.HasPrefix and strings.TrimPrefix in one: what follows the prefix.
unfoldable pub strip_prefix : String → String → Option String
strip_prefix String.[] s = some s
strip_prefix (String.◌∷◌ c p) String.[] = none
strip_prefix (String.◌∷◌ c p) (String.◌∷◌ d s) =
    if eqb (code c) (code d) then strip_prefix p s else none

-- The key function that `Protect` hands to the JWT parser.
unfoldable pub key_func : String → Method → Option String
key_func secret hmac = some secret
key_func secret other = none

unfoldable pub contains : List String → String → Bool
contains [] r = false
contains (x ∷ xs) r = x == r || contains xs r

-- `RequireRoles`, on the role in the locals; `none` lets the request pass.
unfoldable pub require_roles : List String → Context → Option HttpError
unfolding contains forbidden
require_roles roles locals =
    if contains roles (text_or_empty locals.role_value)
    then none
    else some (forbidden "you are not allowed to access this resource")

-- `limiter.Config` of `NewRateLimiter`.
pub record LimiterConfig : Type 0 where
  pub max : ℕ
  pub expiration : ℤ
  pub key_generator : Context → String → String
  pub limit_reached : HttpError

abbrev pub limiter_key : Option String → String → String
limiter_key none ip = ip
limiter_key (some username) ip = if username == "" then ip else username

unfoldable pub new_rate_limiter : ℕ → LimiterConfig
unfolding new_http_error
new_rate_limiter max = record {
  max = max;
  expiration = pos 60_000_000_000;
  key_generator = λ locals ip. limiter_key locals.username_value ip;
  limit_reached = new_http_error 429 "too many requests, slow down";
}

abbrev status_of_fiber : Option (ℕ × String) → ℕ
status_of_fiber (some (code, _)) = code
status_of_fiber none = 500

abbrev status_of_error : Option HttpError → GoError → ℕ
status_of_error (some h) e = code_of h
status_of_error none e = status_of_fiber (as_fiber e)

-- The status that the request log shows, from the status written so far and the handler's error.
unfoldable pub logged_status : ℕ → Option GoError → ℕ
unfolding as_http as_fiber
logged_status written none = written
logged_status written (some e) = status_of_error (as_http e) e

module _ ⦃g : Services⦄ where
  -- `RequestIDMiddleware.Handle`: the session for the next handler, and the id that goes into the
  -- response's `X-Request-ID`.
  unfoldable pub request_id_handle : String → Session → M (Session × String)
  unfolding with_request_id
  request_id_handle header s = do
    id ← if header == "" then new_uuid else pure header
    pure (
      record {
        locals = record s.locals { request_id_value = some id };
        context = with_request_id s.context id;
      },
      id,
    )

  abbrev pub identify : Session → Result TokenClaims → M Session
  identify s (err e) = fail (unauthorized "invalid or expired token")
  identify s (ok claims) =
      let user_id = text_or_empty claims.sub in
      let username = text_or_empty claims.username in
      let role = text_or_empty claims.role in
      pure (record {
        locals = with_user s.locals user_id username role;
        context = with_user s.context user_id username role;
      })

  abbrev pub protect_token : Session → Option String → M Session
  protect_token s none = fail (unauthorized "missing or malformed authorization header")
  protect_token s (some token) = do
    r ← attempt (on_host (g.parse_with_claims token (key_func g.env_jwt_secret)))
    identify s r

  -- `Protect`: the session for the next handler.
  unfoldable pub protect : String → Session → M Session
  unfolding strip_prefix key_func unauthorized with_user
  protect header s = protect_token s (strip_prefix "Bearer " header)
