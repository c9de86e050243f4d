-- ===== src/Tests/Access.antt =====
-- Tokens, roles, errors and the request log, at concrete requests.
use test_lintaspay_backend.Common.{
  ◌≡◌, ◌≢◌, refl, sym, quot, ◌+ℤ◌, pos, none, some, [], ◌∷◌, All, arith,
}
use test_lintaspay_backend.Entity.{User, LoginRequest, RefreshToken, TokenResponse}
use test_lintaspay_backend.Errors.{error_response, http, http_error, nil, no_cause, cause, other}
use test_lintaspay_backend.External.{ok}
use test_lintaspay_backend.External.Memory.{memory_database}
use test_lintaspay_backend.Reqctx.{background, with_user}
use test_lintaspay_backend.Errors.Chain.{error_response-hides_cause}
use test_lintaspay_backend.Middlewares.Issued.{Signs, login-protect}
use test_lintaspay_backend.Middlewares.{Session, key_func, protect}
use test_lintaspay_backend.Monad.{World}
use test_lintaspay_backend.Repository.Auth as Repo
use test_lintaspay_backend.Repository.Auth.{find_refresh_token, revoke_refresh_token}
use test_lintaspay_backend.Routes.{register}
use test_lintaspay_backend.Routes.Access.{admits, allowed, register-access}
use test_lintaspay_backend.Usecase.Auth.{
  access_ttl, generate_access_token, issue_refresh_token, login, refresh, logout,
}
use test_lintaspay_backend.Usecase.Auth.Tokens.{LoggedIn, login-LoggedIn, Renewed, refresh-Renewed}
use test_lintaspay_backend.Usecase.Auth.Ended.{at_once, refreshed, logged_out, logout-refresh}
use test_lintaspay_backend.Tests.{row, services, world_of}

register-access_example :
    All (λ r. admits (some "admin") r.guards ≡ allowed r.endpoint (some "admin")) register
register-access_example = register-access (some "admin")

abbrev session : Session
session = record { locals = background; context = background }

abbrev stored : RefreshToken
stored = record {
  id = "t1";
  user_id = "u1";
  token_hash = "#abc";
  expires_at = pos 900;
  revoked_at = none;
  created_at = pos 1;
}

abbrev logged_in : World services
logged_in = record (world_of []) { refresh_tokens = stored ∷ [] }

abbrev answer : TokenResponse
answer = record {
  access_token = "su1";
  refresh_token = "";
  token_type = "Bearer";
  expires_in = pos 900;
}

-- A refresh and another logout come between.
abbrev afterwards : World services
afterwards =
    let out = (logout ⦃g = services⦄ "abc" logged_in).1 in
    (logout ⦃g = services⦄ "abd" (refresh ⦃g = services⦄ "abc" out).1).1

logout-refresh_example : (refresh ⦃g = services⦄ "abc" afterwards).0 ≢ ok answer
unfolding logout find_refresh_token revoke_refresh_token
logout-refresh_example =
    logout-refresh ⦃g = services⦄ ⦃db = memory_database row⦄ "abc" logged_in afterwards refl
      (logged_out "abd" (refreshed "abc" at_once)) answer

error_response-hides_cause_example :
    error_response (http (http_error 500 "failed" nil (cause (other "dial tcp"))))
    ≡ error_response (http (http_error 500 "failed" nil no_cause))
error_response-hides_cause_example =
    error_response-hides_cause 500 "failed" (cause (other "dial tcp")) no_cause (omega arith)

abbrev pub ann : User
ann = record {
  id = "u1";
  username = "ann";
  password_hash = "$secret";
  role = "admin";
  created_at = pos 1;
}

abbrev pub with_ann : World services
with_ann = record (world_of []) { users = ann ∷ [] }

-- What a login of ann answers, with the UUID supply as the random source.
abbrev pub tokens_of_ann : TokenResponse
tokens_of_ann = record {
  access_token = "su1";
  refresh_token = "d2";
  token_type = "Bearer";
  expires_in = pos 900;
}

abbrev pub credentials : LoginRequest
credentials = record { username = "ann"; password = "secret" }

login-LoggedIn_example :
    LoggedIn ⦃g = services⦄ ⦃db = memory_database row⦄ credentials
      (login ⦃g = services⦄ credentials with_ann).0
      (ann ∷ [])
      []
      (login ⦃g = services⦄ credentials with_ann).1.refresh_tokens
login-LoggedIn_example =
    login-LoggedIn ⦃g = services⦄ ⦃db = memory_database row⦄ credentials with_ann

-- The services in memory sign and accept tokens about one user.
ann-Signs : Signs ⦃g = services⦄ ann
unfolding key_func
ann-Signs iat exp jti token host e valid = let same : "su1" ≡ token = cc in rw (sym same) refl

login-protect_example :
    (protect ⦃g = services⦄ "Bearer su1" session with_ann).0
    ≡ ok (record {
      locals = with_user session.locals "u1" "ann" "admin";
      context = with_user session.context "u1" "ann" "admin";
    })
unfolding login access_ttl Repo.find_user_by_username generate_access_token issue_refresh_token
    Repo.create_refresh_token quot ◌+ℤ◌
login-protect_example =
    login-protect ⦃g = services⦄ credentials ann with_ann with_ann tokens_of_ann session ann-Signs
      refl refl refl

refresh-Renewed_example :
    Renewed ⦃g = services⦄ ⦃db = memory_database row⦄ "abc"
      (refresh ⦃g = services⦄ "abc" logged_in).0
      logged_in
refresh-Renewed_example = refresh-Renewed ⦃g = services⦄ ⦃db = memory_database row⦄ "abc" logged_in
