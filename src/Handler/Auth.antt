-- ===== src/Handler/Auth.antt =====
-- internal/handler/auth.go
use test_lintaspay_backend.Common.{[], Option}
use test_lintaspay_backend.Entity.{LoginRequest, RefreshRequest, TokenResponse}
use test_lintaspay_backend.External.{Services}
use test_lintaspay_backend.Monad.{M, pure, ◌>>=◌, ◌>>◌}
use test_lintaspay_backend.Response.{
  Response, DataResponse, Reply, new_response, new_data_response, json,
}
use test_lintaspay_backend.Usecase.Auth as AuthCase
use test_lintaspay_backend.Handler.{with_body, when_valid}

module _ ⦃g : Services⦄ where
  unfoldable pub login : Option LoginRequest → M (Reply (DataResponse TokenResponse))
  unfolding with_body when_valid AuthCase.login json new_data_response
  login body = with_body body (λ req. when_valid (g.validate_login req) do
    result ← AuthCase.login req
    pure (json 200 [] (new_data_response 200 "login success" result)))

  unfoldable pub refresh : Option RefreshRequest → M (Reply (DataResponse TokenResponse))
  unfolding with_body when_valid AuthCase.refresh json new_data_response
  refresh body = with_body body (λ req. when_valid (g.validate_refresh req) do
    result ← AuthCase.refresh req.refresh_token
    pure (json 200 [] (new_data_response 200 "access token refreshed" result)))

  unfoldable pub logout : Option RefreshRequest → M (Reply Response)
  unfolding with_body when_valid AuthCase.logout json new_response
  logout body = with_body body (λ req.
      when_valid (g.validate_refresh req) do
        AuthCase.logout req.refresh_token
        pure (json 200 [] (new_response 200 "logout success")))
