-- ===== src/Usecase/Auth.antt =====
-- internal/usecase/auth.go
pub mod Revocation
pub mod Ended
pub mod Tokens
pub mod Renewal
use test_lintaspay_backend.Common.{String, not, ℤ, pos, ◌+ℤ◌, ltb_ℤ, eqb_ℤ, none, if◌then◌else◌}
use test_lintaspay_backend.Errors.{GoError, http, errors_is, not_found, unauthorized}
use test_lintaspay_backend.Entity.{User, LoginRequest, TokenResponse, RefreshToken}
use test_lintaspay_backend.External.{Services}
use test_lintaspay_backend.Monad.{
  M, pure, fail, ◌>>=◌, ◌>>◌, on_error, from_result, on_host, now, new_uuid, log,
}
use test_lintaspay_backend.Repository.Auth as Repo
use test_lintaspay_backend.Repository.Auth.{is_null}
use test_lintaspay_backend.Usecase.Disbursements.{internal_with}

-- The error of a lookup: the given message where nothing was found.
unfoldable pub unless_found : String → String → GoError → GoError
unfolding internal_with unauthorized
unless_found missing failed e =
    if errors_is not_found e then http (unauthorized missing) else internal_with failed e

module _ ⦃g : Services⦄ where
  unfoldable pub hash_token : String → String
  hash_token token = g.sha256_hex token

  -- `accessTTL` and `refreshTTL`, as `NewAuthUsecase` reads them.
  unfoldable pub access_ttl : ℤ
  access_ttl = if eqb_ℤ g.env_access_ttl (pos 0) then pos 900_000_000_000 else g.env_access_ttl

  unfoldable pub refresh_ttl : ℤ
  refresh_ttl =
      if eqb_ℤ g.env_refresh_ttl (pos 0) then pos 604_800_000_000_000 else g.env_refresh_ttl

  unfoldable pub generate_access_token : User → M String
  unfolding access_ttl
  generate_access_token user = do
    at ← now
    jti ← new_uuid
    from_result (
        g.sign_token
          (record {
            sub = user.id;
            username = user.username;
            role = user.role;
            iat = g.unix_seconds at;
            exp = g.unix_seconds (at +ℤ access_ttl);
            jti = jti;
          })
          g.env_jwt_secret)

  unfoldable pub issue_refresh_token : String → M String
  unfolding hash_token refresh_ttl
  issue_refresh_token user_id = do
    token_value ← on_host g.rand_hex
    at ← now
    id ← new_uuid
    Repo.create_refresh_token (record {
      id = id;
      user_id = user_id;
      token_hash = hash_token token_value;
      expires_at = at +ℤ refresh_ttl;
      revoked_at = none;
      created_at = at;
    })
    pure token_value

  abbrev pub token_response : String → String → TokenResponse
  token_response access refresh = record {
    access_token = access;
    refresh_token = refresh;
    token_type = "Bearer";
    expires_in = g.duration_seconds access_ttl;
  }

  -- `Login` with its access token.
  abbrev pub with_access : User → String → M TokenResponse
  with_access user access = do
    refresh ←
        on_error (internal_with "failed to generate refresh token") (issue_refresh_token user.id)
    log "user logged in"
    pure (token_response access refresh)

  -- `Login` after the user was found.
  abbrev pub with_user : LoginRequest → User → M TokenResponse
  with_user req user =
      if not (g.compare_hash_and_password user.password_hash req.password)
      then fail (unauthorized "invalid username or password")
      else do
        access ←
            on_error (internal_with "failed to generate access token") (generate_access_token user)
        with_access user access

  unfoldable pub login : LoginRequest → M TokenResponse
  unfolding access_ttl unless_found internal_with unauthorized
  login req = do
    user ←
        on_error (unless_found "invalid username or password" "failed to fetch user")
          (Repo.find_user_by_username req.username)
    with_user req user

  -- `Refresh` with a token that is good.
  abbrev pub renew : RefreshToken → M TokenResponse
  renew stored = do
    user ← on_error (internal_with "failed to fetch user") (Repo.find_user_by_id stored.user_id)
    access ← on_error (internal_with "failed to generate access token") (generate_access_token user)
    pure (token_response access "")

  -- `Refresh` after the token was found.
  abbrev pub with_stored : RefreshToken → M TokenResponse
  with_stored stored =
      if not (is_null stored.revoked_at)
      then fail (unauthorized "refresh token has been revoked")
      else do
        at ← now
        if ltb_ℤ stored.expires_at at
            then fail (unauthorized "refresh token has expired")
            else renew stored

  unfoldable pub refresh : String → M TokenResponse
  unfolding access_ttl unless_found internal_with unauthorized hash_token
  refresh refresh_token = do
    stored ←
        on_error (unless_found "invalid refresh token" "failed to fetch refresh token")
          (Repo.find_refresh_token (hash_token refresh_token))
    with_stored stored

  unfoldable pub logout : String → M (Unit {0})
  unfolding unless_found internal_with hash_token
  logout refresh_token = do
    on_error (unless_found "invalid refresh token" "failed to fetch refresh token")
        (Repo.find_refresh_token (hash_token refresh_token))
    on_error (internal_with "failed to revoke refresh token")
        (Repo.revoke_refresh_token (hash_token refresh_token))
    log "refresh token revoked"
