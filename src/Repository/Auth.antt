-- ===== src/Repository/Auth.antt =====
-- internal/repository/auth.go
use test_lintaspay_backend.Common.{ℕ, String, Bool, true, false, ◌&&◌, Option, none, some}
use test_lintaspay_backend.Entity.{Time, User, RefreshToken}
use test_lintaspay_backend.External.{Services}
use test_lintaspay_backend.Monad.{M, ◌>>=◌, on_users, on_refresh_tokens, now}
use test_lintaspay_backend.Repository.Errors.{translate}

abbrev pub is_null : Option Time → Bool
is_null none = true
is_null (some _) = false

-- `revoked_at` set to a time.
unfoldable pub revoke : Time → RefreshToken → RefreshToken
revoke at t = record t { revoked_at = some at }

module _ ⦃g : Services⦄ where
  -- `token_hash = ?`
  abbrev pub has_hash : String → RefreshToken → Bool
  has_hash h t = g.sql_eq t.token_hash h

  -- `token_hash = ? AND revoked_at IS NULL`
  abbrev pub has_hash_unrevoked : String → RefreshToken → Bool
  has_hash_unrevoked h t = g.sql_eq t.token_hash h && is_null t.revoked_at

  unfoldable pub find_user_by_username : String → M User
  unfolding translate
  find_user_by_username username =
      on_users (λ s.
        let (r, s') = g.users.first (λ u. g.sql_eq u.username username) s in (translate r, s'))

  unfoldable pub find_user_by_id : String → M User
  unfolding translate
  find_user_by_id id =
      on_users (λ s. let (r, s') = g.users.first (λ u. g.sql_eq u.id id) s in (translate r, s'))

  unfoldable pub create_refresh_token : RefreshToken → M (Unit {0})
  create_refresh_token token = on_refresh_tokens (g.refresh_tokens.create token)

  unfoldable pub find_refresh_token : String → M RefreshToken
  unfolding translate
  find_refresh_token token_hash =
      on_refresh_tokens
        (λ s. let (r, s') = g.refresh_tokens.first (has_hash token_hash) s in (translate r, s'))

  unfoldable pub revoke_refresh_token : String → M ℕ
  unfolding revoke
  revoke_refresh_token token_hash = do
    at ← now
    on_refresh_tokens (g.refresh_tokens.updates (has_hash_unrevoked token_hash) (revoke at))
