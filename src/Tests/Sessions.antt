-- ===== src/Tests/Sessions.antt =====
-- A login and the refresh after it.
use test_lintaspay_backend.Common.{
  ◌≡◌, refl, sym, true, any, Some, inl, inr, ◌==◌, [], ◌∷◌, quot, ◌+ℤ◌,
}
use test_lintaspay_backend.Entity.{User, TokenResponse}
use test_lintaspay_backend.External.{ok}
use test_lintaspay_backend.External.Memory.{memory_database}
use test_lintaspay_backend.External.Memory.Reliable.{memory-FindsTokens}
use test_lintaspay_backend.Monad.{World}
use test_lintaspay_backend.Repository.Auth as Repo
use test_lintaspay_backend.Usecase.Auth.{
  access_ttl, refresh_ttl, generate_access_token, issue_refresh_token, login, refresh,
}
use test_lintaspay_backend.Usecase.Auth.Renewal.{login-refresh}
use test_lintaspay_backend.Tests.{row, services}
use test_lintaspay_backend.Tests.Access.{ann, with_ann, credentials, tokens_of_ann}

abbrev afterwards : World services
afterwards = (login ⦃g = services⦄ credentials with_ann).1

ann_known :
    (user : User) → Some (λ u. u ≡ user) (ann ∷ []) → any (λ u. u.id == user.id) (ann ∷ []) ≡ true
ann_known user (inl e) = rw (sym e) refl
ann_known user (inr x) = elim x [ ]

login-refresh_example : (b : TokenResponse) × ((refresh ⦃g = services⦄ "d2" afterwards).0 ≡ ok b)
unfolding login access_ttl refresh_ttl Repo.find_user_by_username generate_access_token
    issue_refresh_token Repo.create_refresh_token quot ◌+ℤ◌
login-refresh_example =
    login-refresh ⦃g = services⦄ ⦃db = memory_database row⦄ (memory-FindsTokens row) credentials
      with_ann afterwards tokens_of_ann (λ c. (_, refl)) refl refl refl refl refl
