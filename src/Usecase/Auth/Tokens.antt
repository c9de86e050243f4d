-- ===== src/Usecase/Auth/Tokens.antt =====
-- Who gets tokens, and what a login stores.
use test_lintaspay_backend.Common.{
  String, ◌≡◌, refl, true, false, none, List, ◌∷◌, Some, Bool-cases, Option-cases, inl, inr, ltb_ℤ,
}
use test_lintaspay_backend.Entity.{User, RefreshToken, LoginRequest, TokenResponse}
use test_lintaspay_backend.External.{Result, ok, err, Services}
use test_lintaspay_backend.External.Sql.{Database}
use test_lintaspay_backend.Monad.{World, pure, ◌>>=◌, ◌>>◌, on_error}
use test_lintaspay_backend.Monad.Laws.{Result-cases}
use test_lintaspay_backend.Repository.Auth as Repo
use test_lintaspay_backend.Repository.Auth.{is_null, has_hash}
use test_lintaspay_backend.Usecase.Disbursements.{internal_with}
use test_lintaspay_backend.Usecase.Auth.{
  hash_token, issue_refresh_token, generate_access_token, with_access, with_user, login,
  with_stored, refresh,
}
use test_lintaspay_backend.Usecase.Auth.Revocation.{tokens}

module _ ⦃g : Services⦄ ⦃db : Database g⦄ where
  -- A fresh row for the user, with the hash of the token that is handed out.
  abbrev pub Issued : String → String → List RefreshToken → List RefreshToken → Type 0
  Issued user_id token old new =
      (row : RefreshToken) × (new ≡ row ∷ old)
      × (row.token_hash ≡ hash_token token)
      × (row.user_id ≡ user_id)
      × (row.revoked_at ≡ none)

  abbrev IssuedIf : String → Result String → List RefreshToken → List RefreshToken → Type 0
  IssuedIf user_id (ok token) old new = Issued user_id token old new
  IssuedIf user_id (err e) old new = new ≡ old

  stored :
      (user_id token : String) (row : RefreshToken) (w : World g)
      → row.token_hash ≡ hash_token token
      → row.user_id ≡ user_id
      → row.revoked_at ≡ none
      → let m = Repo.create_refresh_token row >> pure token in
        IssuedIf user_id (m w).0 (tokens w) (tokens (m w).1)
  unfolding Repo.create_refresh_token
  stored user_id token row w h u r =
      elim (Result-cases (g.refresh_tokens.create row w.refresh_tokens).0) [
        | inl (tt, e) ↦ rw e (row, db.token_table.create_ok row _ e, h, u, r)
        | inr (x, e) ↦ rw e (db.token_table.create_err row _ x e)
      ]

  issue_refresh_token-Issued :
      (user_id : String) (w : World g)
      → IssuedIf user_id
          (issue_refresh_token user_id w).0
          (tokens w)
          (tokens (issue_refresh_token user_id w).1)
  unfolding issue_refresh_token
  issue_refresh_token-Issued user_id w = elim (Result-cases (g.rand_hex w.host).0) [
    | inl (token, e) ↦ rw e (stored user_id token _ _ refl refl refl)
    | inr (x, e) ↦ rw e refl
  ]

  -- What a login did, by its result.
  abbrev pub LoggedIn :
      LoginRequest
      → Result TokenResponse
      → List User
      → List RefreshToken
      → List RefreshToken
      → Type 0
  LoggedIn req (err e) users old new = new ≡ old
  LoggedIn req (ok a) users old new =
      (user : User) × Some (λ u. u ≡ user) users
      × (g.sql_eq user.username req.username ≡ true)
      × (g.compare_hash_and_password user.password_hash req.password ≡ true)
      × Issued user.id a.refresh_token old new

  access-LoggedIn :
      (req : LoginRequest) (users : List User) (user : User) (access : String) (w : World g)
      → Some (λ u. u ≡ user) users
      → g.sql_eq user.username req.username ≡ true
      → g.compare_hash_and_password user.password_hash req.password ≡ true
      → LoggedIn req
          (with_access user access w).0
          users
          (tokens w)
          (tokens (with_access user access w).1)
  access-LoggedIn req users user access w m n p =
      let h = issue_refresh_token-Issued user.id w in
      elim (Result-cases (issue_refresh_token user.id w).0) [
        | inl (token, e) ↦ rw e (user, m, n, p, rw e at h)
        | inr (x, e) ↦ rw e (rw e at h)
      ]

  user-LoggedIn :
      (req : LoginRequest) (users : List User) (user : User) (w : World g)
      → Some (λ u. u ≡ user) users
      → g.sql_eq user.username req.username ≡ true
      → LoggedIn req (with_user req user w).0 users (tokens w) (tokens (with_user req user w).1)
  unfolding generate_access_token
  user-LoggedIn req users user w m n =
      elim (Bool-cases (g.compare_hash_and_password user.password_hash req.password)) [
        | inl p ↦ rw p (signed _ _ p)
        | inr p ↦ rw p refl
      ]
    where
      signed :
          (r : Result String) (host : g.Host)
          → g.compare_hash_and_password user.password_hash req.password ≡ true
          → let w' = record w { host = host } in
            let c =
              on_error (internal_with "failed to generate access token") (λ _. (r, w'))
              >>= with_access user in
            LoggedIn req (c w).0 users (tokens w) (tokens (c w).1)
      signed (ok access) host p =
          access-LoggedIn req users user access (record w { host = host }) m n p
      signed (err e) host p = refl

  -- For every request and state, and whatever the services answer: if `Login` returns tokens, the
  -- users have a row with this username whose password hash matches the password, and exactly one
  -- refresh token was stored, for this user, not revoked, under the hash of the one returned; if it
  -- returns an error, no refresh token was stored or changed.
  pub login-LoggedIn :
      (req : LoginRequest) (w : World g)
      → LoggedIn req (login req w).0 (db.user_rows w.users) (tokens w) (tokens (login req w).1)
  unfolding login Repo.find_user_by_username
  login-LoggedIn req w =
      elim (Result-cases (g.users.first (λ u. g.sql_eq u.username req.username) w.users).0) [
        | inl (user, e) ↦
            let (_, n, m) = db.user_table.first_ok _ w.users user e in
            rw e (user-LoggedIn req (db.user_rows w.users) user _ m n)
        | inr (x, e) ↦ rw e refl
      ]

  -- What a refresh rests on: a stored row with the token's hash that is not revoked and not expired.
  abbrev pub Renewed : String → Result TokenResponse → World g → Type 0
  Renewed token (err e) w = Unit
  Renewed token (ok a) w =
      (t : RefreshToken) × Some (λ x. x ≡ t) (tokens w)
      × (has_hash (hash_token token) t ≡ true)
      × (t.revoked_at ≡ none)
      × (ltb_ℤ t.expires_at (g.time_now w.host).0 ≡ false)

  -- For every token and state, and whatever the services answer: if `Refresh` returns an access
  -- token, the token's hash is stored in a row that is not revoked and, by the clock of the
  -- request, not expired.
  pub refresh-Renewed : (token : String) (w : World g) → Renewed token (refresh token w).0 w
  unfolding refresh hash_token Repo.find_refresh_token
  refresh-Renewed token w =
      let h = g.sha256_hex token in
      elim (Result-cases (g.refresh_tokens.first (has_hash h) w.refresh_tokens).0) [
        | inl (t, e) ↦
            let (_, found, member) = db.token_table.first_ok _ w.refresh_tokens t e in
            rw e (good t _ member found)
        | inr (x, e) ↦ rw e tt
      ]
    where
      unexpired :
          (t : RefreshToken) (r : Result TokenResponse)
          → Some (λ x. x ≡ t) (tokens w)
          → has_hash (g.sha256_hex token) t ≡ true
          → t.revoked_at ≡ none
          → ltb_ℤ t.expires_at (g.time_now w.host).0 ≡ false
          → Renewed token r w
      unexpired t (ok a) m f n x = (t, m, f, n, x)
      unexpired t (err e) m f n x = tt

      good :
          (t : RefreshToken) (state : g.refresh_tokens.State)
          → Some (λ x. x ≡ t) (tokens w)
          → has_hash (g.sha256_hex token) t ≡ true
          → Renewed token (with_stored t (record w { refresh_tokens = state })).0 w
      good t state m f = elim (Option-cases t.revoked_at) [
        | inl n ↦ elim (Bool-cases (ltb_ℤ t.expires_at (g.time_now w.host).0)) [
          | inl y ↦ rw (n, y) tt
          | inr x ↦ rw (n, x) (unexpired t _ m f n x)
        ]
        | inr (at, p) ↦ rw p tt
      ]
