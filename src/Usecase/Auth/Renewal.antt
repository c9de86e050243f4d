-- ===== src/Usecase/Auth/Renewal.antt =====
-- The refresh token of a login gets a new access token.
use test_lintaspay_backend.Common.{
  String, Bool, not, ◌≡◌, refl, subst, ◌∙◌, true, false, any, only, not_any, ◌&&◌, ltb_ℤ, ◌∷◌, none,
}
use test_lintaspay_backend.Entity.{User, RefreshToken, LoginRequest, TokenResponse}
use test_lintaspay_backend.External.{ok, Services, Claims}
use test_lintaspay_backend.External.Sql.{Database, FindsTokens}
use test_lintaspay_backend.Monad.{World}
use test_lintaspay_backend.Repository.Auth as Repo
use test_lintaspay_backend.Repository.Auth.{is_null, has_hash}
use test_lintaspay_backend.Usecase.Auth.{
  hash_token, generate_access_token, login, with_stored, refresh, token_response,
}
use test_lintaspay_backend.Usecase.Auth.Revocation.{tokens}
use test_lintaspay_backend.Usecase.Auth.Tokens.{LoggedIn, login-LoggedIn}

known_owner : (b : Bool) → not b ≡ false → b ≡ true
known_owner true h = refl
known_owner false h = cc

module _ ⦃g : Services⦄ ⦃db : Database g⦄ (finds : FindsTokens g db) where
  -- A signature is made of any claims.
  abbrev pub SignsAll : Type 0
  SignsAll = (c : Claims) → (token : String) × (g.sign_token c g.env_jwt_secret ≡ ok token)

  access_token :
      (user : User) (w : World g)
      → SignsAll
      → (access : String) × ((generate_access_token user w).0 ≡ ok access)
  unfolding generate_access_token
  access_token user w signs = signs _

  renewed :
      (t : RefreshToken) (w : World g)
      → SignsAll
      → any (λ u. g.sql_eq u.id t.user_id) (db.user_rows w.users) ≡ true
      → t.revoked_at ≡ none
      → ltb_ℤ t.expires_at (g.time_now w.host).0 ≡ false
      → (a : TokenResponse) × ((with_stored t w).0 ≡ ok a)
  unfolding Repo.find_user_by_id
  renewed t w signs known unrevoked in_time =
      let (user, found) = finds.user_found (λ u. g.sql_eq u.id t.user_id) w.users known in
      let users = (g.users.first (λ u. g.sql_eq u.id t.user_id) w.users).1 in
      let host = (g.time_now w.host).1 in
      let (access, s) = access_token user (record w { users = users; host = host }) signs in
      (token_response access "", rw (unrevoked, in_time, found, s) refl)

  -- On a database whose queries go through, with a signer that never fails: after `Login` returned
  -- tokens, with a refresh token whose hash no row had before, `Refresh` with that refresh token
  -- returns an access token at any later state with the tokens that the login left, as long as no
  -- row under its hash has expired and a user has the id of each such row.
  pub login-refresh :
      (req : LoginRequest) (w later : World g) (a : TokenResponse)
      → SignsAll
      → (login req w).0 ≡ ok a
      → any (has_hash (hash_token a.refresh_token)) (tokens w) ≡ false
      → tokens later ≡ tokens (login req w).1
      → any
          (λ t.
            has_hash (hash_token a.refresh_token) t && ltb_ℤ t.expires_at (g.time_now later.host).0)
          (tokens later)
        ≡ false
      → any
          (λ t.
            has_hash (hash_token a.refresh_token) t
            && not (any (λ u. g.sql_eq u.id t.user_id) (db.user_rows later.users)))
          (tokens later)
        ≡ false
      → (b : TokenResponse) × ((refresh a.refresh_token later).0 ≡ ok b)
  unfolding refresh hash_token Repo.find_refresh_token
  login-refresh req w later a signs logged_in unused kept in_time users =
      let h = g.sha256_hex a.refresh_token in
      let did : LoggedIn req (ok a) (db.user_rows w.users) (tokens w) (tokens (login req w).1) =
        subst (λ r. LoggedIn req r (db.user_rows w.users) (tokens w) (tokens (login req w).1))
          logged_in (login-LoggedIn req w) in
      let (user, member, _, _, issued) = did in
      let (row, new, hash, owner, unrevoked) = issued in
      let contents : tokens later ≡ row ∷ tokens w = kept ∙ new in
      let mine : g.sql_eq row.token_hash h ≡ true = rw hash (db.collation.eq_refl h) in
      let present : any (has_hash h) (tokens later) ≡ true = rw (contents, mine) refl in
      let (t, found) = finds.token_found (has_hash h) later.refresh_tokens present in
      let (_, matches, among) = db.token_table.first_ok _ _ t found in
      let same = only (has_hash h) t row (tokens w) unused matches (rw contents at among) in
      let state = (g.refresh_tokens.first (has_hash h) later.refresh_tokens).1 in
      let expiry = not_any _ t (tokens later) in_time among in
      let owned = not_any _ t (tokens later) users among in
      let (b, e) =
        renewed t (record later { refresh_tokens = state }) signs
          (known_owner _ (rw matches at owned)) (rw same unrevoked) (rw matches at expiry) in
      (b, rw found e)
