-- ===== src/Middlewares/Issued.antt =====
-- A token that `Login` gave passes `Protect`.
use Prim.Native.String
use text.Mathlib.TextLemmas.{nil-append, cons-append}
use test_lintaspay_backend.Common.{
  String, ◌≡◌, refl, ap, true, some, ℤ, ◌+ℤ◌, ltb_ℤ, arith, Bool-cases, inl, inr,
}
use test_lintaspay_backend.Reqctx.{with_user}
use test_lintaspay_backend.Entity.{User, LoginRequest, TokenResponse}
use test_lintaspay_backend.External.{Services, ok, Claims}
use test_lintaspay_backend.Monad.{World}
use test_lintaspay_backend.Monad.Laws.{Result-cases}
use test_lintaspay_backend.Middlewares.{Session, strip_prefix, key_func, protect}
use test_lintaspay_backend.Repository.Auth as Repo
use test_lintaspay_backend.Usecase.Auth as AuthCase
use test_lintaspay_backend.Usecase.Auth.{
  access_ttl, generate_access_token, with_access, login, issue_refresh_token,
}

-- `TrimPrefix` after `HasPrefix` gives back what was put behind the prefix.
pub strip_prefix-append : (p s : String) → strip_prefix p (String.◌++◌ p s) ≡ some s
unfolding strip_prefix
strip_prefix-append String.[] s = rw nil-append refl
strip_prefix-append (String.◌∷◌ c p) s = rw cons-append (ground (arith, strip_prefix-append p s))

module _ ⦃g : Services⦄ where
  abbrev claims_of : User → (iat exp : ℤ) (jti : String) → Claims
  claims_of user iat exp jti = record {
    sub = user.id;
    username = user.username;
    role = user.role;
    iat = iat;
    exp = exp;
    jti = jti;
  }

  -- JWT, for the claims about a user: a token that was signed with the secret is accepted under the
  -- secret before it expires, with the claims that were signed.
  abbrev pub Signs : User → Type 0
  Signs user =
      (iat exp : ℤ) (jti token : String) (host : g.Host)
      → g.sign_token (claims_of user iat exp jti) g.env_jwt_secret ≡ ok token
      → ltb_ℤ (g.unix_seconds (g.time_now host).0) exp ≡ true
      → (g.parse_with_claims token (key_func g.env_jwt_secret) host).0
        ≡ ok (record { sub = some user.id; username = some user.username; role = some user.role })

  accepted :
      (user : User) (token : String) (s : Session) (w : World g)
      → (g.parse_with_claims token (key_func g.env_jwt_secret) w.host).0
        ≡ ok (record { sub = some user.id; username = some user.username; role = some user.role })
      → (protect (String.◌++◌ "Bearer " token) s w).0
        ≡ ok (record {
          locals = with_user s.locals user.id user.username user.role;
          context = with_user s.context user.id user.username user.role;
        })
  unfolding protect
  accepted user token s w h = rw (strip_prefix-append "Bearer " token, h) refl

  -- The access token of a login is the one that was signed.
  carries :
      (user : User) (access : String) (w : World g) (a : TokenResponse)
      → (with_access user access w).0 ≡ ok a
      → access ≡ a.access_token
  carries user access w a h = elim (Result-cases (issue_refresh_token user.id w).0) [
    | inl (token, e) ↦ let q = rw e at h in cc
    | inr (x, e) ↦ let q = rw e at h in cc
  ]

  abbrev claims_at : User → World g → Claims
  claims_at user w =
      let (at, host) = g.time_now w.host in
      claims_of user (g.unix_seconds at) (g.unix_seconds (at +ℤ access_ttl)) (g.new_uuid host).0

  signed :
      (req : LoginRequest) (user : User) (w : World g) (a : TokenResponse)
      → (AuthCase.with_user req user w).0 ≡ ok a
      → g.sign_token (claims_at user w) g.env_jwt_secret ≡ ok a.access_token
  unfolding generate_access_token
  signed req user w a h =
      elim (Bool-cases (g.compare_hash_and_password user.password_hash req.password)) [
        | inr n ↦ let q = rw n at h in cc
        | inl y ↦
            let q = rw y at h in
            elim (Result-cases (g.sign_token (claims_at user w) g.env_jwt_secret)) [
              | inl (token, e) ↦
                  let c = carries user token _ a (rw e at q) in rw e (ap (λ t. ok t) c)
              | inr (x, e) ↦ let c = rw e at q in cc
            ]
      ]

  -- For a user whose tokens verify: if `Login` finds the user and returns tokens, then `Protect`
  -- accepts the access token behind `Bearer ` until the time to live is over, in whatever session and
  -- later state, and the request is then this user's, with the stored id, name and role.
  pub login-protect :
      (req : LoginRequest) (user : User) (w later : World g) (a : TokenResponse) (s : Session)
      → Signs user
      → (g.users.first (λ u. g.sql_eq u.username req.username) w.users).0 ≡ ok user
      → (login req w).0 ≡ ok a
      → ltb_ℤ
          (g.unix_seconds (g.time_now later.host).0)
          (g.unix_seconds ((g.time_now w.host).0 +ℤ access_ttl))
        ≡ true
      → (protect (String.◌++◌ "Bearer " a.access_token) s later).0
        ≡ ok (record {
          locals = with_user s.locals user.id user.username user.role;
          context = with_user s.context user.id user.username user.role;
        })
  unfolding login Repo.find_user_by_username
  login-protect req user w later a s signs found logged_in valid =
      let users = (g.users.first (λ u. g.sql_eq u.username req.username) w.users).1 in
      let h = signed req user (record w { users = users }) a (rw found at logged_in) in
      accepted user a.access_token s later (signs _ _ _ _ later.host h valid)
