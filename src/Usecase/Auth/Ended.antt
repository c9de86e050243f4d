-- ===== src/Usecase/Auth/Ended.antt =====
-- A token that was logged out stays so, whatever logins, refreshes and logouts follow.
use test_lintaspay_backend.Common.{
  String, ◌≡◌, ◌≢◌, refl, Bool, if◌then◌else◌, true, false, List, [], ◌∷◌, All, Bool-cases, inl,
  inr, rewrite_if,
}
use test_lintaspay_backend.Errors.{GoError, HttpError}
use test_lintaspay_backend.Entity.{Time, User, RefreshToken, LoginRequest, TokenResponse}
use test_lintaspay_backend.External.{Result, ok, err, Services}
use test_lintaspay_backend.External.Sql.{Database, always, both}
use test_lintaspay_backend.Monad.{World, M, pure, fail, continue, ◌>>=◌, on_error, now, log}
use test_lintaspay_backend.Monad.Laws.{Result-cases}
use test_lintaspay_backend.Repository.Auth as Repo
use test_lintaspay_backend.Repository.Auth.{has_hash, has_hash_unrevoked, revoke}
use test_lintaspay_backend.Usecase.Auth.{hash_token, login, refresh, logout, generate_access_token}
use test_lintaspay_backend.Usecase.Auth.Tokens.{LoggedIn, login-LoggedIn}
use test_lintaspay_backend.Usecase.Auth.Revocation.{
  tokens, IsRevoked, logout-LoggedOut, refresh-IsRefused,
}

module _ ⦃g : Services⦄ ⦃db : Database g⦄ where
  -- What may follow, for a hash: logins that hand out a token with another hash, refreshes and logouts
  -- of any tokens, and anything that leaves the rows of the refresh tokens alone.
  pub data Later (h : String) (w : World g) : World g → Type 0 where
    at_once : Later h w w
    elsewhere : {u v : World g} → Later h w u → tokens v ≡ tokens u → Later h w v
    logged_in :
        {u : World g} (req : LoginRequest)
        → Later h w u
        → ((a : TokenResponse)
            → (login req u).0 ≡ ok a
            → g.sql_eq (hash_token a.refresh_token) h ≡ false)
        → Later h w (login req u).1
    refreshed : {u : World g} (token : String) → Later h w u → Later h w (refresh token u).1
    logged_out : {u : World g} (token : String) → Later h w u → Later h w (logout token u).1

  login-AllRevoked :
      (h : String) (req : LoginRequest) (u : World g)
      → All (IsRevoked h) (tokens u)
      → ((a : TokenResponse)
          → (login req u).0 ≡ ok a
          → g.sql_eq (hash_token a.refresh_token) h ≡ false)
      → All (IsRevoked h) (tokens (login req u).1)
  login-AllRevoked h req u revoked other =
      let did = login-LoggedIn req u in
      elim (Result-cases (login req u).0) [
        | inl (a, e) ↦
            let issued : LoggedIn req (ok a) (db.user_rows u.users) (tokens u)
                (tokens (login req u).1) =
              rw e at did in
            let (_, _, _, _, stored) = issued in
            let (row, new, hash, _, _) = stored in
            let foreign = other a e in rw new ((λ mine. let m = rw hash at mine in cc), revoked)
        | inr (x, e) ↦ let same : tokens (login req u).1 ≡ tokens u = rw e at did in rw same revoked
      ]

  revoke-AllRevoked :
      (h h' : String) (at : Time) (ts : List RefreshToken)
      → All (IsRevoked h) ts
      → All (IsRevoked h) (rewrite_if (both always (has_hash_unrevoked h')) (revoke at) ts)
  unfolding revoke
  revoke-AllRevoked h h' at [] r = tt
  revoke-AllRevoked h h' at (t ∷ ts) (r, rs) = elim (Bool-cases (has_hash_unrevoked h' t)) [
    | inl y ↦ rw y ((λ e. refl), revoke-AllRevoked h h' at ts rs)
    | inr n ↦ rw n (r, revoke-AllRevoked h h' at ts rs)
  ]

  -- An action that takes no revocation of this hash back.
  record Keeping (h : String) {A : Type 0} (m : M A) : Type 0 where
    at : (w : World g) → All (IsRevoked h) (tokens w) → All (IsRevoked h) (tokens (m w).1)

  module _ {h : String} where
    Keeping-continue :
        {A B : Type 0} (k : A → M B)
        → ((a : A) → Keeping h (k a))
        → (r : Result A) (w : World g) → All (IsRevoked h) (tokens w)
        → All (IsRevoked h) (tokens (continue k (r, w)).1)
    Keeping-continue k c (ok a) w r = (c a).at w r
    Keeping-continue k c (err e) w r = r

    Keeping-bind :
        {A B : Type 0} (m : M A) (k : A → M B)
        → Keeping h m
        → ((a : A) → Keeping h (k a))
        → Keeping h (m >>= k)
    Keeping-bind m k c d = record { at = λ w r. Keeping-continue k d (m w).0 (m w).1 (c.at w r) }

    Keeping-on_error :
        {A : Type 0} (f : GoError → GoError) (m : M A) → Keeping h m → Keeping h (on_error f m)
    Keeping-on_error f m c = record { at = c.at }

    Keeping-if :
        {A : Type 0} (b : Bool) (m n : M A)
        → Keeping h m
        → Keeping h n
        → Keeping h (if b then m else n)
    Keeping-if true m n c d = c
    Keeping-if false m n c d = d

    Keeping-fail : {A : Type 0} (e : HttpError) → Keeping h (fail {A = A} e)
    Keeping-fail e = record { at = λ w r. r }

    Keeping-pure : {A : Type 0} (a : A) → Keeping h (pure a)
    Keeping-pure a = record { at = λ w r. r }

    Keeping-log : (line : String) → Keeping h (log line)
    Keeping-log line = record { at = λ w r. r }

    Keeping-now : Keeping h now
    Keeping-now = record { at = λ w r. r }

    Keeping-find : (hash : String) → Keeping h (Repo.find_refresh_token hash)
    unfolding Repo.find_refresh_token
    Keeping-find hash = record { at = λ w r. rw (db.token_table.first_rows (has_hash hash) _) r }

    Keeping-find_user : (id : String) → Keeping h (Repo.find_user_by_id id)
    unfolding Repo.find_user_by_id
    Keeping-find_user id = record { at = λ w r. r }

    Keeping-access : (user : User) → Keeping h (generate_access_token user)
    unfolding generate_access_token
    Keeping-access user = record { at = λ w r. r }

    Keeping-revoke : (hash : String) → Keeping h (Repo.revoke_refresh_token hash)
    unfolding Repo.revoke_refresh_token
    Keeping-revoke hash = record {
      at = λ w r.
          let at = (g.time_now w.host).0 in
          let p = has_hash_unrevoked hash in
          elim (Result-cases (g.refresh_tokens.updates p (revoke at) w.refresh_tokens).0) [
            | inl (n, e) ↦
                rw (db.token_table.updates_ok p (revoke at) _ n e) (revoke-AllRevoked h hash at _ r)
            | inr (x, e) ↦ rw (db.token_table.updates_err p (revoke at) _ x e) r
          ];
    }

  ruleset keeping_rules = (
    Keeping-bind, Keeping-on_error, Keeping-if, Keeping-fail, Keeping-pure, Keeping-log,
    Keeping-now, Keeping-find, Keeping-find_user, Keeping-access, Keeping-revoke,
  )

  Keeping-refresh : (h token : String) → Keeping h (refresh token)
  unfolding refresh
  Keeping-refresh h token = search keeping_rules depth 30

  Keeping-logout : (h token : String) → Keeping h (logout token)
  unfolding logout
  Keeping-logout h token = search keeping_rules depth 30

  Later-AllRevoked :
      (h : String) (w : World g) {v : World g}
      → Later h w v
      → All (IsRevoked h) (tokens w)
      → All (IsRevoked h) (tokens v)
  Later-AllRevoked h w at_once r = r
  Later-AllRevoked h w (elsewhere l e) r = rw e (Later-AllRevoked h w l r)
  Later-AllRevoked h w (logged_in req l o) r = login-AllRevoked h req _ (Later-AllRevoked h w l r) o
  Later-AllRevoked h w (refreshed token l) r =
      (Keeping-refresh h token).at _ (Later-AllRevoked h w l r)
  Later-AllRevoked h w (logged_out token l) r =
      (Keeping-logout h token).at _ (Later-AllRevoked h w l r)

  -- For every token and state, and whatever the services answer: after a `Logout` that succeeded, and
  -- any logins, refreshes and logouts that follow, as long as no login hands out a token with the
  -- same hash and nothing else changes the stored refresh tokens, `Refresh` of the token fails.
  pub logout-refresh :
      (token : String) (w later : World g)
      → (logout token w).0 ≡ ok tt
      → Later (hash_token token) (logout token w).1 later
      → (a : TokenResponse) → (refresh token later).0 ≢ ok a
  logout-refresh token w later e l a q =
      let left = logout-LoggedOut token w in
      let revoked : All (IsRevoked (hash_token token)) (tokens (logout token w).1) = rw e at left in
      let refused = refresh-IsRefused token later (Later-AllRevoked _ _ l revoked) in
      rw q at refused
