-- ===== src/Usecase/Auth/Revocation.antt =====
-- A token that was logged out gives no more access tokens.
use mathlib.Core.Path.{subst}
use test_lintaspay_backend.Common.{
  ℕ, String, ◌≡◌, refl, true, false, List, [], ◌∷◌, All, Some, Bool-cases, inl, inr, rewrite_if,
  arith,
}
use test_lintaspay_backend.Entity.{Time, RefreshToken, TokenResponse}
use test_lintaspay_backend.External.{Result, ok, err, Services}
use test_lintaspay_backend.External.Sql.{Database, always, both}
use test_lintaspay_backend.Monad.{World, ◌>>◌, on_error, log}
use test_lintaspay_backend.Monad.Laws.{Result-cases}
use test_lintaspay_backend.Repository.Auth.{
  is_null, revoke, has_hash, has_hash_unrevoked, find_refresh_token, revoke_refresh_token,
}
use test_lintaspay_backend.Usecase.Disbursements.{internal_with}
use test_lintaspay_backend.Usecase.Auth.{hash_token, refresh, logout, unless_found}

module _ ⦃g : Services⦄ ⦃db : Database g⦄ where
  abbrev pub tokens : World g → List RefreshToken
  tokens w = db.token_rows w.refresh_tokens

  -- Every row with this hash is revoked.
  abbrev pub IsRevoked : String → RefreshToken → Type 0
  IsRevoked h t = has_hash h t ≡ true → is_null t.revoked_at ≡ false

  revokes :
      (h : String) (at : Time) (ts : List RefreshToken)
      → All (IsRevoked h) (rewrite_if (both always (has_hash_unrevoked h)) (revoke at) ts)
  unfolding revoke
  revokes h at [] = tt
  revokes h at (t ∷ ts) = elim (Bool-cases (has_hash_unrevoked h t)) [
    | inl y ↦ rw y ((λ e. refl), revokes h at ts)
    | inr n ↦ rw n ((λ e. ground arith), revokes h at ts)
  ]

  revoked_member :
      (h : String) (t : RefreshToken) (ts : List RefreshToken)
      → All (IsRevoked h) ts
      → has_hash h t ≡ true
      → Some (λ x. x ≡ t) ts
      → is_null t.revoked_at ≡ false
  revoked_member h t (x ∷ ts) (r, rs) e (inl s) = subst (IsRevoked h) s r e
  revoked_member h t (x ∷ ts) (r, rs) e (inr s) = revoked_member h t ts rs e s
  revoked_member h t [] rs e s = elim s [ ]

  -- After an `UPDATE` that did not fail.
  revoke_refresh_token-revokes :
      (h : String) (w : World g) (n : ℕ)
      → (revoke_refresh_token h w).0 ≡ ok n
      → All (IsRevoked h) (tokens (revoke_refresh_token h w).1)
  unfolding revoke_refresh_token
  revoke_refresh_token-revokes h w n e =
      rw (db.token_table.updates_ok (has_hash_unrevoked h) (revoke (g.time_now w.host).0) _ n e)
        (revokes h (g.time_now w.host).0 _)

  -- What `Logout` leaves, by its result.
  abbrev pub LoggedOut : String → Result (Unit {0}) → World g → Type 0
  LoggedOut h (err e) w = Unit
  LoggedOut h (ok _) w = All (IsRevoked h) (tokens w)

  revoked_result :
      (h : String) (w : World g) (r : Result ℕ) (w' : World g)
      → ((n : ℕ) → r ≡ ok n → All (IsRevoked h) (tokens w'))
      → let m =
          on_error (internal_with "failed to revoke refresh token") (λ _. (r, w'))
          >> log "refresh token revoked" in
        LoggedOut h (m w).0 (m w).1
  revoked_result h w (ok n) w' k = k n refl
  revoked_result h w (err e) w' k = tt

  pub logout-LoggedOut :
      (token : String) (w : World g)
      → LoggedOut (hash_token token) (logout token w).0 (logout token w).1
  unfolding logout hash_token
  logout-LoggedOut token w =
      go (find_refresh_token (g.sha256_hex token) w).0 (find_refresh_token (g.sha256_hex token) w).1
    where
      go :
          (r : Result RefreshToken) (w' : World g)
          → let m =
              on_error
                (unless_found "invalid refresh token" "failed to fetch refresh token")
                (λ _. (r, w'))
              >> (on_error
                    (internal_with "failed to revoke refresh token")
                    (revoke_refresh_token (g.sha256_hex token))
                  >> log "refresh token revoked") in
            LoggedOut (g.sha256_hex token) (m w).0 (m w).1
      go (err e) w' = tt
      go (ok t) w' =
          revoked_result (g.sha256_hex token) w' _ _
            (λ n e. revoke_refresh_token-revokes (g.sha256_hex token) w' n e)

  abbrev pub IsRefused : Result TokenResponse → Type 0
  IsRefused (ok a) = ⊥
  IsRefused (err e) = Unit

  pub find_refresh_token-ok :
      (h : String) (w : World g) (t : RefreshToken)
      → (find_refresh_token h w).0 ≡ ok t
      → (has_hash h t ≡ true) × Some (λ x. x ≡ t) (tokens w)
  unfolding find_refresh_token
  find_refresh_token-ok h w t e =
      elim (Result-cases (g.refresh_tokens.first (has_hash h) w.refresh_tokens).0) [
        | inl (t', p) ↦
            let q : ok t' ≡ ok t = rw p at e in
            let (_, found, member) =
              db.token_table.first_ok (has_hash h) w.refresh_tokens t (cc (q, p)) in
            (found, member)
        | inr (x, p) ↦ let q : err _ ≡ ok t = rw p at e in cc
      ]

  pub refresh-IsRefused :
      (token : String) (w : World g)
      → All (IsRevoked (hash_token token)) (tokens w)
      → IsRefused (refresh token w).0
  unfolding refresh hash_token
  refresh-IsRefused token w h = elim (Result-cases (find_refresh_token (g.sha256_hex token) w).0) [
    | inl (t, e) ↦
        let (found, member) = find_refresh_token-ok (g.sha256_hex token) w t e in
        let revoked = revoked_member (g.sha256_hex token) t (tokens w) h found member in
        rw (e, revoked) tt
    | inr (x, e) ↦ rw e tt
  ]
