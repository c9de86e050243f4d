-- ===== src/Middlewares/Access.antt =====
-- Who passes `Protect` and `RequireRoles`.
use Prim.Native.Char.{code}
use Prim.Native.String
use text.Mathlib.TextEquality.{Char-path}
use text.Mathlib.TextLemmas.{nil-append, cons-append}
use test_lintaspay_backend.Common.{
  String, ◌≡◌, refl, sym, Option, none, some, eqb, Bool-cases, inl, inr, arith,
}
use test_lintaspay_backend.Errors.{unauthorized, error_response}
use test_lintaspay_backend.Reqctx.{with_user}
use test_lintaspay_backend.External.{Services, Result, ok, err, TokenClaims}
use test_lintaspay_backend.Monad.{World}
use test_lintaspay_backend.Middlewares.{
  Session, strip_prefix, key_func, identify, protect_token, protect, text_or_empty,
}

-- What follows the prefix, if anything does.
strip_prefix-append : (p s t : String) → strip_prefix p s ≡ some t → s ≡ String.◌++◌ p t
unfolding strip_prefix
strip_prefix-append String.[] s t h = rw nil-append (let same : s ≡ t = cc in same)
strip_prefix-append (String.◌∷◌ c p) String.[] t h = cc
strip_prefix-append (String.◌∷◌ c p) (String.◌∷◌ d s) t h =
    elim (Bool-cases (eqb (code c) (code d))) [
      | inl e ↦
          let same : c ≡ d = Char-path c d (ground arith) in
          rw (same, strip_prefix-append p s t (rw e at h)) (sym (cons-append d p t))
      | inr n ↦ let q : none ≡ some t = rw n at h in cc
    ]

module _ ⦃g : Services⦄ where
  -- What `Protect` did: it read a token after `Bearer `, the parser accepted it under the secret
  -- for HMAC methods alone, and the session carries its claims; or it refused with status 401.
  abbrev pub Protected : String → Session → Result Session → World g → Type 0
  Protected header s (err e) w = (error_response e).code ≡ 401
  Protected header s (ok s') w =
      (token : String) × (claims : TokenClaims) × (header ≡ String.◌++◌ "Bearer " token)
      × ((g.parse_with_claims token (key_func g.env_jwt_secret) w.host).0 ≡ ok claims)
      × (s'.context
          ≡ with_user s.context (text_or_empty claims.sub) (text_or_empty claims.username)
              (text_or_empty claims.role))
      × (s'.locals
          ≡ with_user s.locals (text_or_empty claims.sub) (text_or_empty claims.username)
              (text_or_empty claims.role))

  -- For every header, session and state, whatever the JWT parser answers: `Protect` lets a request
  -- through only with a header that is `Bearer ` and a token that the parser accepts under the
  -- configured secret, the request's user is then the token's, and every refusal has status 401.
  pub protect-Protected :
      (header : String) (s : Session) (w : World g) → Protected header s (protect header s w).0 w
  unfolding protect unauthorized error_response with_user
  protect-Protected header s w = go (strip_prefix "Bearer " header) refl
    where
      parsed :
          (token : String) (r : Result TokenClaims)
          → header ≡ String.◌++◌ "Bearer " token
          → (g.parse_with_claims token (key_func g.env_jwt_secret) w.host).0 ≡ r
          → (w' : World g) → Protected header s (identify s r w').0 w
      parsed token (err e) h p w' = refl
      parsed token (ok claims) h p w' = (token, claims, h, p, refl, refl)

      go :
          (r : Option String)
          → strip_prefix "Bearer " header ≡ r
          → Protected header s (protect_token s r w).0 w
      go none h = refl
      go (some token) h = parsed token _ (strip_prefix-append "Bearer " header token h) refl _
