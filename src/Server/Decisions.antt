-- ===== src/Server/Decisions.antt =====
-- What a chain of guards decides, and the guards that come after the token.
use Prim.Native.String
use mathlib.Core.List.{append_assoc}
use test_lintaspay_backend.Common.{
  ℕ, String, Bool, true, false, ◌≡◌, refl, sym, ap, ◌∙◌, ◌++◌, Bool-cases, inl, inr, ◌⊎◌, Option,
  none, some, List, ◌∷◌, [], Some,
}
use test_lintaspay_backend.Errors.{GoError, error_response, http, forbidden}
use test_lintaspay_backend.Reqctx.{Context, with_user}
use test_lintaspay_backend.External.{Services, Result, ok, err, Method, hmac, other, TokenClaims}
use test_lintaspay_backend.Middlewares as Middlewares
use test_lintaspay_backend.Middlewares.{Session, new_rate_limiter, contains, text_or_empty}
use test_lintaspay_backend.Routes.{Guard, protect, limit, require_roles}
use test_lintaspay_backend.Routes.Access.{locals_of, admits}
use test_lintaspay_backend.Server.{Request, Exchange, Ending, returned, panicked, Handler}
use test_lintaspay_backend.Server.Dispatch.{Limiter, stamped, with_headers, guard, guarded}

-- `RequireRoles` looks at the role alone.
role_check :
    (roles : List String) (locals : Context) (role : String)
    → locals.role_value ≡ some role
    → Middlewares.require_roles roles locals
      ≡ Middlewares.require_roles roles (locals_of (some role))
unfolding Middlewares.require_roles with_user
role_check roles locals role h = rw h refl

role_outcome :
    (roles : List String) (role : String)
    → (Middlewares.require_roles roles (locals_of (some role)) ≡ none)
      ⊎ (Middlewares.require_roles roles (locals_of (some role))
          ≡ some (forbidden "you are not allowed to access this resource"))
unfolding Middlewares.require_roles with_user
role_outcome roles role = elim (Bool-cases (contains roles role)) [
  | inl y ↦ inl (rw y refl)
  | inr x ↦ inr (rw x refl)
]

-- Guards that look at the session and do not change it.
abbrev pub is_plain : List Guard → Bool
is_plain [] = true
is_plain (protect ∷ gs) = false
is_plain (_ ∷ gs) = is_plain gs

-- No guard, or the token first.
abbrev pub is_headed : List Guard → Bool
is_headed [] = true
is_headed (protect ∷ gs) = is_plain gs
is_headed _ = false

module _ ⦃g : Services⦄ where
  -- The exchange with another session, and the host moved on: tables and response are the same.
  abbrev pub moved : Session → g.Host → Exchange g → Exchange g
  moved s host c = record c { session = s; world = record c.world { host = host } }

  abbrev pub role_of : Result Session → Option String
  role_of (ok s) = s.locals.role_value
  role_of (err e) = none

  -- The secret of the configuration, for HMAC methods alone.
  abbrev pub secret_for : Method → Option String
  secret_for hmac = some g.env_jwt_secret
  secret_for other = none

  -- The request brings a token after `Bearer ` that the parser accepts under that secret.
  abbrev pub Brings : Request → Exchange g → TokenClaims → Type 0
  Brings req c claims =
      (token : String) × (req.authorization ≡ String.◌++◌ "Bearer " token)
      × ((g.parse_with_claims token secret_for c.world.host).0 ≡ ok claims)

  -- Who sends the request: the role in the claims of its token (empty, if they have none), or nobody
  -- without a token that is accepted.
  abbrev pub Sender : Request → Exchange g → Option String → Type 0
  Sender req c none = ¬ ((claims : TokenClaims) × Brings req c claims)
  Sender req c (some role) =
      (claims : TokenClaims) × Brings req c claims × (role ≡ text_or_empty claims.role)

  -- The session in which an endpoint's handler runs: where there are guards, the one that came with
  -- the token's user in it.
  abbrev pub From : Request → Exchange g → List Guard → Session → Type 0
  From req c [] s = s ≡ c.session
  From req c (_ ∷ _) s =
      (claims : TokenClaims) × Brings req c claims
      × (s.context
          ≡ with_user c.session.context (text_or_empty claims.sub) (text_or_empty claims.username)
              (text_or_empty claims.role))
      × (s.locals
          ≡ with_user c.session.locals (text_or_empty claims.sub) (text_or_empty claims.username)
              (text_or_empty claims.role))

  -- An error with one of these statuses, and nothing written but headers of limiters.
  abbrev pub Refused : List ℕ → Exchange g → Ending × Exchange g → Type 0
  Refused codes c res =
      (e : GoError) × (s : Session) × (host : g.Host) × (hs : List (String × String)) × (res
        ≡ stamped hs (returned (some e), moved s host c))
      × Some (λ code. (error_response e).code ≡ code) codes

  -- The next handler runs, in a session from the given ones; limiters set their headers after it.
  abbrev pub Reached : (Session → Type 0) → Handler → Exchange g → Ending × Exchange g → Type 0
  Reached S next c res =
      (s : Session) × (host : g.Host) × (hs : List (String × String)) × S s
      × (res ≡ stamped hs (next (moved s host c)))

  abbrev pub Decided :
      Bool → (Session → Type 0) → Handler → Exchange g → Ending × Exchange g → Type 0
  Decided true S next c res = Reached S next c res ⊎ Refused (429 ∷ []) c res
  Decided false S next c res = Refused (401 ∷ 403 ∷ 429 ∷ []) c res

  pub stamped-nil : (res : Ending × Exchange g) → stamped [] res ≡ res
  stamped-nil (returned e, c) = refl
  stamped-nil (panicked, c) = refl

  stamped-stamped :
      (hs hs' : List (String × String)) (res : Ending × Exchange g)
      → stamped hs (stamped hs' res) ≡ stamped (hs ++ hs') res
  stamped-stamped hs hs' (returned e, c) =
      ap (λ l. (returned e, record c { response = record c.response { headers = l } }))
        (sym (append_assoc hs hs' c.response.headers))
  stamped-stamped hs hs' (panicked, c) = refl

  from_stamped :
      (b : Bool) (S : Session → Type 0) (next : Handler) (c : Exchange g)
      (hs : List (String × String)) (res : Ending × Exchange g)
      → Decided b S next c res
      → Decided b S next c (stamped hs res)
  from_stamped true S next c hs res (inl (s, h, hs', m, e)) =
      inl (s, h, hs ++ hs', m, ap (stamped hs) e ∙ stamped-stamped hs hs' (next (moved s h c)))
  from_stamped true S next c hs res (inr (x, s, h, hs', e, m)) = inr (
    x,
    s,
    h,
    hs ++ hs',
    ap (stamped hs) e ∙ stamped-stamped hs hs' (returned (some x), moved s h c),
    m,
  )
  from_stamped false S next c hs res (x, s, h, hs', e, m) = (
    x,
    s,
    h,
    hs ++ hs',
    ap (stamped hs) e ∙ stamped-stamped hs hs' (returned (some x), moved s h c),
    m,
  )

  pub from_moved :
      (b : Bool) (S S' : Session → Type 0) (next : Handler) (c : Exchange g) (s : Session)
      (host : g.Host) (res : Ending × Exchange g)
      → ((s : Session) → S s → S' s)
      → Decided b S next (moved s host c) res
      → Decided b S' next c res
  from_moved true S S' next c s host res f (inl (s', h, hs, m, e)) = inl (s', h, hs, f s' m, e)
  from_moved true S S' next c s host res f (inr x) = inr x
  from_moved false S S' next c s host res f x = x

module _ ⦃g : Services⦄ (allows : Limiter) where
  limited :
      (b : Bool) (S : Session → Type 0) (next : Handler) (c : Exchange g) (host : g.Host)
      (hs : List (String × String))
      → Decided b S next c (
        returned (some (http (new_rate_limiter 1).limit_reached)),
        with_headers hs (moved c.session host c),
      )
  unfolding new_rate_limiter error_response
  limited true S next c host hs = inr (_, c.session, host, hs, refl, inl refl)
  limited false S next c host hs = (_, c.session, host, hs, refl, inr (inr (inl refl)))

  pub plain-Decided :
      (req : Request) (next : Handler) (role : String) (gs : List Guard) (c : Exchange g)
      → is_plain gs ≡ true
      → c.session.locals.role_value ≡ some role
      → Decided (admits (some role) gs) (λ s. s ≡ c.session) next c (guarded allows req gs next c)
  unfolding guard new_rate_limiter Middlewares.require_roles forbidden error_response
  plain-Decided req next role [] c p h =
      inl (c.session, c.world.host, [], refl, sym (stamped-nil (next c)))
  plain-Decided req next role (protect ∷ gs) c p h = cc
  plain-Decided req next role (limit n ∷ gs) c p h =
      let key = Middlewares.limiter_key c.session.locals.username_value req.ip in
      let host = (allows n key c.world.host).1 in
      let hs = (allows n key c.world.host).0.1 in
      elim (Bool-cases (allows n key c.world.host).0.0) [
        | inl y ↦ rw y (
            from_stamped (admits (some role) gs) (λ s. s ≡ c.session) next c hs _
              (from_moved (admits (some role) gs) _ (λ s. s ≡ c.session) next c c.session host _
                (λ s e. e) (plain-Decided req next role gs (moved c.session host c) p h)))
        | inr x ↦ rw x (limited (admits (some role) gs) _ next c host hs)
      ]
  plain-Decided req next role (require_roles roles ∷ gs) c p h =
      let same = role_check roles c.session.locals role h in
      elim (role_outcome roles role) [
        | inl y ↦ rw (same, y) (plain-Decided req next role gs c p h)
        | inr x ↦ rw (same, x) (_, c.session, c.world.host, [], refl, inr (inl refl))
      ]
