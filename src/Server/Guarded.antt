-- ===== src/Server/Guarded.antt =====
-- The guards in front of the endpoints: who reaches which handler, and that a request that is turned
-- away changes nothing.
use test_lintaspay_backend.Common.{
  String, Bool, true, ◌≡◌, refl, sym, ap, subst, inl, Option, none, some, List, ◌∷◌, [], All, arith,
}
use test_lintaspay_backend.Errors.{error_response}
use test_lintaspay_backend.Reqctx.{with_user}
use test_lintaspay_backend.External.{Services, Result, ok, err, TokenClaims}
use test_lintaspay_backend.Monad.{World}
use test_lintaspay_backend.Middlewares as Middlewares
use test_lintaspay_backend.Middlewares.{Session, new_rate_limiter, contains}
use test_lintaspay_backend.Middlewares.Access.{Protected, protect-Protected}
use test_lintaspay_backend.Routes.{Guard, protect, limit, require_roles, Route, register}
use test_lintaspay_backend.Routes.Access.{admits, allowed, register-access}
use test_lintaspay_backend.Server.{Request, Exchange, Ending, Handler, resume}
use test_lintaspay_backend.Server.Dispatch.{Limiter, guard, guarded, endpoint, handle_route}
use test_lintaspay_backend.Server.Senders.{brings, protect-Sender}
use test_lintaspay_backend.Server.Decisions.{
  is_plain, is_headed, moved, role_of, Sender, From, Decided, from_moved, plain-Decided,
  stamped-nil,
}

module _ ⦃g : Services⦄ (allows : Limiter) where
  identified :
      (s : Session) (r : Result TokenClaims) (w : World g) → (Middlewares.identify s r w).1 ≡ w
  identified s (ok claims) w = refl
  identified s (err e) w = refl

  -- `Protect` may move the host on, where the parser reads the clock.
  protected :
      (s : Session) (t : Option String) (w : World g)
      → (host : g.Host) × ((Middlewares.protect_token s t w).1 ≡ record w { host = host })
  protected s none w = (w.host, refl)
  protected s (some t) w = (_, identified s _ _)

  known :
      (o : Option String) (role : String) (gs : List Guard) (S : Session → Type 0) (next : Handler)
      (c : Exchange g) (res : Ending × Exchange g)
      → o ≡ some role
      → Decided (admits (some role) gs) S next c res
      → Decided (admits o (protect ∷ gs)) S next c res
  known o role gs S next c res h d =
      subst (λ x. Decided (admits x (protect ∷ gs)) S next c res) (sym h) d

  at_world :
      (b : Bool) (S : Session → Type 0) (next : Handler) (c : Exchange g) (k : Session → Handler)
      (r : Result Session) (w w' : World g)
      → w' ≡ w
      → Decided b S next c (resume k c (r, w))
      → Decided b S next c (resume k c (r, w'))
  at_world b S next c k r w w' e d = subst (λ x. Decided b S next c (resume k c (r, x))) (sym e) d

  after_protect :
      (req : Request) (next : Handler) (gs : List Guard) (c : Exchange g) (host : g.Host)
      (r : Result Session)
      → is_plain gs ≡ true
      → Protected req.authorization c.session r c.world
      → Decided (admits (role_of r) (protect ∷ gs)) (From req c (protect ∷ gs)) next c (
          resume
            (λ s c'. guarded allows req gs next (record c' { session = s }))
            c
            (r, record c.world { host = host }))
  unfolding error_response with_user
  after_protect req next gs c host (err e) p h = (e, c.session, host, [], refl, inl h)
  after_protect req next gs c host (ok s) p (token, claims, head, parsed, context, locals) =
      let role = Middlewares.text_or_empty claims.role in
      let h : s.locals.role_value ≡ some role = ap (λ l. l.role_value) locals in
      let from : From req c (protect ∷ gs) s =
        (claims, brings req c token claims head parsed, context, locals) in
      known s.locals.role_value role gs _ next c _ h (
        from_moved (admits (some role) gs) _ _ next c s host _
          (λ s' e. subst (From req c (protect ∷ gs)) (sym e) from)
          (plain-Decided allows req next role gs (moved s host c) p h))

  abbrev role_in : Request → Exchange g → Option String
  role_in req c = role_of (Middlewares.protect req.authorization c.session c.world).0

  headed-Decided :
      (req : Request) (next : Handler) (gs : List Guard) (c : Exchange g)
      → is_headed gs ≡ true
      → Decided (admits (role_in req c) gs) (From req c gs) next c (guarded allows req gs next c)
  unfolding guard Middlewares.protect
  headed-Decided req next [] c p =
      inl (c.session, c.world.host, [], refl, sym (stamped-nil (next c)))
  headed-Decided req next (protect ∷ gs) c p =
      let header = req.authorization in
      let (host, e) = protected c.session (Middlewares.strip_prefix "Bearer " header) c.world in
      at_world _ _ next c (λ s c'. guarded allows req gs next (record c' { session = s })) _ _ _ e
        (after_protect req next gs c host _ p (protect-Protected header c.session c.world))
  headed-Decided req next (limit n ∷ gs) c p = cc
  headed-Decided req next (require_roles roles ∷ gs) c p = cc

  -- What becomes of a request at a route, by who sends it.
  abbrev pub RouteDecided : Request → Exchange g → Option String → Route → Type 0
  RouteDecided req c who r =
      Decided (allowed r.endpoint who) (From req c r.guards) (endpoint allows req r.endpoint) c
        (handle_route allows req r c)

  routes-Decided :
      (req : Request) (c : Exchange g) (rs : List Route)
      → All (λ r. is_headed r.guards ≡ true) rs
      → All (λ r. admits (role_in req c) r.guards ≡ allowed r.endpoint (role_in req c)) rs
      → All (RouteDecided req c (role_in req c)) rs
  unfolding handle_route
  routes-Decided req c [] h a = tt
  routes-Decided req c (r ∷ rs) (h, hs) (a, as') = (
    subst
        (λ b.
          Decided b (From req c r.guards) (endpoint allows req r.endpoint) c
            (handle_route allows req r c))
        a (headed-Decided req (endpoint allows req r.endpoint) r.guards c h),
    routes-Decided req c rs hs as',
  )

  -- For every request and state, whatever the parser of tokens, the limiter and the services answer:
  -- the request has a sender, which is the role in the claims of a token that it brings after
  -- `Bearer ` and that the parser accepts under the configured secret for HMAC methods alone, or
  -- nobody if it brings no such token. At every registered route: if the README's table of endpoints
  -- does not allow the endpoint to the sender, the request is refused with status 401, 403 or 429,
  -- and no row and no log line is touched, nor the response but for headers of limiters. If the
  -- table allows it, the endpoint's handler runs, in a session with the user of the token where the
  -- route has guards and in the untouched one elsewhere, or the request is refused with status 429
  -- in the same way.
  pub handle_route-Decided :
      (req : Request) (c : Exchange g)
      → (who : Option String) × Sender req c who × All (RouteDecided req c who) register
  unfolding register
  handle_route-Decided req c = (
    role_in req c,
    protect-Sender req c,
    routes-Decided req c register (ground arith) (register-access (role_in req c)),
  )
