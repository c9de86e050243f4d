-- ===== src/Server/Refusals.antt =====
-- A request that is not allowed, from its arrival to the response.
use test_lintaspay_backend.Common.{
  ℕ, String, Bool, true, false, ◌≡◌, ◌⊎◌, refl, sym, ap, subst, Bool-cases, inl, inr, Option, none,
  some, List, [], ◌∷◌, Some, All, ◌==◌, if◌then◌else◌,
}
use test_lintaspay_backend.Errors.{GoError, error_response, logs_failure}
use test_lintaspay_backend.Reqctx.{background, with_request_id}
use test_lintaspay_backend.External.{Services}
use test_lintaspay_backend.Monad.{World}
use test_lintaspay_backend.Middlewares.{Session, request_id_handle}
use test_lintaspay_backend.Routes.{Route, register}
use test_lintaspay_backend.Routes.Access.{allowed}
use test_lintaspay_backend.Server.{
  Request, Exchange, Ending, returned, Handler, Line, empty, completed, recover, answer, serve,
  new_fiber_app, recovery, request_logger, request_id_middleware,
}
use test_lintaspay_backend.Server.Answers.{sent_id}
use test_lintaspay_backend.Server.Dispatch.{Limiter, stamped, endpoint, handle_route}
use test_lintaspay_backend.Server.Decisions.{moved, Sender, From, Refused, Decided}
use test_lintaspay_backend.Server.Guarded.{RouteDecided, handle_route-Decided}

module _ ⦃g : Services⦄ where
  -- The host once the request has its id.
  abbrev pub host_with_id : Request → World g → g.Host
  host_with_id req w = if req.request_id == "" then (g.new_uuid w.host).1 else w.host

  -- The exchange as it comes to the route's handlers.
  abbrev pub entry : Request → World g → List Line → Exchange g
  entry req w lines =
      let id = sent_id req w in
      record {
        session = record {
          locals = record background { request_id_value = some id };
          context = with_request_id background id;
        };
        response = record { status = 200; headers = ("X-Request-ID", id) ∷ []; body = empty };
        world = record w { host = (g.time_now (host_with_id req w)).1 };
        lines = lines;
      }

  -- What the middlewares make of the way in which the route's handlers end.
  abbrev pub finished : Request → World g → Ending × Exchange g → Option (Exchange g)
  finished req w (e, c) =
      let (e', c') = recover e c in
      let (e'', c'') = completed req (g.time_now (host_with_id req w)).0 e' c' in answer e'' c''

  pub serve-eq-finished :
      (req : Request) (next : Handler) (w : World g) (lines : List Line)
      → serve req next w lines ≡ finished req w (next (entry req w lines))
  unfolding serve new_fiber_app request_id_middleware request_logger recovery request_id_handle
      with_request_id
  serve-eq-finished req next w lines = elim (Bool-cases (req.request_id == "")) [
    | inl y ↦ rw y refl
    | inr n ↦ rw n refl
  ]

  -- The tables are the same; the host and the server's log may have moved on.
  abbrev pub Untouched : World g → World g → Type 0
  Untouched w w' =
      (w'.disbursements ≡ w.disbursements)
      × (w'.idempotency_keys ≡ w.idempotency_keys)
      × (w'.audit_logs ≡ w.audit_logs)
      × (w'.users ≡ w.users)
      × (w'.refresh_tokens ≡ w.refresh_tokens)

  abbrev pub TurnedAway : List ℕ → World g → Option (Exchange g) → Type 0
  TurnedAway codes w none = ⊥
  TurnedAway codes w (some c) = Some (λ code. c.response.status ≡ code) codes × Untouched w c.world

  turned_away :
      (req : Request) (codes : List ℕ) (w : World g) (lines : List Line) (e : GoError) (s : Session)
      (host : g.Host) (hs : List (String × String))
      → Some (λ code. (error_response e).code ≡ code) codes
      → TurnedAway codes w
          (finished req w (stamped hs (returned (some e), moved s host (entry req w lines))))
  unfolding answer
  turned_away req codes w lines e s host hs h = elim (Bool-cases (logs_failure e)) [
    | inl y ↦ rw y (h, (refl, refl, refl, refl, refl))
    | inr n ↦ rw n (h, (refl, refl, refl, refl, refl))
  ]

  refused :
      (req : Request) (codes : List ℕ) (w : World g) (lines : List Line) (res : Ending × Exchange g)
      → Refused codes (entry req w lines) res
      → TurnedAway codes w (finished req w res)
  refused req codes w lines res (e, s, host, hs, same, h) =
      subst (λ r. TurnedAway codes w (finished req w r)) (sym same)
        (turned_away req codes w lines e s host hs h)

  -- The answer is the one of the next handler, run in a session from the given ones on the tables as
  -- they were, behind the middlewares.
  abbrev pub Passed :
      (Session → Type 0) → Handler → Request → World g → List Line → Option (Exchange g) → Type 0
  Passed S next req w lines res =
      (s : Session) × (host : g.Host) × (hs : List (String × String)) × S s
      × (res ≡ finished req w (stamped hs (next (moved s host (entry req w lines)))))

  -- What the client gets, by whether the table of endpoints allows the request.
  abbrev pub Served :
      Bool
      → (Session → Type 0)
      → Handler
      → Request
      → World g
      → List Line
      → Option (Exchange g)
      → Type 0
  Served true S next req w lines res = Passed S next req w lines res ⊎ TurnedAway (429 ∷ []) w res
  Served false S next req w lines res = TurnedAway (401 ∷ 403 ∷ 429 ∷ []) w res

  served :
      (req : Request) (next : Handler) (w : World g) (lines : List Line) (b : Bool)
      (S : Session → Type 0) (res : Ending × Exchange g)
      → Decided b S next (entry req w lines) res
      → Served b S next req w lines (finished req w res)
  served req next w lines true S res (inl (s, host, hs, m, e)) =
      inl (s, host, hs, m, ap (finished req w) e)
  served req next w lines true S res (inr x) = inr (refused req (429 ∷ []) w lines res x)
  served req next w lines false S res d = refused req (401 ∷ 403 ∷ 429 ∷ []) w lines res d

module _ ⦃g : Services⦄ (allows : Limiter) where
  -- What the client gets at a route, by who sends the request.
  abbrev pub RouteServed : Request → World g → List Line → Option String → Route → Type 0
  RouteServed req w lines who r =
      Served (allowed r.endpoint who) (From req (entry req w lines) r.guards)
        (endpoint allows req r.endpoint) req w lines (serve req (handle_route allows req r) w lines)

  routes-Served :
      (req : Request) (w : World g) (lines : List Line) (who : Option String) (rs : List Route)
      → All (RouteDecided allows req (entry req w lines) who) rs
      → All (RouteServed req w lines who) rs
  routes-Served req w lines who [] d = tt
  routes-Served req w lines who (r ∷ rs) (d, ds) =
      let next = endpoint allows req r.endpoint in
      let c = entry req w lines in
      (
        subst (Served (allowed r.endpoint who) (From req c r.guards) next req w lines)
            (sym (serve-eq-finished req (handle_route allows req r) w lines))
            (served req next w lines (allowed r.endpoint who) (From req c r.guards) _ d),
        routes-Served req w lines who rs ds,
      )

  -- From the arrival to the response, for every request and state, whatever the parser of tokens, the
  -- limiter and the services answer: the request has a sender, which is the role in the claims of a
  -- token that it brings after `Bearer ` and that the parser accepts under the configured secret for
  -- HMAC methods alone, or nobody if it brings no such token. At every registered route: if the
  -- README's table does not allow the endpoint to the sender, the request is answered with status
  -- 401, 403 or 429 and leaves every table as it was. If the table allows it, the answer is what the
  -- middlewares make of the endpoint's handler, run with the token's user where the route has
  -- guards, or the request is answered with status 429 and leaves every table as it was.
  pub serve-Served :
      (req : Request) (w : World g) (lines : List Line)
      → (who : Option String) × Sender req (entry req w lines) who
        × All (RouteServed req w lines who) register
  serve-Served req w lines =
      let (who, sender, decided) = handle_route-Decided allows req (entry req w lines) in
      (who, sender, routes-Served req w lines who register decided)
