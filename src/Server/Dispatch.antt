-- ===== src/Server/Dispatch.antt =====
-- What runs for a route of internal/routes/routes.go: its guards, then the handler of its endpoint.
use test_lintaspay_backend.Common.{
  ℕ, String, Bool, true, false, Option, none, some, List, [], ◌∷◌, ◌++◌,
}
use test_lintaspay_backend.Errors.{HttpError, http}
use test_lintaspay_backend.External.{Services}
use test_lintaspay_backend.Monad.{M}
use test_lintaspay_backend.Response.{Reply}
use test_lintaspay_backend.Middlewares as Middlewares
use test_lintaspay_backend.Middlewares.{limiter_key, new_rate_limiter}
use test_lintaspay_backend.Handler.Health as HealthHandler
use test_lintaspay_backend.Handler.Auth as AuthHandler
use test_lintaspay_backend.Handler.Disbursements as DisbursementHandler
use test_lintaspay_backend.Handler.Audit as AuditHandler
use test_lintaspay_backend.Routes.{
  Endpoint, health_check, login, refresh, logout, list_disbursements, create_disbursement,
  create_batch, detail, update_status, delete, list_audit_logs, Guard, protect, limit,
  require_roles, Route,
}
use test_lintaspay_backend.Server.{
  Request, Body, plain, health, token, one, page, batch, audit, Exchange, Ending, returned,
  panicked, Handler, run,
}

module _ ⦃g : Services⦄ where
  -- A handler's reply, written over the response so far.
  abbrev pub replied : {A : Type 0} → (A → Body) → Reply A → Handler
  replied body r c = (
    returned none,
    record c {
      response = record {
        status = r.status;
        headers = r.headers ++ c.response.headers;
        body = body r.body;
      };
    },
  )

  -- fiber's limiter: whether it lets a request with this key pass a limiter with this maximum, the
  -- headers that it sets, and what it keeps, which is on the host.
  abbrev pub Limiter : Type 0
  Limiter = ℕ → String → g.Host → (Bool × List (String × String)) × g.Host

  abbrev pub with_headers : List (String × String) → Exchange g → Exchange g
  with_headers hs c = record c {
    response = record c.response { headers = hs ++ c.response.headers };
  }

  -- Headers that are set when the next handlers have returned; a panic passes by.
  abbrev pub stamped : List (String × String) → Ending × Exchange g → Ending × Exchange g
  stamped hs (returned e, c) = (returned e, with_headers hs c)
  stamped hs (panicked, c) = (panicked, c)

  -- The limiter around the next handlers: past the maximum it sets its headers (`Retry-After`) and
  -- calls `LimitReached`, else it sets them (`X-RateLimit-…`) after `c.Next()`.
  abbrev pub limited_by : Bool × List (String × String) → HttpError → Handler → Handler
  limited_by (true, hs) reached next c = stamped hs (next c)
  limited_by (false, hs) reached next c = (returned (some (http reached)), with_headers hs c)

module _ ⦃g : Services⦄ (allows : Limiter) where
  abbrev pub refuse : Option HttpError → Handler → Handler
  refuse none next c = next c
  refuse (some h) next c = (returned (some (http h)), c)

  -- A guard as a handler around the next one.
  unfoldable pub guard : Request → Guard → Handler → Handler
  unfolding Middlewares.protect Middlewares.require_roles new_rate_limiter
  guard req protect next c =
      run (Middlewares.protect req.authorization c.session)
        (λ s c'. next (record c' { session = s })) c
  guard req (limit n) next c =
      let config = new_rate_limiter n in
      let (verdict, host) =
        allows config.max (config.key_generator c.session.locals req.ip) c.world.host in
      limited_by verdict config.limit_reached next
        (record c { world = record c.world { host = host } })
  guard req (require_roles roles) next c =
      refuse (Middlewares.require_roles roles c.session.locals) next c

  abbrev pub guarded : Request → List Guard → Handler → Handler
  guarded req [] next = next
  guarded req (x ∷ xs) next = guard req x (guarded req xs next)

  abbrev pub write : {A : Type 0} → (A → Body) → M (Reply A) → Handler
  write body m = run m (replied body)

  unfoldable pub endpoint : Request → Endpoint → Handler
  unfolding HealthHandler.check AuthHandler.login AuthHandler.refresh AuthHandler.logout
      DisbursementHandler.list DisbursementHandler.detail DisbursementHandler.create
      DisbursementHandler.create_batch DisbursementHandler.update_status DisbursementHandler.delete
      AuditHandler.list
  endpoint req health_check = write health HealthHandler.check
  endpoint req login = write token (AuthHandler.login req.login_body)
  endpoint req refresh = write token (AuthHandler.refresh req.token_body)
  endpoint req logout = write plain (AuthHandler.logout req.token_body)
  endpoint req list_disbursements = write page (DisbursementHandler.list req.disbursement_query)
  endpoint req create_disbursement = λ c.
      write one (DisbursementHandler.create c.session.context req.create_body req.idempotency_key) c
  endpoint req create_batch =
      λ c. write batch (DisbursementHandler.create_batch c.session.context req.batch_body) c
  endpoint req detail = write one (DisbursementHandler.detail req.id)
  endpoint req update_status =
      λ c. write one (DisbursementHandler.update_status c.session.context req.id req.status_body) c
  endpoint req delete = λ c. write plain (DisbursementHandler.delete c.session.context req.id) c
  endpoint req list_audit_logs = write audit (AuditHandler.list req.audit_query)

  -- What runs inside the middlewares for a route.
  unfoldable pub handle_route : Request → Route → Handler
  unfolding guard endpoint
  handle_route req r = guarded req r.guards (endpoint req r.endpoint)
