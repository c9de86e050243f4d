-- ===== src/Server.antt =====
-- pkg/server/fiber.go, with pkg/middlewares/logging.go and recovery.go: the chain that every request
-- passes. A handler is a function on the exchange, fiber's `*fiber.Ctx` with the state behind it;
-- what it wraps, `c.Next()`, is its argument. The router is fiber's: a request comes with its route.
pub mod Dispatch
pub mod Answers
pub mod Routed
pub mod Decisions
pub mod Senders
pub mod Guarded
pub mod Refusals
pub mod Statuses
pub mod Runs
pub mod Hooks
pub mod Lifetime
use test_lintaspay_backend.Common.{
  ℕ, String, Bool, ℤ, ◌-ℤ◌, quot, pos, not, Option, none, some, List, [], ◌∷◌, ◌==◌, if◌then◌else◌,
}
use test_lintaspay_backend.Errors.{GoError, ErrorResponse, error_response, logs_failure}
use test_lintaspay_backend.Reqctx.{background}
use test_lintaspay_backend.Entity.{
  Time, Disbursement, CreateDisbursementRequest, BatchCreateDisbursementRequest, BatchItemResult,
  UpdateStatusRequest, DisbursementFilter, AuditLog, AuditLogFilter, LoginRequest, RefreshRequest,
  TokenResponse, HealthStatus,
}
use test_lintaspay_backend.External.{Services, Result, ok, err}
use test_lintaspay_backend.Monad.{World, M}
use test_lintaspay_backend.Response.{Response, DataResponse, PaginatedResponse, Reply}
use test_lintaspay_backend.Middlewares.{Session, request_id_handle, logged_status, text_or_empty}

-- What a request brings: headers, the path parameter, and the body or query as fiber's parser reads
-- it for the endpoint that asks.
pub record Request : Type 0 where
  pub method : String
  pub path : String
  pub ip : String
  pub request_id : String
  pub authorization : String
  pub idempotency_key : String
  pub id : String
  pub login_body : Option LoginRequest
  pub token_body : Option RefreshRequest
  pub create_body : Option CreateDisbursementRequest
  pub batch_body : Option BatchCreateDisbursementRequest
  pub status_body : Option UpdateStatusRequest
  pub disbursement_query : Option DisbursementFilter
  pub audit_query : Option AuditLogFilter

pub data Body : Type 0 where
  empty : Body
  plain : Response → Body
  failure : ErrorResponse → Body
  crash : (error message : String) → Body
  health : DataResponse HealthStatus → Body
  token : DataResponse TokenResponse → Body
  one : DataResponse Disbursement → Body
  page : PaginatedResponse Disbursement → Body
  batch : DataResponse (List BatchItemResult) → Body
  audit : PaginatedResponse AuditLog → Body

-- The line "request completed".
pub record Line : Type 0 where
  pub request_id : String
  pub method : String
  pub path : String
  pub status_code : ℕ
  pub latency_ms : ℤ
  pub user : String

pub record Exchange (g : Services) : Type 0 where
  pub session : Session
  pub response : Reply Body
  pub world : World g
  pub lines : List Line

-- How a handler ends: it returns its error, or it panics.
pub data Ending : Type 0 where
  returned : Option GoError → Ending
  panicked : Ending

-- Whether `NewFiberApp` serves `/swagger/*`.
unfoldable pub serves_swagger : String → Bool
serves_swagger app_env = not (app_env == "production")

module _ ⦃g : Services⦄ where
  abbrev pub Handler : Type 0
  Handler = Exchange g → Ending × Exchange g

  abbrev pub with_world : Exchange g → World g → Exchange g
  with_world c w = record c { world = w }

  -- A handler that goes on with an action's value, and returns its error.
  abbrev pub resume :
      {A : Type 0} → (A → Handler) → Exchange g → Result A × World g → Ending × Exchange g
  resume k c (ok a, w) = k a (with_world c w)
  resume k c (err e, w) = (returned (some e), with_world c w)

  abbrev pub run : {A : Type 0} → M A → (A → Handler) → Handler
  run m k c = resume k c (m c.world)

  abbrev pub log_line : String → Exchange g → Exchange g
  log_line message c = record c { world = record c.world { log = message ∷ c.world.log } }

  abbrev set_header : String → String → Exchange g → Exchange g
  set_header name value c = record c {
    response = record c.response { headers = (name, value) ∷ c.response.headers };
  }

  abbrev tick : Exchange g → Time × Exchange g
  tick c =
      let (at, host) = g.time_now c.world.host in
      (at, record c { world = record c.world { host = host } })

  -- `RequestIDMiddleware.Handle`
  unfoldable pub request_id_middleware : Request → Handler → Handler
  unfolding request_id_handle
  request_id_middleware req next c =
      run (request_id_handle req.request_id c.session)
        (λ x c'. next (set_header "X-Request-ID" x.1 (record c' { session = x.0 }))) c

  abbrev pub line_of : Request → Time → Time → Option GoError → Exchange g → Line
  line_of req start stop e c = record {
    request_id = text_or_empty c.session.locals.request_id_value;
    method = req.method;
    path = req.path;
    status_code = logged_status c.response.status e;
    latency_ms = quot (stop -ℤ start) (pos 1_000_000);
    user = text_or_empty c.session.locals.username_value;
  }

  -- The line is written when the handlers inside have returned; a panic would pass by.
  abbrev pub completed : Request → Time → Ending → Exchange g → Ending × Exchange g
  completed req start panicked c = (panicked, c)
  completed req start (returned e) c =
      let (stop, c') = tick c in
      (
        returned e,
        log_line "request completed" (record c' { lines = line_of req start stop e c ∷ c.lines }),
      )

  -- `NewRequestLoggerMiddleware`
  unfoldable pub request_logger : Request → Handler → Handler
  unfolding logged_status quot ◌-ℤ◌
  request_logger req next c =
      let (start, c') = tick c in let (e, c'') = next c' in completed req start e c''

  abbrev pub recover : Ending → Exchange g → Ending × Exchange g
  recover (returned e) c = (returned e, c)
  recover panicked c =
      let response : Reply Body = record c.response {
        status = 500;
        body = crash "Internal Server Error" "Something went wrong";
      } in
      (returned none, log_line "PANIC RECOVERED" (record c { response = response }))

  -- `NewRecoveryMiddleware`: a panic becomes a written response, and the error is nil.
  unfoldable pub recovery : Handler → Handler
  recovery next c = let (e, c') = next c in recover e c'

  -- `NewErrorHandler`, which fiber calls with the error that the chain returns. A panic that nothing
  -- recovers ends the process, with no response.
  unfoldable pub answer : Ending → Exchange g → Option (Exchange g)
  unfolding error_response logs_failure
  answer (returned none) c = some c
  answer (returned (some e)) c =
      let resp = error_response e in
      let c' = if logs_failure e then log_line "request failed" c else c in
      some (record c' { response = record c'.response { status = resp.code; body = failure resp } })
  answer panicked c = none

  -- `NewFiberApp`: the middlewares around what the router finds.
  unfoldable pub new_fiber_app : Request → Handler → Handler
  unfolding request_id_middleware request_logger recovery
  new_fiber_app req next = request_id_middleware req (request_logger req (recovery next))

  -- A request of a client, against the world and the lines written so far.
  abbrev pub arrival : World g → List Line → Exchange g
  arrival w lines = record {
    session = record { locals = background; context = background };
    response = record { status = 200; headers = []; body = empty };
    world = w;
    lines = lines;
  }

  unfoldable pub serve : Request → Handler → World g → List Line → Option (Exchange g)
  unfolding new_fiber_app answer
  serve req next w lines = let (e, c) = new_fiber_app req next (arrival w lines) in answer e c
