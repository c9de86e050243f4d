-- ===== src/Server/Statuses.antt =====
-- Every status with which a route can answer, its guards included.
use test_lintaspay_backend.Common.{
  ℕ, String, refl, sym, subst, Bool-cases, inl, inr, Option, none, some, List, [], ◌∷◌, ◌++◌, map,
  arith,
}
use test_lintaspay_backend.Errors.{error_response, forbidden}
use test_lintaspay_backend.External.{Services, Result, ok, err}
use test_lintaspay_backend.Monad.{World, M}
use test_lintaspay_backend.Response.{Reply}
use test_lintaspay_backend.Middlewares as Middlewares
use test_lintaspay_backend.Middlewares.{Session, new_rate_limiter, contains}
use test_lintaspay_backend.Middlewares.Access.{Protected, protect-Protected}
use test_lintaspay_backend.Usecase.Codes.{IsOneOf, Has}
use test_lintaspay_backend.Handler.Statuses.{
  Responds, Answers, login-Responds, refresh-Responds, logout-Responds, list-Responds,
  detail-Responds, create-Responds, batch-Responds, update-Responds, delete-Responds,
  audit-Responds, check-Responds,
}
use test_lintaspay_backend.Routes.{
  Endpoint, health_check, login, refresh, logout, list_disbursements, create_disbursement,
  create_batch, detail, update_status, delete, list_audit_logs, Guard, protect, limit,
  require_roles, Route,
}
use test_lintaspay_backend.Server.{
  Request, Body, Line, Exchange, Ending, returned, panicked, Handler, resume, serve, answer,
}
use test_lintaspay_backend.Server.Dispatch.{
  Limiter, stamped, guard, guarded, write, replied, endpoint, handle_route,
}
use test_lintaspay_backend.Server.Refusals.{entry, finished, serve-eq-finished}

abbrev pub guard_status : Guard → ℕ
guard_status protect = 401
guard_status (limit n) = 429
guard_status (require_roles roles) = 403

abbrev pub endpoint_statuses : Endpoint → List ℕ
endpoint_statuses health_check = 200 ∷ 503 ∷ []
endpoint_statuses login = 200 ∷ 400 ∷ 401 ∷ 500 ∷ []
endpoint_statuses refresh = 200 ∷ 400 ∷ 401 ∷ 500 ∷ []
endpoint_statuses logout = 200 ∷ 400 ∷ 401 ∷ 500 ∷ []
endpoint_statuses list_disbursements = 200 ∷ 400 ∷ 500 ∷ []
endpoint_statuses create_disbursement = 201 ∷ 400 ∷ 409 ∷ 500 ∷ []
endpoint_statuses create_batch = 201 ∷ 207 ∷ 400 ∷ []
endpoint_statuses detail = 200 ∷ 404 ∷ 500 ∷ []
endpoint_statuses update_status = 200 ∷ 400 ∷ 404 ∷ 409 ∷ 500 ∷ []
endpoint_statuses delete = 200 ∷ 404 ∷ 409 ∷ 500 ∷ []
endpoint_statuses list_audit_logs = 200 ∷ 400 ∷ 500 ∷ []

abbrev pub route_statuses : Route → List ℕ
route_statuses r = map guard_status r.guards ++ endpoint_statuses r.endpoint

Has-cons : (codes : List ℕ) (n m : ℕ) → Has codes m → Has (n ∷ codes) m
Has-cons codes n m h = ground arith

module _ ⦃g : Services⦄ where
  -- How a handler ends, by the status that comes of it.
  abbrev Ends : List ℕ → Ending × Exchange g → Type 0
  Ends codes (returned none, c) = Has codes c.response.status
  Ends codes (returned (some e), c) = IsOneOf codes e
  Ends codes (panicked, c) = ⊥

  Ends-cons :
      (codes : List ℕ) (n : ℕ) (res : Ending × Exchange g) → Ends codes res → Ends (n ∷ codes) res
  unfolding IsOneOf
  Ends-cons codes n (returned none, c) h = Has-cons codes n _ h
  Ends-cons codes n (returned (some e), c) h = Has-cons codes n _ h
  Ends-cons codes n (panicked, c) h = h

  abbrev pub Responded : List ℕ → Option (Exchange g) → Type 0
  Responded codes none = ⊥
  Responded codes (some c) = Has codes c.response.status

  finished-Responded :
      (codes : List ℕ) (req : Request) (w : World g) (res : Ending × Exchange g)
      → Ends codes res
      → Responded codes (finished req w res)
  unfolding answer IsOneOf
  finished-Responded codes req w (returned none, c) h = h
  finished-Responded codes req w (returned (some e), c) h = h
  finished-Responded codes req w (panicked, c) h = elim h [ ]

module _ ⦃g : Services⦄ (allows : Limiter) where
  write-Ends :
      {A : Type 0} (codes : List ℕ) (body : A → Body) (m : M (Reply A)) (c : Exchange g)
      → Responds codes m
      → Ends codes (write allows body m c)
  write-Ends {A} codes body m c h = written (m c.world).0 (m c.world).1 (h.at c.world)
    where
      written :
          (r : Result (Reply A)) (w : World g)
          → Answers codes r
          → Ends codes (resume (replied body) c (r, w))
      written (ok r) w a = a
      written (err e) w a = a

  endpoint-Ends :
      (req : Request) (e : Endpoint) (c : Exchange g)
      → Ends (endpoint_statuses e) (endpoint allows req e c)
  unfolding endpoint
  endpoint-Ends req health_check c = write-Ends _ _ _ c check-Responds
  endpoint-Ends req login c = write-Ends _ _ _ c (login-Responds req.login_body)
  endpoint-Ends req refresh c = write-Ends _ _ _ c (refresh-Responds req.token_body)
  endpoint-Ends req logout c = write-Ends _ _ _ c (logout-Responds req.token_body)
  endpoint-Ends req list_disbursements c = write-Ends _ _ _ c (list-Responds req.disbursement_query)
  endpoint-Ends req create_disbursement c =
      write-Ends _ _ _ c (create-Responds c.session.context req.create_body req.idempotency_key)
  endpoint-Ends req create_batch c =
      write-Ends _ _ _ c (batch-Responds c.session.context req.batch_body)
  endpoint-Ends req detail c = write-Ends _ _ _ c (detail-Responds req.id)
  endpoint-Ends req update_status c =
      write-Ends _ _ _ c (update-Responds c.session.context req.id req.status_body)
  endpoint-Ends req delete c = write-Ends _ _ _ c (delete-Responds c.session.context req.id)
  endpoint-Ends req list_audit_logs c = write-Ends _ _ _ c (audit-Responds req.audit_query)

  identified-Ends :
      (codes : List ℕ) (header : String) (next : Handler) (c : Exchange g) (r : Result Session)
      → ((c : Exchange g) → Ends codes (next c))
      → Protected header c.session r c.world
      → (w : World g)
      → Ends (401 ∷ codes) (resume (λ s c'. next (record c' { session = s })) c (r, w))
  unfolding IsOneOf
  identified-Ends codes header next c (ok s) k p w = Ends-cons codes 401 _ (k _)
  identified-Ends codes header next c (err e) k p w = rw p refl

  stamped-Ends :
      (codes : List ℕ) (hs : List (String × String)) (res : Ending × Exchange g)
      → Ends codes res
      → Ends codes (stamped hs res)
  stamped-Ends codes hs (returned none, c) h = h
  stamped-Ends codes hs (returned (some e), c) h = h
  stamped-Ends codes hs (panicked, c) h = h

  guard-Ends :
      (codes : List ℕ) (req : Request) (x : Guard) (next : Handler)
      → ((c : Exchange g) → Ends codes (next c))
      → (c : Exchange g) → Ends (guard_status x ∷ codes) (guard allows req x next c)
  unfolding guard new_rate_limiter Middlewares.require_roles forbidden IsOneOf error_response
  guard-Ends codes req protect next k c =
      identified-Ends codes req.authorization next c _ k
        (protect-Protected req.authorization c.session c.world) _
  guard-Ends codes req (limit n) next k c =
      let key = Middlewares.limiter_key c.session.locals.username_value req.ip in
      let hs = (allows n key c.world.host).0.1 in
      elim (Bool-cases (allows n key c.world.host).0.0) [
        | inl y ↦ rw y (stamped-Ends (429 ∷ codes) hs (next _) (Ends-cons codes 429 (next _) (k _)))
        | inr x ↦ rw x refl
      ]
  guard-Ends codes req (require_roles roles) next k c =
      elim (Bool-cases (contains roles (Middlewares.text_or_empty c.session.locals.role_value))) [
        | inl y ↦ rw y (Ends-cons codes 403 (next c) (k c))
        | inr x ↦ rw x refl
      ]

  guarded-Ends :
      (codes : List ℕ) (req : Request) (gs : List Guard) (next : Handler)
      → ((c : Exchange g) → Ends codes (next c))
      → (c : Exchange g) → Ends (map guard_status gs ++ codes) (guarded allows req gs next c)
  guarded-Ends codes req [] next k = k
  guarded-Ends codes req (x ∷ gs) next k =
      guard-Ends (map guard_status gs ++ codes) req x (guarded allows req gs next)
        (guarded-Ends codes req gs next k)

  -- For every route, registered or not, with any guards, every request and state, and whatever the
  -- parser of tokens, the limiter and the services answer, no handler panicking: the request is
  -- answered, with a status of the route's list, which has 401, 429 and 403 for the guards that the
  -- route has, and for its endpoint the statuses that `endpoint_statuses` shows.
  pub serve-Responded :
      (req : Request) (r : Route) (w : World g) (lines : List Line)
      → Responded (route_statuses r) (serve req (handle_route allows req r) w lines)
  unfolding handle_route
  serve-Responded req r w lines =
      subst (Responded (route_statuses r))
        (sym (serve-eq-finished req (handle_route allows req r) w lines))
        (finished-Responded (route_statuses r) req w _ (
          guarded-Ends (endpoint_statuses r.endpoint) req r.guards (endpoint allows req r.endpoint)
            (endpoint-Ends req r.endpoint) (entry req w lines)))
