-- ===== src/Server/Runs.antt =====
-- A request, from its arrival to its response, as a run of statements.
use test_lintaspay_backend.Common.{
  String, Bool, true, false, refl, sym, subst, Bool-cases, inl, inr, Option, none, some, List, [],
  ◌∷◌, ◌++◌,
}
use test_lintaspay_backend.Errors.{HttpError, logs_failure}
use test_lintaspay_backend.External.{Services, Result, ok, err, TokenClaims}
use test_lintaspay_backend.External.Sql.{Database}
use test_lintaspay_backend.Monad.{World, M, on_host}
use test_lintaspay_backend.Response.{Reply}
use test_lintaspay_backend.Middlewares as Middlewares
use test_lintaspay_backend.Middlewares.{Session, new_rate_limiter, identify, protect_token}
use test_lintaspay_backend.Routes.{
  Endpoint, health_check, login, refresh, logout, list_disbursements, create_disbursement,
  create_batch, detail, update_status, delete, list_audit_logs, Guard, protect, limit,
  require_roles, Route,
}
use test_lintaspay_backend.Server.{
  Request, Body, Line, Exchange, Ending, returned, panicked, Handler, resume, run, serve, answer,
}
use test_lintaspay_backend.Server.Dispatch.{
  Limiter, stamped, limited_by, refuse, guard, guarded, write, replied, endpoint, handle_route,
}
use test_lintaspay_backend.Server.Refusals.{entry, finished, serve-eq-finished}
use test_lintaspay_backend.Lifecycle.Runs.{Event, Continues, Continues-trans, start}
use test_lintaspay_backend.Lifecycle.Moves.{contents, Moves}
use test_lintaspay_backend.Lifecycle.Rules.{Advances, advances_rules, Advances-still}
use test_lintaspay_backend.Lifecycle.Requests.{
  check-Advances, login-Advances, refresh-Advances, logout-Advances, list-Advances, detail-Advances,
  create-Advances, create_batch-Advances, update_status-Advances, delete-Advances, audit-Advances,
}

module _ ⦃g : Services⦄ ⦃db : Database g⦄ where
  -- A handler that changes the rows and the keys by statements of a run alone.
  record Moving (next : Handler) : Type 0 where
    at :
        (past : List Event) (c : Exchange g)
        → Moves past (contents c.world) (contents (next c).1.world)

  resume-Moves :
      {A : Type 0} (k : A → Handler)
      → ((a : A) → Moving (k a))
      → (past : List Event) (c : Exchange g) (r : Result A) (w : World g)
      → Moves past (contents w) (contents (resume k c (r, w)).1.world)
  resume-Moves k h past c (ok a) w = (h a).at past _
  resume-Moves k h past c (err e) w = ([], start)

  run-Moving :
      {A : Type 0} (m : M A) (k : A → Handler)
      → Advances [] m
      → ((a : A) → Moving (k a))
      → Moving (run m k)
  run-Moving m k a h = record {
    at = λ past c.
        let (es, r) = a.at past tt c.world in
        let (fs, q) = resume-Moves k h (es ++ past) c (m c.world).0 (m c.world).1 in
        (fs ++ es, Continues-trans r q);
  }

  Advances-on_host : {A : Type 0} (f : g.Host → Result A × g.Host) → Advances [] (on_host f)
  Advances-on_host f = Advances-still _ (λ w. refl)

  Advances-identify : (s : Session) (r : Result TokenClaims) → Advances [] (identify s r)
  Advances-identify s (ok claims) = search advances_rules
  Advances-identify s (err e) = search advances_rules

  Advances-protect_token :
      (s : Session) (token : Option String) → Advances [] (protect_token s token)
  Advances-protect_token s none = search advances_rules
  Advances-protect_token s (some token) =
      search (advances_rules, Advances-on_host, Advances-identify) depth 20

  Advances-protect : (header : String) (s : Session) → Advances [] (Middlewares.protect header s)
  unfolding Middlewares.protect
  Advances-protect header s = Advances-protect_token s _

  -- The world of the exchange that is answered; a panic that nothing recovers leaves none.
  abbrev pub MovedTo : List Event → World g → Option (Exchange g) → Type 0
  MovedTo past w none = Unit
  MovedTo past w (some c) = (es : List Event) × Continues past (contents w) es (contents c.world)

  finished-MovedTo :
      (req : Request) (past : List Event) (w : World g) (e : Ending) (c : Exchange g)
      → Moves past (contents w) (contents c.world)
      → MovedTo past w (finished req w (e, c))
  unfolding answer
  finished-MovedTo req past w (returned none) c h = h
  finished-MovedTo req past w (returned (some e)) c h = elim (Bool-cases (logs_failure e)) [
    | inl y ↦ rw y h
    | inr n ↦ rw n h
  ]
  finished-MovedTo req past w panicked c h = h

module _ ⦃g : Services⦄ ⦃db : Database g⦄ (allows : Limiter) where
  write-Moving :
      {A : Type 0} (body : A → Body) (m : M (Reply A))
      → Advances [] m
      → Moving (write allows body m)
  write-Moving body m a = run-Moving m (replied body) a (λ r. record { at = λ past c. ([], start) })

  refuse-Moves :
      (o : Option HttpError) (next : Handler) → Moving next → Moving (refuse allows o next)
  refuse-Moves none next h = record { at = h.at }
  refuse-Moves (some x) next h = record { at = λ past c. ([], start) }

  stamped-Moves :
      (past : List Event) (hs : List (String × String)) (w : World g) (res : Ending × Exchange g)
      → Moves past (contents w) (contents res.1.world)
      → Moves past (contents w) (contents (stamped hs res).1.world)
  stamped-Moves past hs w (returned e, c) h = h
  stamped-Moves past hs w (panicked, c) h = h

  limited_by-Moving :
      (v : Bool × List (String × String)) (reached : HttpError) (next : Handler)
      → Moving next
      → Moving (limited_by v reached next)
  limited_by-Moving (true, hs) reached next h = record {
    at = λ past c. stamped-Moves past hs c.world (next c) (h.at past c);
  }
  limited_by-Moving (false, hs) reached next h = record { at = λ past c. ([], start) }

  guard-Moving :
      (req : Request) (x : Guard) (next : Handler) → Moving next → Moving (guard allows req x next)
  unfolding guard
  guard-Moving req protect next h = record {
    at = λ past c.
        (run-Moving (Middlewares.protect req.authorization c.session)
            (λ s c'. next (record c' { session = s }))
            (Advances-protect req.authorization c.session)
            (λ s. record { at = λ past' c'. h.at past' (record c' { session = s }) })).at
          past c;
  }
  guard-Moving req (limit n) next h = record {
    at = λ past c. (limited_by-Moving _ _ next h).at past _;
  }
  guard-Moving req (require_roles roles) next h = record {
    at = λ past c. (refuse-Moves _ next h).at past c;
  }

  guarded-Moving :
      (req : Request) (gs : List Guard) (next : Handler)
      → Moving next
      → Moving (guarded allows req gs next)
  guarded-Moving req [] next h = h
  guarded-Moving req (x ∷ gs) next h = guard-Moving req x _ (guarded-Moving req gs next h)

  endpoint-Moving : (req : Request) (e : Endpoint) → Moving (endpoint allows req e)
  unfolding endpoint
  endpoint-Moving req health_check = write-Moving _ _ check-Advances
  endpoint-Moving req login = write-Moving _ _ (login-Advances req.login_body)
  endpoint-Moving req refresh = write-Moving _ _ (refresh-Advances req.token_body)
  endpoint-Moving req logout = write-Moving _ _ (logout-Advances req.token_body)
  endpoint-Moving req list_disbursements = write-Moving _ _ (list-Advances req.disbursement_query)
  endpoint-Moving req create_disbursement = record {
    at = λ past c.
        (write-Moving _ _
            (create-Advances c.session.context req.create_body req.idempotency_key)).at
          past c;
  }
  endpoint-Moving req create_batch = record {
    at = λ past c.
        (write-Moving _ _ (create_batch-Advances c.session.context req.batch_body)).at past c;
  }
  endpoint-Moving req detail = write-Moving _ _ (detail-Advances req.id)
  endpoint-Moving req update_status = record {
    at = λ past c.
        (write-Moving _ _ (update_status-Advances c.session.context req.id req.status_body)).at past
          c;
  }
  endpoint-Moving req delete = record {
    at = λ past c. (write-Moving _ _ (delete-Advances c.session.context req.id)).at past c;
  }
  endpoint-Moving req list_audit_logs = write-Moving _ _ (audit-Advances req.audit_query)

  -- From the arrival to the response, whatever the request, the guards, the parser of tokens, the
  -- limiter and the services answer: a request changes the rows of `disbursements` and
  -- `idempotency_keys` by statements of a run alone, after any earlier events.
  pub serve-Continues :
      (req : Request) (r : Route) (past : List Event) (w : World g) (lines : List Line)
      → MovedTo past w (serve req (handle_route allows req r) w lines)
  unfolding handle_route
  serve-Continues req r past w lines =
      subst (MovedTo past w) (sym (serve-eq-finished req (handle_route allows req r) w lines)) (
        finished-MovedTo req past w _ _ (
          (guarded-Moving req r.guards _ (endpoint-Moving req r.endpoint)).at past
            (entry req w lines)))
