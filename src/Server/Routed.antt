-- ===== src/Server/Routed.antt =====
-- What runs for a route leaves the request id and the request log alone.
use test_lintaspay_backend.Common.{
  String, Bool, true, false, inl, inr, Option, none, some, List, [], ◌∷◌, ◌++◌, Some, ap, ◌∙◌,
}
use test_lintaspay_backend.Errors.{HttpError}
use test_lintaspay_backend.Reqctx.{with_user}
use test_lintaspay_backend.External.{Services, Result, ok, err}
use test_lintaspay_backend.Monad.{M, World}
use test_lintaspay_backend.Monad.Laws.{Result-cases}
use test_lintaspay_backend.Response.{Reply}
use test_lintaspay_backend.Middlewares.{Session, new_rate_limiter}
use test_lintaspay_backend.Middlewares.Access.{Protected, protect-Protected}
use test_lintaspay_backend.Handler.Health as HealthHandler
use test_lintaspay_backend.Handler.Auth as AuthHandler
use test_lintaspay_backend.Handler.Disbursements as DisbursementHandler
use test_lintaspay_backend.Handler.Audit as AuditHandler
use test_lintaspay_backend.Routes.{
  Endpoint, health_check, login, refresh, logout, list_disbursements, create_disbursement,
  create_batch, detail, update_status, delete, list_audit_logs, Guard, protect, limit,
  require_roles, Route,
}
use test_lintaspay_backend.Server.{
  Request, Body, plain, health, token, one, page, batch, audit, Line, Exchange, Ending, returned,
  panicked, Handler, resume,
}
use test_lintaspay_backend.Server.Dispatch.{
  Limiter, stamped, limited_by, refuse, guard, guarded, write, endpoint, handle_route,
}
use test_lintaspay_backend.Server.Answers.{Carries, Keeps}

Some-append : {A : Type 0} (P : A → Type 0) (xs ys : List A) → Some P ys → Some P (xs ++ ys)
Some-append P [] ys h = h
Some-append P (x ∷ xs) ys h = inr (Some-append P xs ys h)

module _ ⦃g : Services⦄ (allows : Limiter) where
  write-Keeps : {A : Type 0} (body : A → Body) (m : M (Reply A)) → Keeps (write allows body m)
  write-Keeps body m id lines c (l, i, h) = elim (Result-cases (m c.world).0) [
    | inl (r, e) ↦ rw e (l, i, Some-append _ r.headers _ h)
    | inr (x, e) ↦ rw e (l, i, h)
  ]

  refuse-Keeps : (o : Option HttpError) (next : Handler) → Keeps next → Keeps (refuse allows o next)
  refuse-Keeps none next k id lines c h = k id lines c h
  refuse-Keeps (some x) next k id lines c h = h

  stamped-Carries :
      (hs : List (String × String)) (id : String) (lines : List Line) (res : Ending × Exchange g)
      → Carries id lines res.1
      → Carries id lines (stamped hs res).1
  stamped-Carries hs id lines (returned e, c) (l, i, h) = (l, i, Some-append _ hs _ h)
  stamped-Carries hs id lines (panicked, c) h = h

  limited_by-Keeps :
      (v : Bool × List (String × String)) (reached : HttpError) (next : Handler)
      → Keeps next
      → Keeps (limited_by v reached next)
  limited_by-Keeps (true, hs) reached next k id lines c h =
      stamped-Carries hs id lines (next c) (k id lines c h)
  limited_by-Keeps (false, hs) reached next k id lines c (l, i, h) = (l, i, Some-append _ hs _ h)

  identified-Keeps :
      (header id : String) (lines : List Line) (next : Handler) (c : Exchange g)
      (r : Result Session)
      → Keeps next
      → Protected header c.session r c.world
      → Carries id lines c
      → (w : World g)
      → Carries id lines (resume (λ s c'. next (record c' { session = s })) c (r, w)).1
  unfolding with_user
  identified-Keeps header id lines next c (err e) k p h w = h
  identified-Keeps header id lines next c (ok s) k (_, _, _, _, _, locals) (l, i, h) w =
      k id lines _ (l, ap (λ x. x.request_id_value) locals ∙ i, h)

  guard-Keeps :
      (req : Request) (x : Guard) (next : Handler) → Keeps next → Keeps (guard allows req x next)
  unfolding guard new_rate_limiter
  guard-Keeps req protect next k id lines c h =
      identified-Keeps req.authorization id lines next c _ k
        (protect-Protected req.authorization c.session c.world) h _
  guard-Keeps req (limit n) next k id lines c h = limited_by-Keeps _ _ next k id lines _ h
  guard-Keeps req (require_roles roles) next k id lines c h = refuse-Keeps _ next k id lines c h

  guarded-Keeps :
      (req : Request) (gs : List Guard) (next : Handler)
      → Keeps next
      → Keeps (guarded allows req gs next)
  guarded-Keeps req [] next k = k
  guarded-Keeps req (x ∷ gs) next k = guard-Keeps req x _ (guarded-Keeps req gs next k)

  endpoint-Keeps : (req : Request) (e : Endpoint) → Keeps (endpoint allows req e)
  unfolding endpoint HealthHandler.check AuthHandler.login AuthHandler.refresh AuthHandler.logout
      DisbursementHandler.list DisbursementHandler.detail DisbursementHandler.create
      DisbursementHandler.create_batch DisbursementHandler.update_status DisbursementHandler.delete
      AuditHandler.list
  endpoint-Keeps req health_check id lines c = write-Keeps health HealthHandler.check id lines c
  endpoint-Keeps req login id lines c =
      write-Keeps token (AuthHandler.login req.login_body) id lines c
  endpoint-Keeps req refresh id lines c =
      write-Keeps token (AuthHandler.refresh req.token_body) id lines c
  endpoint-Keeps req logout id lines c =
      write-Keeps plain (AuthHandler.logout req.token_body) id lines c
  endpoint-Keeps req list_disbursements id lines c =
      write-Keeps page (DisbursementHandler.list req.disbursement_query) id lines c
  endpoint-Keeps req create_disbursement id lines c =
      write-Keeps one
        (DisbursementHandler.create c.session.context req.create_body req.idempotency_key) id lines
        c
  endpoint-Keeps req create_batch id lines c =
      write-Keeps batch (DisbursementHandler.create_batch c.session.context req.batch_body) id lines
        c
  endpoint-Keeps req detail id lines c =
      write-Keeps one (DisbursementHandler.detail req.id) id lines c
  endpoint-Keeps req update_status id lines c =
      write-Keeps one (DisbursementHandler.update_status c.session.context req.id req.status_body)
        id lines c
  endpoint-Keeps req delete id lines c =
      write-Keeps plain (DisbursementHandler.delete c.session.context req.id) id lines c
  endpoint-Keeps req list_audit_logs id lines c =
      write-Keeps audit (AuditHandler.list req.audit_query) id lines c

  pub handle_route-Keeps : (req : Request) (r : Route) → Keeps (handle_route allows req r)
  unfolding handle_route
  handle_route-Keeps req r = guarded-Keeps req r.guards _ (endpoint-Keeps req r.endpoint)
