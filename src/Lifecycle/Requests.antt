-- ===== src/Lifecycle/Requests.antt =====
-- Every handler of internal/handler changes the rows and the idempotency keys by statements of a
-- run alone; those of other components do not change them at all.
use test_lintaspay_backend.Common.{
  String, Bool, refl, ap, inl, inr, Option, none, some, List, [], ◌∷◌,
}
use test_lintaspay_backend.Errors.{HttpError}
use test_lintaspay_backend.Reqctx.{Context}
use test_lintaspay_backend.Entity.{
  Disbursement, DisbursementFilter, AuditLogFilter, CreateDisbursementRequest,
  BatchCreateDisbursementRequest, UpdateStatusRequest, LoginRequest, RefreshRequest, RefreshToken,
  User,
}
use test_lintaspay_backend.External.{Window, Services, FieldError, Result}
use test_lintaspay_backend.External.Sql.{Database}
use test_lintaspay_backend.Monad.{M, on_host, on_disbursements, on_audit_logs}
use test_lintaspay_backend.Monad.Laws.{Result-cases}
use test_lintaspay_backend.Repository.Auth as AuthRepo
use test_lintaspay_backend.Repository.Audit as AuditRepo
use test_lintaspay_backend.Repository.Health as HealthRepo
use test_lintaspay_backend.Repository.Disbursements as Repo
use test_lintaspay_backend.Repository.Disbursements.Rows.{keys}
use test_lintaspay_backend.Usecase.Auth as AuthCase
use test_lintaspay_backend.Usecase.Audit as AuditCase
use test_lintaspay_backend.Usecase.Health as HealthCase
use test_lintaspay_backend.Usecase.Disbursements.Query as QueryCase
use test_lintaspay_backend.Handler.{with_body, with_query, when_valid}
use test_lintaspay_backend.Handler.Health as HealthHandler
use test_lintaspay_backend.Handler.Auth as AuthHandler
use test_lintaspay_backend.Handler.Disbursements as DisbursementHandler
use test_lintaspay_backend.Handler.Audit as AuditHandler
use test_lintaspay_backend.Lifecycle.Runs.{Event}
use test_lintaspay_backend.Lifecycle.Rules.{
  Advances, advances_rules, Advances-still, Advances-err, Advances-now, Advances-new_uuid,
}
use test_lintaspay_backend.Lifecycle.Actions.{
  Advances-create_disbursement, Advances-create_batch, Advances-update_disbursement_status,
  Advances-delete_disbursement,
}

module _ ⦃g : Services⦄ ⦃db : Database g⦄ {pre : List Event} where
  Advances-find_user_by_username :
      (name : String) → Advances pre (AuthRepo.find_user_by_username name)
  unfolding AuthRepo.find_user_by_username
  Advances-find_user_by_username name = Advances-still _ (λ w. refl)

  Advances-find_user_by_id : (id : String) → Advances pre (AuthRepo.find_user_by_id id)
  unfolding AuthRepo.find_user_by_id
  Advances-find_user_by_id id = Advances-still _ (λ w. refl)

  Advances-find_refresh_token : (hash : String) → Advances pre (AuthRepo.find_refresh_token hash)
  unfolding AuthRepo.find_refresh_token
  Advances-find_refresh_token hash = Advances-still _ (λ w. refl)

  Advances-revoke_refresh_token :
      (hash : String) → Advances pre (AuthRepo.revoke_refresh_token hash)
  unfolding AuthRepo.revoke_refresh_token
  Advances-revoke_refresh_token hash = Advances-still _ (λ w. refl)

  Advances-generate_access_token :
      (user : User) → Advances pre (AuthCase.generate_access_token user)
  unfolding AuthCase.generate_access_token
  Advances-generate_access_token user = Advances-still _ (λ w. refl)

  Advances-create_refresh_token :
      (t : RefreshToken) → Advances pre (AuthRepo.create_refresh_token t)
  unfolding AuthRepo.create_refresh_token
  Advances-create_refresh_token t = Advances-still _ (λ w. refl)

  Advances-rand_hex : Advances pre (on_host g.rand_hex)
  Advances-rand_hex = Advances-still _ (λ w. refl)

  Advances-issue_refresh_token : (id : String) → Advances pre (AuthCase.issue_refresh_token id)
  unfolding AuthCase.issue_refresh_token
  Advances-issue_refresh_token id =
      search
        (
          advances_rules, Advances-rand_hex, Advances-now, Advances-new_uuid,
          Advances-create_refresh_token,
        )
        depth 20

  ruleset auth_rules = (
    advances_rules, Advances-now, Advances-find_user_by_username, Advances-find_user_by_id,
    Advances-find_refresh_token, Advances-revoke_refresh_token, Advances-generate_access_token,
    Advances-issue_refresh_token,
  )

  Advances-login : (req : LoginRequest) → Advances pre (AuthCase.login req)
  unfolding AuthCase.login
  Advances-login req = search auth_rules depth 20

  Advances-refresh : (token : String) → Advances pre (AuthCase.refresh token)
  unfolding AuthCase.refresh
  Advances-refresh token = search auth_rules depth 20

  Advances-logout : (token : String) → Advances pre (AuthCase.logout token)
  unfolding AuthCase.logout
  Advances-logout token = search auth_rules depth 20

  Advances-count :
      (p : Disbursement → Bool) → Advances pre (on_disbursements (g.disbursements.count p))
  Advances-count p =
      Advances-still _
        (λ w. ap (λ l. (l, keys w)) (db.disbursement_table.count_rows p w.disbursements))

  Advances-find :
      (p : Disbursement → Bool) (win : Window)
      → Advances pre (on_disbursements (g.disbursements.find p win))
  Advances-find p win =
      Advances-still _
        (λ w. ap (λ l. (l, keys w)) (db.disbursement_table.find_rows p win w.disbursements))

  Advances-find_disbursements : (f : DisbursementFilter) → Advances pre (Repo.find_all f)
  unfolding Repo.find_all
  Advances-find_disbursements f = search (advances_rules, Advances-count, Advances-find) depth 20

  Advances-on_audit_logs :
      {A : Type 0} (f : g.audit_logs.State → Result A × g.audit_logs.State)
      → Advances pre (on_audit_logs f)
  Advances-on_audit_logs f = Advances-still _ (λ w. refl)

  Advances-find_audit_logs : (f : AuditLogFilter) → Advances pre (AuditRepo.find_all f)
  unfolding AuditRepo.find_all
  Advances-find_audit_logs f = search (advances_rules, Advances-on_audit_logs) depth 20

  Advances-query :
      (f : DisbursementFilter) (o : Option HttpError) → Advances pre (QueryCase.query f o)
  Advances-query f none = search (advances_rules, Advances-find_disbursements)
  Advances-query f (some h) = search advances_rules

  Advances-list : (f : DisbursementFilter) → Advances pre (QueryCase.list f)
  unfolding QueryCase.list
  Advances-list f = search (advances_rules, Advances-query) depth 20

  Advances-detail : (id : String) → Advances pre (QueryCase.detail id)
  unfolding QueryCase.detail
  Advances-detail id = search advances_rules depth 20

  Advances-audit_query :
      (f : AuditLogFilter) (o : Option HttpError) → Advances pre (AuditCase.query f o)
  Advances-audit_query f none = search (advances_rules, Advances-find_audit_logs)
  Advances-audit_query f (some h) = search advances_rules

  Advances-audit_list : (f : AuditLogFilter) → Advances pre (AuditCase.list f)
  unfolding AuditCase.list
  Advances-audit_list f = Advances-audit_query _ _

  Advances-status : Advances pre HealthCase.status
  unfolding HealthCase.status HealthRepo.ping_db
  Advances-status = Advances-still _ (λ w. elim (Result-cases (g.ping w.host).0) [
    | inl (u, e) ↦ rw e refl
    | inr (x, e) ↦ rw e refl
  ])

  -- What the handlers share.
  Advances-with_body :
      {A B : Type 0} (o : Option A) (k : A → M B)
      → ((a : A) → Advances pre (k a))
      → Advances pre (with_body o k)
  unfolding with_body
  Advances-with_body none k h = Advances-err _
  Advances-with_body (some a) k h = h a

  Advances-with_query :
      {A B : Type 0} (o : Option A) (k : A → M B)
      → ((a : A) → Advances pre (k a))
      → Advances pre (with_query o k)
  unfolding with_query
  Advances-with_query none k h = Advances-err _
  Advances-with_query (some a) k h = h a

  Advances-when_valid :
      {B : Type 0} (es : List FieldError) (m : M B)
      → Advances pre m
      → Advances pre (when_valid es m)
  unfolding when_valid
  Advances-when_valid [] m h = h
  Advances-when_valid (e ∷ es) m h = Advances-err _

  ruleset handler_rules = (
    advances_rules, Advances-with_body, Advances-with_query, Advances-when_valid, Advances-status,
    Advances-login, Advances-refresh, Advances-logout, Advances-list, Advances-detail,
    Advances-create_disbursement, Advances-create_batch, Advances-update_disbursement_status,
    Advances-delete_disbursement, Advances-audit_list,
  )

  pub check-Advances : Advances pre HealthHandler.check
  unfolding HealthHandler.check
  check-Advances = search handler_rules depth 20

  pub login-Advances : (body : Option LoginRequest) → Advances pre (AuthHandler.login body)
  unfolding AuthHandler.login
  login-Advances body = search handler_rules depth 20

  pub refresh-Advances : (body : Option RefreshRequest) → Advances pre (AuthHandler.refresh body)
  unfolding AuthHandler.refresh
  refresh-Advances body = search handler_rules depth 20

  pub logout-Advances : (body : Option RefreshRequest) → Advances pre (AuthHandler.logout body)
  unfolding AuthHandler.logout
  logout-Advances body = search handler_rules depth 20

  pub list-Advances :
      (query : Option DisbursementFilter) → Advances pre (DisbursementHandler.list query)
  unfolding DisbursementHandler.list
  list-Advances query = search handler_rules depth 20

  pub detail-Advances : (id : String) → Advances pre (DisbursementHandler.detail id)
  unfolding DisbursementHandler.detail
  detail-Advances id = search handler_rules depth 20

  pub create-Advances :
      (ctx : Context) (body : Option CreateDisbursementRequest) (key : String)
      → Advances pre (DisbursementHandler.create ctx body key)
  unfolding DisbursementHandler.create
  create-Advances ctx body key = search handler_rules depth 20

  pub create_batch-Advances :
      (ctx : Context) (body : Option BatchCreateDisbursementRequest)
      → Advances pre (DisbursementHandler.create_batch ctx body)
  unfolding DisbursementHandler.create_batch
  create_batch-Advances ctx body = search handler_rules depth 20

  pub update_status-Advances :
      (ctx : Context) (id : String) (body : Option UpdateStatusRequest)
      → Advances pre (DisbursementHandler.update_status ctx id body)
  unfolding DisbursementHandler.update_status
  update_status-Advances ctx id body = search handler_rules depth 20

  pub delete-Advances :
      (ctx : Context) (id : String) → Advances pre (DisbursementHandler.delete ctx id)
  unfolding DisbursementHandler.delete
  delete-Advances ctx id = search handler_rules depth 20

  pub audit-Advances : (query : Option AuditLogFilter) → Advances pre (AuditHandler.list query)
  unfolding AuditHandler.list
  audit-Advances query = search handler_rules depth 20
