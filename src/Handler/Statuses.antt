-- ===== src/Handler/Statuses.antt =====
-- The statuses that each handler answers with, replies and errors together.
use test_lintaspay_backend.Common.{
  ℕ, String, ◌≡◌, refl, List, [], ◌∷◌, Option, none, some, eqb, inl, inr, Bool-cases, ltb, length,
  count_if,
}
use test_lintaspay_backend.Errors.{
  GoError, HttpError, http, error_response, bad_request, with_details, service_unavailable,
}
use test_lintaspay_backend.Reqctx.{Context}
use test_lintaspay_backend.Entity.{
  CreateDisbursementRequest, BatchCreateDisbursementRequest, BatchItemResult, UpdateStatusRequest,
  DisbursementFilter, AuditLogFilter, LoginRequest, RefreshRequest,
}
use test_lintaspay_backend.External.{Services, Result, ok, err, FieldError}
use test_lintaspay_backend.Monad.{World, M, pure, fail, continue, ◌>>=◌}
use test_lintaspay_backend.Monad.Laws.{Result-cases}
use test_lintaspay_backend.Response.{Reply}
use test_lintaspay_backend.Usecase.Codes.{IsOneOf, Has, FailsWith}
use test_lintaspay_backend.Usecase.Codes.Operations.{
  create-codes, update-codes, delete-codes, detail-codes, login-codes, refresh-codes, logout-codes,
}
use test_lintaspay_backend.Usecase.Codes.Listings.{list-codes, audit-codes, batch-codes}
use test_lintaspay_backend.Handler.{with_body, with_query, when_valid}
use test_lintaspay_backend.Handler.Disbursements as DisbursementHandler
use test_lintaspay_backend.Handler.Disbursements.{batch_reply, batch_code}
use test_lintaspay_backend.Handler.Auth as AuthHandler
use test_lintaspay_backend.Handler.Audit as AuditHandler
use test_lintaspay_backend.Handler.Health as HealthHandler

module _ ⦃g : Services⦄ (codes : List ℕ) where
  abbrev pub Answers : {A : Type 0} → Result (Reply A) → Type 0
  Answers (ok r) = Has codes r.status
  Answers (err e) = IsOneOf codes e

  pub record Responds {A : Type 0} (m : M (Reply A)) : Type 0 where
    pub at : (w : World g) → Answers (m w).0

  Responds-pure : {A : Type 0} (r : Reply A) → Has codes r.status → Responds (pure r)
  Responds-pure r h = record { at = λ w. h }

  Responds-fail : {A : Type 0} (h : HttpError) → IsOneOf codes (http h) → Responds {A = A} (fail h)
  Responds-fail h i = record { at = λ w. i }

  continue-Answers :
      {A B : Type 0} (f : A → M (Reply B))
      → ((a : A) → Responds (f a))
      → (r : Result A) (w : World g) → ((e : GoError) → r ≡ err e → IsOneOf codes e)
      → Answers (continue f (r, w)).0
  continue-Answers f k (ok a) w h = (k a).at w
  continue-Answers f k (err e) w h = h e refl

  Responds-bind :
      {A B : Type 0} (m : M A) (f : A → M (Reply B))
      → FailsWith codes m
      → ((a : A) → Responds (f a))
      → Responds (m >>= f)
  Responds-bind m f h k = record {
    at = λ w. continue-Answers f k (m w).0 (m w).1 (λ e q. h.at w e q);
  }

  Responds-with_body :
      {A B : Type 0} (o : Option A) (k : A → M (Reply B))
      → Has codes 400
      → ((a : A) → Responds (k a))
      → Responds (with_body o k)
  unfolding with_body bad_request error_response IsOneOf
  Responds-with_body none k h r = record { at = λ w. h }
  Responds-with_body (some a) k h r = r a

  Responds-with_query :
      {A B : Type 0} (o : Option A) (k : A → M (Reply B))
      → Has codes 400
      → ((a : A) → Responds (k a))
      → Responds (with_query o k)
  unfolding with_query bad_request error_response IsOneOf
  Responds-with_query none k h r = record { at = λ w. h }
  Responds-with_query (some a) k h r = r a

  Responds-when_valid :
      {B : Type 0} (es : List FieldError) (m : M (Reply B))
      → Has codes 400
      → Responds m
      → Responds (when_valid es m)
  unfolding when_valid bad_request with_details error_response IsOneOf
  Responds-when_valid [] m h r = r
  Responds-when_valid (e ∷ es) m h r = record { at = λ w. h }

ruleset responds_rules = (
  Responds-pure, Responds-fail, Responds-bind, Responds-with_body, Responds-with_query,
  Responds-when_valid,
)

batch-listed :
    (codes : List ℕ) (results : List BatchItemResult)
    → Has codes 201
    → Has codes 207
    → Has codes 400
    → Has codes (batch_reply results).status
unfolding batch_reply batch_code
batch-listed codes results h k l =
    let succeeded = count_if (λ r. r.success) results in
    elim (Bool-cases (eqb succeeded 0)) [
      | inl y ↦ rw y l
      | inr n ↦ elim (Bool-cases (ltb succeeded (length results))) [
        | inl y ↦ rw (n, y) k
        | inr m ↦ rw (n, m) h
      ]
    ]

module _ ⦃g : Services⦄ where
  pub login-Responds :
      (body : Option LoginRequest) → Responds (200 ∷ 400 ∷ 401 ∷ 500 ∷ []) (AuthHandler.login body)
  unfolding AuthHandler.login
  login-Responds body = search (responds_rules, login-codes) depth 20

  pub refresh-Responds :
      (body : Option RefreshRequest)
      → Responds (200 ∷ 400 ∷ 401 ∷ 500 ∷ []) (AuthHandler.refresh body)
  unfolding AuthHandler.refresh
  refresh-Responds body = search (responds_rules, refresh-codes) depth 20

  pub logout-Responds :
      (body : Option RefreshRequest)
      → Responds (200 ∷ 400 ∷ 401 ∷ 500 ∷ []) (AuthHandler.logout body)
  unfolding AuthHandler.logout
  logout-Responds body = search (responds_rules, logout-codes) depth 20

  pub list-Responds :
      (query : Option DisbursementFilter)
      → Responds (200 ∷ 400 ∷ 500 ∷ []) (DisbursementHandler.list query)
  unfolding DisbursementHandler.list
  list-Responds query = search (responds_rules, list-codes) depth 20

  pub detail-Responds :
      (id : String) → Responds (200 ∷ 404 ∷ 500 ∷ []) (DisbursementHandler.detail id)
  unfolding DisbursementHandler.detail
  detail-Responds id = search (responds_rules, detail-codes) depth 20

  pub create-Responds :
      (ctx : Context) (body : Option CreateDisbursementRequest) (key : String)
      → Responds (201 ∷ 400 ∷ 409 ∷ 500 ∷ []) (DisbursementHandler.create ctx body key)
  unfolding DisbursementHandler.create
  create-Responds ctx body key = search (responds_rules, create-codes) depth 20

  pub batch-Responds :
      (ctx : Context) (body : Option BatchCreateDisbursementRequest)
      → Responds (201 ∷ 207 ∷ 400 ∷ []) (DisbursementHandler.create_batch ctx body)
  unfolding DisbursementHandler.create_batch
  batch-Responds ctx body = search (responds_rules, batch-codes, batch-listed) depth 20

  pub update-Responds :
      (ctx : Context) (id : String) (body : Option UpdateStatusRequest)
      → Responds (200 ∷ 400 ∷ 404 ∷ 409 ∷ 500 ∷ []) (DisbursementHandler.update_status ctx id body)
  unfolding DisbursementHandler.update_status
  update-Responds ctx id body = search (responds_rules, update-codes) depth 20

  pub delete-Responds :
      (ctx : Context) (id : String)
      → Responds (200 ∷ 404 ∷ 409 ∷ 500 ∷ []) (DisbursementHandler.delete ctx id)
  unfolding DisbursementHandler.delete
  delete-Responds ctx id = search (responds_rules, delete-codes) depth 20

  pub audit-Responds :
      (query : Option AuditLogFilter) → Responds (200 ∷ 400 ∷ 500 ∷ []) (AuditHandler.list query)
  unfolding AuditHandler.list
  audit-Responds query = search (responds_rules, audit-codes) depth 20

  pub check-Responds : Responds (200 ∷ 503 ∷ []) HealthHandler.check
  unfolding HealthHandler.check service_unavailable with_details error_response IsOneOf
  check-Responds = record {
    at = λ w. elim (Result-cases (g.ping w.host).0) [
      | inl (u, e) ↦ rw e refl
      | inr (x, e) ↦ rw e refl
    ];
  }
