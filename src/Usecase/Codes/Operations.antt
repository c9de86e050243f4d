-- ===== src/Usecase/Codes/Operations.antt =====
-- The status codes that each operation can fail with.
use test_lintaspay_backend.Common.{
  ℕ, zero, suc, String, refl, Bool, List, [], ◌∷◌, Bool-cases, inl, inr,
}
use test_lintaspay_backend.Errors.{
  GoError, http, error_response, errors_is, not_found, with_err, internal, not_found_error,
  bad_request, conflict, unauthorized,
}
use test_lintaspay_backend.Reqctx.{Context}
use test_lintaspay_backend.Entity.{
  Time, Disbursement, IdempotencyKey, CreateDisbursementRequest, UpdateStatusRequest,
}
use test_lintaspay_backend.External.{Result, ok, err, Services}
use test_lintaspay_backend.Monad.{M, attempt}
use test_lintaspay_backend.Usecase.Disbursements.{internal_with}
use test_lintaspay_backend.Usecase.Disbursements.Create.{after_reservation, create_rounds, create}
use test_lintaspay_backend.Usecase.Disbursements.Status.{lookup_error, update_status, delete}
use test_lintaspay_backend.Usecase.Disbursements.Query.{detail}
use test_lintaspay_backend.Usecase.Auth.{unless_found, login, refresh, logout}
use test_lintaspay_backend.Repository.Disbursements as Repo
use test_lintaspay_backend.Entity.{LoginRequest}
use test_lintaspay_backend.Usecase.Codes.{
  IsOneOf, Has, FailsWith, fails_rules, FailsWith-err, FailsWith-bind, FailsWith-attempt,
}

module _ ⦃g : Services⦄ (codes : List ℕ) where
  module _ (has_500 : Has codes 500) where
    pub internal_listed : (m : String) (e : GoError) → IsOneOf codes (internal_with m e)
    unfolding IsOneOf internal_with with_err internal error_response
    internal_listed m e = has_500

    lookup_listed : Has codes 404 → (e : GoError) → IsOneOf codes (lookup_error e)
    unfolding IsOneOf lookup_error internal_with with_err internal error_response not_found_error
    lookup_listed has_404 e = elim (Bool-cases (errors_is not_found e)) [
      | inl y ↦ rw y has_404
      | inr n ↦ rw n has_500
    ]

    unless_listed :
        Has codes 401
        → (missing failed : String) (e : GoError) → IsOneOf codes (unless_found missing failed e)
    unfolding IsOneOf unless_found internal_with with_err internal error_response unauthorized
    unless_listed has_401 missing failed e = elim (Bool-cases (errors_is not_found e)) [
      | inl y ↦ rw y has_401
      | inr n ↦ rw n has_500
    ]

    pub detail-codes : Has codes 404 → (id : String) → FailsWith codes (detail id)
    unfolding detail
    detail-codes has_404 id = search (fails_rules, lookup_listed has_404) depth 20

  conflict_listed : Has codes 409 → (m : String) → IsOneOf codes (http (conflict m))
  unfolding IsOneOf conflict error_response
  conflict_listed h m = h

  pub bad_listed : Has codes 400 → (m : String) → IsOneOf codes (http (bad_request m))
  unfolding IsOneOf bad_request error_response
  bad_listed h m = h

  unauthorized_listed : Has codes 401 → (m : String) → IsOneOf codes (http (unauthorized m))
  unfolding IsOneOf unauthorized error_response
  unauthorized_listed h m = h

  module _ (has_404 : Has codes 404) (has_409 : Has codes 409) (has_500 : Has codes 500) where
    pub delete-codes : (ctx : Context) (id : String) → FailsWith codes (delete ctx id)
    unfolding delete
    delete-codes ctx id =
        search
          (
            fails_rules,
            internal_listed has_500,
            conflict_listed has_409,
            lookup_listed has_500 has_404,
          )
          depth 20

    pub update-codes :
        Has codes 400
        → (ctx : Context) (id : String) (req : UpdateStatusRequest)
        → FailsWith codes (update_status ctx id req)
    unfolding update_status
    update-codes has_400 ctx id req =
        search
          (
            fails_rules,
            internal_listed has_500,
            conflict_listed has_409,
            bad_listed has_400,
            lookup_listed has_500 has_404,
          )
          depth 20

  module _ (has_401 : Has codes 401) (has_500 : Has codes 500) where
    pub login-codes : (req : LoginRequest) → FailsWith codes (login req)
    unfolding login
    login-codes req =
        search
          (
            fails_rules,
            internal_listed has_500,
            unauthorized_listed has_401,
            unless_listed has_500 has_401,
          )
          depth 20

    pub refresh-codes : (token : String) → FailsWith codes (refresh token)
    unfolding refresh
    refresh-codes token =
        search
          (
            fails_rules,
            internal_listed has_500,
            unauthorized_listed has_401,
            unless_listed has_500 has_401,
          )
          depth 20

    pub logout-codes : (token : String) → FailsWith codes (logout token)
    unfolding logout
    logout-codes token =
        search (fails_rules, internal_listed has_500, unless_listed has_500 has_401) depth 20

  module _ (has_409 : Has codes 409) (has_500 : Has codes 500) where
    pub after_reservation-codes :
        (ctx : Context) (d : Disbursement) (idem : IdempotencyKey) (at : Time)
        (again : M (Disbursement × Bool)) (r : Result (Unit {0}))
        → FailsWith codes again
        → FailsWith codes (after_reservation ctx d idem at again r)
    unfolding after_reservation
    after_reservation-codes ctx d idem at again (ok _) h = search fails_rules depth 20
    after_reservation-codes ctx d idem at again (err e) h =
        search (fails_rules, internal_listed has_500, conflict_listed has_409) depth 20

    pub create_rounds-codes :
        (n : ℕ) (ctx : Context) (d : Disbursement) (idem : IdempotencyKey) (at : Time)
        → FailsWith codes (create_rounds n ctx d idem at)
    unfolding create_rounds
    create_rounds-codes zero ctx d idem at = FailsWith-err codes _ (conflict_listed has_409 _)
    create_rounds-codes (suc n) ctx d idem at =
        FailsWith-bind codes (attempt (Repo.create_with_idempotency d idem)) _
          (FailsWith-attempt codes _)
          (λ r. after_reservation-codes ctx d idem at _ r (create_rounds-codes n ctx d idem at))

    pub create-codes :
        Has codes 400
        → (ctx : Context) (req : CreateDisbursementRequest) (key : String)
        → FailsWith codes (create ctx req key)
    unfolding create
    create-codes has_400 ctx req key =
        search (fails_rules, internal_listed has_500, bad_listed has_400, create_rounds-codes) depth
          20

-- For every input and state, and whatever the services answer: each use case fails only with the
-- statuses listed here. Creation: 400, 409, 500. A decision: 400, 404, 409, 500. A deletion: 404,
-- 409, 500. The detail: 404, 500. Login, refresh and logout: 401, 500.
pub operations-FailsWith :
    ⦃g : Services⦄ (ctx : Context) (id token : String) (req : CreateDisbursementRequest)
    (decision : UpdateStatusRequest) (credentials : LoginRequest)
    → FailsWith (400 ∷ 409 ∷ 500 ∷ []) (create ctx req token)
      × FailsWith (400 ∷ 404 ∷ 409 ∷ 500 ∷ []) (update_status ctx id decision)
      × FailsWith (404 ∷ 409 ∷ 500 ∷ []) (delete ctx id)
      × FailsWith (404 ∷ 500 ∷ []) (detail id)
      × FailsWith (401 ∷ 500 ∷ []) (login credentials)
      × FailsWith (401 ∷ 500 ∷ []) (refresh token)
      × FailsWith (401 ∷ 500 ∷ []) (logout token)
operations-FailsWith ctx id token req decision credentials = (
  create-codes _ refl refl refl ctx req token,
  update-codes _ refl refl refl refl ctx id decision,
  delete-codes _ refl refl refl ctx id,
  detail-codes _ refl refl id,
  login-codes _ refl refl credentials,
  refresh-codes _ refl refl token,
  logout-codes _ refl refl token,
)
