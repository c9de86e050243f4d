-- ===== src/Handler/Health.antt =====
-- internal/handler/health.go
use test_lintaspay_backend.Common.{[], ◌∷◌, not, ◌==◌, if◌then◌else◌}
use test_lintaspay_backend.Errors.{service_unavailable, with_details, fields}
use test_lintaspay_backend.Entity.{HealthStatus}
use test_lintaspay_backend.External.{Services}
use test_lintaspay_backend.Monad.{M, pure, fail, ◌>>=◌}
use test_lintaspay_backend.Response.{DataResponse, Reply, new_data_response, json}
use test_lintaspay_backend.Usecase.Health as HealthCase

module _ ⦃g : Services⦄ where
  unfoldable pub check : M (Reply (DataResponse HealthStatus))
  unfolding HealthCase.status service_unavailable with_details json new_data_response
  check = do
    status ← HealthCase.status
    if not (status.status == "ok")
        then fail (
            with_details (fields (("database", status.database) ∷ []))
              (service_unavailable "service degraded"))
        else pure (json 200 [] (new_data_response 200 "service healthy" status))
