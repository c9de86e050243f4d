-- ===== src/Usecase/Health.antt =====
-- internal/usecase/health.go
use test_lintaspay_backend.Entity.{HealthStatus}
use test_lintaspay_backend.External.{Services, Result, ok, err}
use test_lintaspay_backend.Monad.{M, pure, ◌>>=◌, ◌>>◌, attempt, log}
use test_lintaspay_backend.Repository.Health as Repo

module _ ⦃g : Services⦄ where
  abbrev report : Result (Unit {0}) → M HealthStatus
  report (ok _) = pure (record { status = "ok"; database = "up" })
  report (err e) = do
    log "database health check failed"
    pure (record { status = "degraded"; database = "down" })

  unfoldable pub status : M HealthStatus
  unfolding Repo.ping_db
  status = do r ← attempt Repo.ping_db; report r
