-- ===== src/Repository/Health.antt =====
-- internal/repository/health.go: the ping, with its timeout, is the driver's.
use test_lintaspay_backend.External.{Services}
use test_lintaspay_backend.Monad.{M, on_host}

module _ ⦃g : Services⦄ where
  unfoldable pub ping_db : M (Unit {0})
  ping_db = on_host g.ping
