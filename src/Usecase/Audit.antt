-- ===== src/Usecase/Audit.antt =====
-- internal/usecase/audit.go
pub mod Listed
use test_lintaspay_backend.Common.{ℤ, Option, none, some, List}
use test_lintaspay_backend.Errors.{HttpError}
use test_lintaspay_backend.Entity.{AuditLog, AuditLogFilter, normalize_audit}
use test_lintaspay_backend.External.{Services}
use test_lintaspay_backend.Monad.{M, fail, on_error}
use test_lintaspay_backend.Repository.Audit as Repo
use test_lintaspay_backend.Usecase.Dates.{validate_date_range}
use test_lintaspay_backend.Usecase.Disbursements.{internal_with}

module _ ⦃g : Services⦄ where
  abbrev pub query : AuditLogFilter → Option HttpError → M (List AuditLog × ℤ)
  query f (some h) = fail h
  query f none = on_error (internal_with "failed to fetch audit logs") (Repo.find_all f)

  -- `List` normalizes the caller's filter in place: the caller sees `normalize_audit` of it.
  unfoldable pub list : AuditLogFilter → M (List AuditLog × ℤ)
  unfolding normalize_audit internal_with validate_date_range
  list f = let f' = normalize_audit f in query f' (validate_date_range f'.date_from f'.date_to)
