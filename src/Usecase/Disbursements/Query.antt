-- ===== src/Usecase/Disbursements/Query.antt =====
-- `List` and `Detail` of internal/usecase/disbursements.go.
pub mod Listed
pub mod Wrapped
use test_lintaspay_backend.Common.{
  String, Bool, not, ◌||◌, ℤ, Option, none, some, List, ◌==◌, if◌then◌else◌,
}
use test_lintaspay_backend.Errors.{HttpError, bad_request}
use test_lintaspay_backend.Entity.{
  Disbursement, DisbursementFilter, status_pending, status_approved, status_rejected, normalize,
}
use test_lintaspay_backend.External.{Services}
use test_lintaspay_backend.Monad.{M, fail, on_error}
use test_lintaspay_backend.Repository.Disbursements as Repo
use test_lintaspay_backend.Usecase.Dates.{validate_date_range}
use test_lintaspay_backend.Usecase.Disbursements.{internal_with}
use test_lintaspay_backend.Usecase.Disbursements.Status.{lookup_error}

abbrev pub is_status_filter : String → Bool
is_status_filter s = s == "" || s == status_pending || s == status_approved || s == status_rejected

module _ ⦃g : Services⦄ where
  abbrev pub query : DisbursementFilter → Option HttpError → M (List Disbursement × ℤ)
  query f (some h) = fail h
  query f none = on_error (internal_with "failed to fetch disbursements") (Repo.find_all f)

  abbrev pub list_normalized : DisbursementFilter → M (List Disbursement × ℤ)
  list_normalized f =
      if not (is_status_filter f.status)
      then fail (bad_request "status must be one of PENDING, APPROVED, REJECTED")
      else query f (validate_date_range f.date_from f.date_to)

  -- `List` normalizes the caller's filter in place: the caller sees `normalize` of it.
  unfoldable pub list : DisbursementFilter → M (List Disbursement × ℤ)
  unfolding normalize internal_with bad_request validate_date_range
  list f = list_normalized (normalize g.case_tables f)

  unfoldable pub detail : String → M Disbursement
  unfolding lookup_error
  detail id = on_error lookup_error (Repo.find_by_id id)
