-- ===== src/Usecase/Disbursements/Status.antt =====
-- `UpdateStatus` and `Delete` of internal/usecase/disbursements.go: what may happen to a
-- disbursement once it exists.
pub mod Decision
pub mod Deletion
use Prim.Native.String
use test_lintaspay_backend.Common.{ℕ, ◌+◌, String, true, not, ◌&&◌, eqb, some, ◌==◌, if◌then◌else◌}
use test_lintaspay_backend.Errors.{
  GoError, HttpError, http, errors_is, not_found, bad_request, conflict, not_found_error,
}
use test_lintaspay_backend.Reqctx.{Context, username}
use test_lintaspay_backend.Entity.{
  Disbursement, UpdateStatusRequest, status_pending, status_approved, status_rejected,
  audit_action_status_changed, audit_action_deleted,
}
use test_lintaspay_backend.External.{
  Services, disbursement, status_note, status_note_by, status_only, deleted_flag,
}
use test_lintaspay_backend.Monad.{M, pure, fail, ◌>>=◌, ◌>>◌, on_error, log}
use test_lintaspay_backend.Repository.Disbursements as Repo
use test_lintaspay_backend.Usecase.Disbursements.{internal_with, write_audit}

-- The error of the first `FindByID`, by its kind.
unfoldable pub lookup_error : GoError → GoError
unfolding internal_with not_found_error
lookup_error e =
    if errors_is not_found e
    then http (not_found_error "disbursement not found")
    else internal_with "failed to fetch disbursement" e

abbrev already : String → String
already status =
    String.◌++◌ "disbursement is already " (String.◌++◌ status " and can no longer be changed")

abbrev lost_race : HttpError
lost_race =
    conflict "disbursement was just processed by another request, please re-check its status"

module _ ⦃g : Services⦄ where
  -- `UpdateStatus` after its `UPDATE`, which changed this many rows.
  abbrev pub after_update :
      Context → String → UpdateStatusRequest → Disbursement → ℕ → M Disbursement
  after_update ctx id req current rows = if eqb rows 0 then fail lost_race else do
    updated ← on_error (internal_with "failed to fetch updated disbursement") (Repo.find_by_id id)
    write_audit ctx id audit_action_status_changed (some (status_note current.status current.note))
        (some (status_note_by updated.status updated.note (username ctx)))
    log "disbursement status updated"
    pure updated

  -- `UpdateStatus` after its first `FindByID`.
  abbrev pub after_find : Context → String → UpdateStatusRequest → Disbursement → M Disbursement
  after_find ctx id req current =
      if not (current.status == status_pending)
      then fail (conflict (already current.status))
      else do
        rows ←
            on_error (internal_with "failed to update disbursement status")
              (Repo.update_status id req.status req.note (username ctx))
        after_update ctx id req current rows

  unfoldable pub update_status : Context → String → UpdateStatusRequest → M Disbursement
  unfolding lookup_error internal_with write_audit bad_request conflict username
  update_status ctx id req =
      if not (req.status == status_approved) && not (req.status == status_rejected)
      then fail (bad_request "status must be APPROVED or REJECTED")
      else do current ← on_error lookup_error (Repo.find_by_id id); after_find ctx id req current

  -- `Delete` after its soft deletion, which changed this many rows.
  abbrev pub after_delete : Context → String → Disbursement → ℕ → M (Unit {0})
  after_delete ctx id current rows = if eqb rows 0 then fail lost_race else do
    write_audit ctx id audit_action_deleted (some (status_only current.status))
        (some (deleted_flag true))
    log "disbursement deleted"

  -- `Delete` after its `FindByID`.
  abbrev pub after_lookup : Context → String → Disbursement → M (Unit {0})
  after_lookup ctx id current =
      if not (current.status == status_pending)
      then fail (conflict "only PENDING disbursement can be deleted")
      else do
        rows ← on_error (internal_with "failed to delete disbursement") (Repo.soft_delete id)
        after_delete ctx id current rows

  unfoldable pub delete : Context → String → M (Unit {0})
  unfolding lookup_error internal_with write_audit conflict
  delete ctx id = do
    current ← on_error lookup_error (Repo.find_by_id id)
    after_lookup ctx id current
