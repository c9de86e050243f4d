-- ===== src/Usecase/Disbursements/Batch.antt =====
-- `CreateBatch` of internal/usecase/disbursements.go.
pub mod Answers
use Prim.Native.String
use test_lintaspay_backend.Common.{ℕ, ◌+◌, true, false, none, some, List, [], ◌∷◌}
use test_lintaspay_backend.Reqctx.{Context, username}
use test_lintaspay_backend.Entity.{
  Disbursement, CreateDisbursementRequest, BatchCreateDisbursementRequest, BatchItemResult,
  audit_action_created,
}
use test_lintaspay_backend.External.{Services, Result, ok, err, FieldError, disbursement}
use test_lintaspay_backend.Monad.{M, pure, ◌>>=◌, ◌>>◌, attempt, now, new_uuid, log}
use test_lintaspay_backend.Repository.Disbursements as Repo
use test_lintaspay_backend.Utils.{join, format_validation_error}
use test_lintaspay_backend.Usecase.Disbursements.{new_disbursement, write_audit}

module _ ⦃g : Services⦄ where
  abbrev pub invalid_item : ℕ → List FieldError → BatchItemResult
  invalid_item i errors = record {
    index = i;
    success = false;
    result = none;
    error = join (format_validation_error errors);
  }

  abbrev pub failed_item : ℕ → BatchItemResult
  failed_item i = record {
    index = i;
    success = false;
    result = none;
    error = "failed to create disbursement";
  }

  abbrev pub created_item : ℕ → Disbursement → BatchItemResult
  created_item i d = record { index = i; success = true; result = some d; error = "" }

  abbrev pub item_outcome : Context → ℕ → Disbursement → Result (Unit {0}) → M BatchItemResult
  item_outcome ctx i d (ok _) = do
    write_audit ctx d.id audit_action_created none (some (disbursement d))
    pure (created_item i d)
  item_outcome ctx i d (err e) = do
    log "failed to create disbursement in batch"
    pure (failed_item i)

  abbrev pub valid_item : Context → ℕ → CreateDisbursementRequest → M BatchItemResult
  valid_item ctx i item = do
    at ← now
    id ← new_uuid
    let d = new_disbursement (username ctx) at id item
    r ← attempt (Repo.create d)
    item_outcome ctx i d r

  abbrev pub checked_item :
      Context → ℕ → CreateDisbursementRequest → List FieldError → M BatchItemResult
  checked_item ctx i item [] = valid_item ctx i item
  checked_item ctx i item (e ∷ es) = pure (invalid_item i (e ∷ es))

  -- One round of the loop in `CreateBatch`.
  unfoldable pub create_item : Context → ℕ → CreateDisbursementRequest → M BatchItemResult
  unfolding new_disbursement write_audit username
  create_item ctx i item = checked_item ctx i item (g.validate_create item)

  -- The loop, from index `i` on.
  unfoldable pub create_items :
      Context → ℕ → List CreateDisbursementRequest → M (List BatchItemResult)
  unfolding create_item
  create_items ctx i [] = pure []
  create_items ctx i (item ∷ items) = do
    r ← create_item ctx i item
    rs ← create_items ctx (i + 1) items
    pure (r ∷ rs)

  unfoldable pub create_batch : Context → BatchCreateDisbursementRequest → M (List BatchItemResult)
  unfolding create_items
  create_batch ctx req = create_items ctx 0 req.items
