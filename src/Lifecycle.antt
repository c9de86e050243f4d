-- ===== src/Lifecycle.antt =====
-- The life of a disbursement, as a step relation on the rows of `disbursements`: a step is one
-- statement of internal/repository/disbursements.go as the use cases issue it. Requests that run
-- at the same time interleave their statements, so what holds along `Reach` holds of every
-- interleaving of any number of requests.
pub mod Invariant
pub mod Rules
pub mod Actions
pub mod Runs
pub mod Moves
pub mod Once
pub mod Backed
pub mod Replays
pub mod Requests
pub mod Telling
use test_lintaspay_backend.Common.{String, ◌≡◌, ◌⊎◌, List, ◌∷◌, rewrite_if}
use test_lintaspay_backend.Entity.{
  Time, Disbursement, CreateDisbursementRequest, status_approved, status_rejected,
}
use test_lintaspay_backend.External.{Services}
use test_lintaspay_backend.External.Sql.{is_live, mark_deleted, both}
use test_lintaspay_backend.Repository.Disbursements.{has_id_pending, set_status}
use test_lintaspay_backend.Usecase.Disbursements.{new_disbursement}

abbrev pub IsDecision : String → Type 0
IsDecision status = (status ≡ status_approved) ⊎ (status ≡ status_rejected)

module _ ⦃g : Services⦄ where
  pub data Step (old new : List Disbursement) : Type 0 where
    -- `INSERT`, by `Create` and `CreateBatch`
    inserted :
        (actor : String) (at : Time) (id : String) (req : CreateDisbursementRequest)
        → new ≡ new_disbursement actor at id req ∷ old
        → Step old new
    -- `UPDATE … WHERE id = ? AND status = 'PENDING'`, by `UpdateStatus`
    decided :
        (id status note actor : String) (at : Time)
        → IsDecision status
        → new ≡ rewrite_if (both is_live (has_id_pending id)) (set_status status note actor at) old
        → Step old new
    -- the soft deletion `… WHERE id = ? AND status = 'PENDING'`, by `Delete`
    removed :
        (id : String) (at : Time)
        → new ≡ rewrite_if (both is_live (has_id_pending id)) (mark_deleted at) old
        → Step old new

  pub data Reach (old : List Disbursement) : List Disbursement → Type 0 where
    here : Reach old old
    next : {mid new : List Disbursement} → Reach old mid → Step mid new → Reach old new

  pub Reach-trans : {a b c : List Disbursement} → Reach a b → Reach b c → Reach a c
  Reach-trans r here = r
  Reach-trans r (next q s) = next (Reach-trans r q) s
