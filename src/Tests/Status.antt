-- ===== src/Tests/Status.antt =====
-- The life of a disbursement, at concrete rows.
use test_lintaspay_backend.Common.{◌≡◌, refl, pos, [], ◌∷◌, All, Some, inl}
use test_lintaspay_backend.External.Memory.{memory_database, memory-IsCollation}
use test_lintaspay_backend.Repository.Disbursements.{set_status}
use test_lintaspay_backend.Usecase.Disbursements.{calculate_admin_fee}
use test_lintaspay_backend.Usecase.Disbursements.Status.{update_status, delete}
use test_lintaspay_backend.Usecase.Disbursements.Status.Decision.{Outcome, update_status-Outcome}
use test_lintaspay_backend.Usecase.Disbursements.Status.Deletion.{Deleted, delete-Deleted}
use test_lintaspay_backend.Lifecycle.{Reach, here, next, decided, removed}
use test_lintaspay_backend.Lifecycle.Invariant.{
  IsSound, Reach-IsSound, Reach-final, SameOrder, Reach-SameOrder,
}
use test_lintaspay_backend.Tests.{caller, row, approved, approval, services, world_of}

-- The row is inserted, approved, and then a deletion finds nothing to delete.
abbrev approval_run : Reach ⦃g = services⦄ (row ∷ []) (approved ∷ [])
unfolding set_status
approval_run =
    next (next here (decided "d1" "APPROVED" "fine" "ann" (pos 4) (inl refl) refl))
      (removed "d1" (pos 7) refl)

update_status-Outcome_example :
    Outcome ⦃g = services⦄ ⦃db = memory_database row⦄ caller "d1" approval
      (update_status ⦃g = services⦄ caller "d1" approval (world_of (row ∷ []))).0
      (row ∷ [])
      (update_status ⦃g = services⦄ caller "d1" approval (world_of (row ∷ []))).1.disbursements
update_status-Outcome_example =
    update_status-Outcome ⦃g = services⦄ ⦃db = memory_database row⦄ caller "d1" approval
      (world_of (row ∷ []))

delete-Deleted_example :
    Deleted ⦃g = services⦄ ⦃db = memory_database row⦄ "d1"
      (delete ⦃g = services⦄ caller "d1" (world_of (row ∷ []))).0
      (row ∷ [])
      (delete ⦃g = services⦄ caller "d1" (world_of (row ∷ []))).1.disbursements
delete-Deleted_example =
    delete-Deleted ⦃g = services⦄ ⦃db = memory_database row⦄ caller "d1" (world_of (row ∷ []))

row-IsSound : IsSound row
unfolding calculate_admin_fee
row-IsSound = record { fee = refl; state = inl (refl, refl) }

Reach-IsSound_example : All IsSound (approved ∷ [])
Reach-IsSound_example =
    Reach-IsSound ⦃g = services⦄ memory-IsCollation approval_run (row-IsSound, tt)

Reach-final_example : Some (λ x. x ≡ approved) (approved ∷ [])
Reach-final_example =
    Reach-final ⦃g = services⦄ memory-IsCollation {old = approved ∷ []} approved
      (next here (removed "d1" (pos 7) refl)) (inl (inl refl)) (inl refl)

Reach-SameOrder_example : Some (λ x. SameOrder x row) (approved ∷ [])
Reach-SameOrder_example =
    Reach-SameOrder ⦃g = services⦄ row approval_run
      (inl (refl, refl, refl, refl, refl, refl, refl, refl))
