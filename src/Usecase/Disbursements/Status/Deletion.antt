-- ===== src/Usecase/Disbursements/Status/Deletion.antt =====
-- What `Delete` does to the rows, as its results say.
use mathlib.Core.Path.{subst}
use test_lintaspay_backend.Common.{
  ℕ, ◌≤◌, String, ◌≡◌, refl, ap, ◌∙◌, some, ◌==◌, true, List, Bool-cases, inl, inr, eqb, arith,
  count_if, rewrite_if,
}
use test_lintaspay_backend.Reqctx.{Context}
use test_lintaspay_backend.Entity.{Time, Disbursement, status_pending}
use test_lintaspay_backend.External.{Result, ok, err, Services, status_only, deleted_flag}
use test_lintaspay_backend.External.Sql.{Database, mark_deleted}
use test_lintaspay_backend.Monad.{World, ◌>>=◌, on_error}
use test_lintaspay_backend.Monad.Laws.{Result-cases}
use test_lintaspay_backend.Repository.Disbursements as Repo
use test_lintaspay_backend.Repository.Disbursements.{has_id_pending}
use test_lintaspay_backend.Repository.Disbursements.Rows.{
  rows, rows-find_by_id, soft_delete-RewritesPending, soft_delete-count, rewrite_if-none,
}
use test_lintaspay_backend.Usecase.Disbursements.{internal_with}
use test_lintaspay_backend.Usecase.Disbursements.Audit.{write_audit_lem}
use test_lintaspay_backend.Usecase.Disbursements.Status.{
  lookup_error, delete, after_delete, after_lookup,
}
use test_lintaspay_backend.Usecase.Disbursements.Status.Decision.{selected}

module _ ⦃g : Services⦄ ⦃db : Database g⦄ where
  -- The rows after the deletion, at the time that gorm gave.
  abbrev pub Deleted : String → Result (Unit {0}) → List Disbursement → List Disbursement → Type 0
  Deleted id (ok _) old new =
      (at : Time) × (new ≡ rewrite_if (selected id) (mark_deleted at) old)
      × (1 ≤ count_if (selected id) old)
  Deleted id (err e) old new = new ≡ old

  module _ (ctx : Context) (id : String) (current : Disbursement) where
    -- What the soft deletion did, by its result.
    abbrev Removed : World g → Result ℕ → World g → Type 0
    Removed w (err x) w' = rows w' ≡ rows w
    Removed w (ok n) w' =
        (at : Time) × (rows w' ≡ rewrite_if (selected id) (mark_deleted at) (rows w))
        × (n ≡ count_if (selected id) (rows w))

    Removed-soft_delete :
        (w : World g) → Removed w (Repo.soft_delete id w).0 (Repo.soft_delete id w).1
    Removed-soft_delete w =
        let (at, h) = soft_delete-RewritesPending id w in
        elim (Result-cases (Repo.soft_delete id w).0) [
          | inl (n, e) ↦ rw e (at, rw e at h, soft_delete-count id w n e)
          | inr (x, e) ↦ rw e (rw e at h)
        ]

    removed :
        (w w' : World g) (r : Result ℕ)
        → Removed w r w'
        → let m =
            on_error (internal_with "failed to delete disbursement") (λ _. (r, w'))
            >>= after_delete ctx id current in
          Deleted id (m w).0 (rows w) (rows (m w).1)
    removed w w' (err x) h = h
    removed w w' (ok n) (at, h, c) = elim (Bool-cases (eqb n 0)) [
      | inl z ↦ rw z (h ∙ rewrite_if-none (selected id) _ (rows w) (ground arith))
      | inr nz ↦
          let (r, s) =
            write_audit_lem ctx id "deleted" (some (status_only current.status))
              (some (deleted_flag true)) w' in
          rw (nz, r) (at, ap db.disbursement_rows s.disbursements ∙ h, ground arith)
    ]

    removed_row :
        (w : World g)
        → Deleted id
            (after_lookup ctx id current w).0
            (rows w)
            (rows (after_lookup ctx id current w).1)
    removed_row w = elim (Bool-cases (current.status == status_pending)) [
      | inl p ↦ rw p (removed w _ _ (Removed-soft_delete w))
      | inr n ↦ rw n refl
    ]

  -- For every id and state, and whatever the services answer: if `Delete` returns no error, there
  -- was a live PENDING row with this id, it is now soft-deleted, and every other row is as it was;
  -- if it returns an error, the rows are as they were.
  pub delete-Deleted :
      (ctx : Context) (id : String) (w : World g)
      → Deleted id (delete ctx id w).0 (rows w) (rows (delete ctx id w).1)
  unfolding delete
  delete-Deleted ctx id w =
      found (Repo.find_by_id id w).0 (Repo.find_by_id id w).1 (rows-find_by_id id w)
    where
      found :
          (r : Result Disbursement) (w' : World g)
          → rows w' ≡ rows w
          → let m = on_error lookup_error (λ _. (r, w')) >>= after_lookup ctx id in
            Deleted id (m w).0 (rows w) (rows (m w).1)
      found (err e) w' s = s
      found (ok d) w' s =
          subst (λ x. Deleted id (after_lookup ctx id d w').0 x (rows (after_lookup ctx id d w').1))
            s (removed_row ctx id d w')
