-- ===== src/Usecase/Disbursements/Status/Decision.antt =====
-- What `UpdateStatus` and `Delete` do to the rows, as their results say.
use test_lintaspay_backend.Common.{
  ℕ, ◌≤◌, String, ◌≡◌, ◌≢◌, ◌⊎◌, refl, sym, ap, ◌∙◌, some, not, ◌==◌, eq_iff, Bool, true, false,
  ◌&&◌, List, Bool-cases, inl, inr, Some, eqb, arith, count_if, rewrite_if,
}
use mathlib.Core.Path.{subst}
use test_lintaspay_backend.Errors.{GoError}
use test_lintaspay_backend.Reqctx.{Context, username}
use test_lintaspay_backend.Entity.{
  Time, Disbursement, UpdateStatusRequest, status_approved, status_rejected, status_pending,
}
use test_lintaspay_backend.External.{Result, ok, err, Services, status_note, status_note_by}
use test_lintaspay_backend.External.Sql.{Database, is_live, both}
use test_lintaspay_backend.Monad.{World, ◌>>=◌, on_error}
use test_lintaspay_backend.Monad.Laws.{Result-cases}
use test_lintaspay_backend.Repository.Disbursements as Repo
use test_lintaspay_backend.Repository.Disbursements.{has_id, has_id_pending, set_status}
use test_lintaspay_backend.Repository.Disbursements.Rows.{
  rows, rows-find_by_id, find_by_id-ok, update_status-RewritesPending, update_status-count,
  rewrite_if-none,
}
use test_lintaspay_backend.Usecase.Disbursements.{internal_with}
use test_lintaspay_backend.Usecase.Disbursements.Audit.{write_audit_lem}
use test_lintaspay_backend.Usecase.Disbursements.Status.{
  lookup_error, update_status, after_update, after_find,
}

module _ ⦃g : Services⦄ ⦃db : Database g⦄ where
  -- The live row with this id, while it is PENDING.
  abbrev pub selected : String → Disbursement → Bool
  selected id = both is_live (has_id_pending id)

  -- The rows after the decision, at a time that the clock gave.
  abbrev pub DecidedAt :
      Context → String → UpdateStatusRequest → List Disbursement → List Disbursement → Type 0
  DecidedAt ctx id req old new =
      ((req.status ≡ status_approved) ⊎ (req.status ≡ status_rejected))
      × (at : Time) × (new
          ≡ rewrite_if (selected id) (set_status req.status req.note (username ctx) at) old)
      × (1 ≤ count_if (selected id) old)

  abbrev pub Outcome :
      Context
      → String
      → UpdateStatusRequest
      → Result Disbursement
      → List Disbursement
      → List Disbursement
      → Type 0
  Outcome ctx id req (ok d) old new =
      DecidedAt ctx id req old new
      × (is_live d ≡ true)
      × (has_id id d ≡ true)
      × Some (λ x. x ≡ d) new
  Outcome ctx id req (err e) old new =
      (new ≡ old)
      ⊎ (DecidedAt ctx id req old new
          × ((x : GoError) × (e ≡ internal_with "failed to fetch updated disbursement" x)))

  changes_pending :
      (id status note actor : String)
      → (status ≡ status_approved) ⊎ (status ≡ status_rejected)
      → (at : Time) (r : Disbursement) → has_id_pending id r ≡ true
      → set_status status note actor at r ≢ r
  unfolding set_status
  changes_pending id status note actor decision at r h e =
      let same : status ≡ r.status = ap (λ (d : Disbursement). d.status) e in
      go decision same (ground arith)
    where
      go :
          (status ≡ status_approved) ⊎ (status ≡ status_rejected)
          → status ≡ r.status
          → g.sql_eq r.status status_pending ≡ true
          → ⊥
      go (inl a) s q = cc (a, s, q, db.collation.approved_ne_pending)
      go (inr a) s q = cc (a, s, q, db.collation.rejected_ne_pending)

  module _ (ctx : Context) (id : String) (req : UpdateStatusRequest) (current : Disbursement) where
    -- From the world `w` after an `UPDATE` that changed rows.
    reread :
        (old : List Disbursement) (w : World g) (n : ℕ)
        → eqb n 0 ≡ false
        → DecidedAt ctx id req old (rows w)
        → let m = after_update ctx id req current n in Outcome ctx id req (m w).0 old (rows (m w).1)
    reread old w n some' decided = elim (Result-cases (Repo.find_by_id id w).0) [
      | inl (d, e) ↦
          let w' = (Repo.find_by_id id w).1 in
          let (r, s) =
            write_audit_lem ctx id "status_changed" (some (status_note current.status current.note))
              (some (status_note_by d.status d.note (username ctx))) w' in
          let kept = ap db.disbursement_rows s.disbursements ∙ rows-find_by_id id w in
          let (live, same, member) = find_by_id-ok id w d e in
          rw (some', e, r) (rw kept (decided, live, same, member))
      | inr (x, e) ↦ rw (some', e) (inr (rw (rows-find_by_id id w) decided, (x, refl)))
    ]

    positive : (n : ℕ) → eqb n 0 ≡ false → 1 ≤ n
    positive n h = ground arith

    abbrev rewritten : List Disbursement → World g → List Disbursement
    rewritten old w =
        rewrite_if (selected id)
          (set_status req.status req.note (username ctx) (g.time_now w.host).0) old

    -- What the `UPDATE` did, by its result.
    abbrev Updated : World g → Result ℕ → World g → Type 0
    Updated w (err x) w' = rows w' ≡ rows w
    Updated w (ok n) w' = (rows w' ≡ rewritten (rows w) w) × (n ≡ count_if (selected id) (rows w))

    Updated-update_status :
        (w : World g)
        → (req.status ≡ status_approved) ⊎ (req.status ≡ status_rejected)
        → Updated w
            (Repo.update_status id req.status req.note (username ctx) w).0
            (Repo.update_status id req.status req.note (username ctx) w).1
    Updated-update_status w c =
        let h = update_status-RewritesPending id req.status req.note (username ctx) w in
        elim (Result-cases (Repo.update_status id req.status req.note (username ctx) w).0) [
          | inl (n, e) ↦ rw e (
            rw e at h,
            update_status-count id req.status req.note (username ctx) w n e
                (changes_pending id req.status req.note (username ctx) c),
          )
          | inr (x, e) ↦ rw e (rw e at h)
        ]

    updated :
        (w w' : World g) (r : Result ℕ)
        → (req.status ≡ status_approved) ⊎ (req.status ≡ status_rejected)
        → Updated w r w'
        → let m =
            on_error (internal_with "failed to update disbursement status") (λ _. (r, w'))
            >>= after_update ctx id req current in
          Outcome ctx id req (m w).0 (rows w) (rows (m w).1)
    updated w w' (err x) d h = inl h
    updated w w' (ok n) d (h, c) = elim (Bool-cases (eqb n 0)) [
      | inl z ↦ rw z (inl (h ∙ rewrite_if-none (selected id) _ (rows w) (ground arith)))
      | inr nz ↦ reread (rows w) w' n nz (d, (g.time_now w.host).0, h, rw (sym c) (positive n nz))
    ]

    decided_row :
        (w : World g)
        → (req.status ≡ status_approved) ⊎ (req.status ≡ status_rejected)
        → Outcome ctx id req
            (after_find ctx id req current w).0
            (rows w)
            (rows (after_find ctx id req current w).1)
    decided_row w c = elim (Bool-cases (current.status == status_pending)) [
      | inl p ↦ rw p (updated w _ _ c (Updated-update_status w c))
      | inr n ↦ rw n (inl refl)
    ]

  -- For every id, decision and state, and whatever the services answer: if `UpdateStatus` returns
  -- a disbursement, the request was APPROVED or REJECTED, and there was a live PENDING row with
  -- this id, which now has the status, the note and the approver, every other row being as it was;
  -- and the result is a live row of the table with this id. If it returns an error, the rows are
  -- as they were, or the error is that of the second read, after the decision was stored.
  pub update_status-Outcome :
      (ctx : Context) (id : String) (req : UpdateStatusRequest) (w : World g)
      → Outcome ctx id req
          (update_status ctx id req w).0
          (rows w)
          (rows (update_status ctx id req w).1)
  unfolding update_status
  update_status-Outcome ctx id req w =
      elim (Bool-cases
        (not (req.status == status_approved) && not (req.status == status_rejected))) [
          | inl t ↦ rw t (inl refl)
          | inr f ↦ rw f (
              found (Repo.find_by_id id w).0 (Repo.find_by_id id w).1 (rows-find_by_id id w) (
                ground
                  (arith, eq_iff req.status status_approved, eq_iff req.status status_rejected)))
        ]
    where
      found :
          (r : Result Disbursement) (w' : World g)
          → rows w' ≡ rows w
          → (req.status ≡ status_approved) ⊎ (req.status ≡ status_rejected)
          → let m = on_error lookup_error (λ _. (r, w')) >>= after_find ctx id req in
            Outcome ctx id req (m w).0 (rows w) (rows (m w).1)
      found (err e) w' s c = inl s
      found (ok d) w' s c =
          subst
            (λ x.
              Outcome ctx id req (after_find ctx id req d w').0 x
                (rows (after_find ctx id req d w').1))
            s (decided_row ctx id req d w' c)
