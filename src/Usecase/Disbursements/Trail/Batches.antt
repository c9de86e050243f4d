-- ===== src/Usecase/Disbursements/Trail/Batches.antt =====
-- What `CreateBatch` of internal/usecase/disbursements.go leaves in the audit trail.
use test_lintaspay_backend.Common.{ℕ, ◌+◌, ◌≡◌, refl, none, some, List, [], ◌∷◌}
use test_lintaspay_backend.Reqctx.{Context}
use test_lintaspay_backend.Entity.{
  Disbursement, CreateDisbursementRequest, BatchItemResult, audit_action_created,
}
use test_lintaspay_backend.External.{FieldError}
use test_lintaspay_backend.External.{Result, ok, err, Services, disbursement}
use test_lintaspay_backend.External.Sql.{Database}
use test_lintaspay_backend.Monad.{World, M, pure, ◌>>=◌}
use test_lintaspay_backend.Repository.Disbursements as Repo
use test_lintaspay_backend.Usecase.Disbursements.Batch.{
  create_item, create_items, item_outcome, checked_item, valid_item, created_item, failed_item,
  invalid_item,
}
use test_lintaspay_backend.Usecase.Disbursements.Trail.{
  Trail, Traced, trail, Silent-log, write_audit-Traced,
}

module _ ⦃g : Services⦄ ⦃db : Database g⦄ (ctx : Context) where
  -- An item that was created is in the trail, another leaves none.
  abbrev pub ItemTraced : BatchItemResult → Trail → Trail → Type 0
  ItemTraced r old new = elim r.result [
    | none ↦ new ≡ old
    | some d ↦ Traced ctx d.id audit_action_created (disbursement d) old new
  ]

  -- Item by item, in order.
  abbrev pub AllTraced : List BatchItemResult → Trail → Trail → Type 0
  AllTraced [] old new = new ≡ old
  AllTraced (r ∷ rs) old new = (mid : Trail) × ItemTraced r old mid × AllTraced rs mid new

  -- The action returns a value, of which `T` says what became of the trail.
  abbrev Given : {A : Type 0} → (A → Trail → Trail → Type 0) → M A → World g → Type 0
  Given {A} T m w = (a : A) × ((m w).0 ≡ ok a) × T a (trail w) (trail (m w).1)

  item_outcome-Given :
      (i : ℕ) (d : Disbursement) (r : Result (Unit {0})) (w : World g)
      → Given ItemTraced (item_outcome ctx i d r) w
  item_outcome-Given i d (ok _) w =
      let (o, t) = write_audit-Traced ctx d.id audit_action_created none (disbursement d) w in
      rw o (created_item i d, refl, t)
  item_outcome-Given i d (err e) w =
      (failed_item i, refl, (Silent-log "failed to create disbursement in batch" refl).quiet w)

  valid_item-Given :
      (i : ℕ) (item : CreateDisbursementRequest) (w : World g)
      → Given ItemTraced (valid_item ctx i item) w
  unfolding Repo.create
  valid_item-Given i item w = item_outcome-Given i _ _ _

  checked_item-Given :
      (i : ℕ) (item : CreateDisbursementRequest) (es : List FieldError) (w : World g)
      → Given ItemTraced (checked_item ctx i item es) w
  checked_item-Given i item [] w = valid_item-Given i item w
  checked_item-Given i item (e ∷ es) w = (invalid_item i (e ∷ es), refl, refl)

  create_item-Given :
      (i : ℕ) (item : CreateDisbursementRequest) (w : World g)
      → Given ItemTraced (create_item ctx i item) w
  unfolding create_item
  create_item-Given i item w = checked_item-Given i item (g.validate_create item) w

  Given-both :
      (m : M BatchItemResult) (n : M (List BatchItemResult)) (w : World g)
      → Given ItemTraced m w
      → ((w' : World g) → Given AllTraced n w')
      → Given AllTraced (m >>= λ r. n >>= λ rs. pure (r ∷ rs)) w
  Given-both m n w (r, e, t) h =
      let (rs, es, ts) = h (m w).1 in rw (e, es) (r ∷ rs, refl, (trail (m w).1, t, ts))

  pub create_items-Given :
      (i : ℕ) (items : List CreateDisbursementRequest) (w : World g)
      → Given AllTraced (create_items ctx i items) w
  unfolding create_items
  create_items-Given i [] w = ([], refl, refl)
  create_items-Given i (item ∷ items) w =
      Given-both (create_item ctx i item) (create_items ctx (i + 1) items) w
        (create_item-Given i item w) (create_items-Given (i + 1) items)
