-- ===== src/Usecase/Disbursements/Batch/Answers.antt =====
-- What `CreateBatch` answers for each item, and what it stores.
use test_lintaspay_backend.Common.{
  ℕ, ◌+◌, String, ◌≡◌, refl, sym, ap, ◌∙◌, none, some, Option, List, [], ◌∷◌, ◌⊎◌, inl, inr,
}
use test_lintaspay_backend.Reqctx.{Context, username}
use test_lintaspay_backend.Entity.{
  Time, Disbursement, CreateDisbursementRequest, BatchCreateDisbursementRequest, BatchItemResult,
}
use test_lintaspay_backend.External.{Result, ok, err, Services, FieldError, disbursement}
use test_lintaspay_backend.External.Sql.{Database}
use test_lintaspay_backend.Monad.{World, pure, continue, ◌>>=◌}
use test_lintaspay_backend.Repository.Disbursements.Rows.{rows, Inserts, create-Inserts}
use test_lintaspay_backend.Usecase.Disbursements.{new_disbursement}
use test_lintaspay_backend.Usecase.Disbursements.Audit.{write_audit_lem}
use test_lintaspay_backend.Usecase.Disbursements.Batch.{
  invalid_item, failed_item, created_item, item_outcome, checked_item, create_item, create_items,
  create_batch,
}

-- The rows after these results: each created disbursement was inserted, in order.
abbrev pub add_created : Option Disbursement → List Disbursement → List Disbursement
add_created none old = old
add_created (some d) old = d ∷ old

abbrev pub stored_after : List BatchItemResult → List Disbursement → List Disbursement
stored_after [] old = old
stored_after (r ∷ rs) old = stored_after rs (add_created r.result old)

module _ ⦃g : Services⦄ where
  -- The answer to one item, with the violations that the validator found in it.
  abbrev pub Answer :
      Context → ℕ → CreateDisbursementRequest → List FieldError → BatchItemResult → Type 0
  Answer ctx i item (e ∷ es) r = r ≡ invalid_item i (e ∷ es)
  Answer ctx i item [] r =
      (r ≡ failed_item i)
      ⊎ ((at : Time) × (id : String) × (r
            ≡ created_item i (new_disbursement (username ctx) at id item)))

  -- One answer for each item, in order, numbered from `i` on.
  abbrev pub Answers : Context → ℕ → List CreateDisbursementRequest → List BatchItemResult → Type 0
  Answers ctx i [] [] = Unit
  Answers ctx i [] (r ∷ rs) = ⊥
  Answers ctx i (item ∷ items) [] = ⊥
  Answers ctx i (item ∷ items) (r ∷ rs) =
      Answer ctx i item (g.validate_create item) r × Answers ctx (i + 1) items rs

  -- The batch never fails as a whole.
  abbrev pub Answered :
      Context
      → ℕ
      → List CreateDisbursementRequest
      → Result (List BatchItemResult)
      → List Disbursement
      → List Disbursement
      → Type 0
  Answered ctx i items (err e) old new = ⊥
  Answered ctx i items (ok rs) old new = Answers ctx i items rs × (new ≡ stored_after rs old)

  abbrev One :
      Context
      → ℕ
      → CreateDisbursementRequest
      → List FieldError
      → Result BatchItemResult
      → List Disbursement
      → List Disbursement
      → Type 0
  One ctx i item es (err e) old new = ⊥
  One ctx i item es (ok r) old new = Answer ctx i item es r × (new ≡ add_created r.result old)

module _ ⦃g : Services⦄ ⦃db : Database g⦄ where
  outcome-One :
      (ctx : Context) (i : ℕ) (item : CreateDisbursementRequest) (at : Time) (id : String)
      (old : List Disbursement) (r : Result (Unit {0})) (w : World g)
      → let d = new_disbursement (username ctx) at id item in
        Inserts d r old (rows w)
        → One ctx i item [] (item_outcome ctx i d r w).0 old (rows (item_outcome ctx i d r w).1)
  outcome-One ctx i item at id old (ok _) w h =
      let d = new_disbursement (username ctx) at id item in
      let (r, s) = write_audit_lem ctx d.id "created" none (some (disbursement d)) w in
      rw r (inr (at, id, refl), ap db.disbursement_rows s.disbursements ∙ h)
  outcome-One ctx i item at id old (err e) w h = (inl refl, h)

  checked-One :
      (ctx : Context) (i : ℕ) (item : CreateDisbursementRequest) (es : List FieldError)
      (w : World g)
      → One ctx i item es
          (checked_item ctx i item es w).0
          (rows w)
          (rows (checked_item ctx i item es w).1)
  checked-One ctx i item [] w = outcome-One ctx i item _ _ (rows w) _ _ (create-Inserts _ _)
  checked-One ctx i item (e ∷ es) w = (refl, refl)

  items-Answered :
      (ctx : Context) (items : List CreateDisbursementRequest) (i : ℕ) (w : World g)
      → Answered ctx i items
          (create_items ctx i items w).0
          (rows w)
          (rows (create_items ctx i items w).1)
  unfolding create_items create_item
  items-Answered ctx [] i w = (tt, refl)
  items-Answered ctx (item ∷ items) i w =
      first (checked_item ctx i item (g.validate_create item) w).0
        (checked_item ctx i item (g.validate_create item) w).1
        (checked-One ctx i item (g.validate_create item) w) (items-Answered ctx items (i + 1))
    where
      last :
          (r : BatchItemResult) (q : Result (List BatchItemResult)) (w' : World g)
          (mid : List Disbursement)
          → Answer ctx i item (g.validate_create item) r
          → mid ≡ add_created r.result (rows w)
          → Answered ctx (i + 1) items q mid (rows w')
          → let m = continue (λ rs. pure (r ∷ rs)) (q, w') in
            Answered ctx i (item ∷ items) m.0 (rows w) (rows m.1)
      last r (ok rs) w' mid a e (as', s) = ((a, as'), rw (sym e) s)
      last r (err x) w' mid a e h = h

      first :
          (r : Result BatchItemResult) (w' : World g)
          → One ctx i item (g.validate_create item) r (rows w) (rows w')
          → ((v : World g)
              → Answered ctx
                  (i + 1)
                  items
                  (create_items ctx (i + 1) items v).0
                  (rows v)
                  (rows (create_items ctx (i + 1) items v).1))
          → let m =
              continue (λ r. create_items ctx (i + 1) items >>= (λ rs. pure (r ∷ rs))) (r, w') in
            Answered ctx i (item ∷ items) m.0 (rows w) (rows m.1)
      first (ok r) w' (a, e) rest =
          last r (create_items ctx (i + 1) items w').0 (create_items ctx (i + 1) items w').1
            (rows w') a e (rest w')
      first (err x) w' h rest = elim h [ ]

  -- For every batch and state, and whatever the services answer, `CreateBatch` succeeds with one
  -- result for each item, in order and with the item's index: an item that breaks a rule has the
  -- rules' messages, any other has the new PENDING disbursement made of it or a fixed failure
  -- text; and the rows are the old ones with exactly the created disbursements inserted.
  pub create_batch-Answered :
      (ctx : Context) (req : BatchCreateDisbursementRequest) (w : World g)
      → Answered ctx 0 req.items
          (create_batch ctx req w).0
          (rows w)
          (rows (create_batch ctx req w).1)
  unfolding create_batch
  create_batch-Answered ctx req w = items-Answered ctx req.items 0 w
