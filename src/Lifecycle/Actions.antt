-- ===== src/Lifecycle/Actions.antt =====
-- Every operation of the use case runs as steps of the life cycle, whatever the database and the
-- other services answer.
use test_lintaspay_backend.Common.{
  ℕ, zero, suc, ◌+◌, String, ◌≡◌, refl, Bool, true, false, not, ◌&&◌, List, [], ◌∷◌, ◌==◌, eq_iff,
  inl, inr, ltb_ℤ, arith,
}
use test_lintaspay_backend.Reqctx.{Context, username}
use test_lintaspay_backend.Entity.{
  Time, Disbursement, IdempotencyKey, CreateDisbursementRequest, BatchCreateDisbursementRequest,
  UpdateStatusRequest, status_approved, status_rejected,
}
use test_lintaspay_backend.External.{Result, ok, err, Services, FieldError, disbursement}
use test_lintaspay_backend.External.Sql.{Database}
use test_lintaspay_backend.Monad.{World, M}
use test_lintaspay_backend.Monad.Laws.{Result-cases}
use test_lintaspay_backend.Repository.Disbursements.{has_key}
use test_lintaspay_backend.Repository.Disbursements.Rows.{rows}
use test_lintaspay_backend.Usecase.Disbursements.{new_disbursement}
use test_lintaspay_backend.Usecase.Disbursements.Create.{
  after_reservation, renew_expired, create_rounds, keyed_create, idempotency_row, create,
}
use test_lintaspay_backend.Usecase.Disbursements.Batch.{
  create_items, create_batch, checked_item, item_outcome,
}
use test_lintaspay_backend.Usecase.Disbursements.Status.{update_status, delete}
use test_lintaspay_backend.Lifecycle.{IsDecision, Reach}
use test_lintaspay_backend.Lifecycle.Runs.{Event, looked_up, Continues, Continues-Reach}
use test_lintaspay_backend.Lifecycle.Moves.{contents, stays}
use test_lintaspay_backend.Lifecycle.Rules.{
  Advances, advances_rules, Advances-pure, Advances-err, Advances-bind, Advances-attempt,
  Advances-on_error, Advances-if, Advances-weaken, Advances-create_with_idempotency,
  Advances-find_idempotency_key, Advances-delete_idempotency_key, Advances-update_status,
  Advances-now, Advances-new_uuid,
}

module _ ⦃g : Services⦄ ⦃db : Database g⦄ where
  IsDecision-of_test :
      (s : String)
      → (not (s == status_approved) && not (s == status_rejected)) ≡ false
      → IsDecision s
  IsDecision-of_test s h = ground (arith, eq_iff s status_approved, eq_iff s status_rejected)

  module _ {pre : List Event} where
    pub Advances-delete_disbursement : (ctx : Context) (id : String) → Advances pre (delete ctx id)
    unfolding delete
    Advances-delete_disbursement ctx id = search advances_rules depth 20

    pub Advances-update_disbursement_status :
        (ctx : Context) (id : String) (req : UpdateStatusRequest)
        → Advances pre (update_status ctx id req)
    unfolding update_status
    Advances-update_disbursement_status ctx id req =
        search (advances_rules, Advances-update_status, IsDecision-of_test) depth 20

    Advances-renew_expired :
        (idem existing : IdempotencyKey) (at : Time) (again : M (Disbursement × Bool))
        → has_key idem.key existing ≡ true
        → ltb_ℤ existing.expires_at at ≡ true
        → Advances pre again
        → Advances (looked_up at existing ∷ pre) (renew_expired idem again)
    unfolding renew_expired
    Advances-renew_expired idem existing at again has expired h =
        Advances-bind _ _
          (Advances-on_error _ _
            (Advances-delete_idempotency_key idem.key at existing pre has expired))
          (λ _. Advances-weaken _ pre again h)

    Advances-after_reservation :
        (ctx : Context) (d : Disbursement) (idem : IdempotencyKey) (at : Time)
        (again : M (Disbursement × Bool)) (r : Result (Unit {0}))
        → Advances pre again
        → Advances pre (after_reservation ctx d idem at again r)
    unfolding after_reservation
    Advances-after_reservation ctx d idem at again (ok _) h = search advances_rules depth 20
    Advances-after_reservation ctx d idem at again (err e) h =
        search
          (
            Advances-find_idempotency_key idem.key at pre,
            Advances-renew_expired,
            Advances-err,
            Advances-if,
            advances_rules,
          )
          depth 20

    module _ (ctx : Context) (req : CreateDisbursementRequest) (key : String) (at : Time)
        (id body : String)
        (marshalled : g.json_marshal (disbursement (new_disbursement (username ctx) at id req))
          ≡ ok body) where
      Advances-create_rounds :
          (n : ℕ)
          → let d = new_disbursement (username ctx) at id req in
            Advances pre (create_rounds n ctx d (idempotency_row ctx req key at body) at)
      unfolding create_rounds
      Advances-create_rounds zero = search advances_rules
      Advances-create_rounds (suc n) =
          Advances-bind _ _
            (Advances-attempt _
              (Advances-create_with_idempotency ctx req key at id body marshalled))
            (λ r.
              Advances-after_reservation ctx (new_disbursement (username ctx) at id req)
                (idempotency_row ctx req key at body) at
                (create_rounds n ctx (new_disbursement (username ctx) at id req)
                  (idempotency_row ctx req key at body) at)
                r (Advances-create_rounds n))

    Advances-keyed_create :
        (ctx : Context) (req : CreateDisbursementRequest) (key : String) (at : Time) (id : String)
        → Advances pre (keyed_create ctx req key at (new_disbursement (username ctx) at id req))
    Advances-keyed_create ctx req key at id = record {
      at = λ past p w.
          elim (Result-cases
            (g.json_marshal (disbursement (new_disbursement (username ctx) at id req)))) [
              | inl (body, e) ↦
                  rw e ((Advances-create_rounds ctx req key at id body e 2).at past p w)
              | inr (x, e) ↦ rw e (stays refl)
            ];
    }

    pub Advances-create_disbursement :
        (ctx : Context) (req : CreateDisbursementRequest) (key : String)
        → Advances pre (create ctx req key)
    unfolding create
    Advances-create_disbursement ctx req key =
        search (advances_rules, Advances-now, Advances-new_uuid, Advances-keyed_create) depth 20

    Advances-item_outcome :
        (ctx : Context) (i : ℕ) (d : Disbursement) (r : Result (Unit {0}))
        → Advances pre (item_outcome ctx i d r)
    Advances-item_outcome ctx i d (ok _) = search advances_rules depth 20
    Advances-item_outcome ctx i d (err e) = search advances_rules depth 20

    Advances-checked_item :
        (ctx : Context) (i : ℕ) (item : CreateDisbursementRequest) (es : List FieldError)
        → Advances pre (checked_item ctx i item es)
    Advances-checked_item ctx i item [] =
        search (advances_rules, Advances-now, Advances-new_uuid, Advances-item_outcome) depth 20
    Advances-checked_item ctx i item (e ∷ es) = search advances_rules

    Advances-create_items :
        (ctx : Context) (i : ℕ) (items : List CreateDisbursementRequest)
        → Advances pre (create_items ctx i items)
    unfolding create_items
    Advances-create_items ctx i [] = Advances-pure []
    Advances-create_items ctx i (item ∷ items) =
        Advances-bind _ _ (Advances-checked_item ctx i item _)
          (λ r. Advances-bind _ _ (Advances-create_items ctx (i + 1) items) (λ rs. Advances-pure _))

    pub Advances-create_batch :
        (ctx : Context) (req : BatchCreateDisbursementRequest) → Advances pre (create_batch ctx req)
    unfolding create_batch
    Advances-create_batch ctx req = Advances-create_items ctx 0 req.items

  -- A request that writes.
  pub data Operation : Type 0 where
    creation : Context → CreateDisbursementRequest → (key : String) → Operation
    batch : Context → BatchCreateDisbursementRequest → Operation
    decision : Context → (id : String) → UpdateStatusRequest → Operation
    deletion : Context → (id : String) → Operation

  unfoldable pub perform : Operation → World g → World g
  perform (creation ctx req key) w = (create ctx req key w).1
  perform (batch ctx req) w = (create_batch ctx req w).1
  perform (decision ctx id req) w = (update_status ctx id req w).1
  perform (deletion ctx id) w = (delete ctx id w).1

  -- Whatever the services answer, an operation changes the rows and the idempotency keys by
  -- statements of a run alone, after any earlier events: it deletes a key only after it has read it
  -- and found it expired, and it stores one only with the disbursement of its request.
  pub perform-Continues :
      (op : Operation) (past : List Event) (w : World g)
      → (es : List Event) × Continues past (contents w) es (contents (perform op w))
  unfolding perform
  perform-Continues (creation ctx req key) past w =
      (Advances-create_disbursement {pre = []} ctx req key).at past tt w
  perform-Continues (batch ctx req) past w = (Advances-create_batch {pre = []} ctx req).at past tt w
  perform-Continues (decision ctx id req) past w =
      (Advances-update_disbursement_status {pre = []} ctx id req).at past tt w
  perform-Continues (deletion ctx id) past w =
      (Advances-delete_disbursement {pre = []} ctx id).at past tt w

  -- Whatever the services answer, an operation changes the rows by steps of the life cycle alone.
  perform-Reach : (op : Operation) (w : World g) → Reach (rows w) (rows (perform op w))
  perform-Reach op w = let (es, r) = perform-Continues op [] w in Continues-Reach r
