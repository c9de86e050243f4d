-- ===== src/Usecase/Disbursements/Trail/Traced.antt =====
-- What `Create`, `UpdateStatus` and `Delete` of internal/usecase/disbursements.go leave in the audit
-- trail.
use test_lintaspay_backend.Common.{ℕ, zero, suc, String, ◌≡◌, refl, Bool, true, false, none, some}
use test_lintaspay_backend.Reqctx.{Context, username}
use test_lintaspay_backend.Entity.{
  Time, Disbursement, IdempotencyKey, CreateDisbursementRequest, BatchCreateDisbursementRequest,
  UpdateStatusRequest, audit_action_created, audit_action_status_changed, audit_action_deleted,
}
use test_lintaspay_backend.External.{
  Result, ok, err, Services, disbursement, status_note, status_note_by, status_only, deleted_flag,
}
use test_lintaspay_backend.External.Sql.{Database}
use test_lintaspay_backend.Monad.{World, M, pure, ◌>>◌, log}
use test_lintaspay_backend.Repository.Disbursements as Repo
use test_lintaspay_backend.Usecase.Disbursements.{write_audit}
use test_lintaspay_backend.Usecase.Disbursements.Create.{
  create, create_rounds, after_reservation, renew_expired,
}
use test_lintaspay_backend.Usecase.Disbursements.Status.{update_status, delete}
use test_lintaspay_backend.Usecase.Disbursements.Batch.{create_batch}
use test_lintaspay_backend.Usecase.Disbursements.Trail.Batches.{AllTraced, create_items-Given}
use test_lintaspay_backend.Usecase.Disbursements.Trail.{
  Trail, Traced, trail, Ended, Ends, Silent, Ends-bind, Ends-if, Ends-fail, Ends-err,
  Ends-write_audit, Silent-on_error, Silent-attempt, Silent-from_result, Silent-now,
  Silent-new_uuid, Silent-log,
}

module _ ⦃g : Services⦄ ⦃db : Database g⦄ (ctx : Context) where
  -- A replay leaves no trace, a new disbursement one.
  abbrev pub Created : Disbursement × Bool → Trail → Trail → Type 0
  Created (d, true) old new = new ≡ old
  Created (d, false) old new = Traced ctx d.id audit_action_created (disbursement d) old new

  abbrev pub Decided : String → Disbursement → Trail → Trail → Type 0
  Decided id d =
      Traced ctx id audit_action_status_changed (status_note_by d.status d.note (username ctx))

  abbrev pub Removed : String → Unit {0} → Trail → Trail → Type 0
  Removed id _ = Traced ctx id audit_action_deleted (deleted_flag true)

  Silent-find_by_id : (id : String) → Silent (Repo.find_by_id id)
  unfolding Repo.find_by_id
  Silent-find_by_id id = record { quiet = λ w. refl }

  Silent-soft_delete : (id : String) → Silent (Repo.soft_delete id)
  unfolding Repo.soft_delete
  Silent-soft_delete id = record { quiet = λ w. refl }

  Silent-update_status :
      (id status note actor : String) → Silent (Repo.update_status id status note actor)
  unfolding Repo.update_status
  Silent-update_status id status note actor = record { quiet = λ w. refl }

  Silent-create : (d : Disbursement) → Silent (Repo.create d)
  unfolding Repo.create
  Silent-create d = record { quiet = λ w. refl }

  Silent-create_with_idempotency :
      (d : Disbursement) (idem : IdempotencyKey) → Silent (Repo.create_with_idempotency d idem)
  unfolding Repo.create_with_idempotency
  Silent-create_with_idempotency d idem = record { quiet = λ w. refl }

  Silent-find_idempotency_key : (key : String) → Silent (Repo.find_idempotency_key key)
  unfolding Repo.find_idempotency_key
  Silent-find_idempotency_key key = record { quiet = λ w. refl }

  Silent-delete_idempotency_key : (key : String) → Silent (Repo.delete_idempotency_key key)
  unfolding Repo.delete_idempotency_key
  Silent-delete_idempotency_key key = record { quiet = λ w. refl }

  ruleset trail_rules = (
    Ends-bind, Ends-if, Ends-fail, Ends-err, Silent-on_error, Silent-attempt, Silent-from_result,
    Silent-now, Silent-new_uuid, Silent-find_by_id, Silent-soft_delete, Silent-update_status,
    Silent-create, Silent-create_with_idempotency, Silent-find_idempotency_key,
    Silent-delete_idempotency_key,
  )

  last_of_deletion :
      (id : String) (d : Disbursement)
      → Ends (Removed id) (
          write_audit ctx id audit_action_deleted
            (some (status_only d.status))
            (some (deleted_flag true))
          >> log "disbursement deleted")
  last_of_deletion id d =
      Ends-write_audit (log "disbursement deleted") ctx id audit_action_deleted _
        (deleted_flag true) tt (λ w. refl) (Silent-log _ refl) (λ old new t. t)

  delete-Traced : (id : String) → Ends (Removed id) (delete ctx id)
  unfolding delete
  delete-Traced id = search (trail_rules, last_of_deletion) depth 20

  last_of_update :
      (id : String) (current updated : Disbursement)
      → Ends (Decided id) (
          write_audit ctx id audit_action_status_changed
            (some (status_note current.status current.note))
            (some (status_note_by updated.status updated.note (username ctx)))
          >> (log "disbursement status updated" >> pure updated))
  last_of_update id current updated =
      Ends-write_audit (log "disbursement status updated" >> pure updated) ctx id
        audit_action_status_changed _ (status_note_by updated.status updated.note (username ctx))
        updated (λ w. refl)
        (record { quiet = (Silent-log "disbursement status updated" refl).quiet }) (λ old new t. t)

  update_status-Traced :
      (id : String) (req : UpdateStatusRequest) → Ends (Decided id) (update_status ctx id req)
  unfolding update_status
  update_status-Traced id req = search (trail_rules, last_of_update) depth 20

  last_of_creation :
      (d : Disbursement)
      → Ends Created (
          write_audit ctx d.id audit_action_created none (some (disbursement d)) >> pure (d, false))
  last_of_creation d =
      Ends-write_audit (pure (d, false)) ctx d.id audit_action_created none (disbursement d)
        (d, false) (λ w. refl) (record { quiet = λ w. refl }) (λ old new t. t)

  last_of_replay :
      (d : Disbursement) → Ends Created (log "idempotent request replayed" >> pure (d, true))
  last_of_replay d = record { at = (Silent-log "idempotent request replayed" refl).quiet }

  Ends-renew_expired :
      (idem : IdempotencyKey) (again : M (Disbursement × Bool))
      → Ends Created again
      → Ends Created (renew_expired idem again)
  unfolding renew_expired
  Ends-renew_expired idem again h = search trail_rules depth 20

  Ends-after_reservation :
      (d : Disbursement) (idem : IdempotencyKey) (at : Time) (again : M (Disbursement × Bool))
      (r : Result (Unit {0}))
      → Ends Created again
      → Ends Created (after_reservation ctx d idem at again r)
  unfolding after_reservation
  Ends-after_reservation d idem at again (ok _) h = last_of_creation d
  Ends-after_reservation d idem at again (err e) h =
      search (trail_rules, Ends-renew_expired, last_of_replay) depth 20

  Ends-create_rounds :
      (n : ℕ) (d : Disbursement) (idem : IdempotencyKey) (at : Time)
      → Ends Created (create_rounds n ctx d idem at)
  unfolding create_rounds
  Ends-create_rounds zero d idem at = Ends-fail _
  Ends-create_rounds (suc n) d idem at =
      Ends-bind _ _ (Silent-attempt _ (Silent-create_with_idempotency d idem))
        (λ r. Ends-after_reservation d idem at _ r (Ends-create_rounds n d idem at))

  create-Traced :
      (req : CreateDisbursementRequest) (key : String) → Ends Created (create ctx req key)
  unfolding create
  create-Traced req key = search (trail_rules, last_of_creation, Ends-create_rounds) depth 30

  -- For every caller, request, id, key and state, and whatever the services answer: an operation
  -- that returns an error leaves the audit trail as it was, and so does a replay of `Create`. One
  -- that succeeds leaves exactly one trace for each disbursement that it returns as created,
  -- decided or deleted: an entry of the operation's action on it by the caller, with what is to be
  -- kept of its new state, or, where the audit table took no entry, a line of the server log that
  -- says so. `CreateBatch` does so item by item, in order.
  pub operations-Traced :
      (req : CreateDisbursementRequest) (batch : BatchCreateDisbursementRequest)
      (decision : UpdateStatusRequest) (id key : String) (w : World g)
      → Ended Created (create ctx req key w).0 (trail w) (trail (create ctx req key w).1)
        × Ended
            (AllTraced ctx)
            (create_batch ctx batch w).0
            (trail w)
            (trail (create_batch ctx batch w).1)
        × Ended
            (Decided id)
            (update_status ctx id decision w).0
            (trail w)
            (trail (update_status ctx id decision w).1)
        × Ended (Removed id) (delete ctx id w).0 (trail w) (trail (delete ctx id w).1)
  unfolding create_batch
  operations-Traced req batch decision id key w =
      let (rs, e, t) = create_items-Given ctx 0 batch.items w in
      (
        (create-Traced req key).at w,
        rw e t,
        (update_status-Traced id decision).at w,
        (delete-Traced id).at w,
      )
