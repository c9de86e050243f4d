-- ===== src/Usecase/Disbursements/Audit.antt =====
-- `writeAudit` of internal/usecase/disbursements.go never fails its caller.
use test_lintaspay_backend.Common.{String, ◌≡◌, refl, Option}
use test_lintaspay_backend.Reqctx.{Context}
use test_lintaspay_backend.External.{Result, ok, err, Services, Marshalled}
use test_lintaspay_backend.Monad.{World}
use test_lintaspay_backend.Usecase.Disbursements.{write_audit, log_failure}
use test_lintaspay_backend.Common.{◌⊎◌, inl, inr, List, ◌∷◌}
use test_lintaspay_backend.Reqctx.{username}
use test_lintaspay_backend.Entity.{AuditLog}
use test_lintaspay_backend.External.Sql.{Database}
use test_lintaspay_backend.Monad.{attempt, on_audit_logs, ◌>>=◌}
use test_lintaspay_backend.Monad.Laws.{Result-cases}
use test_lintaspay_backend.Repository.Audit as AuditRepo

-- Nothing but the audit table, the host and the server log differs.
pub record SameTables ⦃g : Services⦄ (w w' : World g) : Type 0 where
  pub disbursements : w'.disbursements ≡ w.disbursements
  pub idempotency_keys : w'.idempotency_keys ≡ w.idempotency_keys
  pub users : w'.users ≡ w.users
  pub refresh_tokens : w'.refresh_tokens ≡ w.refresh_tokens

module _ ⦃g : Services⦄ where
  log_failure_lem :
      (message : String) (r : Result (Unit {0})) (w : World g)
      → ((log_failure message r w).0 ≡ ok tt) × SameTables w (log_failure message r w).1
  log_failure_lem message (ok tt) w = (
    refl,
    record { disbursements = refl; idempotency_keys = refl; users = refl; refresh_tokens = refl },
  )
  log_failure_lem message (err e) w = (
    refl,
    record { disbursements = refl; idempotency_keys = refl; users = refl; refresh_tokens = refl },
  )

  -- Whatever the audit table answers, `writeAudit` returns normally and leaves the other tables as
  -- they were.
  pub write_audit_lem :
      (ctx : Context) (id action : String) (before after : Option Marshalled) (w : World g)
      → ((write_audit ctx id action before after w).0 ≡ ok tt)
        × SameTables w (write_audit ctx id action before after w).1
  unfolding write_audit
  write_audit_lem ctx id action before after w =
      let (e, s) = log_failure_lem "failed to write audit log" _ _ in
      (
        e,
        record {
          disbursements = s.disbursements;
          idempotency_keys = s.idempotency_keys;
          users = s.users;
          refresh_tokens = s.refresh_tokens;
        },
      )

module _ ⦃g : Services⦄ ⦃db : Database g⦄ where
  abbrev pub audits : World g → List AuditLog
  audits w = db.audit_rows w.audit_logs

  -- One entry more, of this action of the caller on this entity.
  abbrev pub Recorded : Context → String → String → List AuditLog → List AuditLog → Type 0
  Recorded ctx id action old new =
      (entry : AuditLog) × (new ≡ entry ∷ old)
      × (entry.entity_id ≡ id)
      × (entry.action ≡ action)
      × (entry.actor ≡ username ctx)

  -- For every action and state, and whatever the audit table answers: `writeAudit` returns
  -- normally, leaves the other tables as they were, and either adds exactly one entry, with the
  -- action, the entity and the caller, or leaves the audit table as it was.
  pub write_audit-Recorded :
      (ctx : Context) (id action : String) (before after : Option Marshalled) (w : World g)
      → let m = write_audit ctx id action before after w in
        (m.0 ≡ ok tt)
        × SameTables w m.1
        × ((audits m.1 ≡ audits w) ⊎ Recorded ctx id action (audits w) (audits m.1))
  unfolding write_audit AuditRepo.create
  write_audit-Recorded ctx id action before after w =
      let (e, s) = write_audit_lem ctx id action before after w in (e, s, entry _ _ refl refl refl)
    where
      entry :
          (log : AuditLog) (w' : World g)
          → log.entity_id ≡ id
          → log.action ≡ action
          → log.actor ≡ username ctx
          → let m =
              attempt (on_audit_logs (g.audit_logs.create log))
              >>= log_failure "failed to write audit log" in
            (audits (m w').1 ≡ audits w') ⊎ Recorded ctx id action (audits w') (audits (m w').1)
      entry log w' a b c = elim (Result-cases (g.audit_logs.create log w'.audit_logs).0) [
        | inl (tt, e) ↦ inr (rw e (log, db.audit_table.create_ok log _ e, a, b, c))
        | inr (x, e) ↦ inl (rw e (db.audit_table.create_err log _ x e))
      ]
