-- ===== src/Tests/Trail.antt =====
-- The audit trail: what the operations leave in it, and its listings.
use test_lintaspay_backend.Common.{◌≡◌, refl, pos, none, List, [], ◌∷◌}
use test_lintaspay_backend.Common.Text.{trim_space}
use test_lintaspay_backend.Entity.{AuditLog, AuditLogFilter, normalize_audit}
use test_lintaspay_backend.External.{ok}
use test_lintaspay_backend.External.Memory.{memory_database}
use test_lintaspay_backend.Monad.{World}
use test_lintaspay_backend.Repository.Audit.{find_all}
use test_lintaspay_backend.Tests.{row, services, world_of, caller, request, items, approval}
use test_lintaspay_backend.Usecase.Disbursements.Create.{create}
use test_lintaspay_backend.Usecase.Disbursements.Batch.{create_batch}
use test_lintaspay_backend.Usecase.Disbursements.Status.{update_status, delete}
use test_lintaspay_backend.Usecase.Disbursements.Trail.{trail, Ended}
use test_lintaspay_backend.Usecase.Disbursements.Trail.Batches.{AllTraced}
use test_lintaspay_backend.Usecase.Disbursements.Trail.Traced.{
  Created, Decided, Removed, operations-Traced,
}
use test_lintaspay_backend.Usecase.Audit.{list}
use test_lintaspay_backend.Usecase.Audit.Listed.{Page, list-Shown}

abbrev creation : AuditLog
creation = record {
  id = "a1";
  entity_id = "d1";
  action = "CREATED";
  actor = "ann";
  before = none;
  after = none;
  created_at = pos 1;
}

abbrev decision : AuditLog
decision = record creation { id = "a2"; action = "STATUS_CHANGED"; created_at = pos 2 }

abbrev foreign_creation : AuditLog
foreign_creation = record creation { id = "a3"; entity_id = "d2"; created_at = pos 3 }

abbrev logged : List AuditLog
logged = creation ∷ foreign_creation ∷ decision ∷ []

abbrev audited : World services
audited = record (world_of []) { audit_logs = logged }

abbrev filter : AuditLogFilter
filter = record {
  page = pos 0;
  limit = pos 0;
  entity_id = " d1 ";
  action = "";
  date_from = "";
  date_to = "";
}

-- The entries of one disbursement, the decision before the creation.
newest_of_one : (list ⦃g = services⦄ filter audited).0 ≡ ok (decision ∷ creation ∷ [], pos 2)
unfolding list trim_space find_all normalize_audit
newest_of_one = refl

list-Shown_example :
    Page ⦃g = services⦄ ⦃db = memory_database row⦄
      (normalize_audit filter)
      (list ⦃g = services⦄ filter audited).0
      logged
    × ((list ⦃g = services⦄ filter audited).1.audit_logs ≡ logged)
list-Shown_example = list-Shown ⦃g = services⦄ ⦃db = memory_database row⦄ filter audited

abbrev stored : World services
stored = world_of (record row { id = "d9" } ∷ [])

operations-Traced_example :
    let w = stored in
    let M = trail ⦃g = services⦄ ⦃db = memory_database row⦄ in
    let created = create ⦃g = services⦄ caller request "" w in
    let batch = create_batch ⦃g = services⦄ caller items w in
    let decided = update_status ⦃g = services⦄ caller "d9" approval w in
    let deleted = delete ⦃g = services⦄ caller "d9" w in
    Ended ⦃g = services⦄ ⦃db = memory_database row⦄
      (Created ⦃g = services⦄ ⦃db = memory_database row⦄ caller)
      created.0
      (M w)
      (M created.1)
    × Ended ⦃g = services⦄ ⦃db = memory_database row⦄
        (AllTraced ⦃g = services⦄ ⦃db = memory_database row⦄ caller)
        batch.0
        (M w)
        (M batch.1)
    × Ended ⦃g = services⦄ ⦃db = memory_database row⦄
        (Decided ⦃g = services⦄ ⦃db = memory_database row⦄ caller "d9")
        decided.0
        (M w)
        (M decided.1)
    × Ended ⦃g = services⦄ ⦃db = memory_database row⦄
        (Removed ⦃g = services⦄ ⦃db = memory_database row⦄ caller "d9")
        deleted.0
        (M w)
        (M deleted.1)
operations-Traced_example =
    operations-Traced ⦃g = services⦄ ⦃db = memory_database row⦄ caller request items approval "d9"
      "" stored
