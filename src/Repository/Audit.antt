-- ===== src/Repository/Audit.antt =====
-- internal/repository/audit.go
use test_lintaspay_backend.Common.{Bool, true, ◌&&◌, ℤ, List, ◌==◌, if◌then◌else◌}
use test_lintaspay_backend.Entity.{AuditLog, AuditLogFilter}
use test_lintaspay_backend.External.{Services}
use test_lintaspay_backend.Monad.{M, pure, ◌>>=◌, on_audit_logs}
use test_lintaspay_backend.Repository.Errors.{page_offset}

module _ ⦃g : Services⦄ where
  unfoldable pub create : AuditLog → M (Unit {0})
  create entry = on_audit_logs (g.audit_logs.create entry)

  -- The conditions of `FindAll`, each only where its field is set.
  unfoldable pub matches_filter : AuditLogFilter → AuditLog → Bool
  matches_filter f a =
      (if f.entity_id == "" then true else g.sql_eq a.entity_id f.entity_id)
      && (if f.action == "" then true else g.sql_eq a.action f.action)
      && (if f.date_from == "" then true else g.sql_on_or_after a.created_at f.date_from)
      && (if f.date_to == "" then true else g.sql_before_next_day a.created_at f.date_to)

  unfoldable pub find_all : AuditLogFilter → M (List AuditLog × ℤ)
  unfolding matches_filter page_offset
  find_all f = do
    total ← on_audit_logs (g.audit_logs.count (matches_filter f))
    rows ← on_audit_logs (
        g.audit_logs.find (matches_filter f) (record {
          order = "created_at DESC";
          limit = f.limit;
          offset = page_offset f.page f.limit;
        }))
    pure (rows, total)
