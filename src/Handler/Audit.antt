-- ===== src/Handler/Audit.antt =====
-- internal/handler/audit.go
use test_lintaspay_backend.Common.{[], Option}
use test_lintaspay_backend.Entity.{AuditLog, AuditLogFilter, normalize_audit}
use test_lintaspay_backend.External.{Services}
use test_lintaspay_backend.Monad.{M, pure, ◌>>=◌}
use test_lintaspay_backend.Response.{
  PaginatedResponse, Reply, new_paginated_response, new_pagination, json,
}
use test_lintaspay_backend.Usecase.Audit as AuditCase
use test_lintaspay_backend.Handler.{with_query}

module _ ⦃g : Services⦄ where
  unfoldable pub list : Option AuditLogFilter → M (Reply (PaginatedResponse AuditLog))
  unfolding with_query AuditCase.list normalize_audit new_pagination new_paginated_response json
  list query = with_query query (λ f. do
    found ← AuditCase.list f
    let filter = normalize_audit f
    pure (
        json 200 [] (
          new_paginated_response 200 "audit logs retrieved" found.0
            (new_pagination found.1 filter.page filter.limit))))
