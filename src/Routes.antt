-- ===== src/Routes.antt =====
-- internal/routes/routes.go: the table of endpoints, each with the handlers that run before it. A
-- group's handlers run before those of its routes.
pub mod Access
use test_lintaspay_backend.Common.{ℕ, String, List, [], ◌∷◌, ◌++◌, map}
use test_lintaspay_backend.Entity.{role_admin, role_superadmin}

pub data Endpoint : Type 0 where
  health_check login refresh logout : Endpoint
  list_disbursements create_disbursement create_batch detail update_status delete : Endpoint
  list_audit_logs : Endpoint

-- `protect`, the limiter with its maximum, `RequireRoles`.
pub data Guard : Type 0 where
  protect : Guard
  limit : ℕ → Guard
  require_roles : List String → Guard

pub record Route : Type 0 where
  pub method : String
  pub path : String
  pub guards : List Guard
  pub endpoint : Endpoint

abbrev route : String → String → List Guard → Endpoint → Route
route method path guards endpoint = record {
  method = method;
  path = path;
  guards = guards;
  endpoint = endpoint;
}

-- `router.Group(path, guards…)`, over the routes of the group; texts are kept side by side.
abbrev in_group : List Guard → List Route → List Route
in_group guards = map {A = Route} (λ r. record r { guards = guards ++ r.guards })

abbrev general_limit : Guard
general_limit = limit 120

abbrev create_limit : Guard
create_limit = limit 30

-- `Register`; the paths stand below `/api/v1`.
unfoldable pub register : List Route
register =
    route "GET" "/health" [] health_check
      ∷ route "POST" "/auth/login" [] login
      ∷ route "POST" "/auth/refresh" [] refresh
      ∷ route "POST" "/auth/logout" [] logout
      ∷ in_group (protect ∷ general_limit ∷ []) (
          route "GET" "/disbursements/" [] list_disbursements
          ∷ route "POST" "/disbursements/" (create_limit ∷ []) create_disbursement
          ∷ route "POST" "/disbursements/batch" (create_limit ∷ []) create_batch
          ∷ route "GET" "/disbursements/:id" [] detail
          ∷ route "PATCH" "/disbursements/:id/status"
              (require_roles (role_admin ∷ role_superadmin ∷ []) ∷ []) update_status
          ∷ route "DELETE" "/disbursements/:id" (require_roles (role_superadmin ∷ []) ∷ []) delete
          ∷ [])
    ++ in_group (protect ∷ general_limit ∷ require_roles (role_superadmin ∷ []) ∷ [])
        (route "GET" "/audit-logs/" [] list_audit_logs ∷ [])
