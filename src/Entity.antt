-- ===== src/Entity.antt =====
-- internal/domain/entity: the records, the constants and the filters with `Normalize`.
-- A `time.Time` is an integer of nanoseconds, an `int` or `int64` an integer, a nullable column an
-- option, and `json.RawMessage` a text (`none` for nil).
pub mod Normalize
use test_lintaspay_backend.Common.{
  ℕ, String, Bool, ℤ, pos, ltb_ℤ, Option, List, ◌==◌, if◌then◌else◌,
}
use test_lintaspay_backend.Common.Text.{CaseTables, trim_space, to_lower, to_upper}

abbrev pub Time : Type 0
Time = ℤ

abbrev pub status_pending : String
status_pending = "PENDING"

abbrev pub status_approved : String
status_approved = "APPROVED"

abbrev pub status_rejected : String
status_rejected = "REJECTED"

pub record Disbursement : Type 0 where
  pub id : String
  pub recipient_name : String
  pub account_number : String
  pub bank_code : String
  pub amount : ℤ
  pub admin_fee : ℤ
  pub note : String
  pub status : String
  pub created_by : String
  pub approved_by : Option String
  pub created_at : Time
  pub updated_at : Time
  pub deleted_at : Option Time

pub record IdempotencyKey : Type 0 where
  pub key : String
  pub user_id : String
  pub request_hash : String
  pub response_code : ℕ
  pub response_body : String
  pub expires_at : Time
  pub created_at : Time

pub record CreateDisbursementRequest : Type 0 where
  pub recipient_name : String
  pub account_number : String
  pub bank_code : String
  pub amount : ℤ
  pub note : String

pub record BatchCreateDisbursementRequest : Type 0 where
  pub items : List CreateDisbursementRequest

pub record BatchItemResult : Type 0 where
  pub index : ℕ
  pub success : Bool
  pub result : Option Disbursement
  pub error : String

pub record UpdateStatusRequest : Type 0 where
  pub status : String
  pub note : String

pub record DisbursementFilter : Type 0 where
  pub page : ℤ
  pub limit : ℤ
  pub search : String
  pub status : String
  pub date_from : String
  pub date_to : String
  pub sort_by : String
  pub sort_order : String

abbrev clamp_page : ℤ → ℤ
clamp_page page = if ltb_ℤ page (pos 1) then pos 1 else page

abbrev clamp_limit : ℤ → ℤ
clamp_limit limit =
    let raised : ℤ = if ltb_ℤ limit (pos 1) then pos 20 else limit in
    if ltb_ℤ (pos 100) raised then pos 100 else raised

abbrev choose_order : String → String
choose_order order = if order == "asc" then order else "desc"

-- `(f *DisbursementFilter) Normalize()`
unfoldable pub normalize : CaseTables → DisbursementFilter → DisbursementFilter
normalize t f = record f {
  page = clamp_page f.page;
  limit = clamp_limit f.limit;
  sort_by = if f.sort_by == "amount" then f.sort_by else "created_at";
  sort_order = choose_order (to_lower t (trim_space f.sort_order));
  search = trim_space f.search;
  status = to_upper t (trim_space f.status);
}

abbrev pub audit_action_created : String
audit_action_created = "created"

abbrev pub audit_action_status_changed : String
audit_action_status_changed = "status_changed"

abbrev pub audit_action_deleted : String
audit_action_deleted = "deleted"

pub record AuditLog : Type 0 where
  pub id : String
  pub entity_id : String
  pub action : String
  pub actor : String
  pub before : Option String
  pub after : Option String
  pub created_at : Time

pub record AuditLogFilter : Type 0 where
  pub page : ℤ
  pub limit : ℤ
  pub entity_id : String
  pub action : String
  pub date_from : String
  pub date_to : String

-- `(f *AuditLogFilter) Normalize()`
unfoldable pub normalize_audit : AuditLogFilter → AuditLogFilter
normalize_audit f = record f {
  page = clamp_page f.page;
  limit = clamp_limit f.limit;
  entity_id = trim_space f.entity_id;
  action = trim_space f.action;
}

abbrev pub role_operator : String
role_operator = "operator"

abbrev pub role_admin : String
role_admin = "admin"

abbrev pub role_superadmin : String
role_superadmin = "superadmin"

pub record User : Type 0 where
  pub id : String
  pub username : String
  pub password_hash : String
  pub role : String
  pub created_at : Time

pub record RefreshToken : Type 0 where
  pub id : String
  pub user_id : String
  pub token_hash : String
  pub expires_at : Time
  pub revoked_at : Option Time
  pub created_at : Time

pub record LoginRequest : Type 0 where
  pub username : String
  pub password : String

pub record RefreshRequest : Type 0 where
  pub refresh_token : String

pub record TokenResponse : Type 0 where
  pub access_token : String
  pub refresh_token : String
  pub token_type : String
  pub expires_in : ℤ

pub record HealthStatus : Type 0 where
  pub status : String
  pub database : String
