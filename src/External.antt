-- ===== src/External.antt =====
-- The interfaces of what the program calls and does not implement: gorm over MySQL, bcrypt, JWT,
-- the validator, UUIDs, the clock and the random source, JSON and SHA-256. Each is a parameter.
-- What is assumed of them stands in External/Sql.antt and in the hypotheses of the theorems.
pub mod Ordering
pub mod Sql
pub mod Memory
use test_lintaspay_backend.Common.{ℕ, String, Bool, ℤ, Option, List}
use test_lintaspay_backend.Common.Text.{CaseTables}
use test_lintaspay_backend.Errors.{GoError}
use test_lintaspay_backend.Entity.{
  Time, Disbursement, IdempotencyKey, CreateDisbursementRequest, BatchCreateDisbursementRequest,
  UpdateStatusRequest, AuditLog, User, RefreshToken, LoginRequest, RefreshRequest,
}

-- What a Go call that returns `(A, error)` gives: a value, or an error that is not nil.
pub data Result {ℓ} (A : Type ℓ) : Type ℓ where
  ok : A → Result A
  err : GoError → Result A

-- `Order(…).Limit(…).Offset(…)` of a gorm query.
pub record Window : Type 0 where
  pub order : String
  pub limit : ℤ
  pub offset : ℤ

-- The statements that gorm runs on the table of one model. A condition is the test that a WHERE
-- clause makes on a row; on a model with a `gorm.DeletedAt` field gorm adds `deleted_at IS NULL`.
-- The state is the connection's side of the table, which may lose a statement for any reason.
pub record Table (Row : Type 0) : Type 1 where
  pub State : Type 0
  pub create : Row → State → Result (Unit {0}) × State
  pub first : (Row → Bool) → State → Result Row × State
  pub count : (Row → Bool) → State → Result ℤ × State
  pub find : (Row → Bool) → Window → State → Result (List Row) × State
  pub updates : (Row → Bool) → (Row → Row) → State → Result ℕ × State
  pub delete : (Row → Bool) → State → Result ℕ × State

-- One violated rule of `validator.ValidationErrors`.
pub record FieldError : Type 0 where
  pub field : String
  pub tag : String
  pub param : String

-- The values that the program marshals to JSON.
pub data Marshalled : Type 0 where
  disbursement : Disbursement → Marshalled
  create_request : CreateDisbursementRequest → Marshalled
  status_note : (status note : String) → Marshalled
  status_note_by : (status note approved_by : String) → Marshalled
  status_only : (status : String) → Marshalled
  deleted_flag : Bool → Marshalled

-- The claims that the program writes; `jti` is a fresh UUID, the times are seconds.
pub record Claims : Type 0 where
  pub sub : String
  pub username : String
  pub role : String
  pub iat : ℤ
  pub exp : ℤ
  pub jti : String

-- The claims that a token carries: each text may be absent, or not a text.
pub record TokenClaims : Type 0 where
  pub sub : Option String
  pub username : Option String
  pub role : Option String

-- The signing method of a token's header, as far as the program looks.
pub data Method : Type 0 where
  hmac other : Method

pub record Services : Type 1 where
  pub disbursements : Table Disbursement
  pub idempotency_keys : Table IdempotencyKey
  pub audit_logs : Table AuditLog
  pub users : Table User
  pub refresh_tokens : Table RefreshToken
  -- `db.Transaction(fn)` over the two tables that the program writes in one transaction
  pub transaction :
      (disbursements.State × idempotency_keys.State
        → Result (Unit {0}) × (disbursements.State × idempotency_keys.State))
      → disbursements.State × idempotency_keys.State
      → Result (Unit {0}) × (disbursements.State × idempotency_keys.State)
  -- SQL: `column = ?`, `column LIKE ?`, `created_at >= ?`,
  -- `created_at < DATE_ADD(?, INTERVAL 1 DAY)`
  pub sql_eq : String → String → Bool
  pub sql_like : String → String → Bool
  pub sql_on_or_after : Time → String → Bool
  pub sql_before_next_day : Time → String → Bool
  -- the clock, `uuid.NewString`, `rand.Read` of 32 bytes in hexadecimal, the health ping
  pub Host : Type 0
  pub time_now : Host → Time × Host
  pub new_uuid : Host → String × Host
  pub rand_hex : Host → Result String × Host
  pub ping : Host → Result (Unit {0}) × Host
  pub uuid_parse : String → Bool
  pub sha256_hex : String → String
  pub json_marshal : Marshalled → Result String
  pub json_disbursement : String → Result Disbursement
  pub compare_hash_and_password : String → String → Bool
  pub sign_token : Claims → String → Result String
  pub parse_with_claims : String → (Method → Option String) → Host → Result TokenClaims × Host
  pub unix_seconds : Time → ℤ
  pub duration_seconds : ℤ → ℤ
  pub case_tables : CaseTables
  pub validate_create : CreateDisbursementRequest → List FieldError
  pub validate_batch : BatchCreateDisbursementRequest → List FieldError
  pub validate_update : UpdateStatusRequest → List FieldError
  pub validate_login : LoginRequest → List FieldError
  pub validate_refresh : RefreshRequest → List FieldError
  -- the configuration: `IDEMPOTENCY_TTL`, `JWT_ACCESS_TTL`, `JWT_REFRESH_TTL`, `JWT_SECRET`
  pub env_idempotency_ttl : ℤ
  pub env_access_ttl : ℤ
  pub env_refresh_ttl : ℤ
  pub env_jwt_secret : String
