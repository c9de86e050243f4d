-- ===== src/Usecase/Disbursements.antt =====
-- internal/usecase/disbursements.go: what its operations share. The operations are in the modules below.
pub mod Create
pub mod Audit
pub mod Batch
pub mod Status
pub mod Query
pub mod Trail
use Prim.Native.String
use test_lintaspay_backend.Common.{String, ℤ, pos, leb_ℤ, eqb_ℤ, Option, none, some, if◌then◌else◌}
use test_lintaspay_backend.Errors.{GoError, http, with_err, internal}
use test_lintaspay_backend.Reqctx.{Context, username}
use test_lintaspay_backend.Entity.{Time, Disbursement, CreateDisbursementRequest, status_pending}
use test_lintaspay_backend.External.{Services, Result, ok, err, Marshalled, create_request}
use test_lintaspay_backend.Monad.{M, pure, ◌>>=◌, ◌>>◌, attempt, now, new_uuid, log}
use test_lintaspay_backend.Repository.Audit as AuditRepo

-- `CalculateAdminFee`
unfoldable pub calculate_admin_fee : ℤ → ℤ
calculate_admin_fee amount = if leb_ℤ (pos 5_000_000) amount then pos 5000 else pos 2500

-- `httpresponse.Internal(message).WithErr(err)`
unfoldable pub internal_with : String → GoError → GoError
unfolding with_err internal
internal_with message e = http (with_err e (internal message))

-- The `&entity.Disbursement{…}` of `Create` and `CreateBatch`.
unfoldable pub new_disbursement : String → Time → String → CreateDisbursementRequest → Disbursement
unfolding calculate_admin_fee
new_disbursement actor at id req = record {
  id = id;
  recipient_name = req.recipient_name;
  account_number = req.account_number;
  bank_code = req.bank_code;
  amount = req.amount;
  admin_fee = calculate_admin_fee req.amount;
  note = req.note;
  status = status_pending;
  created_by = actor;
  approved_by = none;
  created_at = at;
  updated_at = at;
  deleted_at = none;
}

abbrev ok_or_none : Result String → Option String
ok_or_none (ok s) = some s
ok_or_none (err _) = none

abbrev ok_or_empty : Result String → String
ok_or_empty (ok s) = s
ok_or_empty (err _) = ""

module _ ⦃g : Services⦄ where
  -- A nil value is not marshalled, and a failure to marshal leaves nil.
  abbrev pub snapshot : Option Marshalled → Option String
  snapshot none = none
  snapshot (some v) = ok_or_none (g.json_marshal v)

  abbrev pub log_failure : String → Result (Unit {0}) → M (Unit {0})
  log_failure message (ok _) = pure tt
  log_failure message (err e) = log message

  unfoldable pub write_audit :
      Context → String → String → Option Marshalled → Option Marshalled → M (Unit {0})
  unfolding AuditRepo.create username
  write_audit ctx entity_id action before after = do
    id ← new_uuid
    at ← now
    r ← attempt (
        AuditRepo.create (record {
          id = id;
          entity_id = entity_id;
          action = action;
          actor = username ctx;
          before = snapshot before;
          after = snapshot after;
          created_at = at;
        }))
    log_failure "failed to write audit log" r

  unfoldable pub hash_request : CreateDisbursementRequest → String
  hash_request req = g.sha256_hex (ok_or_empty (g.json_marshal (create_request req)))

  -- `idemTTL`, as `NewDisbursementUsecase` reads it.
  unfoldable pub idem_ttl : ℤ
  idem_ttl =
      if eqb_ℤ g.env_idempotency_ttl (pos 0) then pos 86_400_000_000_000 else g.env_idempotency_ttl
