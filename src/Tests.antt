-- ===== src/Tests.antt =====
-- Concrete data for the tests: a caller, a request, rows, and the services in memory.
pub mod Create
pub mod Status
pub mod Access
pub mod Numbers
pub mod Server
pub mod Migrate
pub mod Database
pub mod Keys
pub mod Runs
pub mod Start
pub mod Trail
pub mod Sessions
use test_lintaspay_backend.Common.{pos, none, some, List, [], ◌∷◌}
use test_lintaspay_backend.Reqctx.{Context}
use test_lintaspay_backend.Entity.{
  Disbursement, CreateDisbursementRequest, BatchCreateDisbursementRequest, UpdateStatusRequest,
}
use test_lintaspay_backend.External.{Services}
use test_lintaspay_backend.External.Memory.{memory}
use test_lintaspay_backend.Monad.{World}

abbrev pub caller : Context
caller = record {
  request_id_value = some "r1";
  user_id_value = some "u1";
  username_value = some "ann";
  role_value = some "superadmin";
}

abbrev pub request : CreateDisbursementRequest
request = record {
  recipient_name = "Budi";
  account_number = "123456";
  bank_code = "BCA";
  amount = pos 6_000_000;
  note = "rent";
}

-- What the program makes of the request at time 3 with the UUID "d1".
abbrev pub row : Disbursement
row = record {
  id = "d1";
  recipient_name = "Budi";
  account_number = "123456";
  bank_code = "BCA";
  amount = pos 6_000_000;
  admin_fee = pos 5000;
  note = "rent";
  status = "PENDING";
  created_by = "ann";
  approved_by = none;
  created_at = pos 3;
  updated_at = pos 3;
  deleted_at = none;
}

abbrev pub services : Services
services = memory row

abbrev pub world_of : List Disbursement → World services
world_of rows = record {
  disbursements = rows;
  idempotency_keys = [];
  audit_logs = [];
  users = [];
  refresh_tokens = [];
  host = record { clock = pos 3; ids = "d1" ∷ "d2" ∷ "d3" ∷ [] };
  log = [];
}

-- The row after an approval, and after a deletion.
abbrev pub approved : Disbursement
approved = record row {
  status = "APPROVED";
  approved_by = some "ann";
  note = "fine";
  updated_at = pos 4;
}

abbrev pub approval : UpdateStatusRequest
approval = record { status = "APPROVED"; note = "fine" }

abbrev pub items : BatchCreateDisbursementRequest
items = record { items = request ∷ record request { recipient_name = "" } ∷ request ∷ [] }
