-- ===== src/Usecase/Codes/Listings.antt =====
-- The status codes that the listings and a batch can fail with.
use test_lintaspay_backend.Common.{
  ℕ, ◌+◌, String, ◌≡◌, refl, Bool, true, false, ◌&&◌, List, [], ◌∷◌, Option, none, some, Bool-cases,
  inl, inr, ◌==◌,
}
use test_lintaspay_backend.Common.Date.{Date, parse_date, after}
use test_lintaspay_backend.Errors.{HttpError, http, bad_request}
use test_lintaspay_backend.Reqctx.{Context}
use test_lintaspay_backend.Entity.{
  Disbursement, DisbursementFilter, AuditLogFilter, BatchCreateDisbursementRequest,
  CreateDisbursementRequest, normalize_audit,
}
use test_lintaspay_backend.External.{Services, Result, ok, err, FieldError}
use test_lintaspay_backend.Usecase.Dates.{check_order, check_to, zero_date, validate_date_range}
use test_lintaspay_backend.Usecase.Disbursements.Query as QueryCase
use test_lintaspay_backend.Usecase.Disbursements.Batch as BatchCase
use test_lintaspay_backend.Usecase.Audit as AuditCase
use test_lintaspay_backend.Usecase.Codes.{
  Has, FailsWith, fails_rules, FailsWith-err, FailsWith-on_error,
}
use test_lintaspay_backend.Usecase.Codes.Operations.{internal_listed, bad_listed}

-- No error, or one of status 400.
abbrev IsBad : Option HttpError → Type 0
IsBad none = Unit
IsBad (some h) = (m : String) × (h ≡ bad_request m)

check_order-IsBad : (b c : Bool) (from to : Date) → IsBad (check_order b c from to)
check_order-IsBad b c from to = elim (Bool-cases (b && (c && after from to))) [
  | inl y ↦ rw y (_, refl)
  | inr n ↦ rw n tt
]

parsed-IsBad :
    (b : Bool) (from : Date) (o : Option Date)
    → IsBad (elim o [
      | none ↦ some (bad_request "date_to must be in YYYY-MM-DD format")
      | some to ↦ check_order b true from to
    ])
parsed-IsBad b from none = (_, refl)
parsed-IsBad b from (some to) = check_order-IsBad b true from to

check_to-IsBad :
    (b : Bool) (from : Date) (date_to : String) (parsed : Option Date)
    → IsBad (check_to b from date_to parsed)
check_to-IsBad b from date_to parsed = elim (Bool-cases (date_to == "")) [
  | inl y ↦ rw y (check_order-IsBad b false from zero_date)
  | inr n ↦ rw n (parsed-IsBad b from parsed)
]

from-IsBad :
    (date_to : String) (o : Option Date)
    → IsBad (elim o [
      | none ↦ some (bad_request "date_from must be in YYYY-MM-DD format")
      | some from ↦ check_to true from date_to (parse_date date_to)
    ])
from-IsBad date_to none = (_, refl)
from-IsBad date_to (some from) = check_to-IsBad true from date_to (parse_date date_to)

validate_date_range-IsBad : (from to : String) → IsBad (validate_date_range from to)
unfolding validate_date_range
validate_date_range-IsBad from to = elim (Bool-cases (from == "")) [
  | inl y ↦ rw y (check_to-IsBad false zero_date to (parse_date to))
  | inr n ↦ rw n (from-IsBad to (parse_date from))
]

module _ ⦃g : Services⦄ (codes : List ℕ) (has_400 : Has codes 400) (has_500 : Has codes 500) where
  query-codes :
      (f : DisbursementFilter) (o : Option HttpError)
      → IsBad o
      → FailsWith codes (QueryCase.query f o)
  query-codes f none b = FailsWith-on_error codes _ _ (internal_listed codes has_500 _)
  query-codes f (some h) (m, e) =
      rw e (FailsWith-err codes (http (bad_request m)) (bad_listed codes has_400 m))

  pub list-codes : (f : DisbursementFilter) → FailsWith codes (QueryCase.list f)
  unfolding QueryCase.list
  list-codes f =
      search (fails_rules, bad_listed codes has_400, query-codes, validate_date_range-IsBad) depth
        20

  audit_query-codes :
      (f : AuditLogFilter) (o : Option HttpError) → IsBad o → FailsWith codes (AuditCase.query f o)
  audit_query-codes f none b = FailsWith-on_error codes _ _ (internal_listed codes has_500 _)
  audit_query-codes f (some h) (m, e) =
      rw e (FailsWith-err codes (http (bad_request m)) (bad_listed codes has_400 m))

  pub audit-codes : (f : AuditLogFilter) → FailsWith codes (AuditCase.list f)
  unfolding AuditCase.list
  audit-codes f =
      audit_query-codes (normalize_audit f) _
        (validate_date_range-IsBad (normalize_audit f).date_from (normalize_audit f).date_to)

-- A batch does not fail as a whole.
module _ ⦃g : Services⦄ (codes : List ℕ) where
  outcome-codes :
      (ctx : Context) (i : ℕ) (d : Disbursement) (r : Result (Unit {0}))
      → FailsWith codes (BatchCase.item_outcome ctx i d r)
  outcome-codes ctx i d (ok u) = search fails_rules depth 20
  outcome-codes ctx i d (err e) = search fails_rules depth 20

  checked-codes :
      (ctx : Context) (i : ℕ) (item : CreateDisbursementRequest) (es : List FieldError)
      → FailsWith codes (BatchCase.checked_item ctx i item es)
  checked-codes ctx i item [] = search (fails_rules, outcome-codes) depth 20
  checked-codes ctx i item (e ∷ es) = search fails_rules depth 20

  items-codes :
      (ctx : Context) (items : List CreateDisbursementRequest) (i : ℕ)
      → FailsWith codes (BatchCase.create_items ctx i items)
  unfolding BatchCase.create_items
  items-codes ctx [] i = search fails_rules depth 20
  items-codes ctx (item ∷ items) i =
      search
        (
          fails_rules,
          checked-codes ctx i item (g.validate_create item),
          items-codes ctx items (i + 1),
        )
        depth 20

  pub batch-codes :
      (ctx : Context) (req : BatchCreateDisbursementRequest)
      → FailsWith codes (BatchCase.create_batch ctx req)
  unfolding BatchCase.create_batch
  batch-codes ctx req = items-codes ctx req.items 0
