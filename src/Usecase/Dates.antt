-- ===== src/Usecase/Dates.antt =====
-- `validateDateRange` of internal/usecase/disbursements.go, which the audit use case shares.
pub mod Range
use test_lintaspay_backend.Common.{
  String, Bool, true, false, ◌&&◌, Option, none, some, ◌==◌, if◌then◌else◌,
}
use test_lintaspay_backend.Common.Date.{Date, parse_date, after}
use test_lintaspay_backend.Errors.{HttpError, bad_request}

abbrev pub check_order : Bool → Bool → Date → Date → Option HttpError
check_order has_from has_to from to =
    if has_from && (has_to && after from to)
    then some (bad_request "date_from cannot be later than date_to")
    else none

-- The zero `time.Time` that a variable holds where its text is empty.
abbrev pub zero_date : Date
zero_date = record { year = 1; month = 1; day = 1 }

abbrev pub check_to : Bool → Date → String → Option Date → Option HttpError
check_to has_from from date_to parsed =
    if date_to == "" then check_order has_from false from zero_date else elim parsed [
      | none ↦ some (bad_request "date_to must be in YYYY-MM-DD format")
      | some to ↦ check_order has_from true from to
    ]

-- `none` is the nil error.
unfoldable pub validate_date_range : String → String → Option HttpError
unfolding parse_date after bad_request
validate_date_range date_from date_to =
    if date_from == ""
    then check_to false zero_date date_to (parse_date date_to)
    else elim (parse_date date_from) [
      | none ↦ some (bad_request "date_from must be in YYYY-MM-DD format")
      | some from ↦ check_to true from date_to (parse_date date_to)
    ]
