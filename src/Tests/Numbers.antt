-- ===== src/Tests/Numbers.antt =====
-- Filters, dates and pages, at concrete values.
use test_lintaspay_backend.Common.{
  ◌^◌, length, ◌+◌, List, [], ◌∷◌, ℕ, ◌≤◌, ◌*◌, ◌≡◌, pos, none, ◌↔◌, refl, arith,
}
use test_lintaspay_backend.Common.Text.{to_upper, trim_space, to_lower}
use test_lintaspay_backend.Repository.Disbursements.{find_all}
use test_lintaspay_backend.External.{ok}
use test_lintaspay_backend.Entity.{Disbursement, DisbursementFilter, normalize}
use test_lintaspay_backend.Legacy.{calculate_pagination_meta}
use test_lintaspay_backend.Response.{new_pagination, get_offset}
use test_lintaspay_backend.Response.Pages.{total_pages-least}
use test_lintaspay_backend.Repository.{page_offset}
use test_lintaspay_backend.Filter as Filter
use test_lintaspay_backend.Filter.{BaseFilter}
use test_lintaspay_backend.Legacy as Legacy
use test_lintaspay_backend.Response.Offsets.{offsets-Agree}
use test_lintaspay_backend.Usecase.Dates.{validate_date_range}
use test_lintaspay_backend.Usecase.Dates.Range.{IsDay, IsOrdered, validate_date_range-accepts}
use test_lintaspay_backend.External.Memory.{memory_database}
use test_lintaspay_backend.Usecase.Disbursements.Query.{list}
use test_lintaspay_backend.Usecase.Disbursements.Query.Wrapped.{list-Wrapped}
use test_lintaspay_backend.Usecase.Disbursements.Query.Listed.{Page, list-Page}
use test_lintaspay_backend.Tests.{row, services, world_of}

abbrev filter : DisbursementFilter
filter = record {
  page = pos 0;
  limit = pos 500;
  search = " budi ";
  status = "PENDING";
  date_from = "";
  date_to = "";
  sort_by = "id; DROP TABLE users";
  sort_order = "asc";
}

validate_date_range-accepts_example :
    (validate_date_range "2024-02-28" "2024-02-29" ≡ none)
    ↔ (IsDay "2024-02-28" × IsDay "2024-02-29" × IsOrdered "2024-02-28" "2024-02-29")
validate_date_range-accepts_example = validate_date_range-accepts "2024-02-28" "2024-02-29"

total_pages-least_example :
    (n : ℕ) × ((new_pagination (pos 41) (pos 1) (pos 20)).total_pages ≡ pos n)
    × (1 ≤ n)
    × (41 ≤ n * 20)
    × ((m : ℕ) → 1 ≤ m → 41 ≤ m * 20 → n ≤ m)
total_pages-least_example = total_pages-least 41 20 (pos 1) (omega arith) (omega arith)

-- The third page of twenty.
abbrev third_page : BaseFilter (Unit {0})
third_page = record {
  page = pos 3;
  limit = pos 20;
  sort_by = "";
  sort_order = "";
  search = "";
  filters = tt;
}

offsets-Agree_example :
    (page_offset (pos 3) (pos 20) ≡ pos 40)
    × (get_offset (pos 3) (pos 20) ≡ pos 40)
    × (Legacy.get_offset (pos 3) (pos 20) ≡ pos 40)
    × (Filter.get_offset third_page ≡ pos 40)
    × (get_offset (pos 4) (pos 20) ≡ pos 60)
offsets-Agree_example =
    offsets-Agree third_page 3 20 refl refl (omega arith) (omega arith) (omega arith) (omega arith)

-- The newer row is first in the table.
abbrev two_rows : List Disbursement
two_rows = row ∷ record row { id = "d2"; created_at = pos 1 } ∷ []

-- The filter asks for an unknown column, upwards: the older row comes first.
oldest_first :
    (list ⦃g = services⦄ filter (world_of two_rows)).0
    ≡ ok (record row { id = "d2"; created_at = pos 1 } ∷ row ∷ [], pos 2)
unfolding list to_upper trim_space to_lower find_all
oldest_first = refl

list-Page_example :
    Page ⦃g = services⦄ ⦃db = memory_database row⦄
      (normalize services.case_tables filter)
      (list ⦃g = services⦄ filter (world_of two_rows)).0
      two_rows
    × ((list ⦃g = services⦄ filter (world_of two_rows)).1.disbursements ≡ two_rows)
list-Page_example = list-Page ⦃g = services⦄ ⦃db = memory_database row⦄ filter (world_of two_rows)

-- A page of twenty far behind the last row: its offset is 2 ^ 59 * 20.
abbrev far_filter : DisbursementFilter
far_filter = record filter { page = pos (2 ^ 59 + 1); limit = pos 20 }

abbrev oldest_two : List Disbursement
oldest_two = record row { id = "d2"; created_at = pos 1 } ∷ row ∷ []

list-Wrapped_example : length oldest_two ≡ 2
unfolding list to_upper trim_space to_lower find_all normalize
list-Wrapped_example =
    list-Wrapped ⦃g = services⦄ ⦃db = memory_database row⦄ far_filter (world_of two_rows)
      (2 ^ 59 + 1) 20 oldest_two (pos 2) refl refl (omega arith) (omega arith) (omega arith)
      (omega arith) refl
