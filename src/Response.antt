-- ===== src/Response.antt =====
-- pkg/common/httpresponse/response.go: the bodies of the responses and the pagination.
pub mod Pages
pub mod Offsets
use test_lintaspay_backend.Common.{
  ℕ, String, ℤ, pos, ◌+ℤ◌, ◌-ℤ◌, ◌*ℤ◌, quot, wrap64, ltb_ℤ, List, if◌then◌else◌,
}

pub record Response : Type 0 where
  pub code : ℕ
  pub message : String

pub record DataResponse (A : Type 0) : Type 0 where
  pub response : Response
  pub content : A

pub record Pagination : Type 0 where
  pub total : ℤ
  pub page : ℤ
  pub per_page : ℤ
  pub total_pages : ℤ

pub record PaginatedResponse (A : Type 0) : Type 0 where
  pub response : Response
  pub content : List A
  pub pagination : Pagination

-- What a handler has written to its `*fiber.Ctx`: the status, the header that it set, the body.
pub record Reply (A : Type 0) : Type 0 where
  pub status : ℕ
  pub headers : List (String × String)
  pub body : A

unfoldable pub new_response : ℕ → String → Response
new_response code message = record { code = code; message = message }

unfoldable pub new_data_response : {A : Type 0} → ℕ → String → A → DataResponse A
unfolding new_response
new_data_response code message content = record {
  response = new_response code message;
  content = content;
}

-- `if n < 1 { n = def }`
abbrev pub at_least_one : ℤ → ℤ → ℤ
at_least_one def n = if ltb_ℤ n (pos 1) then def else n

-- `int((total + int64(perPage) - 1) / int64(perPage))`
unfoldable pub ceil_div : ℤ → ℤ → ℤ
unfolding wrap64 ◌+ℤ◌ ◌-ℤ◌ quot
ceil_div total per_page = quot (wrap64 (wrap64 (total +ℤ per_page) -ℤ pos 1)) per_page

unfoldable pub new_pagination : ℤ → ℤ → ℤ → Pagination
unfolding ceil_div
new_pagination total page per_page =
    let size = at_least_one (pos 10) per_page in
    record {
      total = total;
      page = at_least_one (pos 1) page;
      per_page = size;
      total_pages = at_least_one (pos 1) (ceil_div total size);
    }

unfoldable pub new_paginated_response :
    {A : Type 0} → ℕ → String → List A → Pagination → PaginatedResponse A
unfolding new_response
new_paginated_response code message content pagination = record {
  response = new_response code message;
  content = content;
  pagination = pagination;
}

-- `(r *DataResponse[T]) JSON(c)`, and so for the others: the status is the body's code.
unfoldable pub json : {A : Type 0} → ℕ → List (String × String) → A → Reply A
json code headers body = record { status = code; headers = headers; body = body }

unfoldable pub get_offset : ℤ → ℤ → ℤ
unfolding wrap64 ◌-ℤ◌ ◌*ℤ◌
get_offset page per_page =
    wrap64 (wrap64 (at_least_one (pos 1) page -ℤ pos 1) *ℤ at_least_one (pos 10) per_page)
