-- ===== src/Legacy.antt =====
-- pkg/common/response/response.go: an older family of response bodies, with its own pagination. The
-- time stamp, `time.Now()`, is an argument of the builders. A text that the source leaves unset is
-- empty, and unset details are nil.
use test_lintaspay_backend.Common.{
  String, Bool, ℤ, pos, ◌-ℤ◌, ◌*ℤ◌, wrap64, ltb_ℤ, List, Option, none, some,
}
use test_lintaspay_backend.Entity.{Time}
use test_lintaspay_backend.Response.{at_least_one, ceil_div}

pub data ResponseStatus : Type 0 where
  success error failed : ResponseStatus

pub record BaseResponse (A : Type 0) : Type 0 where
  pub status : ResponseStatus
  pub message : String
  pub content : A
  pub timestamp : Time
  pub path : String
  pub error_code : String

pub record PaginationMeta : Type 0 where
  pub page : ℤ
  pub limit : ℤ
  pub total : ℤ
  pub total_pages : ℤ
  pub has_next : Bool
  pub has_prev : Bool

pub record PaginatedResponse (A : Type 0) : Type 0 where
  pub status : ResponseStatus
  pub message : String
  pub content : List A
  pub pagination : PaginationMeta
  pub timestamp : Time
  pub path : String

pub record ErrorResponse : Type 0 where
  pub status : ResponseStatus
  pub message : String
  pub error_code : String
  pub details : Option (List (String × String))
  pub timestamp : Time
  pub path : String

unfoldable pub new_success_response_with_path :
    {A : Type 0} → A → String → String → Time → BaseResponse A
new_success_response_with_path content message path at = record {
  status = success;
  message = message;
  content = content;
  timestamp = at;
  path = path;
  error_code = "";
}

unfoldable pub new_success_response : {A : Type 0} → A → String → Time → BaseResponse A
new_success_response content message at = record {
  status = success;
  message = message;
  content = content;
  timestamp = at;
  path = "";
  error_code = "";
}

unfoldable pub new_paginated_response :
    {A : Type 0} → List A → String → PaginationMeta → Time → PaginatedResponse A
new_paginated_response content message pagination at = record {
  status = success;
  message = message;
  content = content;
  pagination = pagination;
  timestamp = at;
  path = "";
}

unfoldable pub new_paginated_response_with_path :
    {A : Type 0} → List A → String → String → PaginationMeta → Time → PaginatedResponse A
new_paginated_response_with_path content message path pagination at = record {
  status = success;
  message = message;
  content = content;
  pagination = pagination;
  timestamp = at;
  path = path;
}

unfoldable pub new_error_response : String → String → Time → ErrorResponse
new_error_response message error_code at = record {
  status = error;
  message = message;
  error_code = error_code;
  details = none;
  timestamp = at;
  path = "";
}

unfoldable pub new_error_response_with_details :
    String → String → List (String × String) → Time → ErrorResponse
new_error_response_with_details message error_code details at = record {
  status = error;
  message = message;
  error_code = error_code;
  details = some details;
  timestamp = at;
  path = "";
}

unfoldable pub new_error_response_with_path : String → String → String → Time → ErrorResponse
new_error_response_with_path message error_code path at = record {
  status = error;
  message = message;
  error_code = error_code;
  details = none;
  timestamp = at;
  path = path;
}

unfoldable pub calculate_pagination_meta : ℤ → ℤ → ℤ → PaginationMeta
unfolding ceil_div
calculate_pagination_meta page limit total =
    let page' = at_least_one (pos 1) page in
    let limit' = at_least_one (pos 10) limit in
    let total_pages = at_least_one (pos 1) (ceil_div total limit') in
    record {
      page = page';
      limit = limit';
      total = total;
      total_pages = total_pages;
      has_next = ltb_ℤ page' total_pages;
      has_prev = ltb_ℤ (pos 1) page';
    }

unfoldable pub get_offset : ℤ → ℤ → ℤ
unfolding wrap64 ◌-ℤ◌ ◌*ℤ◌
get_offset page limit =
    wrap64 (wrap64 (at_least_one (pos 1) page -ℤ pos 1) *ℤ at_least_one (pos 10) limit)
