-- ===== src/Reqctx.antt =====
-- pkg/common/reqctx/reqctx.go: the request-scoped values of a context, one field for each key.
-- A value that was never set reads as the empty text.
use test_lintaspay_backend.Common.{String, Option, none, some}

pub record Context : Type 0 where
  pub request_id_value : Option String
  pub user_id_value : Option String
  pub username_value : Option String
  pub role_value : Option String

abbrev pub background : Context
background = record {
  request_id_value = none;
  user_id_value = none;
  username_value = none;
  role_value = none;
}

abbrev text_or_empty : Option String → String
text_or_empty none = ""
text_or_empty (some s) = s

unfoldable pub with_request_id : Context → String → Context
with_request_id ctx id = record ctx { request_id_value = some id }

unfoldable pub request_id : Context → String
request_id ctx = text_or_empty ctx.request_id_value

unfoldable pub with_user : Context → String → String → String → Context
with_user ctx user_id username role = record ctx {
  user_id_value = some user_id;
  username_value = some username;
  role_value = some role;
}

unfoldable pub user_id : Context → String
user_id ctx = text_or_empty ctx.user_id_value

unfoldable pub username : Context → String
username ctx = text_or_empty ctx.username_value

unfoldable pub role : Context → String
role ctx = text_or_empty ctx.role_value
