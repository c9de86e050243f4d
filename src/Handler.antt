-- ===== src/Handler.antt =====
-- internal/handler: what the handlers share. The parsed body or query of a request is an option,
-- `none` where fiber's parser fails; path parameters and headers are texts.
pub mod Disbursements
pub mod Auth
pub mod Audit
pub mod Health
pub mod Statuses
use test_lintaspay_backend.Common.{List, [], ◌∷◌, Option, none, some}
use test_lintaspay_backend.Errors.{bad_request, with_details, messages}
use test_lintaspay_backend.External.{Services, FieldError}
use test_lintaspay_backend.Monad.{M, fail}
use test_lintaspay_backend.Utils.{format_validation_error}

module _ ⦃g : Services⦄ where
  -- `if err := c.BodyParser(req); err != nil { return BadRequest("invalid request body") }`
  unfoldable pub with_body : {A B : Type 0} → Option A → (A → M B) → M B
  unfolding bad_request
  with_body none k = fail (bad_request "invalid request body")
  with_body (some a) k = k a

  unfoldable pub with_query : {A B : Type 0} → Option A → (A → M B) → M B
  unfolding bad_request
  with_query none k = fail (bad_request "invalid query parameters")
  with_query (some a) k = k a

  -- `if err := utils.ValidateStruct(req); err != nil { … }`
  unfoldable pub when_valid : {B : Type 0} → List FieldError → M B → M B
  unfolding bad_request with_details format_validation_error
  when_valid [] m = m
  when_valid (e ∷ es) m =
      fail (
        with_details (messages (format_validation_error (e ∷ es)))
          (bad_request "validation failed"))
