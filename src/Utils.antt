-- ===== src/Utils.antt =====
-- pkg/utils/validatotr-helper.go: the messages of failed validations. The validation itself is the
-- validator library's: `ValidateStruct` is a field of `Services` for each request type, a list of
-- the violated rules that is empty where the library returns nil.
use Prim.Native.String
use test_lintaspay_backend.Common.{String, List, [], ◌∷◌, map, ◌==◌, if◌then◌else◌}
use test_lintaspay_backend.Common.Text.{to_lower}
use test_lintaspay_backend.External.{Services, FieldError}

infixl 65 ◌<>◌
abbrev ◌<>◌ : String → String → String
a <> b = String.◌++◌ a b

-- strings.Join(xs, ", ")
unfoldable pub join : List String → String
join [] = ""
join (x ∷ []) = x
join (x ∷ y ∷ xs) = x <> ", " <> join (y ∷ xs)

module _ ⦃g : Services⦄ where
  unfoldable pub format_field_error : FieldError → String
  format_field_error e =
      let field = to_lower g.case_tables e.field in
      if e.tag == "required"
      then field <> " is required"
      else if e.tag == "email"
      then field <> " must be a valid email address"
      else if e.tag == "min"
      then field <> " must be at least " <> e.param
      else if e.tag == "max"
      then field <> " must be at most " <> e.param
      else if e.tag == "oneof"
      then field <> " must be one of: " <> e.param
      else field <> " is invalid"

  unfoldable pub format_validation_error : List FieldError → List String
  unfolding format_field_error
  format_validation_error = map format_field_error
