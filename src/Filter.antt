-- ===== src/Filter.antt =====
-- pkg/common/filter/filter.go: the base filter, with its defaults.
use test_lintaspay_backend.Common.{
  String, not, ◌&&◌, ℤ, pos, ◌-ℤ◌, ◌*ℤ◌, wrap64, ltb_ℤ, List, [], ◌==◌, if◌then◌else◌,
}
use test_lintaspay_backend.Common.Text.{CaseTables, trim_space, to_lower}
use test_lintaspay_backend.Response.{at_least_one}

pub record BaseFilter (F : Type 0) : Type 0 where
  pub page : ℤ
  pub limit : ℤ
  pub sort_by : String
  pub sort_order : String
  pub search : String
  pub filters : F

module _ {F : Type 0} where
  unfoldable pub get_default_page : BaseFilter F → ℤ
  get_default_page f = if ltb_ℤ f.page (pos 1) then pos 1 else f.page

  unfoldable pub get_default_limit : BaseFilter F → ℤ
  get_default_limit f =
      if ltb_ℤ f.limit (pos 1) then pos 10 else if ltb_ℤ (pos 100) f.limit then pos 100 else f.limit

  unfoldable pub get_sort_order : CaseTables → BaseFilter F → String
  get_sort_order t f =
      let order = to_lower t f.sort_order in
      if not (order == "asc") && not (order == "desc") then "desc" else order

  unfoldable pub get_sort_by : BaseFilter F → String
  unfolding trim_space
  get_sort_by f = trim_space f.sort_by

  unfoldable pub get_search : BaseFilter F → String
  unfolding trim_space
  get_search f = trim_space f.search

  unfoldable pub get_offset : BaseFilter F → ℤ
  unfolding get_default_page get_default_limit wrap64 ◌-ℤ◌ ◌*ℤ◌
  get_offset f = wrap64 (wrap64 (get_default_page f -ℤ pos 1) *ℤ get_default_limit f)

  -- `ValidatePagination` writes the defaults into the filter, and its error is always nil.
  unfoldable pub validate_pagination : BaseFilter F → BaseFilter F
  validate_pagination f =
      let raised = at_least_one (pos 10) f.limit in
      record f {
        page = at_least_one (pos 1) f.page;
        limit = if ltb_ℤ (pos 100) raised then pos 100 else raised;
      }

-- `QueryCondition`, its value left abstract.
pub record QueryCondition (V : Type 0) : Type 0 where
  pub field : String
  pub operator : String
  pub value : V

-- The source's builder ignores its argument.
unfoldable pub build_query_conditions : {F V : Type 0} → F → List (QueryCondition V)
build_query_conditions filter = []
