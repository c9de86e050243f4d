-- ===== src/Entity/Normalize.antt =====
-- What `Normalize` guarantees to the queries that use a filter.
use test_lintaspay_backend.Common.{
  String, ◌≡◌, refl, ◌⊎◌, inl, inr, ℤ, pos, ◌≤ℤ◌, arith, ◌==◌, eq_iff, if◌then◌else◌, Bool-cases,
}
use test_lintaspay_backend.Common.Text.{CaseTables, trim_space, to_lower}
use test_lintaspay_backend.Entity.{
  DisbursementFilter, normalize, clamp_page, clamp_limit, choose_order,
}

clamp_page_bounds : (p : ℤ) → pos 1 ≤ℤ clamp_page p
clamp_page_bounds p = ground arith

pub clamp_limit_bounds : (p : ℤ) → (pos 1 ≤ℤ clamp_limit p) × (clamp_limit p ≤ℤ pos 100)
clamp_limit_bounds p = ground arith

-- After `Normalize`, whatever the filter and the case tables: the page is at least 1, the limit is
-- from 1 to 100, the rows are sorted by the amount or by the time of creation, upwards or
-- downwards. (`ORDER BY` is built from these texts, so nothing else reaches it.)
pub record IsNormal (f : DisbursementFilter) : Type 0 where
  pub page : pos 1 ≤ℤ f.page
  pub limit_low : pos 1 ≤ℤ f.limit
  pub limit_high : f.limit ≤ℤ pos 100
  pub sort_by : (f.sort_by ≡ "amount") ⊎ (f.sort_by ≡ "created_at")
  pub sort_order : (f.sort_order ≡ "asc") ⊎ (f.sort_order ≡ "desc")

pick_sort_by :
    (s : String)
    → let picked = if s == "amount" then s else "created_at" in
      (picked ≡ "amount") ⊎ (picked ≡ "created_at")
pick_sort_by s = elim (Bool-cases (s == "amount")) [
  | inl e ↦ rw e (inl ((eq_iff s "amount").0 e))
  | inr e ↦ rw e (inr refl)
]

pick_order : (s : String) → (choose_order s ≡ "asc") ⊎ (choose_order s ≡ "desc")
pick_order s = elim (Bool-cases (s == "asc")) [
  | inl e ↦ rw e (inl ((eq_iff s "asc").0 e))
  | inr e ↦ rw e (inr refl)
]

-- Every normalized filter is normal: its page, limit, sort column and sort order are in range.
pub normalize-IsNormal : (t : CaseTables) (f : DisbursementFilter) → IsNormal (normalize t f)
unfolding normalize
normalize-IsNormal t f = record {
  page = clamp_page_bounds f.page;
  limit_low = (clamp_limit_bounds f.limit).0;
  limit_high = (clamp_limit_bounds f.limit).1;
  sort_by = pick_sort_by f.sort_by;
  sort_order = pick_order (to_lower t (trim_space f.sort_order));
}
