-- ===== src/Usecase/Disbursements/Query/Wrapped.antt =====
-- The pages of `List` whose offset does not fit into Go's `int`.
use test_lintaspay_backend.Common.{
  ℤ, subst, ap, ℕ, ◌-◌, ◌*◌, ◌^◌, ◌≤◌, ◌<◌, ◌≡◌, pos, pos_part, length, count_if, min, List, wrap64,
  wrap64-eq, sub_pos, mul_pos, arith,
}
use test_lintaspay_backend.Entity.{Disbursement, DisbursementFilter, normalize}
use test_lintaspay_backend.External.{Services, ok}
use test_lintaspay_backend.External.Sql.{Database}
use test_lintaspay_backend.Monad.{World}
use test_lintaspay_backend.Repository.{page_offset}
use test_lintaspay_backend.Repository.Disbursements.Rows.{rows}
use test_lintaspay_backend.Usecase.Disbursements.Query.{list}
use test_lintaspay_backend.Usecase.Disbursements.Query.Listed.{Page, shown, list-Page}

wrap64-negative : (n : ℕ) → 2 ^ 63 ≤ n → n < 2 ^ 64 → pos_part (wrap64 (pos n)) ≡ 0
unfolding wrap64
wrap64-negative n h k = ground arith

page_offset-wraps :
    (page size : ℕ)
    → 1 ≤ page
    → page < 2 ^ 63
    → 2 ^ 63 ≤ (page - 1) * size
    → (page - 1) * size < 2 ^ 64
    → pos_part (page_offset (pos page) (pos size)) ≡ 0
unfolding page_offset
page_offset-wraps page size one small h k =
    rw (sub_pos page 1 one, wrap64-eq (pos (page - 1)) (omega arith), mul_pos (page - 1) size)
      (wrap64-negative ((page - 1) * size) h k)

module _ ⦃g : Services⦄ ⦃db : Database g⦄ where
  -- For a filter whose normalized page and limit make an offset from 2 ^ 63 to 2 ^ 64, which no
  -- table reaches: `List` does not return an empty page. A page that it returns has as many of the
  -- matching rows as the first page, the limit or all of them.
  pub list-Wrapped :
      (f : DisbursementFilter) (w : World g) (page size : ℕ) (ds : List Disbursement) (total : ℤ)
      → (normalize g.case_tables f).page ≡ pos page
      → (normalize g.case_tables f).limit ≡ pos size
      → 1 ≤ page
      → page < 2 ^ 63
      → 2 ^ 63 ≤ (page - 1) * size
      → (page - 1) * size < 2 ^ 64
      → (list f w).0 ≡ ok (ds, total)
      → length ds ≡ min size (count_if (shown (normalize g.case_tables f)) (rows w))
  list-Wrapped f w page size ds total p l one small low high r =
      let found : Page (normalize g.case_tables f) (ok (ds, total)) (rows w) =
        subst (λ x. Page (normalize g.case_tables f) x (rows w)) r (list-Page f w).0 in
      let here : pos_part
            (page_offset (normalize g.case_tables f).page (normalize g.case_tables f).limit)
          ≡ 0 =
        rw (p, l) (page_offset-wraps page size one small low high) in
      omega (arith, found.2, here, ap pos_part l)
