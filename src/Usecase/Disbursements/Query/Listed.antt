-- ===== src/Usecase/Disbursements/Query/Listed.antt =====
-- What `List` returns, and that it changes nothing.
use test_lintaspay_backend.Common.{
  ◌==◌, if◌then◌else◌, false, keep_if, ◌≡◌, refl, Bool, true, List, ℤ, pos, pos_part, ◌-◌, min, All,
  length, count_if, Bool-cases, Option-cases, inl, inr,
}
use test_lintaspay_backend.Entity.{Disbursement, DisbursementFilter, normalize}
use test_lintaspay_backend.Entity.Normalize.{IsNormal, normalize-IsNormal}
use test_lintaspay_backend.External.{Result, ok, err, Services}
use test_lintaspay_backend.External.Ordering.{
  Column, amount, created_at, column_value, InOrder, IsWindow,
}
use test_lintaspay_backend.External.Sql.{Database, is_live, both, counted-IsPage, paged_rows}
use test_lintaspay_backend.Monad.{World}
use test_lintaspay_backend.Monad.Laws.{Result-cases}
use test_lintaspay_backend.Repository.{page_offset}
use test_lintaspay_backend.Repository.Disbursements as Repo
use test_lintaspay_backend.Repository.Disbursements.{matches_filter}
use test_lintaspay_backend.Repository.Disbursements.Rows.{rows}
use test_lintaspay_backend.Usecase.Dates.{validate_date_range}
use test_lintaspay_backend.Usecase.Disbursements.Query.{list, list_normalized, is_status_filter}

module _ ⦃g : Services⦄ ⦃db : Database g⦄ where
  -- The test of the query for a filter: the rows that are live and match it.
  abbrev pub shown : DisbursementFilter → Disbursement → Bool
  shown f = both is_live (matches_filter f)

  -- The column and the direction of a normalized filter.
  abbrev pub sort_column : DisbursementFilter → Column
  sort_column f = if f.sort_by == "amount" then amount else created_at

  abbrev pub InFilterOrder : DisbursementFilter → Disbursement → Disbursement → Type 0
  InFilterOrder f = InOrder (column_value (sort_column f)) (f.sort_order == "asc")

  window-IsWindow :
      (f : DisbursementFilter) (s : g.disbursements.State) (ds : List Disbursement)
      → IsNormal f
      → (g.disbursements.find (matches_filter f) (Repo.window f) s).0 ≡ ok ds
      → IsWindow (InFilterOrder f) (Repo.window f) (keep_if (shown f) (db.disbursement_rows s)) ds
  unfolding matches_filter
  window-IsWindow f s ds h q =
      let by = λ (c : Column) (u : Bool).
        db.disbursement_order.find_order c u _ (Repo.window f) s ds q h.limit_low in
      elim h.sort_by [
        | inl c ↦ elim h.sort_order [
          | inl o ↦ rw (c, o) (by amount true (rw (c, o) refl))
          | inr o ↦ rw (c, o) (by amount false (rw (c, o) refl))
        ]
        | inr c ↦ elim h.sort_order [
          | inl o ↦ rw (c, o) (by created_at true (rw (c, o) refl))
          | inr o ↦ rw (c, o) (by created_at false (rw (c, o) refl))
        ]
      ]

  -- A page for the filter `f`, which is normalized, of the rows `old`.
  abbrev pub Page : DisbursementFilter → Result (List Disbursement × ℤ) → List Disbursement → Type 0
  Page f (err e) old = Unit
  Page f (ok (ds, total)) old =
      All (λ d. shown f d ≡ true) ds
      × IsWindow (InFilterOrder f) (Repo.window f) (keep_if (shown f) old) ds
      × (length ds
          ≡ min (pos_part f.limit) (count_if (shown f) old - pos_part (page_offset f.page f.limit)))
      × (total ≡ pos (count_if (shown f) old))

  Found :
      DisbursementFilter
      → Result (List Disbursement × ℤ)
      → List Disbursement
      → List Disbursement
      → Type 0
  Found f r old new = Page f r old × (new ≡ old)

  find_all-Found :
      (f : DisbursementFilter) (w : World g)
      → IsNormal f
      → Found f (Repo.find_all f w).0 (rows w) (rows (Repo.find_all f w).1)
  unfolding Repo.find_all Found
  find_all-Found f w h =
      let t = db.disbursement_table in
      let p = matches_filter f in
      let win = Repo.window f in
      let s = (g.disbursements.count p w.disbursements).1 in
      elim (Result-cases (g.disbursements.count p w.disbursements).0) [
        | inl (n, c) ↦ elim (Result-cases (g.disbursements.find p win s).0) [
          | inl (ds, q) ↦
              let (all, size, total) =
                counted-IsPage t p win w.disbursements n ds h.limit_low c q in
              let listed = window-IsWindow f s ds h q in
              let counted = t.count_rows p w.disbursements in
              rw (c, q)
                ((all, rw counted at listed, size, total), paged_rows t p win w.disbursements)
          | inr (x, q) ↦ rw (c, q) (tt, paged_rows t p win w.disbursements)
        ]
        | inr (x, c) ↦ rw c (tt, t.count_rows p w.disbursements)
      ]

  list_normalized-Found :
      (f : DisbursementFilter) (w : World g)
      → IsNormal f
      → Found f (list_normalized f w).0 (rows w) (rows (list_normalized f w).1)
  unfolding Found
  list_normalized-Found f w h = elim (Bool-cases (is_status_filter f.status)) [
    | inl s ↦ elim (Option-cases (validate_date_range f.date_from f.date_to)) [
      | inl v ↦
          let found = find_all-Found f w h in
          elim (Result-cases (Repo.find_all f w).0) [
            | inl (page, e) ↦ rw (s, v, e) (rw e at found)
            | inr (x, e) ↦ rw (s, v, e) (rw e at found)
          ]
      | inr (x, v) ↦ rw (s, v) (tt, refl)
    ]
    | inr s ↦ rw s (tt, refl)
  ]

  -- For every filter and state, and whatever the services answer: `List` changes no row, and if
  -- it returns a page, its disbursements are rows of the table: of all live rows that match the
  -- normalized filter, listed in the order of the filter's column and direction, those that
  -- follow the page's offset, up to the normalized limit; so each is live and matches, and there
  -- are as many as that. The total is the number of live rows that match. (A negative offset,
  -- from an overflow, skips none.)
  pub list-Page :
      (f : DisbursementFilter) (w : World g)
      → Page (normalize g.case_tables f) (list f w).0 (rows w) × (rows (list f w).1 ≡ rows w)
  unfolding list Found
  list-Page f w = list_normalized-Found _ w (normalize-IsNormal g.case_tables f)
