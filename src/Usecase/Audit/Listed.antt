-- ===== src/Usecase/Audit/Listed.antt =====
-- internal/usecase/audit.go, with internal/repository/audit.go: what a listing of the audit trail
-- returns, and that it changes nothing.
use test_lintaspay_backend.Common.{
  ◌≡◌, refl, true, List, ℤ, pos, pos_part, ◌-◌, ◌≤◌, ◌≤ℤ◌, min, All, keep_if, length, count_if,
  arith, Option-cases, inl, inr,
}
use test_lintaspay_backend.Entity.{AuditLog, AuditLogFilter, normalize_audit}
use test_lintaspay_backend.Entity.Normalize.{clamp_limit_bounds}
use test_lintaspay_backend.External.{Result, ok, err, Services, Window}
use test_lintaspay_backend.External.Ordering.{IsNewer, IsWindow}
use test_lintaspay_backend.External.Sql.{Database, counted-IsPage, paged_rows}
use test_lintaspay_backend.Monad.{World}
use test_lintaspay_backend.Monad.Laws.{Result-cases}
use test_lintaspay_backend.Repository.{page_offset}
use test_lintaspay_backend.Repository.Audit as Repo
use test_lintaspay_backend.Repository.Audit.{matches_filter}
use test_lintaspay_backend.Usecase.Dates.{validate_date_range}
use test_lintaspay_backend.Usecase.Audit.{list}

module _ ⦃g : Services⦄ ⦃db : Database g⦄ where
  abbrev pub entries : World g → List AuditLog
  entries w = db.audit_rows w.audit_logs

  abbrev pub window : AuditLogFilter → Window
  window f = record {
    order = "created_at DESC";
    limit = f.limit;
    offset = page_offset f.page f.limit;
  }

  -- A page for the filter `f` of the entries `old`.
  abbrev pub Page : AuditLogFilter → Result (List AuditLog × ℤ) → List AuditLog → Type 0
  Page f (err e) old = Unit
  Page f (ok (shown, total)) old =
      All (λ a. matches_filter f a ≡ true) shown
      × IsWindow IsNewer (window f) (keep_if (matches_filter f) old) shown
      × (length shown
          ≡ min (pos_part f.limit)
              (count_if (matches_filter f) old - pos_part (page_offset f.page f.limit)))
      × (length shown ≤ 100)
      × (total ≡ pos (count_if (matches_filter f) old))

  abbrev Shows : AuditLogFilter → Result (List AuditLog × ℤ) × World g → List AuditLog → Type 0
  Shows f (r, w) old = Page f r old × (entries w ≡ old)

  find_all-Shows :
      (f : AuditLogFilter) (w : World g)
      → pos 1 ≤ℤ f.limit
      → f.limit ≤ℤ pos 100
      → Shows f (Repo.find_all f w) (entries w)
  unfolding Repo.find_all
  find_all-Shows f w low high =
      let t = db.audit_table in
      let p = matches_filter f in
      let (n, s) = g.audit_logs.count p w.audit_logs in
      elim (Result-cases (g.audit_logs.count p w.audit_logs).0) [
        | inl (n, c) ↦ elim (Result-cases (g.audit_logs.find p (window f) s).0) [
          | inl (rs, q) ↦
              let (all, size, total) = counted-IsPage t p (window f) w.audit_logs n rs low c q in
              let listed = db.audit_order.find_newest p (window f) _ rs q low refl in
              let counted = t.count_rows p w.audit_logs in
              rw (c, q)
                (
                  (all, rw counted at listed, size, ground (arith, size, high), total),
                  paged_rows t p (window f) w.audit_logs,
                )
          | inr (x, q) ↦ rw (c, q) (tt, paged_rows t p (window f) w.audit_logs)
        ]
        | inr (x, c) ↦ rw c (tt, t.count_rows p w.audit_logs)
      ]

  -- For every filter and state, and whatever the services answer: a listing of the audit trail
  -- changes no entry, and the entries of a page that it returns, at most 100, are entries of the
  -- table: of all entries that match the normalized filter, listed the newest first, those that
  -- follow the page's offset, up to the limit; so each matches, and there are as many as that.
  -- The total is the number of all matching entries. (A negative offset, from an overflow, skips
  -- none.)
  pub list-Shown :
      (f : AuditLogFilter) (w : World g)
      → Page (normalize_audit f) (list f w).0 (entries w) × (entries (list f w).1 ≡ entries w)
  unfolding list normalize_audit
  list-Shown f w =
      let n = normalize_audit f in
      elim (Option-cases (validate_date_range n.date_from n.date_to)) [
        | inl v ↦
            let (low, high) = clamp_limit_bounds f.limit in
            let found = find_all-Shows n w low high in
            elim (Result-cases (Repo.find_all n w).0) [
              | inl (page, e) ↦ rw (v, e) (rw e at found)
              | inr (x, e) ↦ rw (v, e) (rw e at found)
            ]
        | inr (x, v) ↦ rw v (tt, refl)
      ]
