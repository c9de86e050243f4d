-- ===== src/External/Memory/Ordered.antt =====
-- The order in which the tables in memory list disbursements.
use Prim.Native.String
use test_lintaspay_backend.Common.{
  String, ◌≡◌, Bool, true, false, ℤ, pos, pos_part, ◌≤ℤ◌, ◌-ℤ◌, List, take, drop, keep_if, arith,
  ◌==◌, if◌then◌else◌,
}
use test_lintaspay_backend.Entity.{Disbursement, AuditLog}
use test_lintaspay_backend.External.{ok, Window}
use test_lintaspay_backend.External.Memory.Sorting.{
  sort_by, Ascending, sort_by-Sorted, sort_by-Perm, Sorted-map,
}
use test_lintaspay_backend.External.Ordering.{
  Column, amount, created_at, column_name, column_value, InOrder, IsNewer, IsWindow,
}
use test_lintaspay_backend.External.Sql.{is_live, always, both}

-- The key that goes upwards in the order of `ORDER BY`.
abbrev pub order_key : String → Disbursement → ℤ
order_key order d =
    if order == "amount asc"
    then d.amount
    else if order == "amount desc"
    then pos 0 -ℤ d.amount
    else if order == "created_at asc"
    then d.created_at
    else pos 0 -ℤ d.created_at

flip_order : (a b : ℤ) → (pos 0 -ℤ a) ≤ℤ (pos 0 -ℤ b) → b ≤ℤ a
unfolding ◌-ℤ◌
flip_order a b h = ground arith

order_key-InOrder :
    (c : Column) (upwards : Bool) (a b : Disbursement)
    → let order =
        String.◌++◌ (String.◌++◌ (column_name c) " ") (if upwards then "asc" else "desc") in
      order_key order a ≤ℤ order_key order b → InOrder (column_value c) upwards a b
order_key-InOrder amount true a b h = h
order_key-InOrder amount false a b h = flip_order a.amount b.amount h
order_key-InOrder created_at true a b h = h
order_key-InOrder created_at false a b h = flip_order a.created_at b.created_at h

-- A page in the order of a key is one in any order that the key respects.
page-IsWindow :
    {Row : Type 0} (key : Row → ℤ) (R : Row → Row → Type 0) (win : Window) (found rs : List Row)
    → ok (take (pos_part win.limit) (drop (pos_part win.offset) (sort_by key found))) ≡ ok rs
    → ((a b : Row) → key a ≤ℤ key b → R a b)
    → IsWindow R win found rs
page-IsWindow key R win found rs h imp = (
  sort_by key found,
  sort_by-Perm key found,
  Sorted-map (Ascending key) R imp _ (sort_by-Sorted key found),
  cc,
)

pub in_order :
    (c : Column) (upwards : Bool) (p : Disbursement → Bool) (win : Window)
    (s rs : List Disbursement)
    → let found = keep_if (both is_live p) s in
      ok (
          take
            (pos_part win.limit)
            (drop (pos_part win.offset) (sort_by (order_key win.order) found)))
        ≡ ok rs
      → win.order
        ≡ String.◌++◌ (String.◌++◌ (column_name c) " ") (if upwards then "asc" else "desc")
      → IsWindow (InOrder (column_value c) upwards) win found rs
in_order c upwards p win s rs h o =
    page-IsWindow (order_key win.order) (InOrder (column_value c) upwards) win
      (keep_if (both is_live p) s) rs h (λ a b k. order_key-InOrder c upwards a b (rw o at k))

abbrev pub newest_key : String → AuditLog → ℤ
newest_key order a = pos 0 -ℤ a.created_at

pub newest_first :
    (p : AuditLog → Bool) (win : Window) (s rs : List AuditLog)
    → let found = keep_if (both always p) s in
      ok (
          take
            (pos_part win.limit)
            (drop (pos_part win.offset) (sort_by (newest_key win.order) found)))
        ≡ ok rs
      → IsWindow IsNewer win found rs
newest_first p win s rs h =
    page-IsWindow (newest_key win.order) IsNewer win (keep_if (both always p) s) rs h
      (λ a b k. flip_order a.created_at b.created_at k)
