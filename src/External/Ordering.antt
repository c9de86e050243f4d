-- ===== src/External/Ordering.antt =====
-- What the program relies on of `ORDER BY`: the order of the disbursements and of the
-- audit entries that a query finds.
use Prim.Native.String
use test_lintaspay_backend.Common.{
  String, ◌≡◌, Bool, false, ℤ, pos, pos_part, ◌≤ℤ◌, List, take, drop, Sorted, if◌then◌else◌,
}
use mathlib.Core.List.{Perm}
use test_lintaspay_backend.Entity.{Disbursement, AuditLog}
use test_lintaspay_backend.External.{ok, Table, Window}

-- The columns by which the program sorts disbursements.
pub data Column : Type 0 where
  amount created_at : Column

abbrev pub column_name : Column → String
column_name amount = "amount"
column_name created_at = "created_at"

abbrev pub column_value : Column → Disbursement → ℤ
column_value amount d = d.amount
column_value created_at d = d.created_at

-- `a` may come before `b` where the values `v` go upwards, or downwards.
abbrev pub InOrder : {Row : Type 0} → (Row → ℤ) → Bool → Row → Row → Type 0
InOrder v upwards a b = v (if upwards then a else b) ≤ℤ v (if upwards then b else a)

-- `rs` is what a limit and an offset leave of all the rows, listed in order.
abbrev pub IsWindow : {Row : Type 0} → (Row → Row → Type 0) → Window → (all rs : List Row) → Type 0
IsWindow {Row} R win all rs =
    (listing : List Row) × Perm listing all
    × Sorted R listing
    × (rs ≡ take (pos_part win.limit) (drop (pos_part win.offset) listing))

-- `ORDER BY` a column, upwards or downwards, with `LIMIT` and `OFFSET`, of the rows that match.
pub record IsOrdered (t : Table Disbursement)
    (matching : (Disbursement → Bool) → t.State → List Disbursement) : Type 0 where
  pub find_order :
      (c : Column) (upwards : Bool) (p : Disbursement → Bool) (win : Window) (s : t.State)
      (rs : List Disbursement)
      → (t.find p win s).0 ≡ ok rs
      → pos 1 ≤ℤ win.limit
      → win.order
        ≡ String.◌++◌ (String.◌++◌ (column_name c) " ") (if upwards then "asc" else "desc")
      → IsWindow (InOrder (column_value c) upwards) win (matching p s) rs

abbrev pub IsNewer : AuditLog → AuditLog → Type 0
IsNewer = InOrder (λ a. a.created_at) false

-- The one order in which the program asks for audit entries.
pub record IsNewestFirst (t : Table AuditLog)
    (matching : (AuditLog → Bool) → t.State → List AuditLog) : Type 0 where
  pub find_newest :
      (p : AuditLog → Bool) (win : Window) (s : t.State) (rs : List AuditLog)
      → (t.find p win s).0 ≡ ok rs
      → pos 1 ≤ℤ win.limit
      → win.order ≡ "created_at DESC"
      → IsWindow IsNewer win (matching p s) rs
