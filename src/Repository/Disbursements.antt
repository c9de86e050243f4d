-- ===== src/Repository/Disbursements.antt =====
-- internal/repository/disbursements.go
pub mod Rows
use Prim.Native.String
use test_lintaspay_backend.Common.{ℕ, String, Bool, true, ◌&&◌, ℤ, some, List, ◌==◌, if◌then◌else◌}
use test_lintaspay_backend.Errors.{sentinel, idempotency_key_exists}
use test_lintaspay_backend.Entity.{
  Time, Disbursement, IdempotencyKey, DisbursementFilter, status_pending,
}
use test_lintaspay_backend.External.{Window, Services, Result, ok, err}
use test_lintaspay_backend.Monad.{M, pure, ◌>>=◌, on_disbursements, on_idempotency_keys, now}
use test_lintaspay_backend.Repository.Errors.{translate, is_duplicate_entry, page_offset}

-- The column assignments of `UpdateStatus`, on a row that its condition selects.
unfoldable pub set_status : String → String → String → Time → Disbursement → Disbursement
set_status status note actor at d = record d {
  status = status;
  approved_by = some actor;
  updated_at = at;
  note = if note == "" then d.note else note;
}

module _ ⦃g : Services⦄ where
  -- `id = ?`
  abbrev pub has_id : String → Disbursement → Bool
  has_id id d = g.sql_eq d.id id

  -- `id = ? AND status = ?`
  abbrev pub has_id_pending : String → Disbursement → Bool
  has_id_pending id d = g.sql_eq d.id id && g.sql_eq d.status status_pending

  -- `` `key` = ? ``
  abbrev pub has_key : String → IdempotencyKey → Bool
  has_key key k = g.sql_eq k.key key

  abbrev pub Tables : Type 0
  Tables = g.disbursements.State × g.idempotency_keys.State

  unfoldable pub create : Disbursement → M (Unit {0})
  create d = on_disbursements (g.disbursements.create d)

  abbrev insert_after :
      Disbursement
      → g.disbursements.State
      → Result (Unit {0}) × g.idempotency_keys.State
      → Result (Unit {0}) × Tables
  insert_after d ds (ok _, ks) = let (r, ds') = g.disbursements.create d ds in (r, (ds', ks))
  insert_after d ds (err e, ks) =
      (err (if is_duplicate_entry e then sentinel idempotency_key_exists else e), (ds, ks))

  -- The function that `CreateWithIdempotency` hands to the transaction.
  unfoldable pub reserve_and_insert :
      Disbursement → IdempotencyKey → Tables → Result (Unit {0}) × Tables
  unfolding is_duplicate_entry
  reserve_and_insert d idem (ds, ks) = insert_after d ds (g.idempotency_keys.create idem ks)

  unfoldable pub create_with_idempotency : Disbursement → IdempotencyKey → M (Unit {0})
  create_with_idempotency d idem w =
      let (r, s) =
        g.transaction (reserve_and_insert d idem) (w.disbursements, w.idempotency_keys) in
      (r, record w { disbursements = s.0; idempotency_keys = s.1 })

  unfoldable pub find_by_id : String → M Disbursement
  unfolding translate
  find_by_id id =
      on_disbursements (λ s. let (r, s') = g.disbursements.first (has_id id) s in (translate r, s'))

  -- The conditions of `FindAll`, each only where its field is set.
  unfoldable pub matches_filter : DisbursementFilter → Disbursement → Bool
  matches_filter f d =
      (if f.search == ""
        then true
        else g.sql_like d.recipient_name (String.◌++◌ (String.◌++◌ "%" f.search) "%"))
      && (if f.status == "" then true else g.sql_eq d.status f.status)
      && (if f.date_from == "" then true else g.sql_on_or_after d.created_at f.date_from)
      && (if f.date_to == "" then true else g.sql_before_next_day d.created_at f.date_to)

  abbrev pub window : DisbursementFilter → Window
  window f = record {
    order = String.◌++◌ (String.◌++◌ f.sort_by " ") f.sort_order;
    limit = f.limit;
    offset = page_offset f.page f.limit;
  }

  unfoldable pub find_all : DisbursementFilter → M (List Disbursement × ℤ)
  unfolding matches_filter page_offset
  find_all f = do
    total ← on_disbursements (g.disbursements.count (matches_filter f))
    rows ← on_disbursements (g.disbursements.find (matches_filter f) (window f))
    pure (rows, total)

  unfoldable pub update_status : String → String → String → String → M ℕ
  unfolding set_status
  update_status id status note actor = do
    at ← now
    on_disbursements (g.disbursements.updates (has_id_pending id) (set_status status note actor at))

  unfoldable pub soft_delete : String → M ℕ
  soft_delete id = on_disbursements (g.disbursements.delete (has_id_pending id))

  unfoldable pub find_idempotency_key : String → M IdempotencyKey
  unfolding translate
  find_idempotency_key key =
      on_idempotency_keys
        (λ s. let (r, s') = g.idempotency_keys.first (has_key key) s in (translate r, s'))

  unfoldable pub delete_idempotency_key : String → M ℕ
  delete_idempotency_key key = on_idempotency_keys (g.idempotency_keys.delete (has_key key))
