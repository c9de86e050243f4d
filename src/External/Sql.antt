-- ===== src/External/Sql.antt =====
-- What the program relies on of gorm over MySQL: `IsTable` about the statements on one table, and
-- `Database`, which gathers the contents of the tables and the laws, transactions included.
-- These are hypotheses: each theorem that needs them takes a `Database`.
use Prim.Native.String
use test_lintaspay_backend.Common.{
  ◌||◌, ◌==◌, leb, leb_ℤ, String, ℤ, pos, ◌≤ℤ◌, pos_part, length, All, min, ◌-◌, ℕ, Bool, true,
  false, not, ◌&&◌, ◌≡◌, ◌∙◌, ◌≢◌, none, some, List, ◌∷◌, Some, any, count_if, keep_if, rewrite_if,
}
use test_lintaspay_backend.Errors.{
  GoError, errors_is, record_not_found, idempotency_key_exists, as_mysql,
}
use test_lintaspay_backend.Entity.{Time, Disbursement, IdempotencyKey, AuditLog, User, RefreshToken}
use test_lintaspay_backend.External.Ordering.{IsOrdered, IsNewestFirst}
use test_lintaspay_backend.External.{Result, ok, err, Services, Table, Window, Marshalled}

-- The scope that gorm adds on a model with a `gorm.DeletedAt` field.
abbrev pub is_live : Disbursement → Bool
is_live d = elim d.deleted_at [ none ↦ true | some _ ↦ false ]

abbrev pub mark_deleted : Time → Disbursement → Disbursement
mark_deleted at d = record d { deleted_at = some at }

abbrev pub always {ℓ} : {A : Type ℓ} → A → Bool
always _ = true

abbrev pub both {ℓ} : {A : Type ℓ} → (A → Bool) → (A → Bool) → A → Bool
both p q a = p a && q a

-- A statement that returns an error has changed nothing, and a read never changes anything.
-- `rows` is the table's contents, soft-deleted rows included, the newest first.
pub record IsTable {Row : Type 0} (t : Table Row) (rows : t.State → List Row) (live : Row → Bool)
    : Type 0 where
  pub create_ok :
      (r : Row) (s : t.State) → (t.create r s).0 ≡ ok tt → rows (t.create r s).1 ≡ r ∷ rows s
  pub create_err :
      (r : Row) (s : t.State) (e : GoError)
      → (t.create r s).0 ≡ err e
      → rows (t.create r s).1 ≡ rows s
  pub first_rows : (p : Row → Bool) (s : t.State) → rows (t.first p s).1 ≡ rows s
  pub first_ok :
      (p : Row → Bool) (s : t.State) (r : Row)
      → (t.first p s).0 ≡ ok r
      → (live r ≡ true) × (p r ≡ true) × Some (λ x. x ≡ r) (rows s)
  pub first_missing :
      (p : Row → Bool) (s : t.State) (e : GoError)
      → (t.first p s).0 ≡ err e
      → errors_is record_not_found e ≡ true
      → count_if (both live p) (rows s) ≡ 0
  pub updates_ok :
      (p : Row → Bool) (f : Row → Row) (s : t.State) (n : ℕ)
      → (t.updates p f s).0 ≡ ok n
      → rows (t.updates p f s).1 ≡ rewrite_if (both live p) f (rows s)
  -- MySQL reports the rows that it changed.
  pub updates_count :
      (p : Row → Bool) (f : Row → Row) (s : t.State) (n : ℕ)
      → (t.updates p f s).0 ≡ ok n
      → ((r : Row) → p r ≡ true → f r ≢ r)
      → n ≡ count_if (both live p) (rows s)
  pub updates_err :
      (p : Row → Bool) (f : Row → Row) (s : t.State) (e : GoError)
      → (t.updates p f s).0 ≡ err e
      → rows (t.updates p f s).1 ≡ rows s
  pub delete_err :
      (p : Row → Bool) (s : t.State) (e : GoError)
      → (t.delete p s).0 ≡ err e
      → rows (t.delete p s).1 ≡ rows s
  pub count_rows : (p : Row → Bool) (s : t.State) → rows (t.count p s).1 ≡ rows s
  pub find_rows : (p : Row → Bool) (win : Window) (s : t.State) → rows (t.find p win s).1 ≡ rows s
  pub count_ok :
      (p : Row → Bool) (s : t.State) (n : ℤ)
      → (t.count p s).0 ≡ ok n
      → n ≡ pos (count_if (both live p) (rows s))
  -- `LIMIT` and `OFFSET`: of the rows that match, those after the offset, up to the limit. gorm
  -- writes an offset only if it is positive.
  pub find_ok :
      (p : Row → Bool) (win : Window) (s : t.State) (rs : List Row)
      → (t.find p win s).0 ≡ ok rs
      → pos 1 ≤ℤ win.limit
      → All (λ r. both live p r ≡ true) rs
        × (length rs
            ≡ min (pos_part win.limit) (count_if (both live p) (rows s) - pos_part win.offset))

-- A deletion on a model with `gorm.DeletedAt` stamps the live rows that it selects.
pub record IsSoftDelete (t : Table Disbursement) (rows : t.State → List Disbursement) : Type 0 where
  pub delete_ok :
      (p : Disbursement → Bool) (s : t.State) (n : ℕ)
      → (t.delete p s).0 ≡ ok n
      → (at : Time) × (rows (t.delete p s).1
          ≡ rewrite_if (both is_live p) (mark_deleted at) (rows s))
        × (n ≡ count_if (both is_live p) (rows s))

-- On another model it removes them.
pub record IsHardDelete {Row : Type 0} (t : Table Row) (rows : t.State → List Row) : Type 0 where
  pub delete_ok :
      (p : Row → Bool) (s : t.State) (n : ℕ)
      → (t.delete p s).0 ≡ ok n
      → rows (t.delete p s).1 ≡ keep_if (λ r. not (p r)) (rows s)

-- How a transaction ends: its function's writes are kept, or none of them is. An error is the
-- function's own, or one of the driver's (at BEGIN or COMMIT), which is never a sentinel of the
-- program.
pub data TxOutcome {S : Type 0} (Same : S → S → Type 0) (s : S) (body res : Result (Unit {0}) × S)
    : Type 0 where
  committed : body.0 ≡ ok tt → res.0 ≡ ok tt → Same body.1 res.1 → TxOutcome Same s body res
  rolled_back :
      (e : GoError) → body.0 ≡ err e → res.0 ≡ err e → Same s res.1 → TxOutcome Same s body res
  aborted :
      (e : GoError)
      → res.0 ≡ err e
      → errors_is idempotency_key_exists e ≡ false
      → Same s res.1
      → TxOutcome Same s body res

-- The collation's equality: an equivalence, and it tells the three status texts apart.
pub record IsCollation (sql_eq : String → String → Bool) : Type 0 where
  pub eq_refl : (s : String) → sql_eq s s ≡ true
  pub eq_sym : (s t : String) → sql_eq s t ≡ true → sql_eq t s ≡ true
  pub eq_trans : (s t u : String) → sql_eq s t ≡ true → sql_eq t u ≡ true → sql_eq s u ≡ true
  pub approved_ne_pending : sql_eq "APPROVED" "PENDING" ≡ false
  pub rejected_ne_pending : sql_eq "REJECTED" "PENDING" ≡ false

pub record Database (g : Services) : Type 0 where
  pub disbursement_rows : g.disbursements.State → List Disbursement
  pub key_rows : g.idempotency_keys.State → List IdempotencyKey
  pub audit_rows : g.audit_logs.State → List AuditLog
  pub token_rows : g.refresh_tokens.State → List RefreshToken
  pub user_rows : g.users.State → List User
  pub collation : IsCollation g.sql_eq
  pub disbursement_table : IsTable g.disbursements disbursement_rows is_live
  pub disbursement_order :
      IsOrdered g.disbursements (λ p s. keep_if (both is_live p) (disbursement_rows s))
  pub disbursement_delete : IsSoftDelete g.disbursements disbursement_rows
  pub key_table : IsTable g.idempotency_keys key_rows always
  pub key_delete : IsHardDelete g.idempotency_keys key_rows
  -- The primary key: a row that is inserted had no other with its key.
  pub key_fresh :
      (k : IdempotencyKey) (s : g.idempotency_keys.State)
      → (g.idempotency_keys.create k s).0 ≡ ok tt
      → any (λ j. g.sql_eq j.key k.key) (key_rows s) ≡ false
  pub audit_table : IsTable g.audit_logs audit_rows always
  pub audit_order : IsNewestFirst g.audit_logs (λ p s. keep_if (both always p) (audit_rows s))
  pub token_table : IsTable g.refresh_tokens token_rows always
  pub user_table : IsTable g.users user_rows always
  pub transaction_ends :
      (f : g.disbursements.State × g.idempotency_keys.State
        → Result (Unit {0}) × (g.disbursements.State × g.idempotency_keys.State))
      (s : g.disbursements.State × g.idempotency_keys.State)
      → TxOutcome
          (λ a b. (disbursement_rows a.0 ≡ disbursement_rows b.0) × (key_rows a.1 ≡ key_rows b.1))
          s
          (f s)
          (g.transaction f s)

-- A database that answers: no statement and no commit is lost, and a key that is taken is reported
-- as a duplicate. Theorems that say that a request succeeds assume it.
pub record IsReliable (g : Services) (db : Database g) : Type 0 where
  pub key_duplicate :
      (k : IdempotencyKey) (s : g.idempotency_keys.State)
      → any (λ j. g.sql_eq j.key k.key) (db.key_rows s) ≡ true
      → (e : GoError) × ((g.idempotency_keys.create k s).0 ≡ err e) × (as_mysql e ≡ some 1062)
  pub key_found :
      (p : IdempotencyKey → Bool) (s : g.idempotency_keys.State)
      → any p (db.key_rows s) ≡ true
      → (k : IdempotencyKey) × ((g.idempotency_keys.first p s).0 ≡ ok k)
  pub transaction_result :
      (f : g.disbursements.State × g.idempotency_keys.State
        → Result (Unit {0}) × (g.disbursements.State × g.idempotency_keys.State))
      (s : g.disbursements.State × g.idempotency_keys.State)
      → (g.transaction f s).0 ≡ (f s).0
  pub json_total : (v : Marshalled) → (b : String) × (g.json_marshal v ≡ ok b)

-- Statements that all go through, an ideal: any row whose primary key is free is inserted, and a
-- deletion runs. It serves where even then something goes wrong.
pub record IsAvailable (g : Services) (db : Database g) : Type 0 where
  pub key_insert :
      (k : IdempotencyKey) (s : g.idempotency_keys.State)
      → any (λ j. g.sql_eq j.key k.key) (db.key_rows s) ≡ false
      → (g.idempotency_keys.create k s).0 ≡ ok tt
  pub key_deletion :
      (p : IdempotencyKey → Bool) (s : g.idempotency_keys.State)
      → (n : ℕ) × ((g.idempotency_keys.delete p s).0 ≡ ok n)
  pub disbursement_insert :
      (d : Disbursement) (s : g.disbursements.State)
      → any (λ x. g.sql_eq x.id d.id) (db.disbursement_rows s) ≡ false
      → (g.disbursements.create d s).0 ≡ ok tt

-- What migrations/0001_init.up.sql lets into the tables: a text up to its column's width, an amount
-- above the CHECK constraint, a time from 1970 up to the end of the year 9999.
abbrev pub fits : ℕ → String → Bool
fits width text = leb (String.count text) width

abbrev pub fits_time : Time → Bool
fits_time t = leb_ℤ (pos 0) t && leb_ℤ t (pos 253_402_300_799_000_000_000)

unfoldable pub fits_disbursement : Disbursement → Bool
fits_disbursement d =
    fits 36 d.id
    && fits 255 d.recipient_name
    && fits 50 d.account_number
    && fits 20 d.bank_code
    && leb_ℤ (pos 10_000) d.amount
    && fits 500 d.note
    && (d.status == "PENDING" || d.status == "APPROVED" || d.status == "REJECTED")
    && fits 50 d.created_by
    && elim d.approved_by [ none ↦ true | some a ↦ fits 50 a ]
    && fits_time d.created_at
    && fits_time d.updated_at

-- The response is a JSON column, and what `json.Marshal` returns fits it.
unfoldable pub fits_key : IdempotencyKey → Bool
fits_key k =
    fits 36 k.key
    && fits 36 k.user_id
    && fits 64 k.request_hash
    && fits_time k.expires_at
    && fits_time k.created_at

-- Statements that go through: a row that the schema lets in and whose primary key is free is
-- inserted, and a deletion runs.
pub record Admits (g : Services) (db : Database g) : Type 0 where
  pub key_admitted :
      (k : IdempotencyKey) (v : Marshalled) (s : g.idempotency_keys.State)
      → fits_key k ≡ true
      → g.json_marshal v ≡ ok k.response_body
      → any (λ j. g.sql_eq j.key k.key) (db.key_rows s) ≡ false
      → (g.idempotency_keys.create k s).0 ≡ ok tt
  pub disbursement_admitted :
      (d : Disbursement) (s : g.disbursements.State)
      → fits_disbursement d ≡ true
      → any (λ x. g.sql_eq x.id d.id) (db.disbursement_rows s) ≡ false
      → (g.disbursements.create d s).0 ≡ ok tt
  pub deletion_runs :
      (p : IdempotencyKey → Bool) (s : g.idempotency_keys.State)
      → (n : ℕ) × ((g.idempotency_keys.delete p s).0 ≡ ok n)

-- Queries that go through: a query for one row finds one where there is one.
pub record FindsTokens (g : Services) (db : Database g) : Type 0 where
  pub token_found :
      (p : RefreshToken → Bool) (s : g.refresh_tokens.State)
      → any p (db.token_rows s) ≡ true
      → (t : RefreshToken) × ((g.refresh_tokens.first p s).0 ≡ ok t)
  pub user_found :
      (p : User → Bool) (s : g.users.State)
      → any p (db.user_rows s) ≡ true
      → (u : User) × ((g.users.first p s).0 ≡ ok u)

-- What a count and then a query for a page return, of the rows that match a test: the page has those
-- that follow the offset, up to the limit, and the count is that of all of them.
module _ {Row : Type 0} {t : Table Row} {rows : t.State → List Row} {live : Row → Bool}
    (it : IsTable t rows live) where
  abbrev pub IsPage : (Row → Bool) → Window → List Row → List Row → ℤ → Type 0
  IsPage p win old rs n =
      All (λ r. both live p r ≡ true) rs
      × (length rs ≡ min (pos_part win.limit) (count_if (both live p) old - pos_part win.offset))
      × (n ≡ pos (count_if (both live p) old))

  pub counted-IsPage :
      (p : Row → Bool) (win : Window) (s : t.State) (n : ℤ) (rs : List Row)
      → pos 1 ≤ℤ win.limit
      → (t.count p s).0 ≡ ok n
      → (t.find p win (t.count p s).1).0 ≡ ok rs
      → IsPage p win (rows s) rs n
  counted-IsPage p win s n rs low c q =
      let (all, bound) = it.find_ok p win _ rs q low in
      let counted = it.count_rows p s in (all, rw counted at bound, it.count_ok p s n c)

  pub paged_rows :
      (p : Row → Bool) (win : Window) (s : t.State) → rows (t.find p win (t.count p s).1).1 ≡ rows s
  paged_rows p win s = it.find_rows p win _ ∙ it.count_rows p s
