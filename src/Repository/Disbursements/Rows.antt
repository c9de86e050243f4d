-- ===== src/Repository/Disbursements/Rows.antt =====
-- What each method of the disbursement repository does to the rows of its two tables.
use test_lintaspay_backend.Common.{
  any, not, keep_if, false, ℕ, String, ◌≡◌, ◌≢◌, refl, sym, ◌∙◌, inl, inr, Bool, true, List, [],
  ◌∷◌, Some, count_if, rewrite_if, arith,
}
use test_lintaspay_backend.Entity.{Time, Disbursement, IdempotencyKey}
use test_lintaspay_backend.External.{Result, ok, err, Services}
use test_lintaspay_backend.External.Sql.{
  is_live, mark_deleted, both, Database, TxOutcome, committed, rolled_back, aborted,
}
use test_lintaspay_backend.Monad.{World}
use test_lintaspay_backend.Monad.Laws.{Result-cases}
use test_lintaspay_backend.Repository.Disbursements.{
  create, create_with_idempotency, reserve_and_insert, find_by_id, update_status, soft_delete,
  find_idempotency_key, delete_idempotency_key, has_id, has_id_pending, set_status, has_key,
}

pub rewrite_if-none :
    {A : Type 0} (p : A → Bool) (f : A → A) (xs : List A)
    → count_if p xs ≡ 0
    → rewrite_if p f xs ≡ xs
rewrite_if-none p f [] h = refl
rewrite_if-none p f (x ∷ xs) h = ground (arith, rewrite_if-none p f xs)

module _ ⦃g : Services⦄ ⦃db : Database g⦄ where
  open db use {disbursement_rows, key_rows, disbursement_table, key_table}

  -- The rows of `disbursements`, soft-deleted ones included.
  abbrev pub rows : World g → List Disbursement
  rows w = disbursement_rows w.disbursements

  abbrev pub keys : World g → List IdempotencyKey
  keys w = key_rows w.idempotency_keys

  -- `m` inserts `d` if it succeeds, and nothing else.
  abbrev pub Inserts :
      Disbursement → Result (Unit {0}) → List Disbursement → List Disbursement → Type 0
  Inserts d (ok _) old new = new ≡ d ∷ old
  Inserts d (err _) old new = new ≡ old

  pub create-Inserts :
      (d : Disbursement) (w : World g) → Inserts d (create d w).0 (rows w) (rows (create d w).1)
  unfolding create
  create-Inserts d w = elim (Result-cases (g.disbursements.create d w.disbursements).0) [
    | inl (tt, e) ↦ rw e (disbursement_table.create_ok d w.disbursements e)
    | inr (e, p) ↦ rw p (disbursement_table.create_err d w.disbursements e p)
  ]

  -- What the transaction's function does if it returns nil.
  reserve_and_insert-ok :
      (d : Disbursement) (idem : IdempotencyKey) (ds : g.disbursements.State)
      (ks : g.idempotency_keys.State)
      → (reserve_and_insert d idem (ds, ks)).0 ≡ ok tt
      → (disbursement_rows (reserve_and_insert d idem (ds, ks)).1.0 ≡ d ∷ disbursement_rows ds)
        × (key_rows (reserve_and_insert d idem (ds, ks)).1.1 ≡ idem ∷ key_rows ks)
        × (any (has_key idem.key) (key_rows ks) ≡ false)
  unfolding reserve_and_insert
  reserve_and_insert-ok d idem ds ks h = elim (Result-cases (g.idempotency_keys.create idem ks).0) [
    | inl (tt, e) ↦ rw e (
      disbursement_table.create_ok d ds (rw e at h),
      key_table.create_ok idem ks e,
      db.key_fresh idem ks e,
    )
    | inr (e, p) ↦ let q : err _ ≡ ok tt = rw p at h in cc
  ]

  -- The transaction writes both rows, the key being free, or neither.
  abbrev pub WritesBoth :
      Disbursement → IdempotencyKey → Result (Unit {0}) → World g → World g → Type 0
  WritesBoth d idem (ok _) w w' =
      (rows w' ≡ d ∷ rows w) × (keys w' ≡ idem ∷ keys w) × (any (has_key idem.key) (keys w) ≡ false)
  WritesBoth d idem (err _) w w' = (rows w' ≡ rows w) × (keys w' ≡ keys w)

  pub create_with_idempotency-WritesBoth :
      (d : Disbursement) (idem : IdempotencyKey) (w : World g)
      → WritesBoth d idem
          (create_with_idempotency d idem w).0
          w
          (create_with_idempotency d idem w).1
  unfolding create_with_idempotency
  create_with_idempotency-WritesBoth d idem w =
      go (db.transaction_ends (reserve_and_insert d idem) (w.disbursements, w.idempotency_keys))
    where
      go :
          TxOutcome
            (λ a b. (disbursement_rows a.0 ≡ disbursement_rows b.0) × (key_rows a.1 ≡ key_rows b.1))
            (w.disbursements, w.idempotency_keys)
            (reserve_and_insert d idem (w.disbursements, w.idempotency_keys))
            (g.transaction (reserve_and_insert d idem) (w.disbursements, w.idempotency_keys))
          → WritesBoth d idem
              (create_with_idempotency d idem w).0
              w
              (create_with_idempotency d idem w).1
      go (committed b r (p, q)) =
          let (x, y, fresh) = reserve_and_insert-ok d idem w.disbursements w.idempotency_keys b in
          rw r (sym p ∙ x, sym q ∙ y, fresh)
      go (rolled_back e b r (p, q)) = rw r (sym p, sym q)
      go (aborted e r n (p, q)) = rw r (sym p, sym q)

  pub rows-find_by_id : (id : String) (w : World g) → rows (find_by_id id w).1 ≡ rows w
  unfolding find_by_id
  rows-find_by_id id w = disbursement_table.first_rows (has_id id) w.disbursements

  pub rows-find_idempotency_key :
      (key : String) (w : World g) → rows (find_idempotency_key key w).1 ≡ rows w
  unfolding find_idempotency_key
  rows-find_idempotency_key key w = refl

  pub rows-delete_idempotency_key :
      (key : String) (w : World g) → rows (delete_idempotency_key key w).1 ≡ rows w
  unfolding delete_idempotency_key
  rows-delete_idempotency_key key w = refl

  pub keys-find_idempotency_key :
      (key : String) (w : World g) → keys (find_idempotency_key key w).1 ≡ keys w
  unfolding find_idempotency_key
  keys-find_idempotency_key key w = key_table.first_rows (has_key key) w.idempotency_keys

  -- A found reservation has the key that was asked for, and is in the table.
  pub find_idempotency_key-ok :
      (key : String) (w : World g) (k : IdempotencyKey)
      → (find_idempotency_key key w).0 ≡ ok k
      → (has_key key k ≡ true) × Some (λ x. x ≡ k) (keys w)
  unfolding find_idempotency_key
  find_idempotency_key-ok key w k h =
      elim (Result-cases (g.idempotency_keys.first (has_key key) w.idempotency_keys).0) [
        | inl (k', e) ↦
            let q : ok k' ≡ ok k = rw e at h in
            let (live, has, stored) =
              key_table.first_ok (has_key key) w.idempotency_keys k (cc (q, e)) in
            (has, stored)
        | inr (e, p) ↦ let q : err _ ≡ ok k = rw p at h in cc
      ]

  -- `DELETE` of a key removes its rows, or nothing if it fails.
  abbrev pub Removes : String → Result ℕ → List IdempotencyKey → List IdempotencyKey → Type 0
  Removes key (ok n) old new = new ≡ keep_if (λ k. not (has_key key k)) old
  Removes key (err e) old new = new ≡ old

  pub delete_idempotency_key-Removes :
      (key : String) (w : World g)
      → Removes key
          (delete_idempotency_key key w).0
          (keys w)
          (keys (delete_idempotency_key key w).1)
  unfolding delete_idempotency_key
  delete_idempotency_key-Removes key w =
      elim (Result-cases (g.idempotency_keys.delete (has_key key) w.idempotency_keys).0) [
        | inl (n, e) ↦ rw e (db.key_delete.delete_ok _ _ n e)
        | inr (e, p) ↦ rw p (key_table.delete_err _ _ e p)
      ]

  -- A found row is live, has the id that was asked for, and is in the table.
  pub find_by_id-ok :
      (id : String) (w : World g) (d : Disbursement)
      → (find_by_id id w).0 ≡ ok d
      → (is_live d ≡ true) × (has_id id d ≡ true) × Some (λ x. x ≡ d) (rows w)
  unfolding find_by_id
  find_by_id-ok id w d h =
      elim (Result-cases (g.disbursements.first (has_id id) w.disbursements).0) [
        | inl (d', e) ↦
            let q : ok d' ≡ ok d = rw e at h in
            disbursement_table.first_ok (has_id id) w.disbursements d (cc (q, e))
        | inr (e, p) ↦ let q : err _ ≡ ok d = rw p at h in cc
      ]

  -- What a statement with `id = ? AND status = 'PENDING'` does, for the rewriting `f`.
  abbrev pub RewritesPending :
      String
      → (Disbursement → Disbursement)
      → Result ℕ
      → List Disbursement
      → List Disbursement
      → Type 0
  RewritesPending id f (ok n) old new = new ≡ rewrite_if (both is_live (has_id_pending id)) f old
  RewritesPending id f (err _) old new = new ≡ old

  pub update_status-RewritesPending :
      (id status note actor : String) (w : World g)
      → RewritesPending id
          (set_status status note actor (g.time_now w.host).0)
          (update_status id status note actor w).0
          (rows w)
          (rows (update_status id status note actor w).1)
  unfolding update_status
  update_status-RewritesPending id status note actor w =
      let f = set_status status note actor (g.time_now w.host).0 in
      elim (Result-cases (g.disbursements.updates (has_id_pending id) f w.disbursements).0) [
        | inl (n, e) ↦ rw e (disbursement_table.updates_ok _ _ _ n e)
        | inr (e, p) ↦ rw p (disbursement_table.updates_err _ _ _ e p)
      ]

  pub soft_delete-RewritesPending :
      (id : String) (w : World g)
      → (at : Time) × RewritesPending id
          (mark_deleted at)
          (soft_delete id w).0
          (rows w)
          (rows (soft_delete id w).1)
  unfolding soft_delete
  soft_delete-RewritesPending id w =
      elim (Result-cases (g.disbursements.delete (has_id_pending id) w.disbursements).0) [
        | inl (n, e) ↦ let (at, r, _) = db.disbursement_delete.delete_ok _ _ n e in (at, rw e r)
        | inr (e, p) ↦ ((g.time_now w.host).0, rw p (disbursement_table.delete_err _ _ e p))
      ]

  -- The statement reports how many rows it selected, if its rewriting changes every such row.
  pub update_status-count :
      (id status note actor : String) (w : World g) (n : ℕ)
      → (update_status id status note actor w).0 ≡ ok n
      → ((at : Time) (r : Disbursement)
          → has_id_pending id r ≡ true
          → set_status status note actor at r ≢ r)
      → n ≡ count_if (both is_live (has_id_pending id)) (rows w)
  unfolding update_status
  update_status-count id status note actor w n e changes =
      disbursement_table.updates_count _ _ _ n e (changes (g.time_now w.host).0)

  pub soft_delete-count :
      (id : String) (w : World g) (n : ℕ)
      → (soft_delete id w).0 ≡ ok n
      → n ≡ count_if (both is_live (has_id_pending id)) (rows w)
  unfolding soft_delete
  soft_delete-count id w n e = (db.disbursement_delete.delete_ok _ _ n e).2
