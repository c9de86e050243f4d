-- ===== src/Usecase/Disbursements/Create/Renewed.antt =====
-- `Create` with a key that is new or expired succeeds.
use test_lintaspay_backend.Common.{
  ℕ, suc, String, ◌≡◌, refl, ap, ◌∙◌, ◌==◌, Bool, true, false, not, List, [], ◌∷◌, any, ltb_ℤ,
  Bool-cases, inl, inr, keep_if, none, some, not_any, ◌&&◌,
}
use test_lintaspay_backend.Errors.{sentinel, idempotency_key_exists, errors_is}
use test_lintaspay_backend.Reqctx.{Context}
use test_lintaspay_backend.Entity.{Time, Disbursement, IdempotencyKey, CreateDisbursementRequest}
use test_lintaspay_backend.External.{Services, ok, err, disbursement}
use test_lintaspay_backend.External.Sql.{Database, IsReliable, Admits, fits_disbursement, fits_key}
use test_lintaspay_backend.Monad.{World, M, pure, ◌>>=◌}
use test_lintaspay_backend.Repository.Disbursements as Repo
use test_lintaspay_backend.Repository.Disbursements.{reserve_and_insert, has_key}
use test_lintaspay_backend.Repository.Disbursements.Rows.{
  rows, keys, create_with_idempotency-WritesBoth,
}
use test_lintaspay_backend.Usecase.Disbursements.{write_audit}
use test_lintaspay_backend.Usecase.Disbursements.Audit.{write_audit_lem}
use test_lintaspay_backend.Usecase.Disbursements.Create.{
  after_reservation, renew_expired, create_rounds, create, idempotency_row,
}
use test_lintaspay_backend.Usecase.Disbursements.Create.Once.{fresh}
use test_lintaspay_backend.Usecase.Disbursements.Create.Stored.{create_with_idempotency-result}
use test_lintaspay_backend.Usecase.Disbursements.Create.Replay.{
  taken_by_any, ticked, create-eq-rounds,
}

any-keep_none :
    {A : Type 0} (p : A → Bool) (xs : List A) → any p (keep_if (λ x. not (p x)) xs) ≡ false
any-keep_none p [] = refl
any-keep_none p (x ∷ xs) = elim (Bool-cases (p x)) [
  | inl y ↦ rw y (any-keep_none p xs)
  | inr n ↦ rw (n, n) (any-keep_none p xs)
]

over : (b : Bool) → not b ≡ false → b ≡ true
over true h = refl
over false h = cc

module _ ⦃g : Services⦄ ⦃db : Database g⦄ where
  -- No row with this id, and no stored key with this one.
  abbrev pub Unused : String → World g → Type 0
  Unused id w = any (λ d. g.sql_eq d.id id) (rows w) ≡ false

  abbrev pub Unstored : String → World g → Type 0
  Unstored key w = any (has_key key) (keys w) ≡ false

  -- No stored row under the key is good for longer than this time.
  abbrev pub Free : String → Time → World g → Type 0
  Free key at w = any (λ k. has_key key k && not (ltb_ℤ k.expires_at at)) (keys w) ≡ false

  -- Where the id and the key are free, the transaction goes through.
  abbrev pub Reserves : Disbursement → IdempotencyKey → Type 0
  Reserves d idem =
      (w : World g)
      → Unused d.id w
      → Unstored idem.key w
      → (Repo.create_with_idempotency d idem w).0 ≡ ok tt

  abbrev pub Deletes : Type 0
  Deletes =
      (p : IdempotencyKey → Bool) (s : g.idempotency_keys.State)
      → (n : ℕ) × ((g.idempotency_keys.delete p s).0 ≡ ok n)

  -- Where each of its two insertions goes through.
  pub both_inserted :
      IsReliable g db
      → (d : Disbursement) (idem : IdempotencyKey) (w : World g)
      → (g.idempotency_keys.create idem w.idempotency_keys).0 ≡ ok tt
      → (g.disbursements.create d w.disbursements).0 ≡ ok tt
      → (Repo.create_with_idempotency d idem w).0 ≡ ok tt
  unfolding reserve_and_insert
  both_inserted reliable d idem w k r = create_with_idempotency-result reliable d idem w ∙ rw k r

  audited :
      (ctx : Context) (d : Disbursement) (w : World g)
      → let m : M (Disbursement × Bool) =
          write_audit ctx d.id "created" none (some (disbursement d)) >>= (λ _. pure (d, false)) in
        (m w).0 ≡ ok (d, false)
  audited ctx d w =
      let (r, _) = write_audit_lem ctx d.id "created" none (some (disbursement d)) w in rw r refl

  after_success :
      (ctx : Context) (d : Disbursement) (idem : IdempotencyKey) (at : Time)
      (again : M (Disbursement × Bool)) (w : World g)
      → (after_reservation ctx d idem at again (ok tt) w).0 ≡ ok (d, false)
  unfolding after_reservation
  after_success ctx d idem at again w = audited ctx d w

  rounds_new :
      (n : ℕ) (ctx : Context) (d : Disbursement) (idem : IdempotencyKey) (at : Time) (w : World g)
      → Reserves d idem
      → Unused d.id w
      → Unstored idem.key w
      → (create_rounds (suc n) ctx d idem at w).0 ≡ ok (d, false)
  unfolding create_rounds
  rounds_new n ctx d idem at w reserves id key =
      rw (reserves w id key) (after_success ctx d idem at (create_rounds n ctx d idem at) _)

  -- The clean-up deletes whatever stands under the key, so the next round is a first one.
  pub renewed :
      (n : ℕ) (ctx : Context) (d : Disbursement) (idem : IdempotencyKey) (at : Time) (w : World g)
      → Deletes
      → Reserves d idem
      → Unused d.id w
      → (renew_expired idem (create_rounds (suc n) ctx d idem at) w).0 ≡ ok (d, false)
  unfolding renew_expired Repo.delete_idempotency_key
  renewed n ctx d idem at w deletes reserves id =
      let (k, e) = deletes (has_key idem.key) w.idempotency_keys in
      let gone = db.key_delete.delete_ok (has_key idem.key) w.idempotency_keys k e in
      rw e (
        rounds_new n ctx d idem at _ reserves id
          (ap (any (has_key idem.key)) gone ∙ any-keep_none (has_key idem.key) (keys w)))

  -- A taken key whose row has expired leads to the clean-up.
  pub expired :
      (ctx : Context) (d : Disbursement) (idem existing : IdempotencyKey) (at : Time)
      (again : M (Disbursement × Bool)) (w : World g)
      → (Repo.find_idempotency_key idem.key w).0 ≡ ok existing
      → ltb_ℤ existing.expires_at at ≡ true
      → after_reservation ctx d idem at again (err (sentinel idempotency_key_exists)) w
        ≡ renew_expired idem again (Repo.find_idempotency_key idem.key w).1
  unfolding after_reservation errors_is
  expired ctx d idem existing at again w found over = rw (found, over) refl

  -- What is found under a key that is free has expired.
  found_expired :
      IsReliable g db
      → (key : String) (at : Time) (w : World g) → any (has_key key) (keys w) ≡ true
      → Free key at w
      → (k : IdempotencyKey) × ((Repo.find_idempotency_key key w).0 ≡ ok k)
        × (ltb_ℤ k.expires_at at ≡ true)
  unfolding Repo.find_idempotency_key
  found_expired reliable key at w present free =
      let (k, first) = reliable.key_found (has_key key) w.idempotency_keys present in
      let (_, matches, member) = db.key_table.first_ok _ _ k first in
      let old = not_any _ k (keys w) free member in (k, rw first refl, over _ (rw matches at old))

  rounds_renewed :
      IsReliable g db
      → Deletes
      → (ctx : Context) (d : Disbursement) (idem : IdempotencyKey) (at : Time) (w : World g)
      → any (has_key idem.key) (keys w) ≡ true
      → Free idem.key at w
      → Reserves d idem
      → Unused d.id w
      → (create_rounds 2 ctx d idem at w).0 ≡ ok (d, false)
  unfolding create_rounds Repo.find_idempotency_key
  rounds_renewed reliable deletes ctx d idem at w present free reserves id =
      let t = taken_by_any reliable d idem w present in
      let w' = (Repo.create_with_idempotency d idem w).1 in
      let kept = create_with_idempotency-WritesBoth d idem w in
      let same : (rows w' ≡ rows w) × (keys w' ≡ keys w) = rw t at kept in
      let (k, found, expiry) =
        found_expired reliable idem.key at w' (ap (any (has_key idem.key)) same.1 ∙ present)
          (ap (any _) same.1 ∙ free) in
      rw t (
        ap (λ r. r.0) (expired ctx d idem k at (create_rounds 1 ctx d idem at) w' found expiry)
        ∙ renewed 0 ctx d idem at (Repo.find_idempotency_key idem.key w').1 deletes reserves
            (ap (any (λ x. g.sql_eq x.id d.id)) same.0 ∙ id))

  -- The loop of `Create`, from where the key is valid.
  pub rounds_succeed :
      IsReliable g db
      → Deletes
      → (ctx : Context) (req : CreateDisbursementRequest) (key : String) (w : World g)
      → (key == "") ≡ false
      → g.uuid_parse key ≡ true
      → Unused (fresh ctx req w).id w
      → Free key (g.time_now w.host).0 w
      → ((body : String)
          → g.json_marshal (disbursement (fresh ctx req w)) ≡ ok body
          → Reserves (fresh ctx req w) (idempotency_row ctx req key (g.time_now w.host).0 body))
      → (create ctx req key w).0 ≡ ok (fresh ctx req w, false)
  rounds_succeed reliable deletes ctx req key w nonempty valid id free reserves =
      let d = fresh ctx req w in
      let at = (g.time_now w.host).0 in
      let (body, m) = reliable.json_total (disbursement d) in
      let idem = idempotency_row ctx req key at body in
      ap (λ r. r.0) (create-eq-rounds reliable ctx req key w body nonempty valid m)
      ∙ elim (Bool-cases (any (has_key key) (keys w))) [
        | inl y ↦
            rounds_renewed reliable deletes ctx d idem at (ticked reliable ctx req key w) y free
              (reserves body m) id
        | inr n ↦ rounds_new 1 ctx d idem at (ticked reliable ctx req key w) (reserves body m) id n
      ]

  -- On a database that answers and that inserts what its schema lets in: `Create` with a valid key
  -- under which nothing, or nothing unexpired, is stored, with an id that no row has, and with a row
  -- and a reservation that the schema lets in, returns the new disbursement; the two rounds of its
  -- loop are enough, and no caller is asked to retry.
  pub create-succeeds :
      IsReliable g db
      → Admits g db
      → (ctx : Context) (req : CreateDisbursementRequest) (key : String) (w : World g)
      → (key == "") ≡ false
      → g.uuid_parse key ≡ true
      → Unused (fresh ctx req w).id w
      → Free key (g.time_now w.host).0 w
      → fits_disbursement (fresh ctx req w) ≡ true
      → fits_key (idempotency_row ctx req key (g.time_now w.host).0 "") ≡ true
      → (create ctx req key w).0 ≡ ok (fresh ctx req w, false)
  unfolding fits_key
  create-succeeds reliable admits ctx req key w nonempty valid id free row_fits key_fits =
      rounds_succeed reliable admits.deletion_runs ctx req key w nonempty valid id free
        (λ body m w' unused unstored.
          both_inserted reliable _ _ w' (admits.key_admitted _ _ _ key_fits m unstored)
            (admits.disbursement_admitted _ _ row_fits unused))
