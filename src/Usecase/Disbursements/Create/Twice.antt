-- ===== src/Usecase/Disbursements/Create/Twice.antt =====
-- What two requests can do to one idempotency key that has expired.
use test_lintaspay_backend.Common.{
  ◌≡◌, ap, subst, ◌∙◌, ◌==◌, Bool, true, false, not, List, ◌∷◌, any, ltb_ℤ, ◌&&◌,
}
use test_lintaspay_backend.Errors.{sentinel, idempotency_key_exists}
use test_lintaspay_backend.Reqctx.{Context}
use test_lintaspay_backend.Entity.{Time, Disbursement, IdempotencyKey, CreateDisbursementRequest}
use test_lintaspay_backend.External.{Services, Result, ok, err}
use test_lintaspay_backend.External.Sql.{Database, IsReliable, IsAvailable}
use test_lintaspay_backend.Monad.{World}
use test_lintaspay_backend.Repository.Disbursements as Repo
use test_lintaspay_backend.Repository.Disbursements.{reserve_and_insert, has_key}
use test_lintaspay_backend.Repository.Disbursements.Rows.{rows, keys}
use test_lintaspay_backend.Usecase.Disbursements.Create.{
  after_reservation, renew_expired, create_rounds, create,
}
use test_lintaspay_backend.Usecase.Disbursements.Create.Once.{fresh}
use test_lintaspay_backend.Usecase.Disbursements.Create.Once.{
  CreatedOnce, create-CreatedOnce, renew_expired-CreatedOnce,
}
use test_lintaspay_backend.Usecase.Disbursements.Create.Renewed.{
  Unused, Free, Reserves, both_inserted, renewed, expired, rounds_succeed,
}

inserted :
    (r : Result (Disbursement × Bool)) (d : Disbursement) (old new : List Disbursement)
    → r ≡ ok (d, false)
    → CreatedOnce d r old new
    → new ≡ d ∷ old
inserted r d old new e h =
    let found : CreatedOnce d (ok (d, false)) old new = subst (λ x. CreatedOnce d x old new) e h in
    found.1

module _ ⦃g : Services⦄ ⦃db : Database g⦄ (reliable : IsReliable g db)
    (available : IsAvailable g db) where
  reserved : (d : Disbursement) (idem : IdempotencyKey) → Reserves d idem
  reserved d idem w id key =
      both_inserted reliable d idem w (available.key_insert idem w.idempotency_keys key)
        (available.disbursement_insert d w.disbursements id)

  -- On an ideal database, which answers and inserts every row whose key is free, where one key has
  -- expired for two requests: the first reads the expired row,
  -- then the second runs to its end and stores the key afresh, then the first goes on with its
  -- clean-up, at any state with the rows that the second left. Both return a new disbursement for
  -- the one key, neither a replay, and the table has both rows.
  pub expired_key-used_twice :
      (ctx ctx' : Context) (req' : CreateDisbursementRequest) (d : Disbursement)
      (idem existing : IdempotencyKey) (at : Time) (w w' w'' : World g)
      → (Repo.find_idempotency_key idem.key w).0 ≡ ok existing
      → ltb_ℤ existing.expires_at at ≡ true
      → (idem.key == "") ≡ false
      → g.uuid_parse idem.key ≡ true
      → keys w' ≡ keys w
      → Free idem.key (g.time_now w'.host).0 w
      → Unused (fresh ctx' req' w').id w'
      → rows w'' ≡ rows (create ctx' req' idem.key w').1
      → Unused d.id w''
      → let rest = renew_expired idem (create_rounds 1 ctx d idem at) in
        (after_reservation ctx d idem at
            (create_rounds 1 ctx d idem at)
            (err (sentinel idempotency_key_exists))
            w
          ≡ rest (Repo.find_idempotency_key idem.key w).1)
        × ((create ctx' req' idem.key w').0 ≡ ok (fresh ctx' req' w', false))
        × ((rest w'').0 ≡ ok (d, false))
        × (rows (rest w'').1 ≡ d ∷ fresh ctx' req' w' ∷ rows w')
  expired_key-used_twice ctx ctx' req' d idem existing at w w' w'' found expiry nonempty valid same
        free id' after id =
      let key = idem.key in
      let mine = renewed 0 ctx d idem at w'' available.key_deletion (reserved d idem) id in
      let other =
        rounds_succeed reliable available.key_deletion ctx' req' key w' nonempty valid id'
          (ap (any (λ k. has_key key k && not (ltb_ℤ k.expires_at (g.time_now w'.host).0))) same
            ∙ free)
          (λ body m. reserved _ _) in
      let before =
        inserted (create ctx' req' key w').0 _ _ _ other (create-CreatedOnce ctx' req' key w') in
      let both = inserted _ _ _ _ mine (renew_expired-CreatedOnce 1 ctx d idem at w'') in
      (
        expired ctx d idem existing at (create_rounds 1 ctx d idem at) w found expiry,
        other,
        mine,
        both ∙ ap (λ l. d ∷ l) (after ∙ before),
      )
