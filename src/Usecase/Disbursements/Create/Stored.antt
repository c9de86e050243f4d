-- ===== src/Usecase/Disbursements/Create/Stored.antt =====
-- What the keyed creation of a disbursement leaves in the table of idempotency keys.
use test_lintaspay_backend.Common.{
  ℕ, zero, suc, ◌≡◌, refl, ap, ◌∙◌, none, some, Bool, true, false, List, ◌∷◌, if◌then◌else◌, any,
}
use test_lintaspay_backend.Errors.{GoError}
use test_lintaspay_backend.Reqctx.{Context}
use test_lintaspay_backend.Entity.{Time, Disbursement, IdempotencyKey}
use test_lintaspay_backend.External.{Result, ok, err, Services, disbursement}
use test_lintaspay_backend.External.Sql.{Database, IsReliable}
use test_lintaspay_backend.Monad.{World, M, pure, continue, ◌>>=◌}
use test_lintaspay_backend.Repository.Disbursements as Repo
use test_lintaspay_backend.Repository.Disbursements.{reserve_and_insert, has_key}
use test_lintaspay_backend.Repository.Disbursements.Rows.{
  keys, WritesBoth, create_with_idempotency-WritesBoth,
}
use test_lintaspay_backend.Usecase.Disbursements.{write_audit}
use test_lintaspay_backend.Usecase.Disbursements.Audit.{write_audit_lem}
use test_lintaspay_backend.Usecase.Disbursements.Create.{after_reservation, create_rounds}

module _ ⦃g : Services⦄ ⦃db : Database g⦄ (reliable : IsReliable g db) where
  -- The row in front of the others, which have another key.
  abbrev pub Front : IdempotencyKey → List IdempotencyKey → Type 0
  Front row ks =
      (old : List IdempotencyKey) × (ks ≡ row ∷ old) × (any (has_key row.key) old ≡ false)

  abbrev pub Stored :
      Disbursement → IdempotencyKey → Result (Disbursement × Bool) → List IdempotencyKey → Type 0
  Stored d row (ok (d', false)) ks = (d' ≡ d) × Front row ks
  Stored d row (ok (d', true)) ks = Unit
  Stored d row (err e) ks = Unit

  pub record Stores (d : Disbursement) (row : IdempotencyKey) (m : M (Disbursement × Bool))
      : Type 0 where
    pub at : (w : World g) → Stored d row (m w).0 (keys (m w).1)

  module _ (d : Disbursement) (row : IdempotencyKey) where
    continue-Stores :
        {A : Type 0} (f : A → M (Disbursement × Bool)) (k : (a : A) → Stores d row (f a))
        (r : Result A) (w : World g)
        → Stored d row (continue f (r, w)).0 (keys (continue f (r, w)).1)
    continue-Stores f k (ok a) w = (k a).at w
    continue-Stores f k (err e) w = tt

    Stores-bind :
        {A : Type 0} (m : M A) (f : A → M (Disbursement × Bool))
        → ((a : A) → Stores d row (f a))
        → Stores d row (m >>= f)
    Stores-bind m f k = record { at = λ w. continue-Stores f k (m w).0 (m w).1 }

    Stores-err : (e : GoError) → Stores d row (λ w. (err e, w))
    Stores-err e = record { at = λ w. tt }

    Stores-replay : (d' : Disbursement) → Stores d row (pure (d', true))
    Stores-replay d' = record { at = λ w. tt }

    Stores-if :
        (b : Bool) (m n : M (Disbursement × Bool))
        → Stores d row m
        → Stores d row n
        → Stores d row (if b then m else n)
    Stores-if true m n p q = p
    Stores-if false m n p q = q

    audited :
        (ctx : Context) (w : World g)
        → Front row (keys w)
        → let m : M (Disbursement × Bool) =
            write_audit ctx d.id "created" none (some (disbursement d))
            >>= (λ _. pure (d, false)) in
          Stored d row (m w).0 (keys (m w).1)
    audited ctx w (old, e, f) =
        let (r, s) = write_audit_lem ctx d.id "created" none (some (disbursement d)) w in
        rw r (refl, (old, ap db.key_rows s.idempotency_keys ∙ e, f))

    ruleset stores_rules = (Stores-err, Stores-replay, Stores-bind, Stores-if)

    Stores-after_reservation :
        (ctx : Context) (at : Time) (again : M (Disbursement × Bool)) (e : GoError)
        → Stores d row again
        → Stores d row (after_reservation ctx d row at again (err e))
    unfolding after_reservation
    Stores-after_reservation ctx at again e h = search stores_rules depth 20

    pub create_with_idempotency-result :
        (w : World g)
        → (Repo.create_with_idempotency d row w).0
          ≡ (reserve_and_insert d row (w.disbursements, w.idempotency_keys)).0
    unfolding Repo.create_with_idempotency
    create_with_idempotency-result w = reliable.transaction_result (reserve_and_insert d row) _

    reserved :
        (ctx : Context) (at : Time) (again : M (Disbursement × Bool)) (w : World g)
        (r : Result (Unit {0})) (w' : World g)
        → Stores d row again
        → WritesBoth d row r w w'
        → let m = after_reservation ctx d row at again r in Stored d row (m w').0 (keys (m w').1)
    unfolding after_reservation
    reserved ctx at again w (ok _) w' k h = audited ctx w' (keys w, h.1, h.2)
    reserved ctx at again w (err x) w' k h = (Stores-after_reservation ctx at again x k).at w'

    pub Stores-create_rounds :
        (n : ℕ) (ctx : Context) (at : Time) → Stores d row (create_rounds n ctx d row at)
    unfolding create_rounds
    Stores-create_rounds zero ctx at = Stores-err _
    Stores-create_rounds (suc n) ctx at = record {
      at = λ w.
          reserved ctx at (create_rounds n ctx d row at) w _ _ (Stores-create_rounds n ctx at)
            (create_with_idempotency-WritesBoth d row w);
    }
