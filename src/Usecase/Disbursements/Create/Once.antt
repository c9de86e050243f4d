-- ===== src/Usecase/Disbursements/Create/Once.antt =====
-- `Create` inserts one row or none, as its result says.
use test_lintaspay_backend.Common.{
  ℕ, zero, suc, String, ◌≡◌, refl, ap, ◌∙◌, none, some, not, ◌==◌, Bool, true, false, List, ◌∷◌,
  Option, if◌then◌else◌,
}
use test_lintaspay_backend.Errors.{GoError}
use test_lintaspay_backend.Reqctx.{Context, username}
use test_lintaspay_backend.Entity.{Time, Disbursement, IdempotencyKey, CreateDisbursementRequest}
use test_lintaspay_backend.External.{Result, ok, err, Services, Marshalled, disbursement}
use test_lintaspay_backend.External.Sql.{Database}
use test_lintaspay_backend.Monad.{World, M, pure, continue, ◌>>=◌, on_error, from_result, log}
use test_lintaspay_backend.Repository.Disbursements as Repo
use test_lintaspay_backend.Repository.Disbursements.Rows.{
  rows, Inserts, create-Inserts, WritesBoth, create_with_idempotency-WritesBoth,
}
use test_lintaspay_backend.Usecase.Disbursements.{new_disbursement, write_audit, internal_with}
use test_lintaspay_backend.Usecase.Disbursements.Audit.{write_audit_lem}
use test_lintaspay_backend.Usecase.Disbursements.Create.{
  after_reservation, renew_expired, create_rounds, create, plain_create, keyed_create,
}

-- What a result says of the rows: `(d, false)` is the new row `d₀`, in front of the old ones; a
-- replay, `(d, true)`, and an error leave the rows as they were.
abbrev pub CreatedOnce :
    Disbursement → Result (Disbursement × Bool) → List Disbursement → List Disbursement → Type 0
CreatedOnce d₀ (ok (d, false)) old new = (d ≡ d₀) × (new ≡ d₀ ∷ old)
CreatedOnce d₀ (ok (d, true)) old new = new ≡ old
CreatedOnce d₀ (err e) old new = new ≡ old

module _ ⦃g : Services⦄ ⦃db : Database g⦄ where
  record Creates (d₀ : Disbursement) (m : M (Disbursement × Bool)) : Type 0 where
    at : (w : World g) → CreatedOnce d₀ (m w).0 (rows w) (rows (m w).1)

  record Still {A : Type 0} (m : M A) : Type 0 where
    at : (w : World g) → rows (m w).1 ≡ rows w

  Creates-err : (d₀ : Disbursement) (e : GoError) → Creates d₀ (λ w. (err e, w))
  Creates-err d₀ e = record { at = λ w. refl }

  Creates-replay : (d₀ d : Disbursement) → Creates d₀ (pure (d, true))
  Creates-replay d₀ d = record { at = λ w. refl }

  module _ (d₀ : Disbursement) where
    continue-Creates :
        {A : Type 0} (f : A → M (Disbursement × Bool)) (k : (a : A) → Creates d₀ (f a))
        (old : List Disbursement) (r : Result A) (w : World g)
        → rows w ≡ old
        → CreatedOnce d₀ (continue f (r, w)).0 old (rows (continue f (r, w)).1)
    continue-Creates f k old (ok a) w e = rw (← e) ((k a).at w)
    continue-Creates f k old (err x) w e = e

    Creates-bind :
        {A : Type 0} (m : M A) (f : A → M (Disbursement × Bool))
        → Still m
        → ((a : A) → Creates d₀ (f a))
        → Creates d₀ (m >>= f)
    Creates-bind m f s k = record {
      at = λ w. continue-Creates f k (rows w) (m w).0 (m w).1 (s.at w);
    }

    Creates-if :
        (b : Bool) (m n : M (Disbursement × Bool))
        → Creates d₀ m
        → Creates d₀ n
        → Creates d₀ (if b then m else n)
    Creates-if true m n p q = p
    Creates-if false m n p q = q

    -- The audit entry after a successful insertion.
    audited :
        (ctx : Context) (id action : String) (before after : Option Marshalled)
        (old : List Disbursement) (w : World g)
        → rows w ≡ d₀ ∷ old
        → let m : M (Disbursement × Bool) =
            write_audit ctx id action before after >>= (λ _. pure (d₀, false)) in
          CreatedOnce d₀ (m w).0 old (rows (m w).1)
    audited ctx id action before after old w e =
        let (r, s) = write_audit_lem ctx id action before after w in
        rw r (refl, ap db.disbursement_rows s.disbursements ∙ e)

  Still-on_error : {A : Type 0} (f : GoError → GoError) (m : M A) → Still m → Still (on_error f m)
  Still-on_error f m s = record { at = s.at }

  Still-from_result : {A : Type 0} (r : Result A) → Still (from_result r)
  Still-from_result r = record { at = λ w. refl }

  Still-log : (message : String) → Still (log message)
  Still-log message = record { at = λ w. refl }

  Still-find_idempotency_key : (key : String) → Still (Repo.find_idempotency_key key)
  unfolding Repo.find_idempotency_key
  Still-find_idempotency_key key = record { at = λ w. refl }

  Still-delete_idempotency_key : (key : String) → Still (Repo.delete_idempotency_key key)
  unfolding Repo.delete_idempotency_key
  Still-delete_idempotency_key key = record { at = λ w. refl }

  ruleset creates_rules = (
    Creates-err, Creates-replay, Creates-bind, Creates-if, Still-on_error, Still-from_result,
    Still-log, Still-find_idempotency_key, Still-delete_idempotency_key,
  )

  -- A round that has not inserted anything.
  Creates-after_reservation :
      (ctx : Context) (d : Disbursement) (idem : IdempotencyKey) (at : Time)
      (again : M (Disbursement × Bool)) (e : GoError)
      → Creates d again
      → Creates d (after_reservation ctx d idem at again (err e))
  unfolding after_reservation
  Creates-after_reservation ctx d idem at again e h = search creates_rules depth 20

  reserved :
      (ctx : Context) (d : Disbursement) (idem : IdempotencyKey) (at : Time)
      (again : M (Disbursement × Bool)) (w : World g) (r : Result (Unit {0})) (w' : World g)
      → Creates d again
      → WritesBoth d idem r w w'
      → let m = after_reservation ctx d idem at again r in
        CreatedOnce d (m w').0 (rows w) (rows (m w').1)
  unfolding after_reservation
  reserved ctx d idem at again w (ok _) w' k h =
      audited d ctx d.id "created" none (some (disbursement d)) (rows w) w' h.0
  reserved ctx d idem at again w (err e) w' k h =
      rw (← h.0) ((Creates-after_reservation ctx d idem at again e k).at w')

  Creates-create_rounds :
      (n : ℕ) (ctx : Context) (d : Disbursement) (idem : IdempotencyKey) (at : Time)
      → Creates d (create_rounds n ctx d idem at)
  unfolding create_rounds
  Creates-create_rounds zero ctx d idem at = Creates-err d _
  Creates-create_rounds (suc n) ctx d idem at = record {
    at = λ w.
        reserved ctx d idem at (create_rounds n ctx d idem at) w _ _
          (Creates-create_rounds n ctx d idem at) (create_with_idempotency-WritesBoth d idem w);
  }

  -- The clean-up of an expired key, and the rounds after it.
  Creates-renew_expired :
      (n : ℕ) (ctx : Context) (d : Disbursement) (idem : IdempotencyKey) (at : Time)
      → Creates d (renew_expired idem (create_rounds n ctx d idem at))
  unfolding renew_expired
  Creates-renew_expired n ctx d idem at =
      Creates-bind d _ _ (Still-on_error _ _ (Still-delete_idempotency_key idem.key))
        (λ _. Creates-create_rounds n ctx d idem at)

  pub renew_expired-CreatedOnce :
      (n : ℕ) (ctx : Context) (d : Disbursement) (idem : IdempotencyKey) (at : Time) (w : World g)
      → CreatedOnce d
          (renew_expired idem (create_rounds n ctx d idem at) w).0
          (rows w)
          (rows (renew_expired idem (create_rounds n ctx d idem at) w).1)
  renew_expired-CreatedOnce n ctx d idem at w = (Creates-renew_expired n ctx d idem at).at w

  inserted_plain :
      (ctx : Context) (d : Disbursement) (w : World g) (r : Result (Unit {0})) (w' : World g)
      → Inserts d r (rows w) (rows w')
      → let m : M (Disbursement × Bool) =
          on_error (internal_with "failed to create disbursement") (λ _. (r, w')) >>= (λ _.
            write_audit ctx d.id "created" none (some (disbursement d))
            >>= (λ _. pure (d, false))) in
        CreatedOnce d (m w).0 (rows w) (rows (m w).1)
  inserted_plain ctx d w (ok _) w' h = audited d ctx _ _ _ _ (rows w) w' h
  inserted_plain ctx d w (err e) w' h = h

  Creates-plain : (ctx : Context) (d : Disbursement) → Creates d (plain_create ctx d)
  Creates-plain ctx d = record { at = λ w. inserted_plain ctx d w _ _ (create-Inserts d w) }

  Creates-keyed :
      (ctx : Context) (req : CreateDisbursementRequest) (key : String) (at : Time)
      (d : Disbursement)
      → Creates d (keyed_create ctx req key at d)
  Creates-keyed ctx req key at d =
      Creates-bind d _ _ (Still-on_error _ _ (Still-from_result _))
        (λ b. Creates-create_rounds 2 ctx d _ at)

  -- The row that `Create` would insert in a world.
  abbrev pub fresh : Context → CreateDisbursementRequest → World g → Disbursement
  fresh ctx req w =
      new_disbursement (username ctx) (g.time_now w.host).0 (g.new_uuid (g.time_now w.host).1).0 req

  -- For every request, key and state, and whatever the services answer: if `Create` returns a new
  -- disbursement, it is the PENDING one made of the request, the caller, the clock and a fresh
  -- UUID, and exactly that row was inserted; if it returns a replay or an error, no row was
  -- inserted and none was changed.
  pub create-CreatedOnce :
      (ctx : Context) (req : CreateDisbursementRequest) (key : String) (w : World g)
      → CreatedOnce
          (fresh ctx req w)
          (create ctx req key w).0
          (rows w)
          (rows (create ctx req key w).1)
  unfolding create
  create-CreatedOnce ctx req key w =
      let d = fresh ctx req w in
      (Creates-if d (key == "") _ _ (Creates-plain ctx d) (
          Creates-if d (not (g.uuid_parse key)) _ _ (Creates-err d _)
            (Creates-keyed ctx req key (g.time_now w.host).0 d))).at
        _
