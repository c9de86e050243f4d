-- ===== src/Lifecycle/Rules.antt =====
-- How the rows of `disbursements` and `idempotency_keys` move under an action: rules for each way to
-- build an action, and for each method of internal/repository/disbursements.go.
use test_lintaspay_backend.Common.{
  String, ◌≡◌, refl, ap, ap₂, Bool, true, false, Option, List, [], ◌∷◌, ◌++◌, All, Some, inl, inr,
  ltb_ℤ, if◌then◌else◌,
}
use test_lintaspay_backend.Errors.{GoError}
use test_lintaspay_backend.Reqctx.{Context, username}
use test_lintaspay_backend.Entity.{Time, IdempotencyKey, CreateDisbursementRequest}
use test_lintaspay_backend.External.{Result, ok, err, Services, Marshalled, disbursement}
use test_lintaspay_backend.External.Sql.{Database}
use test_lintaspay_backend.Monad.{
  World, M, pure, continue, ◌>>=◌, attempt, on_error, from_result, now, new_uuid, log,
}
use test_lintaspay_backend.Monad.Laws.{Result-cases}
use test_lintaspay_backend.Repository.Disbursements as Repo
use test_lintaspay_backend.Repository.Disbursements.{has_key}
use test_lintaspay_backend.Repository.Disbursements.Rows.{
  keys, create-Inserts, create_with_idempotency-WritesBoth, rows-find_by_id,
  rows-find_idempotency_key, rows-delete_idempotency_key, keys-find_idempotency_key,
  find_idempotency_key-ok, delete_idempotency_key-Removes, update_status-RewritesPending,
  soft_delete-RewritesPending,
}
use test_lintaspay_backend.Usecase.Disbursements.{new_disbursement, write_audit}
use test_lintaspay_backend.Usecase.Disbursements.Audit.{write_audit_lem}
use test_lintaspay_backend.Usecase.Disbursements.Create.{idempotency_row}
use test_lintaspay_backend.Lifecycle.{IsDecision, decided, removed}
use test_lintaspay_backend.Lifecycle.Runs.{
  Event, looked_up, looks_up, start, later, Continues-trans,
}
use test_lintaspay_backend.Lifecycle.Moves.{
  contents, Moves, stays, Inserts-Moves, WritesBoth-Moves, RewritesPending-Moves, Removes-Moves,
}

-- An event that has happened has happened later, too.
Some-later : {A : Type 0} (P : A → Type 0) (xs ys : List A) → Some P ys → Some P (xs ++ ys)
Some-later P [] ys h = h
Some-later P (x ∷ xs) ys h = inr (Some-later P xs ys h)

abbrev pub Happened : List Event → List Event → Type 0
Happened past pre = All (λ e. Some (λ x. x ≡ e) past) pre

Happened-later : (es past pre : List Event) → Happened past pre → Happened (es ++ past) pre
Happened-later es past [] h = tt
Happened-later es past (e ∷ pre) h = (Some-later _ es past h.0, Happened-later es past pre h.1)

module _ ⦃g : Services⦄ ⦃db : Database g⦄ where
  -- `m`, begun when the events `pre` have happened, runs statements alone, whether it succeeds or
  -- fails.
  pub record Advances {A : Type 0} (pre : List Event) (m : M A) : Type 0 where
    pub at :
        (past : List Event)
        → Happened past pre
        → (w : World g) → Moves past (contents w) (contents (m w).1)

  pub Advances-weaken :
      {A : Type 0} (e : Event) (pre : List Event) (m : M A) → Advances pre m → Advances (e ∷ pre) m
  Advances-weaken e pre m h = record { at = λ past p w. h.at past p.1 w }

  module _ {pre : List Event} where
    pub Advances-still :
        {A : Type 0} (m : M A) → ((w : World g) → contents (m w).1 ≡ contents w) → Advances pre m
    Advances-still m e = record { at = λ past p w. stays (e w) }

    pub Advances-pure : {A : Type 0} (a : A) → Advances pre (pure a)
    Advances-pure a = Advances-still _ (λ w. refl)

    pub Advances-err : {A : Type 0} (e : GoError) → Advances {A = A} pre (λ w. (err e, w))
    Advances-err e = Advances-still _ (λ w. refl)

    continue-Moves :
        {A B : Type 0} (f : A → M B)
        → ((a : A) → Advances pre (f a))
        → (past : List Event) → Happened past pre
        → (r : Result A) (w : World g) → Moves past (contents w) (contents (continue f (r, w)).1)
    continue-Moves f k past p (ok a) w = (k a).at past p w
    continue-Moves f k past p (err e) w = ([], start)

    pub Advances-bind :
        {A B : Type 0} (m : M A) (f : A → M B)
        → Advances pre m
        → ((a : A) → Advances pre (f a))
        → Advances pre (m >>= f)
    Advances-bind m f h k = record {
      at = λ past p w.
          let (es, r) = h.at past p w in
          let (fs, q) =
            continue-Moves f k (es ++ past) (Happened-later es past pre p) (m w).0 (m w).1 in
          (fs ++ es, Continues-trans r q);
    }

    pub Advances-on_error :
        {A : Type 0} (f : GoError → GoError) (m : M A)
        → Advances pre m
        → Advances pre (on_error f m)
    Advances-on_error f m h = record { at = h.at }

    pub Advances-attempt : {A : Type 0} (m : M A) → Advances pre m → Advances pre (attempt m)
    Advances-attempt m h = record { at = h.at }

    pub Advances-if :
        {A : Type 0} (b : Bool) (m n : M A)
        → (b ≡ true → Advances pre m)
        → (b ≡ false → Advances pre n)
        → Advances pre (if b then m else n)
    Advances-if true m n p q = p refl
    Advances-if false m n p q = q refl

    pub Advances-write_audit :
        (ctx : Context) (id action : String) (before after : Option Marshalled)
        → Advances pre (write_audit ctx id action before after)
    Advances-write_audit ctx id action before after = Advances-still _ (λ w.
        let (r, s) = write_audit_lem ctx id action before after w in
        ap₂ (λ a b. (a, b)) (ap db.disbursement_rows s.disbursements)
          (ap db.key_rows s.idempotency_keys))

    pub Advances-find_by_id : (id : String) → Advances pre (Repo.find_by_id id)
    unfolding Repo.find_by_id
    Advances-find_by_id id = Advances-still _ (λ w. ap (λ l. (l, keys w)) (rows-find_by_id id w))

    pub Advances-log : (message : String) → Advances pre (log message)
    Advances-log message = Advances-still _ (λ w. refl)

    pub Advances-now : Advances pre now
    Advances-now = Advances-still _ (λ w. refl)

    pub Advances-new_uuid : Advances pre new_uuid
    Advances-new_uuid = Advances-still _ (λ w. refl)

    pub Advances-from_result : {A : Type 0} (r : Result A) → Advances pre (from_result r)
    Advances-from_result r = Advances-still _ (λ w. refl)

    pub Advances-create :
        (actor : String) (at : Time) (id : String) (req : CreateDisbursementRequest)
        → Advances pre (Repo.create (new_disbursement actor at id req))
    unfolding Repo.create
    Advances-create actor at id req = record {
      at = λ past p w.
          Inserts-Moves actor at id req _ past _ _
            (create-Inserts (new_disbursement actor at id req) w) refl;
    }

    pub Advances-create_with_idempotency :
        (ctx : Context) (req : CreateDisbursementRequest) (key : String) (at : Time)
        (id body : String)
        → g.json_marshal (disbursement (new_disbursement (username ctx) at id req)) ≡ ok body
        → let d = new_disbursement (username ctx) at id req in
          Advances pre (Repo.create_with_idempotency d (idempotency_row ctx req key at body))
    Advances-create_with_idempotency ctx req key at id body m = record {
      at = λ past p w. WritesBoth-Moves ctx req key at id body _ past w _ m (
          create_with_idempotency-WritesBoth (new_disbursement (username ctx) at id req)
            (idempotency_row ctx req key at body) w);
    }

    pub Advances-update_status :
        (id status note actor : String)
        → IsDecision status
        → Advances pre (Repo.update_status id status note actor)
    unfolding Repo.update_status
    Advances-update_status id status note actor c = record {
      at = λ past p w.
          RewritesPending-Moves id _ _ past _ _
            (λ new h. decided id status note actor (g.time_now w.host).0 c h)
            (update_status-RewritesPending id status note actor w) refl;
    }

    pub Advances-soft_delete : (id : String) → Advances pre (Repo.soft_delete id)
    unfolding Repo.soft_delete
    Advances-soft_delete id = record {
      at = λ past p w.
          let (t, h) = soft_delete-RewritesPending id w in
          RewritesPending-Moves id _ _ past _ _ (λ new e. removed id t e) h refl;
    }

  -- The clean-up needs that its request has found the key expired.
  pub Advances-delete_idempotency_key :
      (key : String) (at : Time) (k : IdempotencyKey) (pre : List Event)
      → has_key key k ≡ true
      → ltb_ℤ k.expires_at at ≡ true
      → Advances (looked_up at k ∷ pre) (Repo.delete_idempotency_key key)
  Advances-delete_idempotency_key key at k pre has expired = record {
    at = λ past p w.
        Removes-Moves key at k _ past _ _ p.0 has expired (rows-delete_idempotency_key key w)
          (delete_idempotency_key-Removes key w);
  }

  -- What follows a look-up may rely on what was found.
  pub Advances-find_idempotency_key :
      {A : Type 0} (key : String) (at : Time) (pre : List Event) (f : GoError → GoError)
      (next : IdempotencyKey → M A)
      → ((k : IdempotencyKey) → has_key key k ≡ true → Advances (looked_up at k ∷ pre) (next k))
      → Advances pre (on_error f (Repo.find_idempotency_key key) >>= next)
  Advances-find_idempotency_key key at pre f next h = record {
    at = λ past p w.
        let same : contents (Repo.find_idempotency_key key w).1 ≡ contents w =
          ap₂ (λ a b. (a, b)) (rows-find_idempotency_key key w) (keys-find_idempotency_key key w) in
        elim (Result-cases (Repo.find_idempotency_key key w).0) [
          | inl (k, e) ↦
              let (has, stored) = find_idempotency_key-ok key w k e in
              let (es, r) =
                (h k has).at (looked_up at k ∷ past)
                  (inl refl, Happened-later (looked_up at k ∷ []) past pre p)
                  (Repo.find_idempotency_key key w).1 in
              rw e (
                es ++ (looked_up at k ∷ []),
                Continues-trans (later start (looks_up at k stored same)) r,
              )
          | inr (x, e) ↦ rw e (stays same)
        ];
  }

  pub ruleset advances_rules = (
    Advances-pure, Advances-err, Advances-bind, Advances-on_error, Advances-attempt, Advances-if,
    Advances-log, Advances-from_result, Advances-write_audit, Advances-find_by_id, Advances-create,
    Advances-soft_delete,
  )
