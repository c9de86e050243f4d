-- ===== src/Lifecycle/Moves.antt =====
-- What the statements of internal/repository/disbursements.go, each ending as it may, add to a run.
use test_lintaspay_backend.Common.{ℕ, String, ◌≡◌, ap₂, true, List, [], Some, ltb_ℤ}
use test_lintaspay_backend.Reqctx.{Context, username}
use test_lintaspay_backend.Entity.{Time, Disbursement, IdempotencyKey, CreateDisbursementRequest}
use test_lintaspay_backend.External.{Result, ok, err, Services, disbursement}
use test_lintaspay_backend.External.Sql.{Database}
use test_lintaspay_backend.Monad.{World}
use test_lintaspay_backend.Repository.Disbursements.{has_key}
use test_lintaspay_backend.Repository.Disbursements.Rows.{
  rows, keys, Inserts, WritesBoth, Removes, RewritesPending,
}
use test_lintaspay_backend.Usecase.Disbursements.{new_disbursement}
use test_lintaspay_backend.Usecase.Disbursements.Create.{idempotency_row}
use test_lintaspay_backend.Lifecycle.{Step, inserted}
use test_lintaspay_backend.Lifecycle.Runs.{
  Contents, Event, looked_up, Statement, on_rows, reserves, cleans_up, Continues, start, later,
}

module _ ⦃g : Services⦄ ⦃db : Database g⦄ where
  abbrev pub contents : World g → Contents
  contents w = (rows w, keys w)

  abbrev pub Moves : List Event → Contents → Contents → Type 0
  Moves past old new = (es : List Event) × Continues past old es new

  pub stays : {past : List Event} {old new : Contents} → new ≡ old → Moves past old new
  stays e = rw e ([], start)

  pub Moves-once :
      {past : List Event} {old new : Contents} {e : Event}
      → Statement past old new e
      → Moves past old new
  Moves-once s = (_, later start s)

  pub Inserts-Moves :
      (actor : String) (at : Time) (id : String) (req : CreateDisbursementRequest)
      (r : Result (Unit {0})) (past : List Event) (old new : Contents)
      → Inserts (new_disbursement actor at id req) r old.0 new.0
      → new.1 ≡ old.1
      → Moves past old new
  Inserts-Moves actor at id req (ok _) past old new h k =
      Moves-once (on_rows (inserted actor at id req h) k)
  Inserts-Moves actor at id req (err _) past old new h k = stays (ap₂ (λ a b. (a, b)) h k)

  pub WritesBoth-Moves :
      (ctx : Context) (req : CreateDisbursementRequest) (key : String) (at : Time)
      (id body : String) (r : Result (Unit {0})) (past : List Event) (w w' : World g)
      → g.json_marshal (disbursement (new_disbursement (username ctx) at id req)) ≡ ok body
      → WritesBoth
          (new_disbursement (username ctx) at id req)
          (idempotency_row ctx req key at body)
          r
          w
          w'
      → Moves past (contents w) (contents w')
  WritesBoth-Moves ctx req key at id body (ok _) past w w' m (d, k, free) =
      Moves-once (reserves ctx req key at id body m free d k)
  WritesBoth-Moves ctx req key at id body (err _) past w w' m (d, k) =
      stays (ap₂ (λ a b. (a, b)) d k)

  pub RewritesPending-Moves :
      (id : String) (f : Disbursement → Disbursement) (r : Result ℕ) (past : List Event)
      (old new : Contents)
      → ((new : List Disbursement) → RewritesPending id f (ok 0) old.0 new → Step old.0 new)
      → RewritesPending id f r old.0 new.0
      → new.1 ≡ old.1
      → Moves past old new
  RewritesPending-Moves id f (ok n) past old new step h k = Moves-once (on_rows (step new.0 h) k)
  RewritesPending-Moves id f (err _) past old new step h k = stays (ap₂ (λ a b. (a, b)) h k)

  pub Removes-Moves :
      (key : String) (at : Time) (k : IdempotencyKey) (r : Result ℕ) (past : List Event)
      (old new : Contents)
      → Some (λ e. e ≡ looked_up at k) past
      → has_key key k ≡ true
      → ltb_ℤ k.expires_at at ≡ true
      → new.0 ≡ old.0
      → Removes key r old.1 new.1
      → Moves past old new
  Removes-Moves key at k (ok n) past old new seen has expired d r =
      Moves-once (cleans_up key at k seen has expired d r)
  Removes-Moves key at k (err e) past old new seen has expired d r = stays (ap₂ (λ a b. (a, b)) d r)
