-- ===== src/Lifecycle/Replays.antt =====
-- What a replayed answer tells, in any state that requests can have led to.
use test_lintaspay_backend.Common.{
  none, some, ℕ, zero, suc, String, ◌≡◌, Bool, true, false, not, ◌||◌, ◌==◌, eq_iff, Option, inl,
  inr, arith,
}
use test_lintaspay_backend.Errors.{GoError}
use test_lintaspay_backend.Reqctx.{Context, username, user_id}
use test_lintaspay_backend.Entity.{
  audit_action_created, Time, Disbursement, IdempotencyKey, CreateDisbursementRequest,
}
use test_lintaspay_backend.External.{Result, ok, err, Services, Marshalled, disbursement}
use test_lintaspay_backend.External.Sql.{Database}
use test_lintaspay_backend.Monad.{World, M, pure, ◌>>=◌, ◌>>◌, on_error, from_result, log}
use test_lintaspay_backend.Monad.Laws.{Result-cases}
use test_lintaspay_backend.Repository.Disbursements.{has_key}
use test_lintaspay_backend.Repository.Disbursements.Rows.{rows}
use test_lintaspay_backend.Usecase.Disbursements.{new_disbursement, write_audit, hash_request}
use test_lintaspay_backend.Usecase.Disbursements.Create.{
  after_reservation, renew_expired, create_rounds, keyed_create, plain_create, idempotency_row,
  create,
}
use test_lintaspay_backend.Lifecycle.Moves.{contents}
use test_lintaspay_backend.Lifecycle.Rules.{
  Advances-write_audit, Advances-create, Advances-create_with_idempotency, Advances-attempt,
  Advances-now, Advances-new_uuid,
}
use test_lintaspay_backend.Lifecycle.Backed.{AllBacked}
use test_lintaspay_backend.Lifecycle.Telling.{
  Told, Tells, TellsOf, Keeps-Advances, Keeps-on_error, Keeps-delete_idempotency_key, Tells-err,
  Tells-new, Tells-bind, Tells-if, TellsOf-Tells, TellsOf-if, TellsOf-replay, Tells-find,
}

module _ ⦃g : Services⦄ ⦃db : Database g⦄ (ctx : Context) (req : CreateDisbursementRequest)
    (key : String) where
  abbrev TellsTruth : M (Disbursement × Bool) → Type 0
  TellsTruth = Tells ctx (hash_request req) key

  Tells-audited :
      (id action : String) (before after : Option Marshalled) (d : Disbursement)
      → TellsTruth (write_audit ctx id action before after >>= (λ _. pure (d, false)))
  Tells-audited id action before after d =
      Tells-bind ctx _ key _ _
        (Keeps-Advances ctx _ key _ (Advances-write_audit ctx id action before after))
        (λ _. Tells-new ctx _ key d)

  abbrev asked : Time → String → Disbursement
  asked at id = new_disbursement (username ctx) at id req

  module _ (at : Time) (id body : String) where
    abbrev mine : IdempotencyKey
    mine = idempotency_row ctx req key at body

    Tells-renew_expired :
        (again : M (Disbursement × Bool)) → TellsTruth again → TellsTruth (renew_expired mine again)
    unfolding renew_expired
    Tells-renew_expired again h =
        Tells-bind ctx _ key _ _
          (Keeps-on_error ctx _ key _ _ (Keeps-delete_idempotency_key ctx _ key key)) (λ _. h)

    checked :
        (k : IdempotencyKey)
        → (not (k.user_id == user_id ctx) || not (k.request_hash == hash_request req)) ≡ false
        → (k.user_id ≡ user_id ctx) × (k.request_hash ≡ hash_request req)
    checked k h =
        ground (arith, eq_iff k.user_id (user_id ctx), eq_iff k.request_hash (hash_request req))

    TellsOf-replayed :
        (k : IdempotencyKey) (f : GoError → GoError) (message : String)
        → has_key key k ≡ true
        → (not (k.user_id == user_id ctx) || not (k.request_hash == hash_request req)) ≡ false
        → TellsOf ctx (hash_request req) key k (
            on_error f (from_result (g.json_disbursement k.response_body))
            >>= (λ cached. log message >> pure (cached, true)))
    TellsOf-replayed k f message has q =
        let (u, v) = checked k q in TellsOf-replay ctx _ key k f message has u v

    Tells-after_reservation :
        (again : M (Disbursement × Bool)) (r : Result (Unit {0}))
        → TellsTruth again
        → TellsTruth (after_reservation ctx (asked at id) mine at again r)
    unfolding after_reservation
    Tells-after_reservation again (ok _) h =
        Tells-audited (asked at id).id audit_action_created none (some (disbursement (asked at id)))
          (asked at id)
    Tells-after_reservation again (err e) h =
        search
          (
            Tells-err ctx (hash_request req) key,
            Tells-if ctx (hash_request req) key,
            Tells-find ctx (hash_request req) key,
            TellsOf-if ctx (hash_request req) key,
            TellsOf-replayed,
            Tells-renew_expired,
            TellsOf-Tells ctx (hash_request req) key,
          )
          depth 20

    Tells-create_rounds :
        (n : ℕ)
        → g.json_marshal (disbursement (asked at id)) ≡ ok body
        → TellsTruth (create_rounds n ctx (asked at id) mine at)
    unfolding create_rounds
    Tells-create_rounds zero m = Tells-err ctx _ key _
    Tells-create_rounds (suc n) m =
        Tells-bind ctx _ key _ _
          (Keeps-Advances ctx _ key _
            (Advances-attempt _ (Advances-create_with_idempotency ctx req key at id body m)))
          (λ r.
            Tells-after_reservation (create_rounds n ctx (asked at id) mine at) r
              (Tells-create_rounds n m))

  Tells-keyed_create :
      (at : Time) (id : String) → TellsTruth (keyed_create ctx req key at (asked at id))
  Tells-keyed_create at id = record {
    at = λ w h. elim (Result-cases (g.json_marshal (disbursement (asked at id)))) [
      | inl (body, e) ↦ rw e ((Tells-create_rounds at id body 2 e).at w h)
      | inr (x, e) ↦ rw e tt
    ];
  }

  Tells-plain_create : (at : Time) (id : String) → TellsTruth (plain_create ctx (asked at id))
  Tells-plain_create at id =
      Tells-bind ctx _ key _ _
        (Keeps-on_error ctx _ key _ _
          (Keeps-Advances ctx _ key _ (Advances-create (username ctx) at id req)))
        (λ _. Tells-audited _ _ _ _ _)

  -- In every state where each stored key is backed, and whatever the services answer: if `Create`
  -- replays an answer, it is what the stored JSON of a disbursement reads as that a request of the
  -- same caller created, with the same hash of the request and an equal key, and the table has the
  -- row of that disbursement.
  pub create-Told :
      (w : World g)
      → AllBacked (contents w)
      → Told ctx (hash_request req) key (create ctx req key w).0 (rows (create ctx req key w).1)
  unfolding create
  create-Told w h =
      let made : TellsTruth (create ctx req key) =
        search
          (
            Tells-bind ctx (hash_request req) key,
            Keeps-Advances ctx (hash_request req) key,
            Tells-if ctx (hash_request req) key,
            Tells-err ctx (hash_request req) key,
            Tells-plain_create,
            Tells-keyed_create,
            Advances-now,
            Advances-new_uuid,
          )
          depth 20 in
      made.at w h
