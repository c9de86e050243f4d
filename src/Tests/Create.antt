-- ===== src/Tests/Create.antt =====
-- The creation of disbursements, at concrete requests.
use test_lintaspay_backend.Common.{
  ℕ, ◌≤◌, ◌<◌, ◌+◌, ◌*◌, ◌^◌, String, ◌≡◌, ◌≢◌, refl, ℤ, pos, Bool, true, false, Option, none, some,
  List, [], ◌∷◌, All, Some, inl, inr, ◌↔◌, ◌⊎◌, arith,
}
use test_lintaspay_backend.External.{ok}
use test_lintaspay_backend.External.Memory.{memory_database}
use test_lintaspay_backend.External.Memory.Reliable.{memory-IsReliable}
use test_lintaspay_backend.Repository.Disbursements.{create_with_idempotency, reserve_and_insert}
use test_lintaspay_backend.Usecase.Disbursements.Create.{create}
use test_lintaspay_backend.Usecase.Disbursements.Create.Once.{
  create-CreatedOnce, CreatedOnce, fresh,
}
use test_lintaspay_backend.Usecase.Disbursements.Create.Replay.{create-replays}
use test_lintaspay_backend.Usecase.Disbursements.Create.Reuse.{key_reused, create-refuses}
use test_lintaspay_backend.Reqctx.{Context, user_id}
use test_lintaspay_backend.Common.{inl, ◌≢◌, eq_iff, arith}
use test_lintaspay_backend.External.{err}
use test_lintaspay_backend.Usecase.Disbursements.Batch.{create_batch}
use test_lintaspay_backend.Usecase.Disbursements.Batch.Answers.{Answered, create_batch-Answered}
use test_lintaspay_backend.Handler.Disbursements.{batch_reply}
use test_lintaspay_backend.Handler.Disbursements.Replies.{batch_reply-status}
use test_lintaspay_backend.Entity.{BatchItemResult}
use test_lintaspay_backend.Tests.{caller, request, row, services, world_of, items}

create-CreatedOnce_example :
    CreatedOnce
      (fresh ⦃g = services⦄ ⦃db = memory_database row⦄ caller request (world_of []))
      (create ⦃g = services⦄ caller request "k1" (world_of [])).0
      []
      (create ⦃g = services⦄ caller request "k1" (world_of [])).1.disbursements
create-CreatedOnce_example =
    create-CreatedOnce ⦃g = services⦄ ⦃db = memory_database row⦄ caller request "k1" (world_of [])

create-replays_example :
    (create ⦃g = services⦄ caller request "k1"
      (create ⦃g = services⦄ caller request "k1" (world_of [])).1).0
    ≡ ok (row, true)
unfolding create create_with_idempotency reserve_and_insert test_lintaspay_backend.Common.◌+ℤ◌
create-replays_example =
    create-replays ⦃g = services⦄ ⦃db = memory_database row⦄ (memory-IsReliable row) caller caller
      request "k1" (world_of []) (create ⦃g = services⦄ caller request "k1" (world_of [])).1 row
      refl refl refl (λ body e. refl) refl refl refl

abbrev stranger : Context
stranger = record caller { user_id_value = some "u2" }

other_user : user_id caller ≢ user_id stranger
unfolding user_id
other_user e = ground (arith, eq_iff "u1" "u2")

create-refuses_example :
    let first = (create ⦃g = services⦄ caller request "k1" (world_of [])).1 in
    let second = create ⦃g = services⦄ stranger request "k1" first in
    (second.0 ≡ err key_reused) × (second.1.disbursements ≡ first.disbursements)
unfolding create create_with_idempotency reserve_and_insert test_lintaspay_backend.Common.◌+ℤ◌
create-refuses_example =
    create-refuses ⦃g = services⦄ ⦃db = memory_database row⦄ (memory-IsReliable row) caller stranger
      request request "k1" (world_of []) (create ⦃g = services⦄ caller request "k1" (world_of [])).1
      row refl refl refl (inl other_user) refl refl

create_batch-Answered_example :
    Answered ⦃g = services⦄ caller 0 items.items
      (create_batch ⦃g = services⦄ caller items (world_of [])).0
      []
      (create_batch ⦃g = services⦄ caller items (world_of [])).1.disbursements
create_batch-Answered_example =
    create_batch-Answered ⦃g = services⦄ ⦃db = memory_database row⦄ caller items (world_of [])

abbrev created : BatchItemResult
created = record { index = 0; success = true; result = some row; error = "" }

abbrev failed : BatchItemResult
failed = record { index = 1; success = false; result = none; error = "amount is required" }

batch_reply-status_example :
    let reply = batch_reply (created ∷ failed ∷ []) in
    ((reply.status ≡ 201) ↔ All (λ x. x.success ≡ true) (created ∷ failed ∷ []))
    × ((reply.status ≡ 400) ↔ All (λ x. x.success ≡ false) (created ∷ failed ∷ []))
    × ((reply.status ≡ 201) ⊎ (reply.status ≡ 400) ⊎ (reply.status ≡ 207))
batch_reply-status_example = batch_reply-status created (failed ∷ [])
