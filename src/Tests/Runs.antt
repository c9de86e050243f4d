-- ===== src/Tests/Runs.antt =====
-- Statements of two requests with one idempotency key, one after the other.
use test_lintaspay_backend.Common.{
  ◌≡◌, ◌≤◌, ◌+◌, ◌⊎◌, refl, pos, List, [], ◌∷◌, Some, inl, count_if,
}
use test_lintaspay_backend.Entity.{IdempotencyKey}
use test_lintaspay_backend.External.Memory.{memory_database, memory-IsCollation}
use test_lintaspay_backend.Monad.{World}
use test_lintaspay_backend.Reqctx.{username}
use test_lintaspay_backend.Usecase.Disbursements.{
  new_disbursement, calculate_admin_fee, hash_request,
}
use test_lintaspay_backend.Usecase.Disbursements.Create.{idempotency_row, create}
use test_lintaspay_backend.Lifecycle.Runs.{
  Contents, Event, looked_up, reserved, Runs, start, later, reserves, looks_up,
}
use test_lintaspay_backend.Lifecycle.Once.{is_reservation, is_clean_up, SeenExpired, Runs-once}
use test_lintaspay_backend.Lifecycle.Backed.{AllBacked, Continues-AllBacked}
use test_lintaspay_backend.Lifecycle.Telling.{Told}
use test_lintaspay_backend.Lifecycle.Replays.{create-Told}
use test_lintaspay_backend.Tests.{caller, request, row, services, world_of}

abbrev stored_key : IdempotencyKey
stored_key = idempotency_row ⦃g = services⦄ caller request "k1" (pos 3) "d1"

abbrev stored : Contents
stored = (row ∷ [], stored_key ∷ [])

-- The first request reserves the key, the second reads it a moment later.
abbrev events : List Event
events = looked_up (pos 4) stored_key ∷ reserved stored_key ∷ []

abbrev two_requests : Runs ⦃g = services⦄ ([], []) events stored
unfolding new_disbursement username calculate_admin_fee
two_requests =
    later (later start (reserves caller request "k1" (pos 3) "d1" "d1" refl refl refl refl))
      (looks_up (pos 4) stored_key (inl refl) refl)

Runs-once_example :
    (count_if (is_reservation ⦃g = services⦄ "k1") events
      ≤ count_if (is_clean_up ⦃g = services⦄ "k1") events + 1)
    × ((count_if (is_clean_up ⦃g = services⦄ "k1") events ≡ 0)
        ⊎ Some (SeenExpired ⦃g = services⦄ "k1") events)
Runs-once_example = Runs-once ⦃g = services⦄ memory-IsCollation "k1" two_requests refl

Continues-AllBacked_example : AllBacked ⦃g = services⦄ stored
Continues-AllBacked_example = Continues-AllBacked ⦃g = services⦄ two_requests tt

-- The world that the two requests leave.
abbrev later_world : World services
later_world = record (world_of (row ∷ [])) { idempotency_keys = stored_key ∷ [] }

create-Told_example :
    Told ⦃g = services⦄ ⦃db = memory_database row⦄ caller
      (hash_request ⦃g = services⦄ request)
      "k1"
      (create ⦃g = services⦄ caller request "k1" later_world).0
      (create ⦃g = services⦄ caller request "k1" later_world).1.disbursements
create-Told_example =
    create-Told ⦃g = services⦄ ⦃db = memory_database row⦄ caller request "k1" later_world
      (Continues-AllBacked ⦃g = services⦄ two_requests tt)
