-- ===== src/Tests/Keys.antt =====
-- An idempotency key that has expired, met by one request and by two.
use test_lintaspay_backend.Common.{◌≡◌, refl, ◌+ℤ◌, pos, false, [], ◌∷◌}
use test_lintaspay_backend.Errors.{errors_is, as_mysql, sentinel, idempotency_key_exists}
use test_lintaspay_backend.Entity.{Disbursement, IdempotencyKey}
use test_lintaspay_backend.External.{ok, err}
use test_lintaspay_backend.External.Memory.{memory_database}
use test_lintaspay_backend.External.Memory.Reliable.{
  memory-IsReliable, memory-IsAvailable, memory-Admits,
}
use test_lintaspay_backend.External.Sql.{fits_disbursement, fits_key}
use test_lintaspay_backend.Monad.{World}
use test_lintaspay_backend.Repository.Disbursements as Repo
use test_lintaspay_backend.Repository.{is_duplicate_entry}
use test_lintaspay_backend.Reqctx.{username, user_id}
use test_lintaspay_backend.Usecase.Disbursements.{
  new_disbursement, calculate_admin_fee, hash_request, idem_ttl,
}
use test_lintaspay_backend.Usecase.Disbursements.Create.{
  create, create_rounds, renew_expired, after_reservation,
}
use test_lintaspay_backend.Usecase.Disbursements.Create.Renewed.{create-succeeds}
use test_lintaspay_backend.Usecase.Disbursements.Create.Twice.{expired_key-used_twice}
use test_lintaspay_backend.Tests.{caller, request, row, services, world_of}

abbrev old_key : IdempotencyKey
old_key = record {
  key = "k1";
  user_id = "u1";
  request_hash = "#rent";
  response_code = 201;
  response_body = "d0";
  expires_at = pos 1;
  created_at = pos 0;
}

abbrev with_old_key : World services
with_old_key = record (world_of []) { idempotency_keys = old_key ∷ [] }

create-succeeds_example :
    (create ⦃g = services⦄ caller request "k1" with_old_key).0 ≡ ok (row, false)
unfolding new_disbursement username fits_disbursement fits_key hash_request idem_ttl ◌+ℤ◌ user_id
    calculate_admin_fee
create-succeeds_example =
    create-succeeds ⦃g = services⦄ ⦃db = memory_database row⦄ (memory-IsReliable row)
      (memory-Admits row) caller request "k1" with_old_key refl refl refl refl refl refl

-- The other request's disbursement, and its reservation.
abbrev other_row : Disbursement
other_row = record row { id = "d9" }

abbrev other_key : IdempotencyKey
other_key = record old_key { response_body = "d9"; expires_at = pos 86_400_000_000_002 }

abbrev after_the_second : World services
after_the_second = (create ⦃g = services⦄ caller request "k1" with_old_key).1

expired_key-used_twice_example :
    (after_reservation ⦃g = services⦄ caller other_row other_key
        (pos 2)
        (create_rounds ⦃g = services⦄ 1 caller other_row other_key (pos 2))
        (err (sentinel idempotency_key_exists))
        with_old_key
      ≡ renew_expired ⦃g = services⦄ other_key
          (create_rounds ⦃g = services⦄ 1 caller other_row other_key (pos 2))
          (Repo.find_idempotency_key ⦃g = services⦄ "k1" with_old_key).1)
    × ((create ⦃g = services⦄ caller request "k1" with_old_key).0 ≡ ok (row, false))
    × ((renew_expired ⦃g = services⦄ other_key
          (create_rounds ⦃g = services⦄ 1 caller other_row other_key (pos 2))
          after_the_second).0
        ≡ ok (other_row, false))
    × ((renew_expired ⦃g = services⦄ other_key
          (create_rounds ⦃g = services⦄ 1 caller other_row other_key (pos 2))
          after_the_second).1.disbursements
        ≡ other_row ∷ row ∷ [])
unfolding Repo.find_idempotency_key create Repo.create_with_idempotency Repo.reserve_and_insert
    Repo.delete_idempotency_key new_disbursement username calculate_admin_fee ◌+ℤ◌
    is_duplicate_entry errors_is as_mysql after_reservation renew_expired create_rounds
expired_key-used_twice_example =
    expired_key-used_twice ⦃g = services⦄ ⦃db = memory_database row⦄ (memory-IsReliable row)
      (memory-IsAvailable row) caller caller request other_row other_key old_key (pos 2)
      with_old_key with_old_key after_the_second refl refl refl refl refl refl refl refl refl
