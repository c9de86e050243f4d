-- ===== src/Usecase/Disbursements/Create.antt =====
-- `Create` of internal/usecase/disbursements.go: one disbursement, once for each idempotency key.
pub mod Stored
pub mod Replay
pub mod Reuse
pub mod Once
pub mod Renewed
pub mod Twice
use Prim.Native.String
use test_lintaspay_backend.Common.{
  ℕ, zero, suc, ◌+◌, String, Bool, true, false, not, ◌||◌, ℤ, ◌+ℤ◌, ltb_ℤ, none, some, ◌==◌,
  if◌then◌else◌,
}
use test_lintaspay_backend.Errors.{errors_is, idempotency_key_exists, bad_request, conflict}
use test_lintaspay_backend.Reqctx.{Context, username, user_id}
use test_lintaspay_backend.Entity.{
  Time, Disbursement, IdempotencyKey, CreateDisbursementRequest, audit_action_created,
}
use test_lintaspay_backend.External.{Services, Result, ok, err, disbursement}
use test_lintaspay_backend.Monad.{
  M, pure, fail, ◌>>=◌, ◌>>◌, attempt, on_error, from_result, now, new_uuid, log,
}
use test_lintaspay_backend.Repository.Disbursements as Repo
use test_lintaspay_backend.Usecase.Disbursements.{
  internal_with, new_disbursement, write_audit, hash_request, idem_ttl,
}

module _ ⦃g : Services⦄ where
  -- The clean-up of an expired key, and the round after it.
  unfoldable pub renew_expired : IdempotencyKey → M (Disbursement × Bool) → M (Disbursement × Bool)
  unfolding internal_with
  renew_expired idem again = do
    on_error (internal_with "failed to clean up expired idempotency key")
        (Repo.delete_idempotency_key idem.key)
    again

  -- A round of the loop in `Create`, once `CreateWithIdempotency` has returned; `again` is the next
  -- round.
  unfoldable pub after_reservation :
      Context
      → Disbursement
      → IdempotencyKey
      → Time
      → M (Disbursement × Bool)
      → Result (Unit {0})
      → M (Disbursement × Bool)
  unfolding internal_with conflict write_audit renew_expired
  after_reservation ctx d idem at again (ok _) = do
    write_audit ctx d.id audit_action_created none (some (disbursement d))
    pure (d, false)
  after_reservation ctx d idem at again (err e) =
      if not (errors_is idempotency_key_exists e)
      then (λ w. (err (internal_with "failed to create disbursement" e), w))
      else do
        existing ←
            on_error (internal_with "failed to check idempotency key")
              (Repo.find_idempotency_key idem.key)
        if ltb_ℤ existing.expires_at at
            then renew_expired idem again
            else if not (existing.user_id == idem.user_id)
                || not (existing.request_hash == idem.request_hash)
            then fail (conflict "idempotency key was already used with a different request")
            else do
              cached ←
                  on_error (internal_with "failed to read cached response")
                    (from_result (g.json_disbursement existing.response_body))
              log "idempotent request replayed"
              pure (cached, true)

  -- `for range 2`, with the rounds that are left.
  unfoldable pub create_rounds :
      ℕ → Context → Disbursement → IdempotencyKey → Time → M (Disbursement × Bool)
  unfolding after_reservation
  create_rounds zero ctx d idem at = fail (conflict "idempotency key conflict, please retry")
  create_rounds (suc n) ctx d idem at = do
    r ← attempt (Repo.create_with_idempotency d idem)
    after_reservation ctx d idem at (create_rounds n ctx d idem at) r

  abbrev pub idempotency_row :
      Context → CreateDisbursementRequest → String → Time → String → IdempotencyKey
  idempotency_row ctx req key at response_body = record {
    key = key;
    user_id = user_id ctx;
    request_hash = hash_request req;
    response_code = 201;
    response_body = response_body;
    expires_at = at +ℤ idem_ttl;
    created_at = at;
  }

  abbrev pub plain_create : Context → Disbursement → M (Disbursement × Bool)
  plain_create ctx d = do
    on_error (internal_with "failed to create disbursement") (Repo.create d)
    write_audit ctx d.id audit_action_created none (some (disbursement d))
    pure (d, false)

  abbrev pub keyed_create :
      Context → CreateDisbursementRequest → String → Time → Disbursement → M (Disbursement × Bool)
  keyed_create ctx req key at d = do
    response_body ←
        on_error (internal_with "failed to build idempotency cache")
          (from_result (g.json_marshal (disbursement d)))
    create_rounds 2 ctx d (idempotency_row ctx req key at response_body) at

  unfoldable pub create : Context → CreateDisbursementRequest → String → M (Disbursement × Bool)
  unfolding internal_with new_disbursement write_audit hash_request idem_ttl create_rounds
      bad_request username user_id
  create ctx req key = do
    at ← now
    id ← new_uuid
    let d = new_disbursement (username ctx) at id req
    if key == ""
        then plain_create ctx d
        else if not (g.uuid_parse key)
        then fail (bad_request "Idempotency-Key must be a valid UUID")
        else keyed_create ctx req key at d
