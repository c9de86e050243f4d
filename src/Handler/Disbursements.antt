-- ===== src/Handler/Disbursements.antt =====
-- internal/handler/disbursements.go
pub mod Replies
use Prim.Native.String
use test_lintaspay_backend.Common.{
  ℕ, String, List, [], ◌∷◌, Option, eqb, ltb, length, count_if, if◌then◌else◌,
}
use test_lintaspay_backend.Common.Decimal.{decimal}
use test_lintaspay_backend.Reqctx.{Context}
use test_lintaspay_backend.Entity.{
  Disbursement, CreateDisbursementRequest, BatchCreateDisbursementRequest, BatchItemResult,
  UpdateStatusRequest, DisbursementFilter, normalize,
}
use test_lintaspay_backend.External.{Services}
use test_lintaspay_backend.Monad.{M, pure, ◌>>=◌, ◌>>◌}
use test_lintaspay_backend.Response.{
  Response, DataResponse, PaginatedResponse, Reply, new_response, new_data_response,
  new_paginated_response, new_pagination, json,
}
use test_lintaspay_backend.Usecase.Disbursements.Create as CreateCase
use test_lintaspay_backend.Usecase.Disbursements.Batch as BatchCase
use test_lintaspay_backend.Usecase.Disbursements.Status as StatusCase
use test_lintaspay_backend.Usecase.Disbursements.Query as QueryCase
use test_lintaspay_backend.Handler.{with_body, with_query, when_valid}

-- The status of a batch: none, some or all of its items were created.
unfoldable pub batch_code : ℕ → ℕ → ℕ
batch_code succeeded total =
    if eqb succeeded 0 then 400 else if ltb succeeded total then 207 else 201

unfoldable pub batch_reply : List BatchItemResult → Reply (DataResponse (List BatchItemResult))
unfolding batch_code decimal json new_data_response
batch_reply results =
    let succeeded = count_if (λ r. r.success) results in
    let code = batch_code succeeded (length results) in
    let message =
      String.◌++◌ (decimal succeeded)
        (String.◌++◌ " of " (String.◌++◌ (decimal (length results)) " disbursements created")) in
    json code [] (new_data_response code message results)

module _ ⦃g : Services⦄ where
  unfoldable pub list : Option DisbursementFilter → M (Reply (PaginatedResponse Disbursement))
  unfolding with_query QueryCase.list normalize new_pagination new_paginated_response json
  list query = with_query query (λ f. do
    found ← QueryCase.list f
    let filter = normalize g.case_tables f
    pure (
        json 200 [] (
          new_paginated_response 200 "disbursements retrieved" found.0
            (new_pagination found.1 filter.page filter.limit))))

  unfoldable pub detail : String → M (Reply (DataResponse Disbursement))
  unfolding QueryCase.detail json new_data_response
  detail id = do
    d ← QueryCase.detail id
    pure (json 200 [] (new_data_response 200 "disbursement retrieved" d))

  unfoldable pub create :
      Context → Option CreateDisbursementRequest → String → M (Reply (DataResponse Disbursement))
  unfolding with_body when_valid CreateCase.create json new_data_response
  create ctx body key = with_body body (λ req. when_valid (g.validate_create req) do
    created ← CreateCase.create ctx req key
    pure (
        json 201 (if created.1 then ("X-Idempotent-Replayed", "true") ∷ [] else [])
          (new_data_response 201 "disbursement created" created.0)))

  unfoldable pub create_batch :
      Context
      → Option BatchCreateDisbursementRequest
      → M (Reply (DataResponse (List BatchItemResult)))
  unfolding with_body when_valid BatchCase.create_batch batch_reply
  create_batch ctx body = with_body body (λ req.
      when_valid (g.validate_batch req)
        do results ← BatchCase.create_batch ctx req; pure (batch_reply results))

  unfoldable pub update_status :
      Context → String → Option UpdateStatusRequest → M (Reply (DataResponse Disbursement))
  unfolding with_body when_valid StatusCase.update_status json new_data_response
  update_status ctx id body = with_body body (λ req. when_valid (g.validate_update req) do
    d ← StatusCase.update_status ctx id req
    pure (json 200 [] (new_data_response 200 "disbursement status updated" d)))

  unfoldable pub delete : Context → String → M (Reply Response)
  unfolding StatusCase.delete json new_response
  delete ctx id = do
    StatusCase.delete ctx id
    pure (json 200 [] (new_response 200 "disbursement deleted"))
