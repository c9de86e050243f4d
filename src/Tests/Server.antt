-- ===== src/Tests/Server.antt =====
-- The chain of a request, its guards and its answer.
use test_lintaspay_backend.Common.{String, true, Option, none, some, [], ◌∷◌, All}
use test_lintaspay_backend.Routes.{Route, detail, create_disbursement, protect, limit, register}
use test_lintaspay_backend.Server.{Request, Exchange, arrival, serve}
use test_lintaspay_backend.Server.Dispatch.{Limiter, handle_route}
use test_lintaspay_backend.Server.Answers.{Answered, sent_id, serve-Answered}
use test_lintaspay_backend.Server.Routed.{handle_route-Keeps}
use test_lintaspay_backend.Server.Decisions.{Sender}
use test_lintaspay_backend.Server.Guarded.{RouteDecided, handle_route-Decided}
use test_lintaspay_backend.Server.Refusals.{entry, RouteServed, serve-Served}
use test_lintaspay_backend.Server.Statuses.{Responded, serve-Responded}
use test_lintaspay_backend.Server.Runs.{MovedTo, serve-Continues}
use test_lintaspay_backend.External.Memory.{memory_database}
use test_lintaspay_backend.Tests.{request, row, services, world_of}

-- `GET /api/v1/disbursements/d1`, with a token.
abbrev lookup : Request
lookup = record {
  method = "GET";
  path = "/api/v1/disbursements/d1";
  ip = "10.0.0.1";
  request_id = "";
  authorization = "Bearer su1";
  idempotency_key = "";
  id = "d1";
  login_body = none;
  token_body = none;
  create_body = none;
  batch_body = none;
  status_body = none;
  disbursement_query = none;
  audit_query = none;
}

abbrev detail_route : Route
detail_route = record {
  method = "GET";
  path = "/disbursements/:id";
  guards = protect ∷ limit 120 ∷ [];
  endpoint = detail;
}

-- A limiter that lets every request pass, and sets its header.
abbrev never_limits : Limiter ⦃g = services⦄
never_limits n key host = ((true, ("X-RateLimit-Remaining", "9") ∷ []), host)

serve-Answered_example :
    Answered ⦃g = services⦄ (sent_id ⦃g = services⦄ lookup (world_of (row ∷ []))) [] (
      serve ⦃g = services⦄ lookup
        (handle_route ⦃g = services⦄ never_limits lookup detail_route)
        (world_of (row ∷ []))
        [])
serve-Answered_example =
    serve-Answered ⦃g = services⦄ lookup
      (handle_route ⦃g = services⦄ never_limits lookup detail_route)
      (handle_route-Keeps ⦃g = services⦄ never_limits lookup detail_route) (world_of (row ∷ [])) []

abbrev arrived : Exchange services
arrived = arrival ⦃g = services⦄ (world_of (row ∷ [])) []

handle_route-Decided_example :
    (who : Option String) × Sender ⦃g = services⦄ lookup arrived who
    × All (RouteDecided ⦃g = services⦄ never_limits lookup arrived who) register
handle_route-Decided_example = handle_route-Decided ⦃g = services⦄ never_limits lookup arrived

-- The same request with no token.
abbrev anonymous : Request
anonymous = record lookup { authorization = "" }

serve-Served_example :
    (who : Option String) × Sender ⦃g = services⦄ anonymous
      (entry ⦃g = services⦄ anonymous (world_of (row ∷ [])) [])
      who
    × All (RouteServed ⦃g = services⦄ never_limits anonymous (world_of (row ∷ [])) [] who) register
serve-Served_example = serve-Served ⦃g = services⦄ never_limits anonymous (world_of (row ∷ [])) []

serve-Responded_example : Responded ⦃g = services⦄ (401 ∷ 429 ∷ 200 ∷ 404 ∷ 500 ∷ []) (
    serve ⦃g = services⦄ lookup
      (handle_route ⦃g = services⦄ never_limits lookup detail_route)
      (world_of (row ∷ []))
      [])
serve-Responded_example =
    serve-Responded ⦃g = services⦄ never_limits lookup detail_route (world_of (row ∷ [])) []

-- `POST /api/v1/disbursements`, with a token, a key and a body.
abbrev creation : Request
creation = record lookup { method = "POST"; idempotency_key = "k1"; create_body = some request }

abbrev creation_route : Route
creation_route = record {
  method = "POST";
  path = "/disbursements";
  guards = protect ∷ limit 60 ∷ [];
  endpoint = create_disbursement;
}

serve-Continues_example : MovedTo ⦃g = services⦄ ⦃db = memory_database row⦄ [] (world_of []) (
    serve ⦃g = services⦄ creation
      (handle_route ⦃g = services⦄ never_limits creation creation_route)
      (world_of [])
      [])
serve-Continues_example =
    serve-Continues ⦃g = services⦄ ⦃db = memory_database row⦄ never_limits creation creation_route
      [] (world_of []) []
