-- ===== src/Server/Answers.antt =====
-- Every request is answered, and the request log tells the truth.
use test_lintaspay_backend.Common.{
  String, ◌≡◌, refl, ap, Bool-cases, inl, inr, Option, none, some, List, ◌∷◌, Some, ◌==◌,
  if◌then◌else◌,
}
use test_lintaspay_backend.Errors.{logs_failure}
use test_lintaspay_backend.Entity.{Time}
use test_lintaspay_backend.External.{Services}
use test_lintaspay_backend.Monad.{World}
use test_lintaspay_backend.Middlewares.{text_or_empty, request_id_handle}
use test_lintaspay_backend.Middlewares.Status.{logged_status-eq-sent}
use test_lintaspay_backend.Server.{
  Request, Line, Exchange, Ending, returned, panicked, Handler, completed, line_of, recover, answer,
  serve, new_fiber_app, recovery, request_logger, request_id_middleware,
}

module _ ⦃g : Services⦄ where
  -- The exchange still carries this request id, and only these lines.
  abbrev pub Carries : String → List Line → Exchange g → Type 0
  Carries id lines c =
      (c.lines ≡ lines)
      × (c.session.locals.request_id_value ≡ some id)
      × Some (λ h. h ≡ ("X-Request-ID", id)) c.response.headers

  -- A handler that writes no line of the request log, and takes back neither the request id nor its
  -- header. It may panic.
  abbrev pub Keeps : Handler → Type 0
  Keeps next =
      (id : String) (lines : List Line) (c : Exchange g)
      → Carries id lines c
      → Carries id lines (next c).1

  abbrev pub sent_id : Request → World g → String
  sent_id req w = if req.request_id == "" then (g.new_uuid w.host).0 else req.request_id

  -- There is a response with the request id, and one more line, which shows its status.
  abbrev pub Answered : String → List Line → Option (Exchange g) → Type 0
  Answered id lines none = ⊥
  Answered id lines (some c) =
      (line : Line) × (c.lines ≡ line ∷ lines)
      × (line.status_code ≡ c.response.status)
      × (line.request_id ≡ id)
      × Some (λ h. h ≡ ("X-Request-ID", id)) c.response.headers

  answered :
      (req : Request) (start : Time) (id : String) (lines : List Line) (e : Ending) (c : Exchange g)
      → Carries id lines c
      → let (e', c') = recover e c in
        let (e'', c'') = completed req start e' c' in Answered id lines (answer e'' c'')
  unfolding answer
  answered req start id lines (returned none) c (l, i, h) =
      let line = line_of req start (g.time_now c.world.host).0 none c in
      (line, ap (λ x. line ∷ x) l, logged_status-eq-sent _ none, ap text_or_empty i, h)
  answered req start id lines (returned (some x)) c (l, i, h) =
      let line = line_of req start (g.time_now c.world.host).0 (some x) c in
      let same = logged_status-eq-sent c.response.status (some x) in
      elim (Bool-cases (logs_failure x)) [
        | inl y ↦ rw y (line, ap (λ x. line ∷ x) l, same, ap text_or_empty i, h)
        | inr n ↦ rw n (line, ap (λ x. line ∷ x) l, same, ap text_or_empty i, h)
      ]
  answered req start id lines panicked c (l, i, h) =
      let c' = (recover panicked c).1 in
      let line = line_of req start (g.time_now c.world.host).0 none c' in
      (line, ap (λ x. line ∷ x) l, logged_status-eq-sent 500 none, ap text_or_empty i, h)

  identified :
      (req : Request) (next : Handler) (id : String) (lines : List Line) (c : Exchange g)
      → Keeps next
      → Carries id lines c
      → let (e, c') = request_logger req (recovery next) c in Answered id lines (answer e c')
  unfolding request_logger recovery
  identified req next id lines c keeps h =
      let (at, host) = g.time_now c.world.host in
      answered req at id lines _ _
        (keeps id lines (record c { world = record c.world { host = host } }) h)

  -- Whatever the route's handlers do, panics and errors included, as long as they leave the request
  -- id and the request log alone: the client gets a response, with the request id that it sent or a
  -- fresh one in `X-Request-ID`, and the request log gets one line, with that id and with the status
  -- of that response.
  pub serve-Answered :
      (req : Request) (next : Handler)
      → Keeps next
      → (w : World g) (lines : List Line) → Answered (sent_id req w) lines (serve req next w lines)
  unfolding serve new_fiber_app request_id_middleware request_id_handle
  serve-Answered req next keeps w lines = elim (Bool-cases (req.request_id == "")) [
    | inl y ↦ rw y (identified req next _ lines _ keeps (refl, refl, inl refl))
    | inr n ↦ rw n (identified req next _ lines _ keeps (refl, refl, inl refl))
  ]
