-- ===== src/Monad.antt =====
-- The state that a request's code works on, and its actions: every call of a service changes the
-- world, and a Go error returned early ends the action.
pub mod Laws
use test_lintaspay_backend.Common.{String, List, ◌∷◌}
use test_lintaspay_backend.Errors.{GoError, http, HttpError}
use test_lintaspay_backend.Entity.{Time}
use test_lintaspay_backend.External.{Result, ok, err, Services}

-- The connection's side of each table, the host, and the messages of the server log, newest first.
pub record World (g : Services) : Type 0 where
  pub disbursements : g.disbursements.State
  pub idempotency_keys : g.idempotency_keys.State
  pub audit_logs : g.audit_logs.State
  pub users : g.users.State
  pub refresh_tokens : g.refresh_tokens.State
  pub host : g.Host
  pub log : List String

module _ ⦃g : Services⦄ where
  abbrev pub M : Type 0 → Type 0
  M A = World g → Result A × World g

  abbrev pub pure : {A : Type 0} → A → M A
  pure a w = (ok a, w)

  abbrev pub fail : {A : Type 0} → HttpError → M A
  fail h w = (err (http h), w)

  abbrev pub continue : {A B : Type 0} → (A → M B) → Result A × World g → Result B × World g
  continue f (ok a, w) = f a w
  continue f (err e, w) = (err e, w)

  infixl 5 ◌>>=◌ ◌>>◌
  abbrev pub ◌>>=◌ : {A B : Type 0} → M A → (A → M B) → M B
  ◌>>=◌ m f w = continue f (m w)

  abbrev pub ◌>>◌ : {A B : Type 0} → M A → M B → M B
  m >> n = m >>= λ _. n

  -- The error of a call as a value: `x, err := m(…)`.
  abbrev pub attempt : {A : Type 0} → M A → M (Result A)
  attempt m w = let (r, w') = m w in (ok r, w')

  abbrev pub rename : {A : Type 0} → (GoError → GoError) → Result A → Result A
  rename f (ok a) = ok a
  rename f (err e) = err (f e)

  -- `if err := m(…); err != nil { return f(err) }`
  abbrev pub on_error : {A : Type 0} → (GoError → GoError) → M A → M A
  on_error f m w = let (r, w') = m w in (rename f r, w')

  abbrev pub from_result : {A : Type 0} → Result A → M A
  from_result r w = (r, w)

  abbrev pub on_disbursements :
      {A : Type 0} → (g.disbursements.State → Result A × g.disbursements.State) → M A
  on_disbursements f w = let (r, s) = f w.disbursements in (r, record w { disbursements = s })

  abbrev pub on_idempotency_keys :
      {A : Type 0} → (g.idempotency_keys.State → Result A × g.idempotency_keys.State) → M A
  on_idempotency_keys f w =
      let (r, s) = f w.idempotency_keys in (r, record w { idempotency_keys = s })

  abbrev pub on_audit_logs :
      {A : Type 0} → (g.audit_logs.State → Result A × g.audit_logs.State) → M A
  on_audit_logs f w = let (r, s) = f w.audit_logs in (r, record w { audit_logs = s })

  abbrev pub on_users : {A : Type 0} → (g.users.State → Result A × g.users.State) → M A
  on_users f w = let (r, s) = f w.users in (r, record w { users = s })

  abbrev pub on_refresh_tokens :
      {A : Type 0} → (g.refresh_tokens.State → Result A × g.refresh_tokens.State) → M A
  on_refresh_tokens f w = let (r, s) = f w.refresh_tokens in (r, record w { refresh_tokens = s })

  abbrev pub on_host : {A : Type 0} → (g.Host → Result A × g.Host) → M A
  on_host f w = let (r, h) = f w.host in (r, record w { host = h })

  -- `time.Now()`
  abbrev pub now : M Time
  now w = let (t, h) = g.time_now w.host in (ok t, record w { host = h })

  -- `uuid.NewString()`
  abbrev pub new_uuid : M String
  new_uuid w = let (s, h) = g.new_uuid w.host in (ok s, record w { host = h })

  -- A line of the server log. Of a line the model keeps its message.
  abbrev pub log : String → M (Unit {0})
  log message w = (ok tt, record w { log = message ∷ w.log })
