-- ===== src/Server/Hooks.antt =====
-- pkg/server/fiber.go, RegisterHooks: what fx runs at the start and at the stop of the service, beside
-- the goroutine that listens. The two are interleaved one command at a time, in any order.
use Prim.Native.String
use test_lintaspay_backend.Common.{
  ℕ, String, ◌≡◌, Bool, true, false, Option, none, some, List, [], ◌∷◌, ◌++◌, ◌==◌, if◌then◌else◌,
}
use test_lintaspay_backend.Errors.{GoError}

-- The lines of the log.
pub data Note : Type 0 where
  server_started : (port : String) → Note
  failed_to_start : GoError → Note
  shutting_down : Note

-- The statements of the two hooks.
pub data Command : Type 0 where
  go_listen : (address : String) → Command
  info : Note → Command
  shutdown_with_context : Command

pub record Hook : Type 0 where
  pub on_start : List Command
  pub on_stop : List Command

-- `SERVER_PORT` with its default.
abbrev pub server_port : String → String
server_port port = if port == "" then "3000" else port

unfoldable pub register_hooks : String → Hook
register_hooks port = record {
  on_start =
      go_listen (String.◌++◌ ":" (server_port port))
      ∷ info (server_started (server_port port))
      ∷ [];
  on_stop = info shutting_down ∷ shutdown_with_context ∷ [];
}

-- Where fx is: in the start hook, waiting for a signal, in the stop hook, or past it with its result.
pub data Stage : Type 0 where
  starting : List Command → Stage
  running : Stage
  stopping : List Command → Stage
  stopped : Option GoError → Stage

-- The goroutine: not launched, in `Listen`, or past it with what `Listen` returned.
pub data Listener : Type 0 where
  absent : Listener
  listening : (address : String) → Listener
  ended : Option GoError → Listener

-- The log is kept from its first line on.
pub record Process : Type 0 where
  pub stage : Stage
  pub listener : Listener
  pub is_closed : Bool
  pub lines : List Note
  pub exit_code : Option ℕ

abbrev pub launched : Hook → Process
launched h = record {
  stage = starting h.on_start;
  listener = absent;
  is_closed = false;
  lines = [];
  exit_code = none;
}

-- `ShutdownWithContext` closes the app; what it returns is what the stop hook returns.
unfoldable pub perform : Command → Process → Process
perform (go_listen address) p = record p { listener = listening address }
perform (info n) p = record p { lines = p.lines ++ n ∷ [] }
perform shutdown_with_context p = record p { is_closed = true }

abbrev pub at_stage : Stage → Process → Process
at_stage s p = record p { stage = s }

-- `log.Fatal`: it writes its line and ends the process.
unfoldable pub fatal : GoError → Process → Process
fatal e p = record p { lines = p.lines ++ failed_to_start e ∷ []; exit_code = some 1 }

-- `may_return closed r`: fiber's `Listen` may return `r`, for an app that has been closed or not.
module _ (may_return : Bool → Option GoError → Type 0) (h : Hook) where
  -- A process that has ended takes no step.
  pub data Step (p : Process) : Process → Type 0 where
    starts :
        {c : Command} {cs : List Command}
        → p.exit_code ≡ none
        → p.stage ≡ starting (c ∷ cs)
        → Step p (at_stage (starting cs) (perform c p))
    started : p.exit_code ≡ none → p.stage ≡ starting [] → Step p (at_stage running p)
    interrupted : p.exit_code ≡ none → p.stage ≡ running → Step p (at_stage (stopping h.on_stop) p)
    stops :
        {c : Command} {cs : List Command}
        → p.exit_code ≡ none
        → p.stage ≡ stopping (c ∷ cs)
        → Step p (at_stage (stopping cs) (perform c p))
    done :
        (r : Option GoError)
        → p.exit_code ≡ none
        → p.stage ≡ stopping []
        → Step p (at_stage (stopped r) p)
    listen_returns :
        {address : String} {r : Option GoError}
        → p.exit_code ≡ none
        → p.listener ≡ listening address
        → may_return p.is_closed r
        → Step p (record p { listener = ended r })
    dies : {e : GoError} → p.exit_code ≡ none → p.listener ≡ ended (some e) → Step p (fatal e p)

  pub data Reach : Process → Type 0 where
    here : Reach (launched h)
    next : {p q : Process} → Reach p → Step p q → Reach q
