-- ===== src/Tests/Start.antt =====
-- A start without a configuration file, on a database that answers.
use test_lintaspay_backend.Common.{String, ◌≡◌, refl, ◌↔◌, pos, some, none, List, [], ◌∷◌}
use test_lintaspay_backend.External.{ok}
use test_lintaspay_backend.Config.{ReadOutcome, file_not_found}
use test_lintaspay_backend.Database.{Env, Gorm}
use test_lintaspay_backend.Logger.{Zap}
use test_lintaspay_backend.Server.Hooks.{
  register_hooks, go_listen, info, server_started, shutting_down, shutdown_with_context,
}
use test_lintaspay_backend.Wiring.{hooks, Built}
use test_lintaspay_backend.Wiring.Application.{call_fails, Ready, application-Ready}

abbrev env : Env
env = record { get_string = λ name. name; get_int = λ name. pos 0 }

abbrev read_nothing : String → String → List String → Env × ReadOutcome
read_nothing name type paths = (env, file_not_found)

-- zap, its state the lines that it has written.
abbrev zap : Zap
zap = record {
  ZapLogger = String;
  Field = String;
  State = List String;
  build = λ config options s. (ok config.encoding, s);
  write = λ severity l message fields s. some (message ∷ s);
  string = λ name value. value;
  with_fields = λ l fields. l;
  sync = λ l s. (none, s);
}

abbrev gorm : Gorm
gorm = record {
  State = List String;
  Handle = String;
  Pool = String;
  gorm_open = λ dialect dsn mode s. ((dsn, none), s);
  pool_of = λ handle. ok handle;
  configure = λ pool x s. s;
  ping = λ pool s. (ok tt, s);
  log_info = λ message s. message ∷ s;
}

application-Ready_example :
    Built (call_fails read_nothing (λ v. v) zap (λ name. "") [] gorm []) (hooks ∷ [])
    ↔ Ready read_nothing (λ v. v) zap (λ name. "") [] gorm []
application-Ready_example = application-Ready read_nothing (λ v. v) zap (λ name. "") [] gorm []

-- Without `SERVER_PORT` the service listens on port 3000.
register_hooks-default : register_hooks "" ≡ record {
  on_start = go_listen ":3000" ∷ info (server_started "3000") ∷ [];
  on_stop = info shutting_down ∷ shutdown_with_context ∷ [];
}
unfolding register_hooks
register_hooks-default = refl
