-- ===== src/Tests/Database.antt =====
-- Connectors on drivers that answer, and on one whose `Open` fails.
use test_lintaspay_backend.Common.{
  String, ◌≡◌, refl, pos, none, some, List, [], ◌∷◌, ◌==◌, if◌then◌else◌,
}
use test_lintaspay_backend.Errors.{GoError, other}
use test_lintaspay_backend.External.{ok}
use test_lintaspay_backend.Database.{
  Env, Gorm, mysql, sqlserver, postgres, conn_max_lifetime, an_hour, mssql_settings,
  postgres_settings, log_mode, mysql_dsn, mssql_dsn, postgres_dsn, new_mysql, new_mssql,
  new_postgres,
}
use test_lintaspay_backend.Database.Connected.{Established, connectors-Established}
use test_lintaspay_backend.Database.Stores.{cassandra_cluster}

abbrev env : Env
env = record {
  get_string = λ name. if name == "CASSANDRA_HOSTS" then "c1,c2" else name;
  get_int = λ name. pos 5;
}

abbrev refused : GoError
refused = other "dial tcp: connection refused"

-- gorm where every `Open` fails, beside a handle whose pool answers.
abbrev failing : Gorm
failing = record {
  State = List String;
  Handle = String;
  Pool = String;
  gorm_open = λ dialect dsn mode s. (("handle", some refused), s);
  pool_of = λ handle. ok "pool";
  configure = λ pool x s. s;
  ping = λ pool s. (ok tt, s);
  log_info = λ message s. message ∷ s;
}

connectors-Established_example :
    Established failing "mysql"
      (conn_max_lifetime an_hour ∷ [])
      (failing.gorm_open mysql (mysql_dsn env) (log_mode env) [])
      (new_mysql failing env []).0
    × Established failing "mssql"
        (mssql_settings env)
        (failing.gorm_open sqlserver (mssql_dsn env) (log_mode env) [])
        (new_mssql failing env []).0
    × Established failing "database"
        (postgres_settings env)
        (
          ((failing.gorm_open postgres (postgres_dsn env) (log_mode env) []).0.0, none),
          (failing.gorm_open postgres (postgres_dsn env) (log_mode env) []).1,
        )
        (new_postgres failing env []).0
connectors-Established_example = connectors-Established failing env []

-- The failed `Open` is not reported.
ignored_open_error : (new_postgres failing env []).0 ≡ ok "handle"
unfolding new_postgres
ignored_open_error = refl

two_hosts : (cassandra_cluster env).hosts ≡ "c1" ∷ "c2" ∷ []
unfolding cassandra_cluster
two_hosts = refl
