-- ===== src/Database.antt =====
-- pkg/database: the connections to SQL databases through gorm. mysql.go is the one that the service
-- uses. gorm and its drivers are parameters; the settings come from viper.
pub mod Stores
pub mod Connected
pub mod Answering
use test_lintaspay_backend.Common.{
  String, ℤ, pos, Option, none, some, List, [], ◌∷◌, ◌==◌, if◌then◌else◌,
}
use test_lintaspay_backend.Errors.{GoError, wrapped, ◌<>◌}
use test_lintaspay_backend.External.{Result, ok, err}

-- `viper.GetString` and `viper.GetInt`
pub record Env : Type 0 where
  pub get_string : String → String
  pub get_int : String → ℤ

pub data Dialect : Type 0 where
  mysql postgres sqlserver sqlite : Dialect

pub data LogMode : Type 0 where
  info error : LogMode

-- What the program sets on a connection pool; a lifetime is in nanoseconds.
pub data Setting : Type 0 where
  max_idle_conns max_open_conns conn_max_lifetime : ℤ → Setting

-- gorm: `Open` returns a handle beside its error, `DB()` the pool under the handle.
pub record Gorm : Type 1 where
  pub State : Type 0
  pub Handle : Type 0
  pub Pool : Type 0
  pub gorm_open : Dialect → (dsn : String) → LogMode → State → (Handle × Option GoError) × State
  pub pool_of : Handle → Result Pool
  pub configure : Pool → Setting → State → State
  pub ping : Pool → State → Result (Unit {0}) × State
  pub log_info : String → State → State

unfoldable pub log_mode : Env → LogMode
log_mode env = if env.get_string "APP_ENV" == "production" then error else info

unfoldable pub mysql_dsn : Env → String
mysql_dsn env =
    env.get_string "MYSQL_USER"
    <> ":"
    <> env.get_string "MYSQL_PASSWORD"
    <> "@tcp("
    <> env.get_string "MYSQL_HOST"
    <> ":"
    <> env.get_string "MYSQL_PORT"
    <> ")/"
    <> env.get_string "MYSQL_DATABASE"
    <> "?charset=utf8mb4&parseTime=True&loc=Local&tls="
    <> env.get_string "MYSQL_SSL_MODE"

unfoldable pub postgres_dsn : Env → String
postgres_dsn env =
    "host="
    <> env.get_string "DB_HOST"
    <> " port="
    <> env.get_string "DB_PORT"
    <> " user="
    <> env.get_string "DB_USER"
    <> " password="
    <> env.get_string "DB_PASSWORD"
    <> " dbname="
    <> env.get_string "DB_NAME"
    <> " sslmode="
    <> env.get_string "DB_SSL_MODE"

unfoldable pub mssql_dsn : Env → String
mssql_dsn env =
    "sqlserver://"
    <> env.get_string "MSSQL_USER"
    <> ":"
    <> env.get_string "MSSQL_PASSWORD"
    <> "@"
    <> env.get_string "MSSQL_HOST"
    <> ":"
    <> env.get_string "MSSQL_PORT"
    <> "?database="
    <> env.get_string "MSSQL_DATABASE"

-- `time.Hour`
abbrev pub an_hour : ℤ
an_hour = pos 3_600_000_000_000

abbrev pub postgres_settings : Env → List Setting
postgres_settings env =
    max_idle_conns (env.get_int "DB_MAX_IDLE_CONNS")
    ∷ max_open_conns (env.get_int "DB_MAX_OPEN_CONNS")
    ∷ conn_max_lifetime an_hour
    ∷ []

abbrev pub mssql_settings : Env → List Setting
mssql_settings env =
    max_idle_conns (env.get_int "MSSQL_MAX_IDLE_CONNS")
    ∷ max_open_conns (env.get_int "MSSQL_MAX_OPEN_CONNS")
    ∷ conn_max_lifetime an_hour
    ∷ []

module _ (t : Gorm) where
  abbrev pub configure_all : t.Pool → List Setting → t.State → t.State
  configure_all pool [] s = s
  configure_all pool (x ∷ xs) s = configure_all pool xs (t.configure pool x s)

  abbrev pub after_ping :
      (name connected : String) → t.Handle → Result (Unit {0}) × t.State → Result t.Handle × t.State
  after_ping name connected db (ok _, s) = (ok db, t.log_info connected s)
  after_ping name connected db (err e, s) = (err (wrapped ("failed to ping " <> name) e), s)

  -- The rest once a handle is there: its pool, the pool's settings, the ping.
  abbrev pub after_pool :
      (name connected : String)
      → List Setting
      → t.Handle
      → t.State
      → Result t.Pool
      → Result t.Handle × t.State
  after_pool name connected settings db s (ok pool) =
      after_ping name connected db (t.ping pool (configure_all pool settings s))
  after_pool name connected settings db s (err e) =
      (err (wrapped "failed to get database instance" e), s)

  -- `if err != nil { return nil, fmt.Errorf("failed to connect to …: %w", err) }`
  abbrev pub after_open :
      (name : String)
      → (t.Handle → t.State → Result t.Handle × t.State)
      → (t.Handle × Option GoError) × t.State
      → Result t.Handle × t.State
  after_open name next ((db, none), s) = next db s
  after_open name next ((db, some e), s) = (err (wrapped ("failed to connect to " <> name) e), s)

  unfoldable pub new_mysql : Env → t.State → Result t.Handle × t.State
  unfolding log_mode mysql_dsn
  new_mysql env s =
      after_open "mysql"
        (λ db s'.
          after_pool "mysql" "MySQL connected successfully" (conn_max_lifetime an_hour ∷ []) db s'
            (t.pool_of db))
        (t.gorm_open mysql (mysql_dsn env) (log_mode env) s)

  -- The error of `gorm.Open` is overwritten by the one of `db.DB()` before anything reads it.
  unfoldable pub new_postgres : Env → t.State → Result t.Handle × t.State
  unfolding log_mode postgres_dsn
  new_postgres env s =
      let ((db, _), s') = t.gorm_open postgres (postgres_dsn env) (log_mode env) s in
      after_pool "database" "Postgresql connected successfully" (postgres_settings env) db s'
        (t.pool_of db)

  unfoldable pub new_mssql : Env → t.State → Result t.Handle × t.State
  unfolding log_mode mssql_dsn
  new_mssql env s =
      after_open "mssql"
        (λ db s'.
          after_pool "mssql" "MSSQL connected successfully" (mssql_settings env) db s'
            (t.pool_of db))
        (t.gorm_open sqlserver (mssql_dsn env) (log_mode env) s)

  unfoldable pub new_sqlite : Env → t.State → Result t.Handle × t.State
  unfolding log_mode
  new_sqlite env s =
      after_open "sqlite" (λ db s'. (ok db, t.log_info "SQLite connected successfully" s'))
        (t.gorm_open sqlite (env.get_string "SQLITE_PATH") (log_mode env) s)
