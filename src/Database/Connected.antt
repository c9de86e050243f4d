-- ===== src/Database/Connected.antt =====
-- When a connection is handed out, and what an error says.
use test_lintaspay_backend.Common.{
  String, ◌≡◌, refl, ap, Option, none, some, List, [], ◌∷◌, ◌⊎◌, inl, inr,
}
use test_lintaspay_backend.Errors.{GoError, wrapped, ◌<>◌}
use test_lintaspay_backend.External.{Result, ok, err}
use test_lintaspay_backend.Database.{
  Gorm, Env, Setting, mysql, postgres, sqlserver, conn_max_lifetime, log_mode, mysql_dsn,
  postgres_dsn, mssql_dsn, postgres_settings, mssql_settings, an_hour, configure_all, after_ping,
  after_pool, after_open, new_mysql, new_postgres, new_mssql,
}

module _ (t : Gorm) where
  -- What a connector's result says, for what `gorm.Open` returned, in the state after it: of an
  -- error, which step failed and with what cause; of a handle, that no step did.
  abbrev pub Established :
      (name : String)
      → List Setting
      → (t.Handle × Option GoError) × t.State
      → Result t.Handle
      → Type 0
  Established name settings ((db, some open_error), s) r =
      r ≡ err (wrapped ("failed to connect to " <> name) open_error)
  Established name settings ((db, none), s) (err e) =
      ((cause : GoError) × (t.pool_of db ≡ err cause)
        × (e ≡ wrapped "failed to get database instance" cause))
      ⊎ (pool : t.Pool) × (cause : GoError) × (t.pool_of db ≡ ok pool)
        × ((t.ping pool (configure_all t pool settings s)).0 ≡ err cause)
        × (e ≡ wrapped ("failed to ping " <> name) cause)
  Established name settings ((db, none), s) (ok db') =
      (pool : t.Pool) × (db' ≡ db)
      × (t.pool_of db ≡ ok pool)
      × ((t.ping pool (configure_all t pool settings s)).0 ≡ ok tt)

  module _ (name connected : String) (settings : List Setting) (db : t.Handle) (s : t.State) where
    pinged :
        (pool : t.Pool) (r : Result (Unit {0}) × t.State)
        → t.pool_of db ≡ ok pool
        → t.ping pool (configure_all t pool settings s) ≡ r
        → Established name settings ((db, none), s) (after_ping t name connected db r).0
    pinged pool (ok u, s') p r = (pool, refl, p, ap (λ x. x.0) r)
    pinged pool (err e, s') p r = inr (pool, e, p, ap (λ x. x.0) r, refl)

    pooled :
        (r : Result t.Pool)
        → t.pool_of db ≡ r
        → Established name settings ((db, none), s) (after_pool t name connected settings db s r).0
    pooled (ok pool) p = pinged pool _ p refl
    pooled (err e) p = inl (e, p, refl)

  opened :
      (name connected : String) (settings : List Setting)
      (r : (t.Handle × Option GoError) × t.State)
      → Established name settings r
          (after_open t name
            (λ db s'. after_pool t name connected settings db s' (t.pool_of db))
            r).0
  opened name connected settings ((db, none), s) = pooled name connected settings db s _ refl
  opened name connected settings ((db, some e), s) = refl

  -- Whatever gorm and the environment answer, for MySQL and SQL Server: if `gorm.Open` returned an
  -- error, the connector returns that error, wrapped as a failed connection; if it returned none, the
  -- connector returns the handle only if that has a pool and the pool, once configured, answered a
  -- ping, and otherwise the error of the step that failed, wrapped with that step. For PostgreSQL the
  -- result is as if `gorm.Open` had returned no error, whether it did or not.
  pub connectors-Established :
      (env : Env) (s : t.State)
      → Established "mysql"
          (conn_max_lifetime an_hour ∷ [])
          (t.gorm_open mysql (mysql_dsn env) (log_mode env) s)
          (new_mysql t env s).0
        × Established "mssql"
            (mssql_settings env)
            (t.gorm_open sqlserver (mssql_dsn env) (log_mode env) s)
            (new_mssql t env s).0
        × Established "database"
            (postgres_settings env)
            (
              ((t.gorm_open postgres (postgres_dsn env) (log_mode env) s).0.0, none),
              (t.gorm_open postgres (postgres_dsn env) (log_mode env) s).1,
            )
            (new_postgres t env s).0
  unfolding new_mysql new_mssql new_postgres
  connectors-Established env s = (
    opened "mysql" "MySQL connected successfully" (conn_max_lifetime an_hour ∷ [])
        (t.gorm_open mysql (mysql_dsn env) (log_mode env) s),
    opened "mssql" "MSSQL connected successfully" (mssql_settings env)
        (t.gorm_open sqlserver (mssql_dsn env) (log_mode env) s),
    pooled "database" "Postgresql connected successfully" (postgres_settings env) _
        (t.gorm_open postgres (postgres_dsn env) (log_mode env) s).1 _ refl,
  )
