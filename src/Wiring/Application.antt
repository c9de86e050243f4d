-- ===== src/Wiring/Application.antt =====
-- cmd/api/server.go: the application with its three calls that can fail, each against the services
-- that it calls: viper for the configuration, zap for the logger, gorm for the database.
use test_lintaspay_backend.Common.{String, ◌≡◌, refl, ◌↔◌, Bool, true, false, List, [], ◌∷◌}
use test_lintaspay_backend.Config.{ReadOutcome, new_viper_from_env}
use test_lintaspay_backend.Database.{Gorm, Env, new_mysql}
use test_lintaspay_backend.External.{Result, ok, err}
use test_lintaspay_backend.Logger.{Zap, new_zap_logger}
use test_lintaspay_backend.Wiring.{Component, config, logger, database, hooks, Built}
use test_lintaspay_backend.Wiring.Starting.{hooks-Built}

abbrev is_error : {A : Type 0} → Result A → Bool
is_error (ok a) = false
is_error (err e) = true

is_error-ok : {A : Type 0} (r : Result A) → is_error r ≡ false → (a : A) × (r ≡ ok a)
is_error-ok (ok a) h = (a, refl)
is_error-ok (err e) h = cc

module _ {Viper : Type 0} (read_in_config : String → String → List String → Viper × ReadOutcome)
    (env_of : Viper → Env) (z : Zap) (getenv : String → String) (log_state : z.State) (t : Gorm)
    (db_state : t.State) where
  -- The connection, for the configuration that fx has built.
  abbrev pub connects : Result Viper → Bool
  connects (ok v) = is_error (new_mysql t (env_of v) db_state).0
  connects (err e) = false

  -- Which calls return an error. The others have no error to return.
  unfoldable pub call_fails : Component → Bool
  unfolding new_viper_from_env new_zap_logger new_mysql
  call_fails config = is_error (new_viper_from_env read_in_config)
  call_fails logger = is_error (new_zap_logger z getenv log_state).0
  call_fails database = connects (new_viper_from_env read_in_config)
  call_fails _ = false

  -- The service gets ready.
  pub record Ready : Type 0 where
    pub config_file : Viper
    pub log : z.ZapLogger
    pub db : t.Handle
    pub configured : new_viper_from_env read_in_config ≡ ok config_file
    pub logging : (new_zap_logger z getenv log_state).0 ≡ ok log
    pub connected : (new_mysql t (env_of config_file) db_state).0 ≡ ok db

  all_ok :
      call_fails config ≡ false → call_fails logger ≡ false → call_fails database ≡ false → Ready
  unfolding call_fails
  all_ok c l d =
      let (v, configured) = is_error-ok (new_viper_from_env read_in_config) c in
      let (log, logging) = is_error-ok (new_zap_logger z getenv log_state).0 l in
      let (db, connected) = is_error-ok (new_mysql t (env_of v) db_state).0 (rw configured at d) in
      record {
        config_file = v;
        log = log;
        db = db;
        configured = configured;
        logging = logging;
        connected = connected;
      }

  none_fails :
      Ready
      → (call_fails config ≡ false) × (call_fails logger ≡ false) × (call_fails database ≡ false)
  unfolding call_fails
  none_fails r = (rw r.configured refl, rw r.logging refl, rw (r.configured, r.connected) refl)

  -- The hooks of the server are reached exactly if the configuration can be read, or has no file,
  -- the logger is built, and MySQL, with the settings of that configuration, opens and answers.
  pub application-Ready : Built call_fails (hooks ∷ []) ↔ Ready
  application-Ready =
      let (forward, back) = hooks-Built call_fails in
      ((λ b. let (c, l, d) = forward b in all_ok c l d), (λ r. back (none_fails r)))
