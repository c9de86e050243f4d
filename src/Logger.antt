-- ===== src/Logger.antt =====
-- pkg/logger: the choice of zap's configuration, the logger around zap's, and the fields that tie a
-- log line to its request. zap itself is a parameter.
pub mod Format
use test_lintaspay_backend.Common.{
  ℕ, String, ◌||◌, Option, List, [], ◌∷◌, ◌++◌, map, ◌==◌, if◌then◌else◌,
}
use test_lintaspay_backend.Errors.{GoError}
use test_lintaspay_backend.External.{Result, ok, err}
use test_lintaspay_backend.Reqctx.{Context, request_id, username}

pub record Config : Type 0 where
  pub environment : String
  pub log_level : String
  pub output_path : String
  pub format : String

pub data Level : Type 0 where
  debug info warn error : Level

-- `EncodeLevel`; `preset` is the one of `zap.NewProductionConfig`.
pub data LevelEncoder : Type 0 where
  preset capital_color lowercase : LevelEncoder

pub data TimeEncoder : Type 0 where
  iso8601 : TimeEncoder

pub data CallerEncoder : Type 0 where
  short_caller : CallerEncoder

-- The settings of `zap.Config` that the program chooses.
pub record ZapConfig : Type 0 where
  pub encoding : String
  pub encode_level : LevelEncoder
  pub level : Level
  pub time_key : String
  pub encode_time : TimeEncoder
  pub caller_key : String
  pub encode_caller : CallerEncoder
  pub output_paths : List String
  pub error_output_paths : List String

-- The options that `Build` is called with.
pub data BuildOption : Type 0 where
  add_caller : BuildOption
  add_caller_skip : ℕ → BuildOption
  add_stacktrace : Level → BuildOption

-- The methods of a logger; zap ends the process after `Fatal`, and panics after `Panic`.
pub data Severity : Type 0 where
  at : Level → Severity
  fatal panic : Severity

-- zap: `Build`, a logger's methods, `With` and `Sync`. Writing a line does not return where the
-- process ends or panics.
pub record Zap : Type 1 where
  pub ZapLogger : Type 0
  pub Field : Type 0
  pub State : Type 0
  pub build : ZapConfig → List BuildOption → State → Result ZapLogger × State
  pub write : Severity → ZapLogger → String → List Field → State → Option State
  pub string : String → String → Field
  pub with_fields : ZapLogger → List Field → ZapLogger
  pub sync : ZapLogger → State → Option GoError × State

-- The base of the configuration, by environment.
abbrev base_encoding : String → String
base_encoding environment = if environment == "production" then "json" else "console"

abbrev base_encoder : String → LevelEncoder
base_encoder environment = if environment == "production" then preset else capital_color

unfoldable pub parse_level : String → Level
parse_level s =
    if s == "debug"
    then debug
    else if s == "info"
    then info
    else if s == "warn"
    then warn
    else if s == "error"
    then error
    else info

-- The configuration that `NewLogger` builds.
unfoldable pub zap_config : Config → ZapConfig
unfolding parse_level
zap_config c = record {
  encoding =
      if c.format == "json" || c.format == "console" then c.format else base_encoding c.environment;
  encode_level = if c.format == "json" then lowercase else base_encoder c.environment;
  level = parse_level c.log_level;
  time_key = "timestamp";
  encode_time = iso8601;
  caller_key = "caller";
  encode_caller = short_caller;
  output_paths =
      if c.output_path == "" || c.output_path == "stdout"
      then "stdout" ∷ []
      else c.output_path ∷ [];
  error_output_paths = "stderr" ∷ [];
}

-- What `NewDefaultLogger` reads from `APP_ENV`, `LOG_LEVEL` and `LOG_FORMAT`.
unfoldable pub default_config : String → String → String → Config
default_config app_env log_level log_format = record {
  environment = if app_env == "" then "development" else app_env;
  log_level = if log_level == "" then "info" else log_level;
  output_path = "stdout";
  format = log_format;
}

module _ (z : Zap) where
  -- `Logger`, around zap's
  pub record Logger : Type 0 where
    pub zap_logger : z.ZapLogger

  abbrev wrap : Result z.ZapLogger × z.State → Result Logger × z.State
  wrap (ok l, s) = (ok (record { zap_logger = l }), s)
  wrap (err e, s) = (err e, s)

  unfoldable pub new_logger : Config → z.State → Result Logger × z.State
  unfolding zap_config
  new_logger c s =
      wrap (z.build (zap_config c) (add_caller ∷ add_caller_skip 1 ∷ add_stacktrace error ∷ []) s)

  unfoldable pub debug_line : Logger → String → List z.Field → z.State → Option z.State
  debug_line l message fields = z.write (at debug) l.zap_logger message fields

  unfoldable pub info_line : Logger → String → List z.Field → z.State → Option z.State
  info_line l message fields = z.write (at info) l.zap_logger message fields

  unfoldable pub warn_line : Logger → String → List z.Field → z.State → Option z.State
  warn_line l message fields = z.write (at warn) l.zap_logger message fields

  unfoldable pub error_line : Logger → String → List z.Field → z.State → Option z.State
  error_line l message fields = z.write (at error) l.zap_logger message fields

  unfoldable pub fatal_line : Logger → String → List z.Field → z.State → Option z.State
  fatal_line l message fields = z.write fatal l.zap_logger message fields

  unfoldable pub panic_line : Logger → String → List z.Field → z.State → Option z.State
  panic_line l message fields = z.write panic l.zap_logger message fields

  unfoldable pub with_fields : List z.Field → Logger → Logger
  with_fields fields l = record { zap_logger = z.with_fields l.zap_logger fields }

  unfoldable pub sync : Logger → z.State → Option GoError × z.State
  sync l = z.sync l.zap_logger

  -- `getenv` is `os.Getenv`, which is empty for a variable that is not set.
  module _ (getenv : String → String) where
    unfoldable pub new_default_logger : z.State → Result Logger × z.State
    unfolding default_config new_logger
    new_default_logger =
        new_logger (default_config (getenv "APP_ENV") (getenv "LOG_LEVEL") (getenv "LOG_FORMAT"))

    abbrev unwrap : Result Logger × z.State → Result z.ZapLogger × z.State
    unwrap (ok l, s) = (ok l.zap_logger, s)
    unwrap (err e, s) = (err e, s)

    unfoldable pub new_zap_logger : z.State → Result z.ZapLogger × z.State
    unfolding new_default_logger
    new_zap_logger s = unwrap (new_default_logger s)

-- The fields of `WithCtx`: they stand on every line of a request.
abbrev pub ctx_fields : Context → List (String × String)
ctx_fields ctx =
    (if request_id ctx == "" then [] else ("request_id", request_id ctx) ∷ [])
    ++ (if username ctx == "" then [] else ("user", username ctx) ∷ [])

abbrev attach : (z : Zap) → z.ZapLogger → List (String × String) → z.ZapLogger
attach z l [] = l
attach z l (f ∷ fs) = z.with_fields l (map (λ x. z.string x.0 x.1) (f ∷ fs))

unfoldable pub with_ctx : (z : Zap) → Context → z.ZapLogger → z.ZapLogger
unfolding request_id username
with_ctx z ctx l = attach z l (ctx_fields ctx)
