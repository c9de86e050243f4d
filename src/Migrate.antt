-- ===== src/Migrate.antt =====
-- cmd/migrate/main.go: the command that applies the files of a folder to the database, in order.
pub mod Applied
pub mod Completion
use test_lintaspay_backend.Common.{String, Bool, List, [], ◌∷◌, if◌then◌else◌}
use mathlib.Core.List.{reverse}
use test_lintaspay_backend.Common.Sort.{sort_strings}
use test_lintaspay_backend.Errors.{GoError, error_text, ◌<>◌}
use test_lintaspay_backend.External.{Result, ok, err}

-- What the command calls: the configuration, `sql.Open`, `Ping` and `Exec` on the connection's side
-- of the database, `filepath.Join` and `Glob`, and `os.ReadFile`.
pub record Tools : Type 1 where
  pub State : Type 0
  pub load_config : Result (String → String)
  pub sql_open : (dsn : String) → State → Result (Unit {0}) × State
  pub ping : State → Result (Unit {0}) × State
  pub exec : String → State → Result (Unit {0}) × State
  pub join : String → String → String
  pub glob : String → Result (List String)
  pub read_file : String → Result String

-- How the command ends: normally, or by `log.Fatalf` with a message.
pub data Exit : Type 0 where
  done : Exit
  fatal : String → Exit

-- With the files that it reported as applied, in order.
pub record Run (State : Type 0) : Type 0 where
  pub exit : Exit
  pub printed : List String
  pub state : State

unfoldable pub dsn : (String → String) → String
dsn get_string =
    get_string "MYSQL_USER"
    <> ":"
    <> get_string "MYSQL_PASSWORD"
    <> "@tcp("
    <> get_string "MYSQL_HOST"
    <> ":"
    <> get_string "MYSQL_PORT"
    <> ")/"
    <> get_string "MYSQL_DATABASE"
    <> "?multiStatements=true&parseTime=true"

abbrev pub pattern : Bool → String
pattern down = if down then "*.down.sql" else "*.up.sql"

-- The files in the order of their application.
unfoldable pub plan : Bool → List String → List String
unfolding sort_strings
plan down files = let sorted = sort_strings files in if down then reverse sorted else sorted

module _ (t : Tools) where
  abbrev pub stop : String → GoError → t.State → Run t.State
  stop message e s = record {
    exit = fatal (message <> ": " <> error_text e);
    printed = [];
    state = s;
  }

  abbrev pub report : String → Run t.State → Run t.State
  report file run = record run { printed = file ∷ run.printed }

  abbrev pub after_exec :
      String → (t.State → Run t.State) → Result (Unit {0}) × t.State → Run t.State
  after_exec file next (ok _, s) = report file (next s)
  after_exec file next (err e, s) = stop ("failed to apply " <> file) e s

  abbrev pub after_read : String → (t.State → Run t.State) → Result String → t.State → Run t.State
  after_read file next (ok content) s = after_exec file next (t.exec content s)
  after_read file next (err e) s = stop ("failed to read " <> file) e s

  -- The loop over the files.
  unfoldable pub apply_all : List String → t.State → Run t.State
  apply_all [] s = record { exit = done; printed = []; state = s }
  apply_all (file ∷ files) s = after_read file (apply_all files) (t.read_file file) s

  abbrev pub after_glob : Bool → String → Result (List String) → t.State → Run t.State
  after_glob down dir (err e) s = stop "failed to list migration files" e s
  after_glob down dir (ok []) s = record {
    exit = fatal ("no " <> pattern down <> " files found in " <> dir);
    printed = [];
    state = s;
  }
  after_glob down dir (ok (file ∷ files)) s = apply_all (plan down (file ∷ files)) s

  abbrev pub after_ping : Bool → String → Result (Unit {0}) × t.State → Run t.State
  after_ping down dir (err e, s) = stop "failed to ping database" e s
  after_ping down dir (ok _, s) = after_glob down dir (t.glob (t.join dir (pattern down))) s

  abbrev pub after_open : Bool → String → Result (Unit {0}) × t.State → Run t.State
  after_open down dir (err e, s) = stop "failed to open database" e s
  after_open down dir (ok _, s) = after_ping down dir (t.ping s)

  abbrev pub after_config : Bool → String → Result (String → String) → t.State → Run t.State
  after_config down dir (err e) s = stop "failed to load config" e s
  after_config down dir (ok env) s = after_open down dir (t.sql_open (dsn env) s)

  -- `main`, with the flags `-down` and `-dir`.
  unfoldable pub migrate : Bool → String → t.State → Run t.State
  unfolding dsn plan apply_all error_text
  migrate down dir s = after_config down dir t.load_config s
