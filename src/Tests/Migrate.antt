-- ===== src/Tests/Migrate.antt =====
-- The migration command in a folder with two files of each direction.
use test_lintaspay_backend.Common.{
  String, true, false, ◌≡◌, ◌↔◌, refl, List, [], ◌∷◌, ◌==◌, if◌then◌else◌,
}
use mathlib.Core.List.{Perm}
use test_lintaspay_backend.External.{ok}
use test_lintaspay_backend.Migrate.{Tools, done, plan, migrate}
use test_lintaspay_backend.Migrate.Applied.{
  Ordered, plan-Ordered, Progress, files_of, session, migrate-Progress,
}
use test_lintaspay_backend.Migrate.Completion.{Needs, migrate-Completed}

abbrev up_files : List String
up_files = "m/002.up.sql" ∷ "m/001.up.sql" ∷ []

-- A database that keeps what it executed, the newest first.
abbrev tools : Tools
tools = record {
  State = List String;
  load_config = ok (λ name. name);
  sql_open = λ dsn s. (ok tt, s);
  ping = λ s. (ok tt, s);
  exec = λ content s. (ok tt, content ∷ s);
  join = λ dir pattern. pattern;
  glob = λ pattern.
      ok (if pattern == "*.up.sql" then up_files else "m/001.down.sql" ∷ "m/002.down.sql" ∷ []);
  read_file = λ file. ok file;
}

plan-Ordered_example : Perm (plan true up_files) up_files × Ordered true (plan true up_files)
plan-Ordered_example = plan-Ordered true up_files

applied_in_order : (migrate tools false "m" []).state ≡ up_files
unfolding migrate
applied_in_order = refl

applied_backwards : (migrate tools true "m" []).printed ≡ "m/002.down.sql" ∷ "m/001.down.sql" ∷ []
unfolding migrate
applied_backwards = refl

migrate-Progress_example :
    Progress tools
      (files_of tools false "m")
      (session tools [])
      (migrate tools false "m" [])
      (migrate tools false "m" []).exit
migrate-Progress_example = migrate-Progress tools false "m" []

migrate-Completed_example : ((migrate tools false "m" []).exit ≡ done) ↔ (
    (n : Needs tools false "m" []) × ((migrate tools false "m" []).printed
      ≡ plan false (n.file ∷ n.files)))
migrate-Completed_example = migrate-Completed tools false "m" []
