-- ===== src/Migrate/Applied.antt =====
-- What the command has applied when it ends.
use test_lintaspay_backend.Common.{String, Bool, true, false, ◌≡◌, refl, ap, List, [], ◌∷◌, ◌++◌}
use mathlib.Core.List.{Perm, Pairwise, reverse_perm, Pairwise-reverse}
use test_lintaspay_backend.Common.Sort.{
  InOrder, InOrder-prop, sort_strings, sort_strings-Perm, sort_strings-IsSorted,
}
use mathlib.Core.List.Perm
use test_lintaspay_backend.External.{Result, ok, err}
use test_lintaspay_backend.Migrate.{
  Tools, Exit, done, fatal, Run, dsn, pattern, plan, apply_all, after_read, after_exec, after_glob,
  after_ping, after_open, after_config, migrate,
}

-- Ascending when the migrations go up, descending when they go down.
abbrev pub Ordered : Bool → List String → Type 0
Ordered true files = Pairwise (λ a b. InOrder b a) files
Ordered false files = Pairwise InOrder files

-- For both directions and every list of files: the plan has the same files, each as often, from the
-- first name to the last when the migrations go up, and from the last to the first when they go
-- down.
pub plan-Ordered :
    (down : Bool) (files : List String)
    → Perm (plan down files) files × Ordered down (plan down files)
unfolding plan
plan-Ordered false files = (sort_strings-Perm files, sort_strings-IsSorted files)
plan-Ordered true files = (
  Perm.trans (reverse_perm (sort_strings files)) (sort_strings-Perm files),
  (Pairwise-reverse {R = λ a b. InOrder b a} (λ a b. InOrder-prop b a)).1
      (sort_strings-IsSorted files),
)

module _ (t : Tools) where
  -- The files were read and their contents executed, one after the other, without an error.
  pub data Runs : List String → t.State → t.State → Type 0 where
    finished : {s : t.State} → Runs [] s s
    ran :
        {file content : String} {files : List String} {s s' s'' : t.State}
        → t.read_file file ≡ ok content
        → t.exec content s ≡ (ok tt, s')
        → Runs files s' s''
        → Runs (file ∷ files) s s''

  -- How far the command came with the files that it meant to apply.
  abbrev pub Progress : List String → t.State → Run t.State → Exit → Type 0
  Progress files s run done = (run.printed ≡ files) × Runs files s run.state
  Progress files s run (fatal message) =
      (rest : List String) × (s' : t.State) × (files ≡ run.printed ++ rest) × Runs run.printed s s'

  step :
      (file content : String) (files : List String) (s s' : t.State) (run : Run t.State) (e : Exit)
      → t.read_file file ≡ ok content
      → t.exec content s ≡ (ok tt, s')
      → Progress files s' run e
      → Progress (file ∷ files) s (record run { printed = file ∷ run.printed }) e
  step file content files s s' run done r x (p, runs) = (ap (λ l. file ∷ l) p, ran r x runs)
  step file content files s s' run (fatal m) r x (rest, s'', p, runs) =
      (rest, s'', ap (λ l. file ∷ l) p, ran r x runs)

  apply_all-Progress :
      (files : List String) (s : t.State)
      → Progress files s (apply_all t files s) (apply_all t files s).exit
  unfolding apply_all
  apply_all-Progress [] s = (refl, finished)
  apply_all-Progress (file ∷ files) s =
      from_read (λ s'. apply_all-Progress files s') (t.read_file file) refl
    where
      from_exec :
          ((s' : t.State) → Progress files s' (apply_all t files s') (apply_all t files s').exit)
          → (content : String) (r : Result (Unit {0})) (s' : t.State)
          → t.read_file file ≡ ok content
          → t.exec content s ≡ (r, s')
          → let run = after_exec t file (apply_all t files) (r, s') in
            Progress (file ∷ files) s run run.exit
      from_exec next content (ok u) s' r x =
          step file content files s s' (apply_all t files s') (apply_all t files s').exit r x
            (next s')
      from_exec next content (err e) s' r x = (file ∷ files, s, refl, finished)

      from_read :
          ((s' : t.State) → Progress files s' (apply_all t files s') (apply_all t files s').exit)
          → (r : Result String) → t.read_file file ≡ r
          → let run = after_read t file (apply_all t files) r s in
            Progress (file ∷ files) s run run.exit
      from_read next (ok content) r = from_exec next content _ _ r refl
      from_read next (err e) r = (file ∷ files, s, refl, finished)

  abbrev planned : Bool → Result (List String) → List String
  planned down (ok files) = plan down files
  planned down (err e) = []

  -- The files that the command means to apply.
  abbrev pub files_of : Bool → String → List String
  files_of down dir = planned down (t.glob (t.join dir (pattern down)))

  abbrev connected : Result (String → String) → t.State → t.State
  connected (ok env) s = (t.ping (t.sql_open (dsn env) s).1).1
  connected (err e) s = s

  -- The state in which the command starts to apply files.
  abbrev pub session : t.State → t.State
  session = connected t.load_config

  stopped :
      (files : List String) (s : t.State)
      → (rest : List String) × (s' : t.State) × (files ≡ rest) × Runs [] s s'
  stopped files s = (files, s, refl, finished)

  from_glob :
      (down : Bool) (dir : String) (r : Result (List String)) (s : t.State)
      → let run = after_glob t down dir r s in Progress (planned down r) s run run.exit
  from_glob down dir (err e) s = stopped _ s
  from_glob down dir (ok []) s = stopped _ s
  from_glob down dir (ok (file ∷ files)) s = apply_all-Progress (plan down (file ∷ files)) s

  from_ping :
      (down : Bool) (dir : String) (r : Result (Unit {0}) × t.State)
      → let run = after_ping t down dir r in Progress (files_of down dir) r.1 run run.exit
  from_ping down dir (ok u, s) = from_glob down dir (t.glob (t.join dir (pattern down))) s
  from_ping down dir (err e, s) = stopped _ s

  from_open :
      (down : Bool) (dir : String) (r : Result (Unit {0}) × t.State)
      → let run = after_open t down dir r in
        Progress (files_of down dir) (t.ping r.1).1 run run.exit
  from_open down dir (ok u, s) = from_ping down dir (t.ping s)
  from_open down dir (err e, s) = stopped _ _

  from_config :
      (down : Bool) (dir : String) (r : Result (String → String)) (s : t.State)
      → let run = after_config t down dir r s in
        Progress (files_of down dir) (connected r s) run run.exit
  unfolding dsn
  from_config down dir (ok env) s = from_open down dir (t.sql_open (dsn env) s)
  from_config down dir (err e) s = stopped _ s

  -- For both directions, every folder and state, and whatever the configuration, the database and
  -- the file system answer: the files that the command reports as applied were read and executed in
  -- the order of its plan, without a gap, from the state after the connection; if it ends normally,
  -- they are the whole plan, and the state is the one that they lead to; if it stops with a message,
  -- they are the plan's first files.
  pub migrate-Progress :
      (down : Bool) (dir : String) (s : t.State)
      → Progress (files_of down dir) (session s) (migrate t down dir s) (migrate t down dir s).exit
  unfolding migrate
  migrate-Progress down dir s = from_config down dir t.load_config s
