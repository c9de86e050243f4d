-- ===== src/Migrate/Completion.antt =====
-- When the command applies everything.
use test_lintaspay_backend.Common.{String, Bool, ◌≡◌, refl, sym, ap, subst, ◌↔◌, List, [], ◌∷◌}
use test_lintaspay_backend.External.{Result, ok, err}
use test_lintaspay_backend.Migrate.{
  Tools, done, Run, dsn, pattern, plan, apply_all, after_read, after_exec, after_glob, after_ping,
  after_open, after_config, migrate,
}

module _ (t : Tools) where
  -- The files can be read, and the database executes their contents, one after the other, each in
  -- the state that the one before it left.
  abbrev pub Applies : List String → t.State → Type 0
  Applies [] s = Unit
  Applies (file ∷ files) s =
      (content : String) × (t.read_file file ≡ ok content)
      × ((t.exec content s).0 ≡ ok tt)
      × Applies files (t.exec content s).1

  -- What the command needs: the configuration, a connection, a ping, files of the direction, and that
  -- the plan for them applies.
  pub record Needs (down : Bool) (dir : String) (s : t.State) : Type 0 where
    pub env : String → String
    pub file : String
    pub files : List String
    pub config : t.load_config ≡ ok env
    pub opened : (t.sql_open (dsn env) s).0 ≡ ok tt
    pub pinged : (t.ping (t.sql_open (dsn env) s).1).0 ≡ ok tt
    pub found : t.glob (t.join dir (pattern down)) ≡ ok (file ∷ files)
    pub applies : Applies (plan down (file ∷ files)) (t.ping (t.sql_open (dsn env) s).1).1

  abbrev Completed : List String → Run t.State → Type 0
  Completed files run = (run.exit ≡ done) × (run.printed ≡ files)

  apply_all-Completed :
      (files : List String) (s : t.State) → Applies files s → Completed files (apply_all t files s)
  unfolding apply_all
  apply_all-Completed [] s a = (refl, refl)
  apply_all-Completed (file ∷ files) s (content, r, runs, rest) =
      let s' = (t.exec content s).1 in
      let (e, p) = apply_all-Completed files s' rest in
      let next = apply_all t files in
      let whole : Completed (file ∷ files) (after_exec t file next (ok tt, s')) =
        (e, ap (λ l. file ∷ l) p) in
      subst (λ x. Completed (file ∷ files) (after_read t file next x s)) (sym r)
        (subst (λ x. Completed (file ∷ files) (after_exec t file next (x, s'))) (sym runs) whole)

  module _ (file : String) (files : List String) (s : t.State)
      (rest : (s : t.State) → (apply_all t files s).exit ≡ done → Applies files s) where
    executed :
        (content : String) (r : Result (Unit {0}) × t.State)
        → t.read_file file ≡ ok content
        → t.exec content s ≡ r
        → (after_exec t file (apply_all t files) r).exit ≡ done
        → Applies (file ∷ files) s
    executed content (ok u, s') r e h = (content, r, ap (λ x. x.0) e, rw e (rest s' h))
    executed content (err x, s') r e h = cc

    readable :
        (r : Result String)
        → t.read_file file ≡ r
        → (after_read t file (apply_all t files) r s).exit ≡ done
        → Applies (file ∷ files) s
    readable (ok content) r h = executed content _ r refl h
    readable (err x) r h = cc

  apply_all-Applies :
      (files : List String) (s : t.State) → (apply_all t files s).exit ≡ done → Applies files s
  unfolding apply_all
  apply_all-Applies [] s h = tt
  apply_all-Applies (file ∷ files) s h = readable file files s (apply_all-Applies files) _ refl h

  module _ (down : Bool) (dir : String) (s : t.State) where
    listed :
        (env : String → String) (r : Result (List String))
        → t.load_config ≡ ok env
        → (t.sql_open (dsn env) s).0 ≡ ok tt
        → (t.ping (t.sql_open (dsn env) s).1).0 ≡ ok tt
        → t.glob (t.join dir (pattern down)) ≡ r
        → (after_glob t down dir r (t.ping (t.sql_open (dsn env) s).1).1).exit ≡ done
        → Needs down dir s
    listed env (ok (file ∷ files)) c o p g h = record {
      env = env;
      file = file;
      files = files;
      config = c;
      opened = o;
      pinged = p;
      found = g;
      applies = apply_all-Applies (plan down (file ∷ files)) _ h;
    }
    listed env (ok []) c o p g h = cc
    listed env (err x) c o p g h = cc

    answering :
        (env : String → String) (r : Result (Unit {0}) × t.State)
        → t.load_config ≡ ok env
        → (t.sql_open (dsn env) s).0 ≡ ok tt
        → t.ping (t.sql_open (dsn env) s).1 ≡ r
        → (after_ping t down dir r).exit ≡ done
        → Needs down dir s
    answering env (ok u, s') c o p h = listed env _ c o (ap (λ x. x.0) p) refl (
        subst (λ x. (after_glob t down dir (t.glob (t.join dir (pattern down))) x).exit ≡ done)
          (sym (ap (λ x. x.1) p)) h)
    answering env (err x, s') c o p h = cc

    connected :
        (env : String → String) (r : Result (Unit {0}) × t.State)
        → t.load_config ≡ ok env
        → t.sql_open (dsn env) s ≡ r
        → (after_open t down dir r).exit ≡ done
        → Needs down dir s
    connected env (ok u, s') c o h =
        answering env _ c (ap (λ x. x.0) o) refl
          (subst (λ x. (after_ping t down dir (t.ping x)).exit ≡ done) (sym (ap (λ x. x.1) o)) h)
    connected env (err x, s') c o h = cc

    configured :
        (r : Result (String → String))
        → t.load_config ≡ r
        → (after_config t down dir r s).exit ≡ done
        → Needs down dir s
    configured (ok env) c h = connected env _ c refl h
    configured (err x) c h = cc

    migrate-Needs : (migrate t down dir s).exit ≡ done → Needs down dir s
    unfolding migrate
    migrate-Needs h = configured _ refl h

    Needs-Completed :
        (n : Needs down dir s) → Completed (plan down (n.file ∷ n.files)) (migrate t down dir s)
    unfolding migrate
    Needs-Completed n =
        let steps = plan down (n.file ∷ n.files) in
        let s' = (t.sql_open (dsn n.env) s).1 in
        let s'' = (t.ping s').1 in
        subst (λ x. Completed steps (after_config t down dir x s)) (sym n.config)
          (subst (λ x. Completed steps (after_open t down dir (x, s'))) (sym n.opened)
            (subst (λ x. Completed steps (after_ping t down dir (x, s''))) (sym n.pinged)
              (subst (λ x. Completed steps (after_glob t down dir x s'')) (sym n.found)
                (apply_all-Completed steps s'' n.applies))))

  -- For both directions, every folder and state, whatever the tools answer: the command ends
  -- normally exactly if the configuration loads, the database answers the connection and the ping,
  -- the folder has files of the direction, and each file of the plan can be read and is executed
  -- without an error in the state that the files before it left; it has then applied its whole plan.
  pub migrate-Completed :
      (down : Bool) (dir : String) (s : t.State)
      → ((migrate t down dir s).exit ≡ done)
        ↔ ((n : Needs down dir s) × ((migrate t down dir s).printed ≡ plan down (n.file ∷ n.files)))
  migrate-Completed down dir s = (
    (λ h. let n = migrate-Needs down dir s h in (n, (Needs-Completed down dir s n).1)),
    (λ x. (Needs-Completed down dir s x.0).0),
  )
