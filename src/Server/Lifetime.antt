-- ===== src/Server/Lifetime.antt =====
-- pkg/server/fiber.go, RegisterHooks: what holds of the service in every interleaving of its hooks
-- with the goroutine that listens.
use Prim.Native.String
use test_lintaspay_backend.Common.{
  ℕ, String, ◌≡◌, refl, sym, ◌⊎◌, inl, inr, Bool, true, false, Option, none, some, List, [], ◌∷◌,
  ◌++◌, subst,
}
use test_lintaspay_backend.Errors.{GoError}
use test_lintaspay_backend.Server.Hooks.{
  Note, server_started, failed_to_start, shutting_down, Command, go_listen, info,
  shutdown_with_context, server_port, register_hooks, Stage, starting, running, stopping, stopped,
  Listener, absent, listening, ended, Process, perform, at_stage, fatal, Step, starts, started,
  interrupted, stops, done, listen_returns, dies, Reach, here, next,
}

-- The table of the stages: whether the goroutine is launched, whether the app is closed, and the
-- lines of the log.
module _ (port : String) where
  abbrev pub address : String
  address = String.◌++◌ ":" (server_port port)

  abbrev pub began : Note
  began = server_started (server_port port)

  pub data Row : Stage → Bool → Bool → List Note → Type 0 where
    fresh : Row (starting (go_listen address ∷ info began ∷ [])) false false []
    spawned : Row (starting (info began ∷ [])) true false []
    logged : Row (starting []) true false (began ∷ [])
    up : Row running true false (began ∷ [])
    told : Row (stopping (info shutting_down ∷ shutdown_with_context ∷ [])) true false (began ∷ [])
    announced : Row (stopping (shutdown_with_context ∷ [])) true false (began ∷ shutting_down ∷ [])
    closed : Row (stopping []) true true (began ∷ shutting_down ∷ [])
    over : (r : Option GoError) → Row (stopped r) true true (began ∷ shutting_down ∷ [])

  -- The goroutine, once launched, listens on the port, unless `Listen` has returned: with an error, or
  -- after the app was closed.
  pub data Goroutine : Bool → Bool → Listener → Type 0 where
    idle : {k : Bool} → Goroutine false k absent
    serving : {k : Bool} → Goroutine true k (listening address)
    failed : {k : Bool} (e : GoError) → Goroutine true k (ended (some e))
    finished : Goroutine true true (ended none)

  pub data IsLawful (p : Process) : Type 0 where
    alive :
        {u : Bool}
        → p.exit_code ≡ none
        → Row p.stage u p.is_closed p.lines
        → Goroutine u p.is_closed p.listener
        → IsLawful p
    dead :
        {e : GoError} {before : List Note}
        → p.exit_code ≡ some 1
        → p.listener ≡ ended (some e)
        → Row p.stage true p.is_closed before
        → p.lines ≡ before ++ failed_to_start e ∷ []
        → IsLawful p

  Goroutine-close : {k : Bool} {l : Listener} → Goroutine true k l → Goroutine true true l
  Goroutine-close serving = serving
  Goroutine-close (failed e) = failed e
  Goroutine-close finished = finished

  module _ (may_return : Bool → Option GoError → Type 0)
      (nil_closed : (k : Bool) → may_return k none → k ≡ true) where
    -- One command of a hook, for a process with these fields.
    abbrev process : Stage → Listener → Bool → List Note → Option ℕ → Process
    process s l k lines x = record {
      stage = s;
      listener = l;
      is_closed = k;
      lines = lines;
      exit_code = x;
    }

    starts-IsLawful :
        {c : Command} {cs : List Command} {l : Listener} {u k : Bool} {lines : List Note}
        {x : Option ℕ} (s : Stage)
        → x ≡ none
        → Row (starting (c ∷ cs)) u k lines
        → Goroutine u k l
        → IsLawful (at_stage (starting cs) (perform c (process s l k lines x)))
    unfolding perform
    starts-IsLawful s a fresh g = alive a spawned serving
    starts-IsLawful s a spawned g = alive a logged g

    stops-IsLawful :
        {c : Command} {cs : List Command} {l : Listener} {u k : Bool} {lines : List Note}
        {x : Option ℕ} (s : Stage)
        → x ≡ none
        → Row (stopping (c ∷ cs)) u k lines
        → Goroutine u k l
        → IsLawful (at_stage (stopping cs) (perform c (process s l k lines x)))
    unfolding perform
    stops-IsLawful s a told g = alive a announced g
    stops-IsLawful s a announced g = alive a closed (Goroutine-close g)

    started-up :
        {u k : Bool} {lines : List Note} → Row (starting []) u k lines → Row running u k lines
    started-up logged = up

    up-told :
        {u k : Bool} {lines : List Note}
        → Row running u k lines
        → Row (stopping (register_hooks port).on_stop) u k lines
    unfolding register_hooks
    up-told up = told

    closed-over :
        {u k : Bool} {lines : List Note} (r : Option GoError)
        → Row (stopping []) u k lines
        → Row (stopped r) u k lines
    closed-over r closed = over r

    returned-Goroutine :
        {a : String} {u k : Bool} (r : Option GoError)
        → may_return k r
        → Goroutine u k (listening a)
        → Goroutine u k (ended r)
    returned-Goroutine none m serving =
        subst (λ k. Goroutine true k (ended none)) (sym (nil_closed _ m)) finished
    returned-Goroutine (some e) m serving = failed e

    failed-launched : {e : GoError} {u k : Bool} → Goroutine u k (ended (some e)) → u ≡ true
    failed-launched (failed e) = refl

    -- A step of a process that has not exited.
    Step-alive :
        {p q : Process} {u : Bool}
        → Step may_return (register_hooks port) p q
        → Row p.stage u p.is_closed p.lines
        → Goroutine u p.is_closed p.listener
        → IsLawful q
    unfolding fatal
    Step-alive (starts a s) row g = starts-IsLawful _ a (rw s at row) g
    Step-alive (started a s) row g = alive a (started-up (rw s at row)) g
    Step-alive (interrupted a s) row g = alive a (up-told (rw s at row)) g
    Step-alive (stops a s) row g = stops-IsLawful _ a (rw s at row) g
    Step-alive (done r a s) row g = alive a (closed-over r (rw s at row)) g
    Step-alive (listen_returns a l m) row g = alive a row (returned-Goroutine _ m (rw l at g))
    Step-alive (dies a l) row g = dead refl l (rw (failed-launched (rw l at g)) at row) refl

    Step-living : {p q : Process} → Step may_return (register_hooks port) p q → p.exit_code ≡ none
    Step-living (starts a s) = a
    Step-living (started a s) = a
    Step-living (interrupted a s) = a
    Step-living (stops a s) = a
    Step-living (done r a s) = a
    Step-living (listen_returns a l m) = a
    Step-living (dies a l) = a

    Step-IsLawful :
        {p q : Process} → Step may_return (register_hooks port) p q → IsLawful p → IsLawful q
    Step-IsLawful st (alive a row g) = Step-alive st row g
    Step-IsLawful st (dead x l row ls) = let a = Step-living st in cc

    pub Reach-IsLawful : {p : Process} → Reach may_return (register_hooks port) p → IsLawful p
    unfolding register_hooks
    Reach-IsLawful here = alive refl fresh idle
    Reach-IsLawful (next r st) = Step-IsLawful st (Reach-IsLawful r)

    up_state :
        {l : Listener} {k u : Bool} {lines : List Note}
        → Row running u k lines
        → Goroutine u k l
        → (l ≡ listening address) ⊎ (e : GoError) × (l ≡ ended (some e))
    up_state up serving = inl refl
    up_state up (failed e) = inr (e, refl)

    lawful_state :
        {p : Process}
        → IsLawful p
        → p.exit_code ≡ none
        → p.stage ≡ running
        → (p.listener ≡ listening address) ⊎ (e : GoError) × (p.listener ≡ ended (some e))
    lawful_state (alive x row g) a s = up_state (rw s at row) g
    lawful_state (dead x l row ls) a s = cc

    -- While fx waits for a signal, in a process that has not exited, `Listen` runs on the port of the
    -- configuration, or it has returned an error.
    pub running-Served :
        {p : Process}
        → Reach may_return (register_hooks port) p
        → p.exit_code ≡ none
        → p.stage ≡ running
        → (p.listener ≡ listening address) ⊎ (e : GoError) × (p.listener ≡ ended (some e))
    running-Served r a s = lawful_state (Reach-IsLawful r) a s

    -- Whatever error `Listen` returns for an open app: the start hook may have succeeded, and its line
    -- "server started" be written, before the line of the failure.
    pub starts-before_failure :
        (e : GoError)
        → may_return false (some e)
        → Reach may_return (register_hooks port) (record {
          stage = running;
          listener = ended (some e);
          is_closed = false;
          lines = began ∷ failed_to_start e ∷ [];
          exit_code = some 1;
        })
    unfolding register_hooks perform fatal
    starts-before_failure e m =
        next
          (next (next (next (next here (starts refl refl)) (starts refl refl)) (started refl refl))
            (listen_returns refl refl m))
          (dies refl refl)
