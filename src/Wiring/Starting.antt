-- ===== src/Wiring/Starting.antt =====
-- When the service starts: what fx must build before it runs the hooks.
use test_lintaspay_backend.Common.{◌≡◌, refl, ◌↔◌, Bool, true, false, List, [], ◌∷◌, ◌++◌, ◌&&◌}
use test_lintaspay_backend.Wiring.{
  Component, config, logger, database, auth_middleware, health_repository, health_usecase,
  health_handler, auth_repository, auth_usecase, auth_handler, disbursement_repository,
  disbursement_usecase, disbursement_handler, audit_repository, audit_usecase, audit_handler,
  routes, fiber_app, hooks, needs, is_fallible, application, is_provided, Built, nothing, also,
}

all_provided : (c : Component) → is_provided c ≡ true
unfolding application
all_provided config = refl
all_provided logger = refl
all_provided database = refl
all_provided auth_middleware = refl
all_provided health_repository = refl
all_provided health_usecase = refl
all_provided health_handler = refl
all_provided auth_repository = refl
all_provided auth_usecase = refl
all_provided auth_handler = refl
all_provided disbursement_repository = refl
all_provided disbursement_usecase = refl
all_provided disbursement_handler = refl
all_provided audit_repository = refl
all_provided audit_usecase = refl
all_provided audit_handler = refl
all_provided routes = refl
all_provided fiber_app = refl
all_provided hooks = refl

module _ (fails : Component → Bool) where
  Built-needs : {c : Component} {cs : List Component} → Built fails (c ∷ cs) → Built fails (needs c)
  Built-needs (also p n f r) = n

  Built-rest : {c : Component} {cs : List Component} → Built fails (c ∷ cs) → Built fails cs
  Built-rest (also p n f r) = r

  Built-returns :
      {c : Component} {cs : List Component}
      → Built fails (c ∷ cs)
      → (is_fallible c && fails c) ≡ false
  Built-returns (also p n f r) = f

  Built-append : {xs ys : List Component} → Built fails xs → Built fails ys → Built fails (xs ++ ys)
  Built-append nothing s = s
  Built-append (also p n f r) s = also p n f (Built-append r s)

  module _ (config_ok : fails config ≡ false) (logger_ok : fails logger ≡ false)
      (database_ok : fails database ≡ false) where
    returns : (c : Component) → (is_fallible c && fails c) ≡ false
    unfolding is_fallible
    returns config = config_ok
    returns logger = logger_ok
    returns database = database_ok
    returns auth_middleware = refl
    returns health_repository = refl
    returns health_usecase = refl
    returns health_handler = refl
    returns auth_repository = refl
    returns auth_usecase = refl
    returns auth_handler = refl
    returns disbursement_repository = refl
    returns disbursement_usecase = refl
    returns disbursement_handler = refl
    returns audit_repository = refl
    returns audit_usecase = refl
    returns audit_handler = refl
    returns routes = refl
    returns fiber_app = refl
    returns hooks = refl

    single : (c : Component) → Built fails (needs c) → Built fails (c ∷ [])
    single c n = also (all_provided c) n (returns c) nothing

    started : Built fails (hooks ∷ [])
    unfolding needs
    started =
        let env = single config nothing in
        let log = single logger nothing in
        let db = single database (Built-append env log) in
        let audits = single audit_repository db in
        let health =
          single health_handler
            (single health_usecase (Built-append (single health_repository db) log)) in
        let auth =
          single auth_handler (
            single auth_usecase
              (Built-append env (Built-append (single auth_repository db) log))) in
        let disbursements = single disbursement_handler (
          single disbursement_usecase (
            Built-append env
              (Built-append (single disbursement_repository db) (Built-append audits log)))) in
        let audit = single audit_handler (single audit_usecase (Built-append audits log)) in
        let handlers =
          Built-append (single auth_middleware env)
            (Built-append health (Built-append auth (Built-append disbursements audit))) in
        let app = single fiber_app (Built-append env (Built-append log (single routes handlers))) in
        single hooks (Built-append app (Built-append env log))

  -- fx comes to run the hooks exactly if the three calls that can fail, of the configuration, the
  -- logger and the database, return no error: every other component is provided, and nothing waits
  -- for itself.
  pub hooks-Built :
      Built fails (hooks ∷ [])
      ↔ ((fails config ≡ false) × (fails logger ≡ false) × (fails database ≡ false))
  unfolding needs is_fallible
  hooks-Built = (
    (λ b.
        let parts = Built-needs b in
        let handlers = Built-needs (Built-rest (Built-rest (Built-needs parts))) in
        let repository = Built-needs (Built-needs (Built-needs (Built-rest handlers))) in
        (
          Built-returns (Built-rest parts),
          Built-returns (Built-rest (Built-rest parts)),
          Built-returns repository,
        )),
    (λ ok. started ok.0 ok.1 ok.2),
  )
