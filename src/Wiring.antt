-- ===== src/Wiring.antt =====
-- cmd/api/server.go with the modules of configs/fx.go, internal/routes/module.go and
-- pkg/server/fiber.go: which constructors the application hands to fx, and when they are built.
pub mod Starting
pub mod Application
use test_lintaspay_backend.Common.{ℕ, ◌≡◌, Bool, true, false, ◌&&◌, List, [], ◌∷◌, ◌++◌, any, eqb}

-- The types that the constructors return, and the hooks that are invoked.
pub data Component : Type 0 where
  config logger database : Component
  auth_middleware : Component
  health_repository health_usecase health_handler : Component
  auth_repository auth_usecase auth_handler : Component
  disbursement_repository disbursement_usecase disbursement_handler : Component
  audit_repository audit_usecase audit_handler : Component
  routes fiber_app hooks : Component

abbrev pub number : Component → ℕ
number config = 0
number logger = 1
number database = 2
number auth_middleware = 3
number health_repository = 4
number health_usecase = 5
number health_handler = 6
number auth_repository = 7
number auth_usecase = 8
number auth_handler = 9
number disbursement_repository = 10
number disbursement_usecase = 11
number disbursement_handler = 12
number audit_repository = 13
number audit_usecase = 14
number audit_handler = 15
number routes = 16
number fiber_app = 17
number hooks = 18

-- A constructor's parameters, in their order.
unfoldable pub needs : Component → List Component
needs config = []
needs logger = []
needs database = config ∷ logger ∷ []
needs auth_middleware = config ∷ []
needs health_repository = database ∷ []
needs health_usecase = health_repository ∷ logger ∷ []
needs health_handler = health_usecase ∷ []
needs auth_repository = database ∷ []
needs auth_usecase = config ∷ auth_repository ∷ logger ∷ []
needs auth_handler = auth_usecase ∷ []
needs disbursement_repository = database ∷ []
needs disbursement_usecase = config ∷ disbursement_repository ∷ audit_repository ∷ logger ∷ []
needs disbursement_handler = disbursement_usecase ∷ []
needs audit_repository = database ∷ []
needs audit_usecase = audit_repository ∷ logger ∷ []
needs audit_handler = audit_usecase ∷ []
needs routes =
    auth_middleware ∷ health_handler ∷ auth_handler ∷ disbursement_handler ∷ audit_handler ∷ []
needs fiber_app = config ∷ logger ∷ routes ∷ []
needs hooks = fiber_app ∷ config ∷ logger ∷ []

-- Whether the constructor returns an error beside its value.
unfoldable pub is_fallible : Component → Bool
is_fallible config = true
is_fallible logger = true
is_fallible database = true
is_fallible _ = false

abbrev pub config_module : List Component
config_module = config ∷ []

abbrev pub logger_module : List Component
logger_module = logger ∷ []

abbrev pub database_module : List Component
database_module = database ∷ []

-- `NewFiberApp`, and the invoked `RegisterHooks`
abbrev pub server_module : List Component
server_module = fiber_app ∷ hooks ∷ []

-- `routes.Module`
abbrev pub internal_module : List Component
internal_module =
    auth_middleware ∷ health_repository ∷ health_usecase ∷ health_handler ∷ auth_repository
    ∷ auth_usecase ∷ auth_handler ∷ disbursement_repository ∷ disbursement_usecase
    ∷ disbursement_handler ∷ audit_repository ∷ audit_usecase ∷ audit_handler ∷ routes ∷ []

-- What `main` hands to `fx.New`.
unfoldable pub application : List Component
application = config_module ++ logger_module ++ database_module ++ server_module ++ internal_module

abbrev pub is_provided : Component → Bool
is_provided c = any (λ d. eqb (number c) (number d)) application

-- fx builds a component once its constructor is provided, its parameters are built, and the call
-- returns no error; `fails` tells which calls would.
module _ (fails : Component → Bool) where
  pub data Built : List Component → Type 0 where
    nothing : Built []
    also :
        {c : Component} {cs : List Component}
        → is_provided c ≡ true
        → Built (needs c)
        → (is_fallible c && fails c) ≡ false
        → Built cs
        → Built (c ∷ cs)
