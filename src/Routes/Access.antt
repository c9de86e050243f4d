-- ===== src/Routes/Access.antt =====
-- Which role reaches which endpoint, against the table of the README.
use test_lintaspay_backend.Common.{
  String, ◌≡◌, Bool, true, false, ◌&&◌, ◌||◌, Option, none, some, List, [], ◌∷◌, All, arith, ◌==◌,
}
use test_lintaspay_backend.Reqctx.{Context, background, with_user}
use test_lintaspay_backend.Middlewares.{contains}
use test_lintaspay_backend.Middlewares as Middlewares
use test_lintaspay_backend.Routes.{
  Endpoint, health_check, login, refresh, logout, update_status, delete, list_audit_logs, Guard,
  protect, limit, require_roles, register,
}

-- Who sends a request: nobody with a valid token, or a user with a role.
abbrev pub locals_of : Option String → Context
locals_of none = background
locals_of (some role) = with_user background "id" "name" role

abbrev pub is_some {ℓ} : {A : Type ℓ} → Option A → Bool
is_some none = false
is_some (some _) = true

abbrev pub is_none {ℓ} : {A : Type ℓ} → Option A → Bool
is_none none = true
is_none (some _) = false

-- Whether the guards let the request through, the limiters aside.
abbrev pub admits : Option String → List Guard → Bool
admits who [] = true
admits who (protect ∷ gs) = is_some who && admits who gs
admits who (limit n ∷ gs) = admits who gs
admits who (require_roles roles ∷ gs) =
    is_none (Middlewares.require_roles roles (locals_of who)) && admits who gs

-- The README's column of access.
abbrev is_role : String → Option String → Bool
is_role role none = false
is_role role (some r) = role == r

abbrev pub allowed : Endpoint → Option String → Bool
allowed health_check who = true
allowed login who = true
allowed refresh who = true
allowed logout who = true
allowed update_status who = is_role "admin" who || is_role "superadmin" who
allowed delete who = is_role "superadmin" who
allowed list_audit_logs who = is_role "superadmin" who
allowed _ who = is_some who

-- For every registered route and every sender, the route's guards admit the sender exactly when
-- the README's table of endpoints grants the access. (The rate limiters are left aside.)
pub register-access :
    (who : Option String) → All (λ r. admits who r.guards ≡ allowed r.endpoint who) register
unfolding register Middlewares.require_roles with_user
register-access none = ground arith
register-access (some role) = ground arith
