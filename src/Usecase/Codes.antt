-- ===== src/Usecase/Codes.antt =====
-- The status codes that an action can fail with.
pub mod Operations
pub mod Listings
use test_lintaspay_backend.Common.{
  ℕ, String, ◌≡◌, sym, ap, Bool, true, false, List, Option, any, eqb, if◌then◌else◌,
}
use test_lintaspay_backend.Errors.{GoError, error_response}
use test_lintaspay_backend.Reqctx.{Context}
use test_lintaspay_backend.External.{Result, ok, err, Services, Marshalled}
use test_lintaspay_backend.Monad.{
  World, M, pure, continue, ◌>>=◌, attempt, rename, on_error, now, new_uuid, log,
}
use test_lintaspay_backend.Usecase.Disbursements.{write_audit}
use test_lintaspay_backend.Usecase.Disbursements.Audit.{write_audit_lem}

-- The status that the error handler sends is one of these.
unfoldable pub IsOneOf : List ℕ → GoError → Type 0
IsOneOf codes e = any (λ c. eqb c (error_response e).code) codes ≡ true

module _ ⦃g : Services⦄ (codes : List ℕ) where
  pub record FailsWith {A : Type 0} (m : M A) : Type 0 where
    pub at : (w : World g) (e : GoError) → (m w).0 ≡ err e → IsOneOf codes e

  pub FailsWith-pure : {A : Type 0} (a : A) → FailsWith (pure a)
  FailsWith-pure a = record { at = λ w e h. cc }

  pub FailsWith-err :
      {A : Type 0} (x : GoError) → IsOneOf codes x → FailsWith {A = A} (λ w. (err x, w))
  FailsWith-err x i = record { at = λ w e h. let same : x ≡ e = cc in rw (sym same) i }

  continue-IsOneOf :
      {A B : Type 0} (f : A → M B)
      → ((a : A) → FailsWith (f a))
      → (r : Result A) (w : World g) (e : GoError) → ((x : GoError) → r ≡ err x → IsOneOf codes x)
      → (continue f (r, w)).0 ≡ err e
      → IsOneOf codes e
  continue-IsOneOf f k (ok a) w e h q = (k a).at w e q
  continue-IsOneOf f k (err x) w e h q = let same : x ≡ e = cc in h e (ap err same)

  pub FailsWith-bind :
      {A B : Type 0} (m : M A) (f : A → M B)
      → FailsWith m
      → ((a : A) → FailsWith (f a))
      → FailsWith (m >>= f)
  FailsWith-bind m f h k = record {
    at = λ w e q. continue-IsOneOf f k (m w).0 (m w).1 e (h.at w) q;
  }

  renamed :
      {A : Type 0} (f : GoError → GoError) (r : Result A) (e : GoError)
      → ((x : GoError) → IsOneOf codes (f x))
      → rename f r ≡ err e
      → IsOneOf codes e
  renamed f (ok a) e h q = cc
  renamed f (err x) e h q = let same : f x ≡ e = cc in rw (sym same) (h x)

  pub FailsWith-on_error :
      {A : Type 0} (f : GoError → GoError) (m : M A)
      → ((x : GoError) → IsOneOf codes (f x))
      → FailsWith (on_error f m)
  FailsWith-on_error f m h = record { at = λ w e q. renamed f (m w).0 e h q }

  pub FailsWith-attempt : {A : Type 0} (m : M A) → FailsWith (attempt m)
  FailsWith-attempt m = record { at = λ w e h. cc }

  pub FailsWith-log : (message : String) → FailsWith (log message)
  FailsWith-log message = record { at = λ w e h. cc }

  pub FailsWith-now : FailsWith now
  FailsWith-now = record { at = λ w e h. cc }

  pub FailsWith-new_uuid : FailsWith new_uuid
  FailsWith-new_uuid = record { at = λ w e h. cc }

  pub FailsWith-write_audit :
      (ctx : Context) (id action : String) (before after : Option Marshalled)
      → FailsWith (write_audit ctx id action before after)
  FailsWith-write_audit ctx id action before after = record {
    at = λ w e h. let (r, s) = write_audit_lem ctx id action before after w in cc (r, h);
  }

  pub FailsWith-if :
      {A : Type 0} (b : Bool) (m n : M A)
      → FailsWith m
      → FailsWith n
      → FailsWith (if b then m else n)
  FailsWith-if true m n p q = p
  FailsWith-if false m n p q = q

pub ruleset fails_rules = (
  FailsWith-pure, FailsWith-err, FailsWith-bind, FailsWith-on_error, FailsWith-attempt,
  FailsWith-log, FailsWith-now, FailsWith-new_uuid, FailsWith-write_audit, FailsWith-if,
)

-- A status of the list.
abbrev pub Has : List ℕ → ℕ → Type 0
Has codes n = any (λ c. eqb c n) codes ≡ true
