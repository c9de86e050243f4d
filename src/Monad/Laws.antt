-- ===== src/Monad/Laws.antt =====
-- Case splits on results.
use test_lintaspay_backend.Common.{◌≡◌, refl, ◌⊎◌, inl, inr}
use test_lintaspay_backend.Errors.{GoError}
use test_lintaspay_backend.External.{Result, ok, err}

pub Result-cases {ℓ} :
    {A : Type ℓ} (r : Result A) → ((a : A) × (r ≡ ok a)) ⊎ ((e : GoError) × (r ≡ err e))
Result-cases (ok a) = inl (a, refl)
Result-cases (err e) = inr (e, refl)
