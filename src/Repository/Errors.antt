-- ===== src/Repository/Errors.antt =====
-- What the methods of internal/repository share: the translation of gorm's error for a missing
-- record, the test for a duplicate entry, and the offset of a page.
use test_lintaspay_backend.Common.{
  ℕ, Bool, false, Option, none, some, ℤ, pos, ◌-ℤ◌, ◌*ℤ◌, wrap64, eqb, if◌then◌else◌,
}
use test_lintaspay_backend.Errors.{
  sentinel, not_found, record_not_found, errors_is, as_mysql, GoError,
}
use test_lintaspay_backend.External.{Result, ok, err}

-- `if errors.Is(err, gorm.ErrRecordNotFound) { return nil, entity.ErrNotFound }; return nil, err`
unfoldable pub translate : {A : Type 0} → Result A → Result A
translate (ok a) = ok a
translate (err e) = err (if errors_is record_not_found e then sentinel not_found else e)

abbrev is_number : Option ℕ → Bool
is_number none = false
is_number (some n) = eqb n 1062

unfoldable pub is_duplicate_entry : GoError → Bool
unfolding as_mysql
is_duplicate_entry e = is_number (as_mysql e)

-- `(f.Page - 1) * f.Limit`, in Go's `int`
unfoldable pub page_offset : ℤ → ℤ → ℤ
unfolding wrap64 ◌-ℤ◌ ◌*ℤ◌
page_offset page limit = wrap64 (wrap64 (page -ℤ pos 1) *ℤ limit)
