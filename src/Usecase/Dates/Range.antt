-- ===== src/Usecase/Dates/Range.antt =====
-- Which date ranges the listings accept.
use test_lintaspay_backend.Common.{
  String, ◌≡◌, refl, sym, Bool, true, false, none, some, ◌⊎◌, inl, inr, ◌↔◌, ◌==◌, eq_iff,
  Bool-cases, Option-cases, arith,
}
use test_lintaspay_backend.Common.Date.{Date, parse_date, after}
use test_lintaspay_backend.Usecase.Dates.{validate_date_range, check_to, check_order, zero_date}

-- Absent, or a date.
abbrev pub IsDay : String → Type 0
IsDay s = (s ≡ "") ⊎ ((d : Date) × (parse_date s ≡ some d))

-- Not the wrong way round, where both are dates.
abbrev pub IsOrdered : String → String → Type 0
IsOrdered from to =
    (a b : Date)
    → (from == "") ≡ false
    → (to == "") ≡ false
    → parse_date from ≡ some a
    → parse_date to ≡ some b
    → after a b ≡ false

-- What the check of the second text decides, given the first date, if there is one.
abbrev Follows : Bool → Date → String → Type 0
Follows has_from from to =
    (b : Date)
    → has_from ≡ true
    → (to == "") ≡ false
    → parse_date to ≡ some b
    → after from b ≡ false

parsed : (to : String) → IsDay to → (to == "") ≡ false → (d : Date) × (parse_date to ≡ some d)
parsed to (inl e) n = let t : (to == "") ≡ true = (eq_iff to "").1 e in cc
parsed to (inr d) n = d

check_order-follows :
    (has_from : Bool) (from b : Date)
    → (check_order has_from true from b ≡ none) ↔ ((has_from ≡ true) → after from b ≡ false)
check_order-follows true from b = ((λ h _. ground arith), λ h. rw (h refl) refl)
check_order-follows false from b = ((λ h t. cc), λ h. refl)

check_to-accepts :
    (has_from : Bool) (from : Date) (to : String)
    → (check_to has_from from to (parse_date to) ≡ none) ↔ (IsDay to × Follows has_from from to)
check_to-accepts has_from from to = elim (Bool-cases (to == "")) [
  | inl e ↦ ((λ _. (inl ((eq_iff to "").0 e), λ b _ n _. cc (e, n))), λ h. rw e (ground arith))
  | inr n ↦ elim (Option-cases (parse_date to)) [
    | inl p ↦ (
      (λ h. let q : some _ ≡ none = rw (n, p) at h in cc),
      λ h. let (d, q) = parsed to h.0 n in cc (p, q),
    )
    | inr (b, p) ↦
        let (forth, back) = check_order-follows has_from from b in
        (
          (λ h. (
            inr (b, p),
            λ b' t _ p'. let same : b ≡ b' = cc (p, p') in rw (sym same) (forth (rw (n, p) at h) t),
          )),
          λ h. rw (n, p) (back (λ t. h.1 b t n p)),
        )
  ]
]

-- For every two texts: `validateDateRange` accepts them exactly when each is empty or a date of the
-- calendar written YYYY-MM-DD, and, where both are dates, the first is not after the second.
pub validate_date_range-accepts :
    (from to : String)
    → (validate_date_range from to ≡ none) ↔ (IsDay from × IsDay to × IsOrdered from to)
unfolding validate_date_range
validate_date_range-accepts from to = elim (Bool-cases (from == "")) [
  | inl e ↦
      let (forth, back) = check_to-accepts false zero_date to in
      (
        (λ h. (inl ((eq_iff from "").0 e), (forth (rw e at h)).0, λ a b n _ _ _. cc (e, n))),
        λ (d, d', o). rw e (back (d', λ b t _ _. cc)),
      )
  | inr n ↦ elim (Option-cases (parse_date from)) [
    | inl p ↦ (
      (λ h. let q : some _ ≡ none = rw (n, p) at h in cc),
      λ h. let (d, q) = parsed from h.0 n in cc (p, q),
    )
    | inr (a, p) ↦
        let (forth, back) = check_to-accepts true a to in
        (
          (λ h.
              let (d', f) = forth (rw (n, p) at h) in
              (
                inr (a, p),
                d',
                λ a' b _ n' q q'. let same : a ≡ a' = cc (p, q) in rw (sym same) (f b refl n' q'),
              )),
          λ (d, d', o). rw (n, p) (back (d', λ b _ n' q'. o a b n n' p q')),
        )
  ]
]
