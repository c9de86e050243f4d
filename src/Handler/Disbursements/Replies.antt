-- ===== src/Handler/Disbursements/Replies.antt =====
-- The status of a batch's reply, against its results.
use test_lintaspay_backend.Common.{
  ◌≤◌, ◌≡◌, refl, Bool, true, false, List, [], ◌∷◌, All, count_if, length, ◌↔◌, ◌⊎◌, inl, inr,
  arith, Bool-cases,
}
use test_lintaspay_backend.Entity.{BatchItemResult}
use test_lintaspay_backend.Handler.Disbursements.{batch_reply}

module _ {A : Type 0} (p : A → Bool) where
  count_if-bound : (xs : List A) → count_if p xs ≤ length xs
  count_if-bound [] = omega arith
  count_if-bound (x ∷ xs) = ground (arith, count_if-bound xs)

  count_if-All : (xs : List A) → All (λ x. p x ≡ true) xs → count_if p xs ≡ length xs
  count_if-All [] h = refl
  count_if-All (x ∷ xs) (h, hs) = ground (arith, count_if-All xs hs)

  All-count_if : (xs : List A) → count_if p xs ≡ length xs → All (λ x. p x ≡ true) xs
  All-count_if [] h = tt
  All-count_if (x ∷ xs) h = elim (Bool-cases (p x)) [
    | inl y ↦ (y, All-count_if xs (ground arith))
    | inr n ↦ ground (arith, count_if-bound xs)
  ]

  count_if-none : (xs : List A) → All (λ x. p x ≡ false) xs → count_if p xs ≡ 0
  count_if-none [] h = refl
  count_if-none (x ∷ xs) (h, hs) = ground (arith, count_if-none xs hs)

  none-count_if : (xs : List A) → count_if p xs ≡ 0 → All (λ x. p x ≡ false) xs
  none-count_if [] h = tt
  none-count_if (x ∷ xs) h = elim (Bool-cases (p x)) [
    | inl y ↦ ground arith
    | inr n ↦ (n, none-count_if xs (ground arith))
  ]

abbrev pub succeeded : BatchItemResult → Bool
succeeded r = r.success

-- For every list of results that is not empty: the reply of a batch has status 201 exactly when
-- every item was created, 400 exactly when none was, and otherwise 207.
pub batch_reply-status :
    (r : BatchItemResult) (rs : List BatchItemResult)
    → let reply = batch_reply (r ∷ rs) in
      ((reply.status ≡ 201) ↔ All (λ x. x.success ≡ true) (r ∷ rs))
      × ((reply.status ≡ 400) ↔ All (λ x. x.success ≡ false) (r ∷ rs))
      × ((reply.status ≡ 201) ⊎ (reply.status ≡ 400) ⊎ (reply.status ≡ 207))
unfolding batch_reply
batch_reply-status r rs =
    let results = r ∷ rs in
    let bound = count_if-bound succeeded results in
    (
      (
        (λ e. All-count_if succeeded results (ground (arith, bound))),
        λ a. ground (arith, count_if-All succeeded results a),
      ),
      (
        (λ e. none-count_if succeeded results (ground (arith, bound))),
        λ a. ground (arith, count_if-none succeeded results a),
      ),
      ground (arith, bound),
    )
