-- ===== src/External/Memory/Sorting.antt =====
-- `ORDER BY` of the tables in memory: an insertion sort by an integer key.
use mathlib.Core.List.{Perm}
use mathlib.Core.List.Perm
use test_lintaspay_backend.Common.{
  suc, ◌≡◌, refl, ℤ, ◌≤ℤ◌, ltb_ℤ, List, [], ◌∷◌, All, Sorted, length, arith, if◌then◌else◌,
  Bool-cases, inl, inr, All-map,
}

module _ {A : Type 0} (key : A → ℤ) where
  abbrev pub insert_by : A → List A → List A
  insert_by x [] = x ∷ []
  insert_by x (y ∷ ys) =
      let rest = insert_by x ys in if ltb_ℤ (key y) (key x) then y ∷ rest else x ∷ y ∷ ys

  abbrev pub sort_by : List A → List A
  sort_by [] = []
  sort_by (x ∷ xs) = insert_by x (sort_by xs)

  All-insert_by : (P : A → Type 0) (x : A) (l : List A) → P x → All P l → All P (insert_by x l)
  All-insert_by P x [] h k = (h, tt)
  All-insert_by P x (y ∷ ys) h k = elim (Bool-cases (ltb_ℤ (key y) (key x))) [
    | inl p ↦ rw p (k.0, All-insert_by P x ys h k.1)
    | inr n ↦ rw n (h, k)
  ]

  pub All-sort_by : (P : A → Type 0) (l : List A) → All P l → All P (sort_by l)
  All-sort_by P [] h = tt
  All-sort_by P (x ∷ xs) h = All-insert_by P x (sort_by xs) h.0 (All-sort_by P xs h.1)

  length-insert_by : (x : A) (l : List A) → length (insert_by x l) ≡ suc (length l)
  length-insert_by x [] = refl
  length-insert_by x (y ∷ ys) = elim (Bool-cases (ltb_ℤ (key y) (key x))) [
    | inl p ↦ rw p (omega (arith, length-insert_by x ys))
    | inr n ↦ rw n refl
  ]

  pub length-sort_by : (l : List A) → length (sort_by l) ≡ length l
  length-sort_by [] = refl
  length-sort_by (x ∷ xs) = omega (arith, length-insert_by x (sort_by xs), length-sort_by xs)

  insert_by-Perm : (x : A) (l : List A) → Perm (insert_by x l) (x ∷ l)
  insert_by-Perm x [] = Perm.refl (x ∷ [])
  insert_by-Perm x (y ∷ ys) = elim (Bool-cases (ltb_ℤ (key y) (key x))) [
    | inl p ↦ rw p (Perm.trans (Perm.cons y (insert_by-Perm x ys)) (Perm.swap x y ys))
    | inr n ↦ rw n (Perm.refl (x ∷ y ∷ ys))
  ]

  pub sort_by-Perm : (l : List A) → Perm (sort_by l) l
  sort_by-Perm [] = Perm.refl []
  sort_by-Perm (x ∷ xs) = Perm.trans (insert_by-Perm x (sort_by xs)) (Perm.cons x (sort_by-Perm xs))

  abbrev pub Ascending : A → A → Type 0
  Ascending a b = key a ≤ℤ key b

  below-All : (x y : A) (l : List A) → Ascending x y → All (Ascending y) l → All (Ascending x) l
  below-All x y l h = All-map (Ascending y) (Ascending x) (λ z k. omega (arith, h, k)) l

  insert_by-Sorted : (x : A) (l : List A) → Sorted Ascending l → Sorted Ascending (insert_by x l)
  insert_by-Sorted x [] h = (tt, tt)
  insert_by-Sorted x (y ∷ ys) h = elim (Bool-cases (ltb_ℤ (key y) (key x))) [
    | inl p ↦
        let below : Ascending y x = ground arith in
        rw p (All-insert_by (Ascending y) x ys below h.0, insert_by-Sorted x ys h.1)
    | inr n ↦
        let below : Ascending x y = ground arith in rw n ((below, below-All x y ys below h.0), h)
  ]

  pub sort_by-Sorted : (l : List A) → Sorted Ascending (sort_by l)
  sort_by-Sorted [] = tt
  sort_by-Sorted (x ∷ xs) = insert_by-Sorted x (sort_by xs) (sort_by-Sorted xs)

pub Sorted-map :
    {A : Type 0} (R S : A → A → Type 0)
    → ((a b : A) → R a b → S a b)
    → (l : List A) → Sorted R l
    → Sorted S l
Sorted-map R S f [] h = tt
Sorted-map R S f (x ∷ l) h = (All-map (R x) (S x) (f x) l h.0, Sorted-map R S f l h.1)
