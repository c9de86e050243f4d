-- ===== src/Common/Lists.antt =====
-- Lists measured by native numbers, predicates on all members, and search by a Boolean test.
use Prim.Native.Nat.{ℕ, zero, suc, ◌+◌, ◌-◌, min}
use mathlib.Core.Path.{◌≡◌, refl, sym}
use mathlib.Core.Bool.{Bool, true, false, ◌||◌}
use mathlib.Core.Logic.{◌⊎◌, inl, inr}
use mathlib.Core.List.{List, [], ◌∷◌, ◌++◌}
use mathlib.Core.Option.{Option, none, some}
use native.Mathlib.Omega.{arith}
use test_lintaspay_backend.Common.Tests.{if◌then◌else◌, Bool-cases}

module _ {ℓ} {A : Type ℓ} where
  abbrev pub length : List A → ℕ
  length [] = 0
  length (x ∷ xs) = suc (length xs)

  abbrev pub take : ℕ → List A → List A
  take zero xs = []
  take (suc n) [] = []
  take (suc n) (x ∷ xs) = x ∷ take n xs

  abbrev pub drop : ℕ → List A → List A
  drop zero xs = xs
  drop (suc n) [] = []
  drop (suc n) (x ∷ xs) = drop n xs

  pub length-append : (xs ys : List A) → length (xs ++ ys) ≡ length xs + length ys
  length-append [] ys = omega arith
  length-append (x ∷ xs) ys = omega (arith, length-append xs ys)

  -- The number of members that pass a test.
  abbrev pub count_if : (A → Bool) → List A → ℕ
  count_if p [] = 0
  count_if p (x ∷ xs) = (if p x then 1 else 0) + count_if p xs

  abbrev pub keep_if : (A → Bool) → List A → List A
  keep_if p [] = []
  keep_if p (x ∷ xs) = let rest = keep_if p xs in if p x then x ∷ rest else rest

  abbrev pub any : (A → Bool) → List A → Bool
  any p [] = false
  any p (x ∷ xs) = p x || any p xs

  abbrev pub find_first : (A → Bool) → List A → Option A
  find_first p [] = none
  find_first p (x ∷ xs) = if p x then some x else find_first p xs

  -- Rewrite the members that pass a test.
  abbrev pub rewrite_if : (A → Bool) → (A → A) → List A → List A
  rewrite_if p f [] = []
  rewrite_if p f (x ∷ xs) = (if p x then f x else x) ∷ rewrite_if p f xs

module _ {ℓ κ} {A : Type ℓ} (P : A → Type κ) where
  abbrev pub All : List A → Type κ
  All [] = Unit
  All (x ∷ xs) = P x × All xs

-- Each member stands in the relation to all that follow it.
abbrev pub Sorted {ℓ κ} : {A : Type ℓ} → (A → A → Type κ) → List A → Type κ
Sorted R [] = Unit
Sorted R (x ∷ xs) = All (R x) xs × Sorted R xs

-- Some member satisfies `P`.
abbrev pub Some {ℓ} : {A : Type ℓ} → (A → Type 0) → List A → Type 0
Some P [] = ⊥
Some P (x ∷ xs) = P x ⊎ Some P xs

keep_if-head :
    {A : Type 0} (p : A → Bool) (x : A) (b : Bool) (rest : List A)
    → p x ≡ b
    → All (λ r. p r ≡ true) rest
    → All (λ r. p r ≡ true) (if b then x ∷ rest else rest)
keep_if-head p x true rest e h = (e, h)
keep_if-head p x false rest e h = h

pub keep_if-All : {A : Type 0} (p : A → Bool) (s : List A) → All (λ r. p r ≡ true) (keep_if p s)
keep_if-All p [] = tt
keep_if-All p (x ∷ s) = keep_if-head p x (p x) (keep_if p s) refl (keep_if-All p s)

pub All-keep_if :
    {A : Type 0} (P : A → Type 0) (p : A → Bool) (xs : List A) → All P xs → All P (keep_if p xs)
All-keep_if P p [] h = tt
All-keep_if P p (x ∷ xs) h = elim (Bool-cases (p x)) [
  | inl y ↦ rw y (h.0, All-keep_if P p xs h.1)
  | inr n ↦ rw n (All-keep_if P p xs h.1)
]

pub All-map :
    {A : Type 0} (P Q : A → Type 0) → ((a : A) → P a → Q a) → (xs : List A) → All P xs → All Q xs
All-map P Q f [] h = tt
All-map P Q f (x ∷ xs) h = (f x h.0, All-map P Q f xs h.1)

pub All-drop : {A : Type 0} (P : A → Type 0) (n : ℕ) (s : List A) → All P s → All P (drop n s)
All-drop P zero s h = h
All-drop P (suc n) [] h = tt
All-drop P (suc n) (x ∷ s) h = All-drop P n s h.1

pub All-take : {A : Type 0} (P : A → Type 0) (n : ℕ) (s : List A) → All P s → All P (take n s)
All-take P zero s h = tt
All-take P (suc n) [] h = tt
All-take P (suc n) (x ∷ s) h = (h.0, All-take P n s h.1)

pub length-take : {A : Type 0} (n : ℕ) (s : List A) → length (take n s) ≡ min n (length s)
length-take zero s = omega arith
length-take (suc n) [] = omega arith
length-take (suc n) (x ∷ s) = omega (arith, length-take n s)

pub length-drop : {A : Type 0} (n : ℕ) (s : List A) → length (drop n s) ≡ length s - n
length-drop zero s = omega arith
length-drop (suc n) [] = omega arith
length-drop (suc n) (x ∷ s) = omega (arith, length-drop n s)

pub length-keep_if : {A : Type 0} (p : A → Bool) (s : List A) → length (keep_if p s) ≡ count_if p s
length-keep_if p [] = refl
length-keep_if p (x ∷ s) = elim (Bool-cases (p x)) [
  | inl y ↦ rw y (omega (arith, length-keep_if p s))
  | inr n ↦ rw n (omega (arith, length-keep_if p s))
]

module _ {A : Type 0} (p : A → Bool) (a : A) where
  pub any_of_member : (xs : List A) → p a ≡ true → Some (λ y. y ≡ a) xs → any p xs ≡ true
  any_of_member [] h s = elim s [ ]
  any_of_member (x ∷ xs) h (inl e) = rw (e, h)
  any_of_member (x ∷ xs) h (inr s) = ground (arith, any_of_member xs h s)

  -- The only member that passes the test.
  pub only :
      (x : A) (xs : List A) → any p xs ≡ false → p a ≡ true → Some (λ y. y ≡ a) (x ∷ xs) → a ≡ x
  only x xs none' h (inl e) = sym e
  only x xs none' h (inr s) = cc (none', any_of_member xs h s)

pub not_any :
    {A : Type 0} (p : A → Bool) (a : A) (xs : List A)
    → any p xs ≡ false
    → Some (λ x. x ≡ a) xs
    → p a ≡ false
not_any p a [] h s = elim s [ ]
not_any p a (x ∷ xs) h (inl e) = elim (Bool-cases (p x)) [
  | inl y ↦ let q = rw y at h in cc
  | inr n ↦ rw e at n
]
not_any p a (x ∷ xs) h (inr s) = elim (Bool-cases (p x)) [
  | inl y ↦ let q = rw y at h in cc
  | inr n ↦ not_any p a xs (rw n at h) s
]
