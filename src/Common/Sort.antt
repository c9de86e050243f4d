-- ===== src/Common/Sort.antt =====
-- `sort.Strings` and `slices.Reverse` of Go's library: texts in the order of their bytes, which for
-- UTF-8 is the order of their code points.
use Prim.Native.Char.{code}
use Prim.Native.String
use mathlib.Core.Path.{◌≡◌, refl}
use mathlib.Core.Bool.{Bool, true, false, ◌&&◌, ◌||◌}
use mathlib.Core.Logic.{inl, inr}
use mathlib.Core.List.{List, [], ◌∷◌, Perm, Pairwise, Pairwise-singleton, forall_mem-cons}
use mathlib.Core.List.Perm
use native.Mathlib.Omega.{arith}
use test_lintaspay_backend.Common.Tests.{ltb, eqb, if◌then◌else◌, Bool-cases}

abbrev pub text_leb : String.String → String.String → Bool
text_leb String.[] t = true
text_leb (String.◌∷◌ c s) String.[] = false
text_leb (String.◌∷◌ c s) (String.◌∷◌ d t) =
    ltb (code c) (code d) || (eqb (code c) (code d) && text_leb s t)

abbrev pub insert_text : String.String → List String.String → List String.String
insert_text x [] = x ∷ []
insert_text x (y ∷ ys) =
    let rest = insert_text x ys in if text_leb y x then y ∷ rest else x ∷ y ∷ ys

-- `sort.Strings`
unfoldable pub sort_strings : List String.String → List String.String
sort_strings [] = []
sort_strings (x ∷ xs) = insert_text x (sort_strings xs)

text_leb_total : (a b : String.String) → text_leb a b ≡ false → text_leb b a ≡ true
text_leb_total String.[] b h = cc
text_leb_total (String.◌∷◌ c s) String.[] h = refl
text_leb_total (String.◌∷◌ c s) (String.◌∷◌ d t) h = ground (arith, text_leb_total s t)

text_leb_trans :
    (a b c : String.String) → text_leb a b ≡ true → text_leb b c ≡ true → text_leb a c ≡ true
text_leb_trans String.[] b c h k = refl
text_leb_trans (String.◌∷◌ x a) String.[] c h k = cc
text_leb_trans (String.◌∷◌ x a) (String.◌∷◌ y b) String.[] h k = cc
text_leb_trans (String.◌∷◌ x a) (String.◌∷◌ y b) (String.◌∷◌ z c) h k =
    ground (arith, text_leb_trans a b c)

abbrev pub InOrder : String.String → String.String → Type 0
InOrder a b = text_leb a b ≡ true

pub InOrder-prop : (a b : String.String) → IsProp (InOrder a b)
InOrder-prop a b = hlevel

insert_text-Perm : (x : String.String) (l : List String.String) → Perm (insert_text x l) (x ∷ l)
insert_text-Perm x [] = Perm.rfl
insert_text-Perm x (y ∷ ys) = elim (Bool-cases (text_leb y x)) [
  | inl p ↦ rw p (Perm.trans (Perm.cons y (insert_text-Perm x ys)) (Perm.swap x y ys))
  | inr n ↦ rw n Perm.rfl
]

insert_text-IsSorted :
    (x : String.String) {l : List String.String}
    → Pairwise InOrder l
    → Pairwise InOrder (insert_text x l)
insert_text-IsSorted x Pairwise.nil = Pairwise-singleton _ x
insert_text-IsSorted x (Pairwise.cons {a = y} {l = ys} below s) = elim (Bool-cases (text_leb y x)) [
  | inl p ↦ rw p (
      Pairwise.cons
        (λ z m.
          (forall_mem-cons (InOrder-prop y)).1 (p, below) z
            ((Perm.mem_iff (insert_text-Perm x ys)).0 m))
        (insert_text-IsSorted x s))
  | inr n ↦
      let q = text_leb_total y x n in
      rw n (
        Pairwise.cons
          ((forall_mem-cons (InOrder-prop x)).1 (q, λ z m. text_leb_trans x y z q (below z m)))
          (Pairwise.cons below s))
]

pub sort_strings-Perm : (l : List String.String) → Perm (sort_strings l) l
unfolding sort_strings
sort_strings-Perm [] = Perm.rfl
sort_strings-Perm (x ∷ xs) =
    Perm.trans (insert_text-Perm x (sort_strings xs)) (Perm.cons x (sort_strings-Perm xs))

pub sort_strings-IsSorted : (l : List String.String) → Pairwise InOrder (sort_strings l)
unfolding sort_strings
sort_strings-IsSorted [] = Pairwise.nil
sort_strings-IsSorted (x ∷ xs) = insert_text-IsSorted x (sort_strings-IsSorted xs)
