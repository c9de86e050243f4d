-- ===== src/Common/Split.antt =====
-- `strings.Split(s, ",")`: the texts between the commas, at least one.
use Prim.Native.Char.{Char, code}
use Prim.Native.String
use text.Mathlib.TextEquality.{Char-path}
use text.Mathlib.TextLemmas.{nil-append, cons-append}
use mathlib.Core.Path.{◌≡◌, refl, ap, ◌∙◌}
use mathlib.Core.Bool.{Bool, true, false, ◌||◌}
use mathlib.Core.Logic.{inl, inr}
use mathlib.Core.List.{List, [], ◌∷◌}
use native.Mathlib.Omega.{arith}
use test_lintaspay_backend.Common.Tests.{eqb, if◌then◌else◌, Bool-cases}
use test_lintaspay_backend.Common.Lists.{All}

-- A comma is 44.
abbrev is_comma : Char → Bool
is_comma c = eqb (code c) 44

-- Another character of the first text.
abbrev put_first : Char → List String.String → List String.String
put_first c [] = String.◌∷◌ c String.[] ∷ []
put_first c (s ∷ rest) = String.◌∷◌ c s ∷ rest

unfoldable pub split_commas : String.String → List String.String
split_commas String.[] = String.[] ∷ []
split_commas (String.◌∷◌ c s) =
    let rest = split_commas s in if is_comma c then String.[] ∷ rest else put_first c rest

-- `strings.Join(texts, ",")`
abbrev pub join_commas : List String.String → String.String
join_commas [] = ""
join_commas (s ∷ []) = s
join_commas (s ∷ t ∷ rest) = String.◌++◌ s (String.◌++◌ "," (join_commas (t ∷ rest)))

abbrev pub has_comma : String.String → Bool
has_comma String.[] = false
has_comma (String.◌∷◌ c s) = is_comma c || has_comma s

-- Texts that a list of at least one text joins to, none with a comma in it.
abbrev Splits : String.String → List String.String → Type 0
Splits s [] = ⊥
Splits s (t ∷ rest) = (join_commas (t ∷ rest) ≡ s) × All (λ t. has_comma t ≡ false) (t ∷ rest)

comma_first :
    (c : Char) (s : String.String) (texts : List String.String)
    → is_comma c ≡ true
    → Splits s texts
    → Splits (String.◌∷◌ c s) (String.[] ∷ texts)
comma_first c s [] h x = elim x [ ]
comma_first c s (t ∷ rest) h (j, a) =
    let same : "," ≡ c = Char-path "," c (ground arith) in
    (
      nil-append _
          ∙ cons-append "," "" _
          ∙ ap (λ x. String.◌∷◌ "," x) (nil-append _ ∙ j)
          ∙ ap (λ d. String.◌∷◌ d s) same,
      (refl, a),
    )

put_first-Splits :
    (c : Char) (s : String.String) (texts : List String.String)
    → is_comma c ≡ false
    → Splits s texts
    → Splits (String.◌∷◌ c s) (put_first c texts)
put_first-Splits c s [] h x = elim x [ ]
put_first-Splits c s (t ∷ []) h (j, (f, a)) = (ap (λ x. String.◌∷◌ c x) j, (ground arith, a))
put_first-Splits c s (t ∷ u ∷ rest) h (j, (f, a)) =
    (cons-append c t _ ∙ ap (λ x. String.◌∷◌ c x) j, (ground arith, a))

split_commas-Splits : (s : String.String) → Splits s (split_commas s)
unfolding split_commas
split_commas-Splits String.[] = (refl, (refl, tt))
split_commas-Splits (String.◌∷◌ c s) = elim (Bool-cases (is_comma c)) [
  | inl y ↦ rw y (comma_first c s (split_commas s) y (split_commas-Splits s))
  | inr n ↦ rw n (put_first-Splits c s (split_commas s) n (split_commas-Splits s))
]

-- Joined again the texts are the whole, and no text has a comma.
pub join_commas-split_commas :
    (s : String.String)
    → (join_commas (split_commas s) ≡ s) × All (λ t. has_comma t ≡ false) (split_commas s)
join_commas-split_commas s = from_texts (split_commas s) (split_commas-Splits s)
  where
    from_texts :
        (texts : List String.String)
        → Splits s texts
        → (join_commas texts ≡ s) × All (λ t. has_comma t ≡ false) texts
    from_texts [] x = elim x [ ]
    from_texts (t ∷ rest) x = x
