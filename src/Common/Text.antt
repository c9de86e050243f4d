-- ===== src/Common/Text.antt =====
-- The functions of Go's package `strings` that the program calls. A text is a list of code points.
-- `ToLower` and `ToUpper` go by Unicode's tables, one rune at a time: the tables are a parameter.
use Prim.Native.Char.{Char, code}
use Prim.Native.String.{String, [], ◌∷◌}
use mathlib.Core.Path.{◌≡◌, refl}
use mathlib.Core.Bool.{Bool, ◌&&◌, ◌||◌}
use mathlib.Core.List.{List}
use Prim.Native.Nat.{ℕ}
use text.Mathlib.Text.{◌==◌}
use test_lintaspay_backend.Common.Tests.{leb, eqb, if◌then◌else◌}

pub record CaseTables : Type 0 where
  pub lower : Char → Char
  pub upper : Char → Char

-- unicode.IsSpace
unfoldable pub is_space : Char → Bool
is_space c =
    let n = code c in
    (leb 9 n && leb n 13)
    || eqb n 0x20
    || eqb n 0x85
    || eqb n 0xA0
    || eqb n 0x1680
    || (leb 0x2000 n && leb n 0x200A)
    || eqb n 0x2028
    || eqb n 0x2029
    || eqb n 0x202F
    || eqb n 0x205F
    || eqb n 0x3000

unfoldable pub trim_left : String → String
trim_left [] = []
trim_left (c ∷ s) = if is_space c then trim_left s else c ∷ s

unfoldable pub trim_right : String → String
trim_right [] = []
trim_right (c ∷ s) = let rest = trim_right s in if is_space c && rest == "" then [] else c ∷ rest

-- strings.TrimSpace
unfoldable pub trim_space : String → String
unfolding trim_left trim_right is_space
trim_space s = trim_right (trim_left s)

pub map_text : (Char → Char) → String → String
map_text f [] = []
map_text f (c ∷ s) = f c ∷ map_text f s

-- strings.ToLower
unfoldable pub to_lower : CaseTables → String → String
unfolding map_text
to_lower t = map_text t.lower

-- strings.ToUpper
unfoldable pub to_upper : CaseTables → String → String
unfolding map_text
to_upper t = map_text t.upper

abbrev pub codes : String → List ℕ
codes [] = List.[]
codes (c ∷ s) = List.◌∷◌ (code c) (codes s)

trim_test : trim_space "  a b\t" ≡ "a b"
unfolding trim_space
trim_test = refl
