-- ===== src/Base/Text.antt =====
-- Texts as lists of code points, with what the code uses of Go's `strings` and `unicode` packages.
-- The Unicode tables are a parameter.
use Prim.Native.Nat.{ℕ, ◌-◌}
use Prim.Native.Char.{code}
use Prim.Native.String.{String}
use mathlib.Core.Path.{◌≡◌, refl}
use mathlib.Core.Bool.{Bool, true, false, ◌&&◌, ◌||◌}
use mathlib.Core.List.{List, [], ◌∷◌, map, reverse}
use native.Mathlib.Omega.{arith}
use plantops_edge_scale.Base.Tests.{◌==◌, leb, if◌then◌else◌}

abbrev pub codes : String → List ℕ
codes String.[] = []
codes (String.◌∷◌ c s) = code c ∷ codes s

unfoldable pub codes_eq : List ℕ → List ℕ → Bool
codes_eq [] [] = true
codes_eq [] (y ∷ ys) = false
codes_eq (x ∷ xs) [] = false
codes_eq (x ∷ xs) (y ∷ ys) = (x == y) && codes_eq xs ys

pub codes_eq_sound : (xs ys : List ℕ) → codes_eq xs ys ≡ true → xs ≡ ys
unfolding codes_eq
codes_eq_sound [] [] h = refl
codes_eq_sound [] (y ∷ ys) h = ground arith
codes_eq_sound (x ∷ xs) [] h = ground arith
codes_eq_sound (x ∷ xs) (y ∷ ys) h = ground (arith, codes_eq_sound xs ys)

pub codes_eq_refl : (xs : List ℕ) → codes_eq xs xs ≡ true
unfolding codes_eq
codes_eq_refl [] = refl
codes_eq_refl (x ∷ xs) = ground (arith, codes_eq_refl xs)

-- `fold` picks one code point of each class of simple case folding.
pub record Unicode : Type 0 where
  pub is_letter : ℕ → Bool
  pub is_digit : ℕ → Bool
  pub is_space : ℕ → Bool
  pub to_upper : ℕ → ℕ
  pub fold : ℕ → ℕ

unfoldable pub trim_left : Unicode → List ℕ → List ℕ
trim_left u [] = []
trim_left u (c ∷ cs) = let rest = trim_left u cs in if u.is_space c then rest else c ∷ cs

-- strings.TrimSpace
unfoldable pub trim_space : Unicode → List ℕ → List ℕ
unfolding trim_left
trim_space u cs = reverse (trim_left u (reverse (trim_left u cs)))

-- strings.EqualFold
unfoldable pub equal_fold : Unicode → List ℕ → List ℕ → Bool
unfolding codes_eq
equal_fold u xs ys = codes_eq (map u.fold xs) (map u.fold ys)

-- The tables cut down to ASCII.
abbrev in_range : ℕ → ℕ → ℕ → Bool
in_range lo hi c = leb lo c && leb c hi

abbrev pub ascii_upper : ℕ → ℕ
ascii_upper c = if in_range b'a' b'z' c then c - 32 else c

abbrev pub ascii : Unicode
ascii = record {
  is_letter = λ c. in_range b'a' b'z' c || in_range b'A' b'Z' c;
  is_digit = λ c. in_range b'0' b'9' c;
  is_space = λ c. (c == 32) || in_range 9 13 c;
  to_upper = ascii_upper;
  fold = ascii_upper;
}
