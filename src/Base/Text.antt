-- ===== src/Base/Text.antt =====
-- Python's text methods that the code uses: the order of texts, `strip`, `lower` (of ASCII letters)
-- and `replace("-", "_")`.
use Prim.Native.Nat.{compare as compare_nat, Ordering}
use Prim.Native.Char.{Char, char, code, IsScalar}
use Prim.Native.String.{◌∷◌, [], compare}
use native.Mathlib.Decide.{dec_lt}
use mathlib.Core.Logic.{dite}
use canon_systems.Base.{
  ℕ, ◌+◌, ◌<◌, String, ◌≡◌, refl, Bool, true, false, ◌&&◌, ◌||◌, arith, leb, ltb, eqb, str_eq,
  if◌then◌else◌,
}

-- `s < t` of two texts: by code points, as Python compares.
abbrev pub str_lt : String → String → Bool
str_lt s t = elim (compare s t) [ Ordering.lt ↦ true | _ ↦ false ]

-- `c.isspace()`.
pub is_space : Char → Bool
is_space c =
    let n = code c in
    (leb 9 n && leb n 13)
    || (leb 28 n && leb n 32)
    || eqb n 133
    || eqb n 160
    || eqb n 0x1680
    || (leb 0x2000 n && leb n 0x200A)
    || eqb n 0x2028
    || eqb n 0x2029
    || eqb n 0x202F
    || eqb n 0x205F
    || eqb n 0x3000

pub lstrip : String → String
unfolding is_space
lstrip [] = []
lstrip (c ∷ s) = let rest = lstrip s in if is_space c then rest else c ∷ s

pub rstrip : String → String
unfolding is_space
rstrip [] = []
rstrip (c ∷ s) = let rest = rstrip s in if is_space c && str_eq rest "" then "" else c ∷ rest

unfoldable pub strip : String → String
unfolding lstrip rstrip
strip s = rstrip (lstrip s)

lt_of_test : (o : Ordering) → (elim o [ Ordering.lt ↦ true | _ ↦ false ]) ≡ true → o ≡ Ordering.lt
lt_of_test Ordering.lt h = refl
lt_of_test Ordering.eq h = cc
lt_of_test Ordering.gt h = cc

compare-lt : (a b : ℕ) → a < b → compare_nat a b ≡ Ordering.lt
compare-lt a b h = lt_of_test (compare_nat a b) (lt_test a b h)
  where
    lt_test : (a b : ℕ) → a < b → ltb a b ≡ true
    lt_test a b h = ground arith

pub is_scalar-low : (n : ℕ) → n < 91 → IsScalar (n + 32)
is_scalar-low n h = rw (compare-lt (n + 32) 55296 (omega arith)) tt

lower_char : Char → Char
unfolding dec_lt
lower_char (char n p) =
    dite (dec_lt n 91) (λ h. if leb 65 n then char (n + 32) (is_scalar-low n h) else char n p)
      (λ _. char n p)

-- `s.lower()` of ASCII letters.
unfoldable pub lower : String → String
unfolding lower_char
lower [] = []
lower (c ∷ s) = lower_char c ∷ lower s

underscore : Char
underscore = char 95 tt

-- `s.replace("-", "_")`.
unfoldable pub dash_to_underscore : String → String
unfolding underscore
dash_to_underscore [] = []
dash_to_underscore (c ∷ s) = (if eqb (code c) 45 then underscore else c) ∷ dash_to_underscore s

lower_test : dash_to_underscore (lower (strip "  Multi-REPO ")) ≡ "multi_repo"
unfolding lower strip dash_to_underscore is_scalar-low
lower_test = refl
