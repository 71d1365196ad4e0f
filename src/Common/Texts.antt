-- ===== src/Common/Texts.antt =====
-- Go's `<` on strings: the order of their bytes, which for UTF-8 is that of the code points.
use Prim.Native.String.{String, [], ◌∷◌, compare}
use Prim.Native.String.compare as clause
use mathlib.Core.Path.{◌≡◌, refl}
use mathlib.Core.Bool.{Bool, true, false}
use native.Mathlib.Omega.{arith}
use text.Mathlib.Text.{is_lt}
use text.Mathlib.TextEquality.{codes_equal}
use text.Mathlib.TextPositions.{compare_refl}

abbrev pub str_lt : String → String → Bool
str_lt s t = is_lt (compare s t)

pub str_lt_irrefl : (s : String) → str_lt s s ≡ false
str_lt_irrefl s = rw compare_refl

pub str_lt_trans : (s t u : String) → str_lt s t ≡ true → str_lt t u ≡ true → str_lt s u ≡ true
str_lt_trans [] [] u p q = q
str_lt_trans [] (d ∷ t) [] p q = rw clause.cons-nil at q
str_lt_trans [] (d ∷ t) (e ∷ u) p q = rw clause.nil-cons
str_lt_trans (c ∷ s) [] u p q = ground (arith, clause.cons-nil c s)
str_lt_trans (c ∷ s) (d ∷ t) [] p q = ground (arith, clause.cons-nil d t)
str_lt_trans (c ∷ s) (d ∷ t) (e ∷ u) p q = ground (
  arith,
  clause.cons-cons c d s t,
  clause.cons-cons d e t u,
  clause.cons-cons c e s u,
  str_lt_trans s t u,
)

-- Two strings of which neither is less are the same.
pub str_lt_connex : (s t : String) → str_lt s t ≡ false → str_lt t s ≡ false → s ≡ t
str_lt_connex [] [] p q = refl
str_lt_connex [] (d ∷ t) p q = ground (arith, clause.nil-cons d t)
str_lt_connex (c ∷ s) [] p q = ground (arith, clause.nil-cons c s)
str_lt_connex (c ∷ s) (d ∷ t) p q =
    ground (
      arith,
      clause.cons-cons c d s t,
      clause.cons-cons d c t s,
      codes_equal c d,
      str_lt_connex s t,
    )
