-- ===== src/Base/Decimal.antt =====
-- `str` of an int, and the digits that it writes.
use planes.Base.Tests.{ltb, eqb, if◌then◌else◌}
use Prim.Native.Nat.{ℕ, zero, suc, ◌+◌, ◌*◌, ◌/◌, ◌%◌, ◌<◌}
use Prim.Native.String.{String, ◌++◌}
use mathlib.Core.Path.{◌≡◌}
use mathlib.Core.Logic.{inl, inr}
use mathlib.Core.List.{List, [], ◌∷◌}
use native.Mathlib.Omega.{arith}
use planes.Base.Tests.{Bool-cases}
use planes.Base.Int.{ℤ, pos, negsuc}

-- The digits of a number, the last one first, in at most `fuel` steps.
unfoldable digits_from : ℕ → ℕ → List ℕ
digits_from zero n = []
digits_from (suc fuel) n =
    let rest = digits_from fuel (n / 10) in if ltb n 10 then n ∷ [] else n % 10 ∷ rest

unfoldable pub digits : ℕ → List ℕ
unfolding digits_from
digits n = digits_from (suc n) n

abbrev pub number_of : List ℕ → ℕ
number_of [] = 0
number_of (d ∷ ds) = d + 10 * number_of ds

number_of-digits_from : (fuel n : ℕ) → n < fuel → number_of (digits_from fuel n) ≡ n
unfolding digits_from
number_of-digits_from zero n h = absurd (omega arith)
number_of-digits_from (suc fuel) n h = elim (Bool-cases (ltb n 10)) [
  | inl small ↦ rw small (omega arith)
  | inr big ↦ rw big (ground (arith, number_of-digits_from fuel (n / 10)))
]

-- The fuel is enough: the digits are those of the number.
pub number_of-digits : (n : ℕ) → number_of (digits n) ≡ n
unfolding digits
number_of-digits n = number_of-digits_from (suc n) n (omega arith)

abbrev digit_text : ℕ → String
digit_text d =
    if eqb d 0
    then "0"
    else if eqb d 1
    then "1"
    else if eqb d 2
    then "2"
    else if eqb d 3
    then "3"
    else if eqb d 4
    then "4"
    else if eqb d 5
    then "5"
    else if eqb d 6
    then "6"
    else if eqb d 7
    then "7"
    else if eqb d 8
    then "8"
    else "9"

abbrev written : List ℕ → String → String
written [] tail = tail
written (d ∷ ds) tail = written ds (digit_text d ++ tail)

unfoldable pub show_ℕ : ℕ → String
unfolding digits
show_ℕ n = written (digits n) ""

unfoldable pub show_ℤ : ℤ → String
unfolding show_ℕ
show_ℤ (pos n) = show_ℕ n
show_ℤ (negsuc n) = "-" ++ show_ℕ (suc n)
