-- ===== src/Json/Numbers/Arithmetic.antt =====
-- Sums, differences and products of doubles, rounded to 53 bits with ties to even, and `int` of one.
use planes.Base.{ℕ, suc, ◌+◌, ◌-◌, ◌/◌, ◌%◌, ◌^◌, Bool, true, false, leb, eqb, if◌then◌else◌}
use planes.Base.Int.{ℤ, pos, negsuc, pos_part, neg_part, sub_ℕ}
use planes.Base.Result.{Result, ok, raise, value_error, overflow_error}
use planes.Json.Numbers.{
  Float, nan, infinity, neg_infinity, finite, Number, int, float, unit, bit_length_from, round_even,
  absolute,
}

-- Magnitudes have at most 2 * 2098 bits here, so 4200 halvings are enough.
bits : ℕ → ℕ
unfolding bit_length_from
bits n = bit_length_from 4200 n

-- A magnitude in units of 2^-(1074 + s), rounded to a double in units of 2^-1074.
unfoldable pub rounded : ℕ → ℕ → ℕ
unfolding bits round_even
rounded s p =
    let length = bits p in
    if leb length (53 + s)
    then round_even p (2 ^ s) / 2 ^ s
    else round_even p (2 ^ (length - 53)) / 2 ^ s

-- From 2^1024 on there is no double but infinity.
abbrev signed : Bool → ℕ → Float
signed negative m =
    if leb (2 ^ 2098) m
    then (if negative then neg_infinity else infinity)
    else (if negative then finite (sub_ℕ 0 m) else finite (pos m))

abbrev of_units : ℕ → ℤ → Float
of_units s (pos n) = signed false (rounded s n)
of_units s (negsuc n) = signed true (rounded s (suc n))

unfoldable pub float_neg : Float → Float
float_neg nan = nan
float_neg infinity = neg_infinity
float_neg neg_infinity = infinity
float_neg (finite z) = finite (sub_ℕ (neg_part z) (pos_part z))

abbrev sum_ℤ : ℤ → ℤ → ℤ
sum_ℤ a b = sub_ℕ (pos_part a + pos_part b) (neg_part a + neg_part b)

-- `a + b`
unfoldable pub float_add : Float → Float → Float
unfolding rounded
float_add (finite a) (finite b) = of_units 0 (sum_ℤ a b)
float_add nan _ = nan
float_add _ nan = nan
float_add infinity neg_infinity = nan
float_add neg_infinity infinity = nan
float_add infinity _ = infinity
float_add neg_infinity _ = neg_infinity
float_add (finite _) infinity = infinity
float_add (finite _) neg_infinity = neg_infinity

-- `a - b`
unfoldable pub float_sub : Float → Float → Float
unfolding float_add float_neg
float_sub a b = float_add a (float_neg b)

abbrev pub one_float : Float
one_float = finite (pos unit)

-- `value.is_integer()`
unfoldable pub is_integer : Float → Bool
unfolding unit
is_integer (finite z) = eqb (absolute z % unit) 0
is_integer _ = false

-- `int(value)`, which drops the fraction.
unfoldable pub to_int : Number → Result ℤ
unfolding unit
to_int (int z) = ok z
to_int (float (finite (pos n))) = ok (pos (n / unit))
to_int (float (finite (negsuc n))) = ok (sub_ℕ 0 (suc n / unit))
to_int (float nan) = raise value_error "cannot convert float NaN to integer"
to_int (float _) = raise overflow_error "cannot convert float infinity to integer"
