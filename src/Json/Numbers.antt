-- ===== src/Json/Numbers.antt =====
-- Python's ints and floats, with the conversions and tests that the program uses.
pub mod Arithmetic
use planes.Base.{
  ℕ, zero, suc, ◌+◌, ◌-◌, ◌*◌, ◌/◌, ◌%◌, ◌^◌, ◌≤◌, ◌≡◌, Bool, true, false, ◌&&◌, ◌||◌, Option, none,
  some, arith, ltb, leb, eqb, if◌then◌else◌, le→leb,
}
use planes.Base.Int.{ℤ, pos, negsuc, ltb_ℤ, leb_ℤ, sub_ℕ}
use planes.Base.Result.{Raises, Result, ok, raise, overflow_error}

-- A finite double is a multiple of 2^-1074; `finite` holds that multiple, so tests are exact. The
-- two zeros, which compare equal, are one value here.
pub data Float : Type 0 where
  nan infinity neg_infinity : Float
  finite : ℤ → Float

pub data Number : Type 0 where
  int : ℤ → Number
  float : Float → Number

-- One, in units of 2^-1074.
unfoldable pub unit : ℕ
unit = 2 ^ 1074

unfoldable pub bit_length_from : ℕ → ℕ → ℕ
bit_length_from zero n = 0
bit_length_from (suc fuel) n =
    let rest = bit_length_from fuel (n / 2) in if eqb n 0 then 0 else suc rest

-- Halve until zero, at most 1100 times: a longer number overflows anyway.
bit_length : ℕ → ℕ
unfolding bit_length_from
bit_length n = bit_length_from 1100 n

-- The nearest multiple of `step`, ties to the even multiple.
unfoldable pub round_even : ℕ → ℕ → ℕ
round_even n step =
    let q = n / step in
    let r = n % step in
    if ltb step (2 * r) || eqb (2 * r) step && eqb (q % 2) 1 then (q + 1) * step else q * step

-- The magnitude of `float(n)`: exact up to 2^53, rounded to 53 bits above; `none` on overflow.
unfoldable pub magnitude : ℕ → Option ℕ
unfolding bit_length round_even
magnitude n =
    if leb n (2 ^ 53)
    then some n
    else let m = round_even n (2 ^ (bit_length n - 53)) in if leb (2 ^ 1024) m then none else some m

abbrev sign_of : ℤ → ℕ → ℤ
sign_of (pos _) m = pos m
sign_of (negsuc _) m = sub_ℕ 0 m

abbrev scaled : ℤ → Option ℕ → Result Float
scaled z none = raise overflow_error "int too large to convert to float"
scaled z (some m) = ok (finite (sign_of z (m * unit)))

abbrev pub absolute : ℤ → ℕ
absolute (pos n) = n
absolute (negsuc n) = suc n

-- `float(value)` of a number.
unfoldable pub to_float : Number → Result Float
unfolding magnitude unit
to_float (int z) = scaled z (magnitude (absolute z))
to_float (float f) = ok f

-- `math.isfinite` of a float.
abbrev pub isfinite : Float → Bool
isfinite (finite _) = true
isfinite _ = false

abbrev pub is_finite : Number → Bool
is_finite (int _) = true
is_finite (float f) = isfinite f

-- The least number of more than 4300 digits, which CPython's default limit refuses to print.
unfoldable pub digit_limit : ℕ
digit_limit = 10 ^ 4300

abbrev pub is_printable : Number → Bool
is_printable (int z) = ltb (absolute z) digit_limit
is_printable (float f) = true

-- `a < b` on floats; every comparison with a NaN is false.
unfoldable pub float_ltb : Float → Float → Bool
float_ltb (finite a) (finite b) = ltb_ℤ a b
float_ltb (finite _) infinity = true
float_ltb neg_infinity (finite _) = true
float_ltb neg_infinity infinity = true
float_ltb _ _ = false

-- `a <= b` on floats.
unfoldable pub float_leb : Float → Float → Bool
float_leb (finite a) (finite b) = leb_ℤ a b
float_leb nan _ = false
float_leb _ nan = false
float_leb neg_infinity _ = true
float_leb _ infinity = true
float_leb _ _ = false

abbrev pub float_zero : Float
float_zero = finite (pos 0)

-- `value < 0`, which Python decides exactly for ints and floats.
unfoldable pub is_negative : Number → Bool
unfolding float_ltb
is_negative (int z) = ltb_ℤ z (pos 0)
is_negative (float f) = float_ltb f float_zero

-- Up to 2^53 the conversion is exact.
pub magnitude_exact : (n : ℕ) → n ≤ 2 ^ 53 → magnitude n ≡ some n
unfolding magnitude
magnitude_exact n h = ground (arith, le→leb n (2 ^ 53))

scaled-Raises : (z : ℤ) (o : Option ℕ) → Raises overflow_error (scaled z o)
scaled-Raises z none e h = cc
scaled-Raises z (some m) e h = cc

-- A conversion that fails has overflowed.
pub to_float-Raises : (n : Number) → Raises overflow_error (to_float n)
unfolding to_float
to_float-Raises (float f) e h = cc
to_float-Raises (int z) e h = scaled-Raises z (magnitude (absolute z)) e h
