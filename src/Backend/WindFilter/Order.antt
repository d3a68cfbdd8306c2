-- ===== src/Backend/WindFilter/Order.antt =====
-- The comparison of the wind with a list of finite limits.
use planes.Base.{◌≡◌, true, false, arith}
use planes.Json.{Float, finite, nan, infinity, neg_infinity}
use planes.Json.Numbers.{isfinite, float_ltb, float_leb}

pub leb-of_not-ltb :
    (a b : Float)
    → isfinite a ≡ true
    → isfinite b ≡ true
    → float_ltb a b ≡ false
    → float_leb b a ≡ true
unfolding float_ltb float_leb
leb-of_not-ltb (finite a) (finite b) fa fb h = ground arith
leb-of_not-ltb (finite a) nan fa fb h = cc
leb-of_not-ltb (finite a) infinity fa fb h = cc
leb-of_not-ltb (finite a) neg_infinity fa fb h = cc
leb-of_not-ltb nan b fa fb h = cc
leb-of_not-ltb infinity b fa fb h = cc
leb-of_not-ltb neg_infinity b fa fb h = cc

pub float_leb_trans :
    (a b c : Float)
    → isfinite b ≡ true
    → float_leb a b ≡ true
    → float_leb b c ≡ true
    → float_leb a c ≡ true
unfolding float_leb
float_leb_trans (finite a) (finite b) (finite c) fb h k = ground arith
float_leb_trans a b c fb h k = ground arith
