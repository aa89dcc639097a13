-- ===== src/Float64/Tests.antt =====
-- Products that are rounded down, up and to a whole number.
use gqueue.Common.{◌*◌, ◌≡◌, refl}
use gqueue.Float64.{one, constant_99, times, rounded, round_to, grain}

product_7 : times constant_99 7 ≡ 62419890835355072
unfolding rounded round_to grain
product_7 = refl

product_12345 : times constant_99 12345 ≡ 110081936051779764224
unfolding rounded round_to grain
product_12345 = refl

product_100 : times constant_99 100 ≡ 99 * one
unfolding rounded round_to grain
product_100 = refl
