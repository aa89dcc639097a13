-- ===== src/Float64.antt =====
-- Go's float64, as percentile of internal/domain/metric.go computes with it: numbers that are not
-- negative and are multiples of 2^-53, each as the number of these units. A product with a whole
-- number is rounded to 53 binary digits, to the nearest and on a tie to the even one.
pub mod Rounding
mod Tests
use gqueue.Common.{
  ℕ, zero, suc, ◌+◌, ◌-◌, ◌*◌, ◌/◌, ◌%◌, ◌^◌, Bool, ◌&&◌, ◌||◌, ltb, nat_eq, if◌then◌else◌,
}

-- The units of 1
abbrev pub one : ℕ
one = 9007199254740992

-- The constants 0.99 and 0.75
abbrev pub constant_99 : ℕ
constant_99 = 8917127262193582

abbrev pub constant_75 : ℕ
constant_75 = 6755399441055744

-- A number is kept to multiples of 2^k units for the least `k` with which 53 digits are enough.
unfoldable pub grain : ℕ → ℕ → ℕ → ℕ
grain zero x k = k
grain (suc f) x k = let more = grain f x (k + 1) in if ltb x (one * 2 ^ k) then k else more

-- The nearest multiple of `g`, the even one of two
unfoldable pub round_to : ℕ → ℕ → ℕ
round_to g x =
    let q = x / g in
    let r = x % g in
    if ltb (2 * r) g || (nat_eq (2 * r) g && nat_eq (q % 2) 0) then q * g else (q + 1) * g

-- The result of an operation; 41 digits are cut off at most, which is enough below 2^94 units.
unfoldable pub rounded : ℕ → ℕ
rounded x = round_to (2 ^ grain 41 x 0) x

-- p * float64(n), for n below 2^53
abbrev pub times : ℕ → ℕ → ℕ
times p n = rounded (p * n)

-- int(math.Ceil(x))
abbrev pub ceil : ℕ → ℕ
ceil x = (x + 9007199254740991) / 9007199254740992
