-- ===== src/Common/Int.antt =====
-- Go's signed integers. The program's values stay far inside 64 bits where no bound is written.
use Prim.Native.Nat.{ℕ, zero, suc, ◌+◌}
use mathlib.Core.Bool.{Bool, true, false}
use mathlib.Core.Path.{◌≡◌, refl, ap}
use native.Mathlib.Omega.{arith}
use gqueue.Common.Tests.{leb, ltb}

-- `negsuc n` is -(n + 1).
pub data ℤ : Type 0 where
  pos : ℕ → ℤ
  negsuc : ℕ → ℤ

-- a >= b
abbrev pub geb : ℤ → ℤ → Bool
geb (pos a) (pos b) = leb b a
geb (pos a) (negsuc b) = true
geb (negsuc a) (pos b) = false
geb (negsuc a) (negsuc b) = leb a b

-- a > 0
abbrev pub is_positive : ℤ → Bool
is_positive (pos n) = ltb 0 n
is_positive (negsuc n) = false

-- a < 0
abbrev pub is_negative : ℤ → Bool
is_negative (pos n) = false
is_negative (negsuc n) = true

-- a + 1
abbrev pub increment : ℤ → ℤ
increment (pos n) = pos (n + 1)
increment (negsuc zero) = pos 0
increment (negsuc (suc n)) = negsuc n

-- a - 1
abbrev pub decrement : ℤ → ℤ
decrement (pos zero) = negsuc 0
decrement (pos (suc n)) = pos n
decrement (negsuc n) = negsuc (suc n)

-- a + n
abbrev pub add_nat : ℕ → ℤ → ℤ
add_nat zero a = a
add_nat (suc n) a = increment (add_nat n a)

-- a - n
abbrev pub sub_nat : ℕ → ℤ → ℤ
sub_nat zero a = a
sub_nat (suc n) a = decrement (sub_nat n a)

-- a + b
abbrev pub plus : ℤ → ℤ → ℤ
plus a (pos n) = add_nat n a
plus a (negsuc n) = sub_nat (n + 1) a

plus_one : (n : ℕ) → n + 1 ≡ suc n
plus_one n = omega arith

pub decrement-increment : (a : ℤ) → decrement (increment a) ≡ a
decrement-increment (pos n) = ap (λ k. decrement (pos k)) (plus_one n)
decrement-increment (negsuc zero) = refl
decrement-increment (negsuc (suc n)) = refl
