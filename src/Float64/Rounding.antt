-- ===== src/Float64/Rounding.antt =====
-- How far a rounded number is from the exact one, and the ceilings of products of numbers that are
-- just below hundredths.
use gqueue.Common.{
  ℕ, zero, suc, ◌+◌, ◌-◌, ◌*◌, ◌/◌, ◌%◌, ◌^◌, ◌≤◌, ◌<◌, ltb, ◌≡◌, ◌⊎◌, sym, subst, ap, ◌∙◌,
  Bool-cases, inl, inr, arith,
}
use native.Mathlib.Nat.{
  div-add-mod', mod-lt, mul-le-mul_right, mul_assoc, add-mul, pow-succ', mul_left_comm, one-le-pow,
  pow-le-pow_right, mul-one, lt_of_mul-lt-mul_right,
}
use gqueue.Float64.{one, grain, round_to, rounded, times, ceil}

pow_split : (k j : ℕ) → 2 ^ k * 2 ^ j ≡ 2 ^ (k + j)
pow_split k zero = mul-one (2 ^ k) ∙ ap (λ i. 2 ^ i) (omega arith)
pow_split k (suc j) =
    ap (λ v. 2 ^ k * v) (pow-succ' 2 j)
    ∙ mul_left_comm (2 ^ k) 2 (2 ^ j)
    ∙ ap (λ v. 2 * v) (pow_split k j)
    ∙ sym (pow-succ' 2 (k + j))
    ∙ ap (λ i. 2 ^ i) (omega arith)

grain_bound : (f x k : ℕ) → grain f x k ≤ k + f
unfolding grain
grain_bound zero x k = omega arith
grain_bound (suc f) x k = ground (arith, grain_bound f x (k + 1))

-- With enough digits to cut off, no more than 53 are kept.
pub grain_enough : (f x k : ℕ) → x < one * 2 ^ (k + f) → x < one * 2 ^ grain f x k
unfolding grain
grain_enough zero x k h = subst (λ i. x < one * 2 ^ i) (omega arith) h
grain_enough (suc f) x k h = elim (Bool-cases (ltb x (one * 2 ^ k))) [
  | inl fits ↦ rw fits (ground (arith, fits))
  | inr more ↦ rw more (grain_enough f x (k + 1) (subst (λ i. x < one * 2 ^ i) (omega arith) h))
]

module _ (g x : ℕ) (some_g : 1 ≤ g) where
  -- The two multiples between which a number lies
  between : (x ≡ x / g * g + x % g) × (x % g < g)
  between = (sym (div-add-mod' x g), mod-lt x some_g)

  round_to_cases : ((round_to g x ≡ x / g * g)) ⊎ ((round_to g x ≡ (x / g + 1) * g) × (1 ≤ x % g))
  unfolding round_to
  round_to_cases = ground (arith, some_g)

  round_to_below : x ≤ round_to g x + g
  round_to_below = elim round_to_cases [
    | inl down ↦ omega (arith, down, between.0, between.1)
    | inr (up, some_r) ↦ omega (arith, up, between.0, between.1, add-mul (x / g) 1 g)
  ]

  -- A multiple of the grain that is not below the number is not below the rounded one.
  round_to_above : (t : ℕ) → x ≤ t * g → round_to g x ≤ t * g
  round_to_above t h = elim round_to_cases [
    | inl down ↦ omega (arith, down, between.0, h)
    | inr (up, some_r) ↦
        let less : x / g < t = lt_of_mul-lt-mul_right g (omega (arith, between.0, some_r, h)) in
        subst (λ v. v ≤ t * g) (sym up) (mul-le-mul_right g (omega (arith, less)))
  ]

-- `x` units are `y` hundredths of 1, or less than that by at most 8 hundredths of a unit for each of
-- `n`: the ceiling of the rounded number is that of `y` hundredths.
ceil-round_to :
    (g h x y n : ℕ)
    → 1 ≤ g
    → g ≤ 2199023255552
    → h * g ≡ one
    → 100 * x ≤ y * one
    → y * one ≤ 100 * x + 8 * n
    → n ≤ 1099511627776
    → ceil (round_to g x) ≡ (y + 99) / 100
ceil-round_to g h x y n some_g small divides above below few =
    let k = (y + 99) / 100 in
    let whole : k * h * g ≡ k * one = mul_assoc k h g ∙ ap (λ v. k * v) divides in
    let high = round_to_above g x some_g (k * h) (omega (arith, whole, above)) in
    let low = round_to_below g x some_g in omega (arith, whole, high, low, small, above, below, few)

-- The same of a product with a number that is at most 8 hundredths of a unit below `h` hundredths of 1
pub ceil-times :
    (p h n : ℕ)
    → 100 * (p * n) ≤ h * n * one
    → h * n * one ≤ 100 * (p * n) + 8 * n
    → n ≤ 1099511627776
    → ceil (times p n) ≡ (h * n + 99) / 100
unfolding rounded
ceil-times p h n above below few =
    let x = p * n in
    let k = grain 41 x 0 in
    let all : 53 - k + k ≡ 53 = omega (arith, grain_bound 41 x 0) in
    ceil-round_to (2 ^ k) (2 ^ (53 - k)) x (h * n) n (one-le-pow k 2 (omega arith))
      (pow-le-pow_right (omega arith) (grain_bound 41 x 0))
      (pow_split (53 - k) k ∙ ap (λ i. 2 ^ i) all) above below few
