-- ===== src/Metric/Percentiles.antt =====
-- What `percentile` answers, and which durations it is given.
use gqueue.Common.{
  ℕ, zero, suc, ◌+◌, ◌*◌, ◌≤◌, ◌<◌, ◌/◌, Bool, ◌≡◌, ◌≢◌, refl, ◌∙◌, none, some, List, [], ◌∷◌, leb,
  ltb, length, count_if, get_elem?, arith, Bool-cases, inl, inr,
}
use native.Mathlib.Nat.{mul-le-mul_right}
use gqueue.Float64.{one, constant_99, constant_75, times, ceil}
use gqueue.Float64.Rounding.{ceil-times}
use gqueue.Metric.{place, sort, percentile_index, percentile}

abbrev pub below : ℕ → List ℕ → ℕ
below v xs = count_if (λ x. leb x v) xs

-- Every element is at least `v`.
abbrev AtLeast : ℕ → List ℕ → Type 0
AtLeast v [] = Unit
AtLeast v (x ∷ xs) = (v ≤ x) × AtLeast v xs

abbrev pub IsSorted : List ℕ → Type 0
IsSorted [] = Unit
IsSorted (x ∷ xs) = AtLeast x xs × IsSorted xs

AtLeast-mono : (v w : ℕ) (xs : List ℕ) → v ≤ w → AtLeast w xs → AtLeast v xs
AtLeast-mono v w [] h k = tt
AtLeast-mono v w (x ∷ xs) h (b, k) = (omega arith, AtLeast-mono v w xs h k)

place-AtLeast : (v x : ℕ) (ys : List ℕ) → v ≤ x → AtLeast v ys → AtLeast v (place x ys)
unfolding place
place-AtLeast v x [] h k = (h, tt)
place-AtLeast v x (y ∷ ys) h (b, k) = elim (Bool-cases (leb x y)) [
  | inl small ↦ rw small (h, (b, k))
  | inr large ↦ rw large (b, place-AtLeast v x ys h k)
]

place-IsSorted : (x : ℕ) (ys : List ℕ) → IsSorted ys → IsSorted (place x ys)
unfolding place
place-IsSorted x [] h = (tt, tt)
place-IsSorted x (y ∷ ys) (b, h) = elim (Bool-cases (leb x y)) [
  | inl small ↦ rw small ((ground arith, AtLeast-mono x y ys (ground arith) b), (b, h))
  | inr large ↦ rw large (place-AtLeast y x ys (ground arith) b, place-IsSorted x ys h)
]

sort-IsSorted : (xs : List ℕ) → IsSorted (sort xs)
unfolding sort
sort-IsSorted [] = tt
sort-IsSorted (x ∷ xs) = place-IsSorted x (sort xs) (sort-IsSorted xs)

count_if-place :
    (p : ℕ → Bool) (x : ℕ) (ys : List ℕ) → count_if p (place x ys) ≡ count_if p (x ∷ ys)
unfolding place count_if
count_if-place p x [] = refl
count_if-place p x (y ∷ ys) = ground (arith, count_if-place p x ys)

count_if-cons :
    (p : ℕ → Bool) (x : ℕ) (xs ys : List ℕ)
    → count_if p xs ≡ count_if p ys
    → count_if p (x ∷ xs) ≡ count_if p (x ∷ ys)
unfolding count_if
count_if-cons p x xs ys h = omega (arith, h)

count_if-sort : (p : ℕ → Bool) (xs : List ℕ) → count_if p (sort xs) ≡ count_if p xs
unfolding sort
count_if-sort p [] = refl
count_if-sort p (x ∷ xs) =
    count_if-place p x (sort xs) ∙ count_if-cons p x (sort xs) xs (count_if-sort p xs)

length-place : (x : ℕ) (ys : List ℕ) → length (place x ys) ≡ suc (length ys)
unfolding place
length-place x [] = refl
length-place x (y ∷ ys) = ground (arith, length-place x ys)

length-sort : (xs : List ℕ) → length (sort xs) ≡ length xs
unfolding sort
length-sort [] = refl
length-sort (x ∷ xs) = omega (arith, length-place x (sort xs), length-sort xs)

get_elem?-AtLeast : (v : ℕ) (xs : List ℕ) (i w : ℕ) → AtLeast v xs → get_elem? xs i ≡ some w → v ≤ w
get_elem?-AtLeast v [] i w h e = cc
get_elem?-AtLeast v (x ∷ xs) zero w (b, h) e = ground (arith, e)
get_elem?-AtLeast v (x ∷ xs) (suc i) w (b, h) e = get_elem?-AtLeast v xs i w h e

-- The element at `i` of a sorted list has `i` others before it that are not above it.
below-get_elem? : (xs : List ℕ) (i v : ℕ) → IsSorted xs → get_elem? xs i ≡ some v → i < below v xs
unfolding count_if
below-get_elem? [] i v h e = cc
below-get_elem? (x ∷ xs) zero v h e = ground (arith, e)
below-get_elem? (x ∷ xs) (suc i) v (b, h) e =
    ground (arith, below-get_elem? xs i v h e, get_elem?-AtLeast x xs i v b e)

get_elem?-length : (xs : List ℕ) (i : ℕ) → i < length xs → get_elem? xs i ≢ none
get_elem?-length [] i h = elim h [ ]
get_elem?-length (x ∷ xs) zero h = cc
get_elem?-length (x ∷ xs) (suc i) h = get_elem?-length xs i (omega arith)

below_none : (v : ℕ) (xs : List ℕ) → AtLeast v xs → count_if (λ y. ltb y v) xs ≡ 0
unfolding count_if
below_none v [] h = refl
below_none v (x ∷ xs) (b, h) = ground (arith, below_none v xs h)

-- The element at `i` of a sorted list has at most `i` smaller ones.
smaller-get_elem? :
    (xs : List ℕ) (i v : ℕ) → IsSorted xs → get_elem? xs i ≡ some v → count_if (λ y. ltb y v) xs ≤ i
unfolding count_if
smaller-get_elem? [] i v h e = cc
smaller-get_elem? (x ∷ xs) zero v (b, h) e = ground (arith, below_none x xs b, e)
smaller-get_elem? (x ∷ xs) (suc i) v (b, h) e = ground (arith, smaller-get_elem? xs i v h e)

percentile_index_lem :
    (p h n : ℕ)
    → ceil (times p n) ≡ (h * n + 99) / 100
    → h * n ≤ 100 * n
    → 1 ≤ n
    → let idx = percentile_index p n in
      (idx < n) × (h * n ≤ 100 * (idx + 1)) × (1 ≤ h * n → 100 * idx < h * n)
unfolding percentile_index
percentile_index_lem p h n c most k = rw c (ground arith, ground arith, λ pos. ground arith)

sorted_at :
    (xs : List ℕ) (p i : ℕ) (v : ℕ)
    → get_elem? (sort xs) i ≡ some v
    → p ≤ 100 * (i + 1)
    → (1 ≤ p → 100 * i < p)
    → (p ≤ 100 * below v xs) × (1 ≤ p → 100 * count_if (λ y. ltb y v) xs < p)
sorted_at xs p i v e reaches least =
    let many = below-get_elem? (sort xs) i v (sort-IsSorted xs) e in
    let few = smaller-get_elem? (sort xs) i v (sort-IsSorted xs) e in
    (
      omega (arith, many, count_if-sort (λ x. leb x v) xs, reaches),
      λ some_p. omega (arith, few, count_if-sort (λ y. ltb y v) xs, least some_p),
    )

get_elem?-cases : (xs : List ℕ) (i : ℕ) → i < length xs → (v : ℕ) × (get_elem? xs i ≡ some v)
get_elem?-cases [] i h = elim h [ ]
get_elem?-cases (x ∷ xs) zero h = (x, refl)
get_elem?-cases (x ∷ xs) (suc i) h = get_elem?-cases xs i (omega arith)

-- The percentile that `percentile` answers for the float64 `p` is that of `h` hundredths.
abbrev pub Separates : ℕ → ℕ → List ℕ → Type 0
Separates p h xs =
    (v : ℕ) × (percentile xs p ≡ some v)
    × (h * length xs ≤ 100 * below v xs)
    × (100 * count_if (λ y. ltb y v) xs < h * length xs)

percentile-Separates :
    (p h x : ℕ) (xs : List ℕ)
    → let n = length (x ∷ xs) in
      1 ≤ h → h ≤ 100 → p ≤ one → ceil (times p n) ≡ (h * n + 99) / 100 → Separates p h (x ∷ xs)
unfolding percentile
percentile-Separates p h x xs some_h most bound c =
    let n = length (x ∷ xs) in
    let (inside, reaches, least) =
      percentile_index_lem p h n c (mul-le-mul_right n most) (omega arith) in
    let (v, e) =
      get_elem?-cases (sort (x ∷ xs)) (percentile_index p n)
        (omega (arith, inside, length-sort (x ∷ xs))) in
    let (many, few) = sorted_at (x ∷ xs) (h * n) (percentile_index p n) v e reaches least in
    let positive : 1 ≤ h * n = omega (arith, mul-le-mul_right n some_h) in
    (v, ground (arith, e, bound), many, few positive)

-- The percentiles 0.99 and 0.75, which the insights ask for, of durations, of which there is one at
-- least and are 2^40 at most: each is defined; at least 99, or 75, percent of the durations are at
-- most its value, and fewer than that are below it.
pub percentile_covers :
    (x : ℕ) (xs : List ℕ)
    → length (x ∷ xs) ≤ 1099511627776
    → Separates constant_99 99 (x ∷ xs) × Separates constant_75 75 (x ∷ xs)
percentile_covers x xs few =
    let n = length (x ∷ xs) in
    (
      percentile-Separates constant_99 99 x xs (omega arith) (omega arith) (omega arith)
          (ceil-times constant_99 99 n (omega arith) (omega arith) few),
      percentile-Separates constant_75 75 x xs (omega arith) (omega arith) (omega arith)
          (ceil-times constant_75 75 n (omega arith) (omega arith) few),
    )
