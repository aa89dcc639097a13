-- ===== src/Strconv.antt =====
-- The parts of Go's strconv that the program calls: Atoi and Itoa, on 64-bit integers.
pub mod RoundTrip
use Prim.Native.String.{[], ◌∷◌}
use gqueue.Common.{
  ℕ, zero, suc, ◌+◌, ◌-◌, ◌*◌, ◌/◌, ◌%◌, ◌^◌, Char, code, String, Bool, true, false, ◌&&◌, Option,
  ◌≡◌, refl, none, some, ltb, leb, nat_eq, if◌then◌else◌, ℤ, pos, negsuc,
}

abbrev pub max_int : ℕ
max_int = 2 ^ 63 - 1

abbrev pub is_digit : Char → Bool
is_digit c = leb b'0' (code c) && leb (code c) b'9'

-- The number that digits spell behind `n`.
unfoldable pub read : String → ℕ → Option ℕ
read [] n = some n
read (c ∷ s) n = if is_digit c then read s (n * 10 + (code c - b'0')) else none

-- At least one digit.
abbrev pub read_digits : String → Option ℕ
read_digits [] = none
read_digits (c ∷ s) = read (c ∷ s) 0

abbrev pub non_negative : Option ℕ → Option ℤ
non_negative none = none
non_negative (some n) = if leb n max_int then some (pos n) else none

abbrev pub negative : Option ℕ → Option ℤ
negative none = none
negative (some zero) = some (pos 0)
negative (some (suc n)) = if leb n max_int then some (negsuc n) else none

-- An optional sign, then digits, within the range of int64; `none` is the error.
unfoldable pub atoi : String → Option ℤ
unfolding read
atoi [] = none
atoi (c ∷ s) =
    if nat_eq (code c) b'-'
    then negative (read_digits s)
    else if nat_eq (code c) b'+'
    then non_negative (read_digits s)
    else non_negative (read (c ∷ s) 0)

unfoldable pub digit : ℕ → Char
digit zero = "0"
digit (suc zero) = "1"
digit (suc (suc zero)) = "2"
digit (suc (suc (suc zero))) = "3"
digit (suc (suc (suc (suc zero)))) = "4"
digit (suc (suc (suc (suc (suc zero))))) = "5"
digit (suc (suc (suc (suc (suc (suc zero)))))) = "6"
digit (suc (suc (suc (suc (suc (suc (suc zero))))))) = "7"
digit (suc (suc (suc (suc (suc (suc (suc (suc zero)))))))) = "8"
digit _ = "9"

-- The digits of `n` in front of `out`; more fuel than `n` is enough.
unfoldable pub emit : ℕ → ℕ → String → String
emit zero n out = out
emit (suc f) n out = elim (ltb n 10) [
  | true ↦ digit n ∷ out
  | false ↦ emit f (n / 10) (digit (n % 10) ∷ out)
]

unfoldable pub itoa : ℤ → String
unfolding emit digit
itoa (pos n) = emit (suc n) n ""
itoa (negsuc n) = "-" ∷ emit (suc (suc n)) (suc n) ""

atoi_tests :
    (atoi "42" ≡ some (pos 42))
    × (atoi "" ≡ none)
    × (atoi "-7" ≡ some (negsuc 6))
    × (atoi "1x" ≡ none)
    × (atoi "9223372036854775808" ≡ none)
unfolding atoi
atoi_tests = (refl, refl, refl, refl, refl)

itoa_tests : (itoa (pos 1207) ≡ "1207") × (itoa (negsuc 9) ≡ "-10")
unfolding itoa
itoa_tests = (refl, refl)
