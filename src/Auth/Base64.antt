-- ===== src/Auth/Base64.antt =====
-- base64.StdEncoding of Go, as pkg/auth/basic.go uses it, and the encoding that a client makes.
use gqueue.Common.{
  ℕ, ◌+◌, ◌-◌, ◌*◌, ◌/◌, ◌%◌, ◌<◌, Bool, true, false, ◌&&◌, ◌||◌, not, ◌≡◌, refl, ap, ◌∙◌, Option,
  none, some, [], ◌∷◌, nat_eq, leb, ltb, if◌then◌else◌, keep, arith, All,
}
use gqueue.Auth.Bytes.{Text}

-- The six bits of a symbol.
unfoldable pub value : ℕ → Option ℕ
value c =
    if leb 65 c && leb c 90
    then some (c - 65)
    else if leb 97 c && leb c 122
    then some (c - 71)
    else if leb 48 c && leb c 57
    then some (c + 4)
    else if nat_eq c 43
    then some 62
    else if nat_eq c 47
    then some 63
    else none

abbrev pub join3 : Option ℕ → Option ℕ → Option ℕ → Option ℕ → Option Text → Option Text
join3 (some a) (some b) (some c) (some d) (some rest) =
    some ((a * 4 + b / 16) ∷ ((b % 16) * 16 + c / 4) ∷ ((c % 4) * 64 + d) ∷ rest)
join3 _ _ _ _ _ = none

abbrev pub join2 : Option ℕ → Option ℕ → Option ℕ → Option Text
join2 (some a) (some b) (some c) = some ((a * 4 + b / 16) ∷ ((b % 16) * 16 + c / 4) ∷ [])
join2 _ _ _ = none

abbrev pub join1 : Option ℕ → Option ℕ → Option Text
join1 (some a) (some b) = some ((a * 4 + b / 16) ∷ [])
join1 _ _ = none

-- The last group, which ends in "=": nothing follows it.
abbrev pub padded : ℕ → ℕ → ℕ → Text → Option Text
padded a b c [] =
    if nat_eq c 61 then join1 (value a) (value b) else join2 (value a) (value b) (value c)
padded a b c (d ∷ rest) = none

-- Groups of four symbols.
unfoldable pub decode_groups : Text → Option Text
unfolding value
decode_groups [] = some []
decode_groups (a ∷ []) = none
decode_groups (a ∷ b ∷ []) = none
decode_groups (a ∷ b ∷ c ∷ []) = none
decode_groups (a ∷ b ∷ c ∷ d ∷ rest) =
    let more = decode_groups rest in
    if nat_eq d 61 then padded a b c rest else join3 (value a) (value b) (value c) (value d) more

-- DecodeString: line ends are skipped.
unfoldable pub decode_string : Text → Option Text
unfolding decode_groups keep
decode_string s = decode_groups (keep (λ c. not (nat_eq c 10 || nat_eq c 13)) s)

-- The symbol of six bits.
unfoldable pub symbol : ℕ → ℕ
symbol n =
    if ltb n 26
    then n + 65
    else if ltb n 52
    then n + 71
    else if ltb n 62
    then n - 4
    else if nat_eq n 62
    then 43
    else 47

-- The encoding of RFC 4648, which a client sends.
unfoldable pub encode : Text → Text
unfolding symbol
encode [] = []
encode (x ∷ []) = symbol (x / 4) ∷ symbol ((x % 4) * 16) ∷ 61 ∷ 61 ∷ []
encode (x ∷ y ∷ []) =
    symbol (x / 4) ∷ symbol ((x % 4) * 16 + y / 16) ∷ symbol ((y % 16) * 4) ∷ 61 ∷ []
encode (x ∷ y ∷ z ∷ s) =
    symbol (x / 4)
    ∷ symbol ((x % 4) * 16 + y / 16)
    ∷ symbol ((y % 16) * 4 + z / 64)
    ∷ symbol (z % 64)
    ∷ encode s

abbrev pub AreBytes : Text → Type 0
AreBytes s = All (λ c. c < 256) s

value-symbol : (n : ℕ) → n < 64 → value (symbol n) ≡ some n
unfolding value symbol
value-symbol n h = ground arith

symbol_no_pad : (n : ℕ) → n < 64 → nat_eq (symbol n) 61 ≡ false
unfolding symbol
symbol_no_pad n h = ground arith

abbrev is_kept : ℕ → Bool
is_kept c = not (nat_eq c 10 || nat_eq c 13)

symbol_kept : (n : ℕ) → n < 64 → is_kept (symbol n) ≡ true
unfolding symbol
symbol_kept n h = ground arith

keep-encode : (s : Text) → AreBytes s → keep is_kept (encode s) ≡ encode s
unfolding encode keep
keep-encode [] h = refl
keep-encode (x ∷ []) (a, _) =
    rw (symbol_kept (x / 4) (omega arith), symbol_kept ((x % 4) * 16) (omega arith)) refl
keep-encode (x ∷ y ∷ []) (a, (b, _)) =
    rw
      (
        symbol_kept (x / 4) (omega arith),
        symbol_kept ((x % 4) * 16 + y / 16) (omega arith),
        symbol_kept ((y % 16) * 4) (omega arith),
      )
      refl
keep-encode (x ∷ y ∷ z ∷ s) (a, (b, (c, h))) =
    rw
      (
        symbol_kept (x / 4) (omega arith),
        symbol_kept ((x % 4) * 16 + y / 16) (omega arith),
        symbol_kept ((y % 16) * 4 + z / 64) (omega arith),
        symbol_kept (z % 64) (omega arith),
        keep-encode s h,
      )
      refl

cons_same : {x y : ℕ} {s t : Text} → x ≡ y → s ≡ t → x ∷ s ≡ y ∷ t
cons_same p q = cc (p, q)

decode_groups-encode : (s : Text) → AreBytes s → decode_groups (encode s) ≡ some s
unfolding encode decode_groups
decode_groups-encode [] h = refl
decode_groups-encode (x ∷ []) (a, _) =
    rw (value-symbol (x / 4) (omega arith), value-symbol ((x % 4) * 16) (omega arith))
      (ap some (cons_same (omega arith) refl))
decode_groups-encode (x ∷ y ∷ []) (a, (b, _)) =
    rw
      (
        symbol_no_pad ((y % 16) * 4) (omega arith),
        value-symbol (x / 4) (omega arith),
        value-symbol ((x % 4) * 16 + y / 16) (omega arith),
        value-symbol ((y % 16) * 4) (omega arith),
      )
      (ap some (cons_same (omega arith) (cons_same (omega arith) refl)))
decode_groups-encode (x ∷ y ∷ z ∷ s) (a, (b, (c, h))) =
    rw
      (
        symbol_no_pad (z % 64) (omega arith),
        value-symbol (x / 4) (omega arith),
        value-symbol ((x % 4) * 16 + y / 16) (omega arith),
        value-symbol ((y % 16) * 4 + z / 64) (omega arith),
        value-symbol (z % 64) (omega arith),
        decode_groups-encode s h,
      )
      (ap some (cons_same (omega arith) (cons_same (omega arith) (cons_same (omega arith) refl))))

-- What a client encodes is decoded.
pub decode_string-encode : (s : Text) → AreBytes s → decode_string (encode s) ≡ some s
unfolding decode_string
decode_string-encode s h = ap decode_groups (keep-encode s h) ∙ decode_groups-encode s h
