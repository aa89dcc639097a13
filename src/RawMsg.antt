-- ===== src/RawMsg.antt =====
-- internal/app/taskapp/msg_data.go: the JSON object in the stored message of an archived task. A
-- text is the list of its bytes; that the first loop walks characters makes no difference, since no
-- byte of a longer character is a brace.
pub mod Balanced
mod Tests
use gqueue.Common.{
  ℕ, zero, suc, ◌+◌, ◌-◌, Bool, true, false, Option, none, some, List, [], ◌∷◌, nat_eq,
  if◌then◌else◌,
}

abbrev pub open_brace : ℕ
open_brace = 123

abbrev pub close_brace : ℕ
close_brace = 125

abbrev pub quote : ℕ
quote = 34

abbrev pub backslash : ℕ
backslash = 92

-- s[start:] for the first '{'; none where there is no such byte.
unfoldable pub from_brace : List ℕ → Option (List ℕ)
from_brace [] = none
from_brace (c ∷ s) = if nat_eq c open_brace then some (c ∷ s) else from_brace s

-- Where the second loop stands: outside of a string, in one, or behind a backslash in one.
pub data Scan : Type 0 where
  outside inside escaped : Scan

-- One more byte in front of what the rest of the loop returns.
abbrev pub behind : ℕ → Option (List ℕ) → Option (List ℕ)
behind c none = none
behind c (some t) = some (c ∷ t)

-- One round of the second loop, with `depth` braces open: where it stands behind the byte, `none`
-- where the byte closes the first brace. `depth` is at least 1 behind that brace, so `braceCount--`
-- does not go below 0.
unfoldable pub step : Scan → ℕ → ℕ → Option (Scan × ℕ)
step outside depth c =
    if nat_eq c open_brace
    then some (outside, suc depth)
    else if nat_eq c close_brace
    then (if nat_eq depth 1 then none else some (outside, depth - 1))
    else if nat_eq c quote
    then some (inside, depth)
    else some (outside, depth)
step inside depth c =
    if nat_eq c backslash
    then some (escaped, depth)
    else if nat_eq c quote
    then some (outside, depth)
    else some (inside, depth)
step escaped depth c = some (inside, depth)

-- The second loop: the bytes up to the one that closes the first brace.
unfoldable pub scan : Scan → ℕ → List ℕ → Option (List ℕ)
scan state depth [] = none
scan state depth (c ∷ s) = elim (step state depth c) [
  | none ↦ some (c ∷ [])
  | some (next, d) ↦ behind c (scan next d s)
]

abbrev pub scan_from : Option (List ℕ) → List ℕ
scan_from none = []
scan_from (some s) = elim (scan outside 0 s) [ none ↦ [] | some t ↦ t ]

-- extractJSON; "" where there is no complete object.
unfoldable pub extract_json : List ℕ → List ℕ
unfolding from_brace scan
extract_json s = scan_from (from_brace s)

-- RawMsg.Msg: `unmarshal` is json.Unmarshal into a map, `none` for its error, which gives the nil
-- map.
unfoldable pub msg : {M : Type 0} → (List ℕ → Option M) → List ℕ → Option M
unfolding extract_json
msg unmarshal raw = unmarshal (extract_json raw)
