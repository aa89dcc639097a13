-- ===== src/QueryParser.antt =====
-- pkg/queryparser/parser.go: a query string read into the fields of a struct, as reflection sees
-- them.
--
-- A type is its reflect.Kind, so that fields and elements are of predeclared types: a slice whose
-- elements are of a declared text or Boolean type, for which reflect.Append panics, is left out. int
-- and uint have 64 bits. `F` is the type of Go's floats, and
-- `FloatOps` what the parser asks of the standard library about them.
pub mod Fields
pub mod Numbers
pub mod Slices
pub mod Typed
mod Tests
use Prim.Native.String.{[] as nil, ◌∷◌ as cons}
use gqueue.Common.{
  ℕ, zero, suc, ◌+◌, ◌-◌, ◌*◌, ◌%◌, ◌^◌, ◌<◌, Char, code, String, Bool, true, false, not, ◌&&◌,
  ◌||◌, ltb, leb, nat_eq, ◌==◌, string_Eq, Option, none, some, List, [], ◌∷◌, ◌++◌, Dict, lookup,
  or_zero, if◌then◌else◌, ℤ, pos, negsuc, Try, ok, error,
}
use gqueue.Topic.{append}
use gqueue.Strconv.{read, read_digits, atoi}

pub data Width : Type 0 where
  w8 w16 w32 w64 : Width

-- 2^(w-1)
abbrev pub half : Width → ℕ
half Width.w8 = 2 ^ 7
half Width.w16 = 2 ^ 15
half Width.w32 = 2 ^ 31
half Width.w64 = 2 ^ 63

pub data GoType : Type 0 where
  string_type : GoType
  int_type : Width → GoType
  uint_type : Width → GoType
  float_type : Bool → GoType
  bool_type : GoType
  slice_type : GoType → GoType
  other_type : String → GoType

-- The name of a kind that the parser does not read
abbrev pub kind_name : GoType → String
kind_name (GoType.slice_type t) = "slice"
kind_name (GoType.other_type name) = name
kind_name _ = ""

-- A value of a type that is not a slice; of one that the parser does not read, whether it is zero.
pub data Elem (F : Type 0) : Type 0 where
  string_elem : String → Elem F
  int_elem : ℤ → Elem F
  uint_elem : ℕ → Elem F
  float_elem : F → Elem F
  bool_elem : Bool → Elem F
  other_elem : Bool → Elem F

-- The nil slice is `none`.
pub data Value (F : Type 0) : Type 0 where
  scalar : Elem F → Value F
  slice : Option (List (Elem F)) → Value F

-- A field of the struct, with the tag `query` ("" where it has none).
pub record Field (F : Type 0) : Type 0 where
  pub name : String
  pub tag : String
  pub exported : Bool
  pub type : GoType
  pub value : Value F

-- strconv.ParseFloat, the conversion to a 32-bit float where the flag is false, and the two tests of
-- reflect that involve floats or text.
pub record FloatOps (F : Type 0) : Type 0 where
  pub parse_float : String → Option F
  pub to_float : Bool → F → F
  pub is_zero : F → Bool
  pub convert_other : GoType → GoType → Value F → Option (Value F)

-- int8(x) and the like: the low bits, read with a sign.
unfoldable pub wrap_int : Width → ℤ → ℤ
wrap_int w (pos n) =
    let m = n % (2 * half w) in if ltb m (half w) then pos m else negsuc (2 * half w - 1 - m)
wrap_int w (negsuc n) =
    let m = n % (2 * half w) in if ltb m (half w) then negsuc m else pos (2 * half w - 1 - m)

unfoldable pub wrap_uint : Width → ℕ → ℕ
wrap_uint w n = n % (2 * half w)

abbrev pub in_uint64 : Option ℕ → Option ℕ
in_uint64 none = none
in_uint64 (some n) = if ltb n (2 ^ 64) then some n else none

-- strconv.ParseUint(s, 10, 64)
unfoldable pub parse_uint : String → Option ℕ
parse_uint s = in_uint64 (read_digits s)

-- strconv.ParseBool
unfoldable pub parse_bool : String → Option Bool
parse_bool s =
    if s == "1" || s == "t" || s == "T" || s == "true" || s == "TRUE" || s == "True"
    then some true
    else if s == "0" || s == "f" || s == "F" || s == "false" || s == "FALSE" || s == "False"
    then some false
    else none

-- unicode.IsSpace
abbrev pub is_space : Char → Bool
is_space c =
    let n = code c in
    (leb 9 n && leb n 13)
    || nat_eq n 32
    || nat_eq n 133
    || nat_eq n 160
    || nat_eq n 5760
    || (leb 8192 n && leb n 8202)
    || nat_eq n 8232
    || nat_eq n 8233
    || nat_eq n 8239
    || nat_eq n 8287
    || nat_eq n 12288

unfoldable pub trim_left_space : String → String
trim_left_space nil = nil
trim_left_space (cons c s) = let rest = trim_left_space s in if is_space c then rest else cons c s

unfoldable pub trim_right_space : String → String
trim_right_space nil = nil
trim_right_space (cons c s) =
    let rest = trim_right_space s in if is_space c && rest == "" then nil else cons c rest

-- strings.TrimSpace
unfoldable pub trim_space : String → String
unfolding trim_left_space trim_right_space
trim_space s = trim_right_space (trim_left_space s)

abbrev pub is_comma : Char → Bool
is_comma c = nat_eq (code c) b','

-- strings.Contains(s, ",")
unfoldable pub contains_comma : String → Bool
contains_comma nil = false
contains_comma (cons c s) = is_comma c || contains_comma s

-- A character in front of the first piece.
abbrev pub onto_first : Char → List String → List String
onto_first c [] = cons c nil ∷ []
onto_first c (p ∷ ps) = cons c p ∷ ps

-- strings.Split(s, ",")
unfoldable pub split_comma : String → List String
split_comma nil = nil ∷ []
split_comma (cons c s) =
    let rest = split_comma s in if is_comma c then nil ∷ rest else onto_first c rest

-- if err != nil { return err }
abbrev pub and_then {ℓ κ} : {A : Type ℓ} {B : Type κ} → Try A → (A → Try B) → Try B
and_then (ok a) f = f a
and_then (error err) f = error err

-- A parsed value, or an error that names the text.
abbrev pub parsed {ℓ κ} : {A : Type ℓ} {B : Type κ} → String → String → (A → B) → Option A → Try B
parsed what s f none = error (append what s)
parsed what s f (some a) = ok (f a)

module _ {F : Type 0} (ops : FloatOps F) where
  -- parseSliceElement, for a predeclared type
  unfoldable pub parse_slice_element : GoType → String → Try (Elem F)
  parse_slice_element GoType.string_type s = ok (Elem.string_elem s)
  parse_slice_element (GoType.int_type w) s =
      parsed "invalid integer value in slice: " s (λ z. Elem.int_elem (wrap_int w z)) (atoi s)
  parse_slice_element (GoType.uint_type w) s =
      parsed "invalid unsigned integer value in slice: " s (λ n. Elem.uint_elem (wrap_uint w n))
        (parse_uint s)
  parse_slice_element (GoType.float_type b) s =
      parsed "invalid float value in slice: " s (λ x. Elem.float_elem (ops.to_float b x))
        (ops.parse_float s)
  parse_slice_element GoType.bool_type s =
      parsed "invalid boolean value in slice: " s Elem.bool_elem (parse_bool s)
  parse_slice_element t s = error (append "unsupported slice element type: " (kind_name t))

  -- The body of the loops of setSliceValue on one piece of a value.
  unfoldable pub add_element : GoType → String → List (Elem F) → Try (List (Elem F))
  add_element t piece elems =
      let p = trim_space piece in
      if p == "" then ok elems else and_then (parse_slice_element t p) (λ e. ok (elems ++ e ∷ []))

  -- for _, subValue := range subValues
  unfoldable pub add_elements : GoType → List String → List (Elem F) → Try (List (Elem F))
  add_elements t [] elems = ok elems
  add_elements t (p ∷ ps) elems = and_then (add_element t p elems) (add_elements t ps)

  unfoldable pub add_value : GoType → String → List (Elem F) → Try (List (Elem F))
  unfolding add_element add_elements
  add_value t value elems =
      if contains_comma value
      then add_elements t (split_comma value) elems
      else add_element t value elems

  -- for _, value := range values
  unfoldable pub add_values : GoType → List String → List (Elem F) → Try (List (Elem F))
  add_values t [] elems = ok elems
  add_values t (v ∷ vs) elems = and_then (add_value t v elems) (add_values t vs)

  -- setSliceValue; a slice without elements is not nil.
  unfoldable pub set_slice_value : GoType → List String → Try (Value F)
  unfolding add_values
  set_slice_value t values =
      and_then (add_values t values []) (λ elems. ok (Value.slice (some elems)))
