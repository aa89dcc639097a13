-- ===== src/QueryParser/Fields.antt =====
-- The fields of a struct in parser.go: setFieldValue, ParseQueryParams and the defaults.
use gqueue.Common.{
  ◌≡◌, refl, ◌-◌, ℕ, ◌*◌, String, Bool, true, false, not, ◌&&◌, nat_eq, ◌==◌, string_Eq, Option,
  none, some, List, [], ◌∷◌, Dict, lookup, or_zero, if◌then◌else◌, ℤ, pos, negsuc, Try, ok, error,
}
use mathlib.Core.Logic.{◌↔◌, ite}
use mathlib.Core.Bool.{false≢true}
use gqueue.Topic.{append}
use gqueue.Strconv.{atoi}
use gqueue.QueryParser.{
  Width, half, GoType, Elem, Value, Field, FloatOps, wrap_int, wrap_uint, parse_uint, parse_bool,
  parsed, set_slice_value,
}

abbrev dec_string : (a b : String) (same : Bool) → (same ≡ true) ↔ (a ≡ b) → Dec (a ≡ b)
dec_string a b true h = yes (h.0 refl)
dec_string a b false h = no (λ e. false≢true (h.1 e))

abbrev String_discrete : Discrete String
String_discrete a b = dec_string a b (a == b) (string_Eq.same_iff a b)

abbrev Width_discrete : Discrete Width
Width_discrete = hlevel

-- The identity of types is decided.
abbrev pub GoType_discrete : Discrete GoType
GoType_discrete = hlevel (String_discrete)

-- values.Get(key)
abbrev pub first_value : Option (List String) → String
first_value none = ""
first_value (some []) = ""
first_value (some (v ∷ vs)) = v

-- The bits of an integer as an unsigned one
abbrev pub uint_of_int : Width → ℤ → ℕ
uint_of_int w (pos n) = wrap_uint w n
uint_of_int w (negsuc n) = 2 * half w - 1 - wrap_uint w n

module _ {F : Type 0} (ops : FloatOps F) where
  abbrev pub set_unless_empty : String → Value F → Try (Value F) → Try (Value F)
  set_unless_empty single old new = if single == "" then ok old else new

  -- setFieldValue: the field's new value, or the error, where the field is as before.
  unfoldable pub set_field_value : GoType → Value F → String → List String → Try (Value F)
  set_field_value GoType.string_type old single multiple =
      set_unless_empty single old (ok (Value.scalar (Elem.string_elem single)))
  set_field_value (GoType.int_type w) old single multiple = set_unless_empty single old (
      parsed "invalid integer value: " single (λ z. Value.scalar (Elem.int_elem (wrap_int w z)))
        (atoi single))
  set_field_value (GoType.uint_type w) old single multiple = set_unless_empty single old (
      parsed "invalid unsigned integer value: " single
        (λ n. Value.scalar (Elem.uint_elem (wrap_uint w n))) (parse_uint single))
  set_field_value (GoType.float_type b) old single multiple = set_unless_empty single old (
      parsed "invalid float value: " single (λ x. Value.scalar (Elem.float_elem (ops.to_float b x)))
        (ops.parse_float single))
  set_field_value GoType.bool_type old single multiple = set_unless_empty single old (
      parsed "invalid boolean value: " single (λ b. Value.scalar (Elem.bool_elem b))
        (parse_bool single))
  set_field_value (GoType.slice_type t) old single [] = ok old
  set_field_value (GoType.slice_type t) old single (v ∷ vs) = set_slice_value ops t (v ∷ vs)
  set_field_value (GoType.other_type name) old single multiple =
      error (append "unsupported field type: " name)

  -- An unexported field and one without the tag are skipped.
  abbrev pub is_read : Field F → Bool
  is_read f = f.exported && not (f.tag == "")

  abbrev pub after_set :
      Field F
      → List (Field F) × Option String
      → List (Field F)
      → Try (Value F)
      → List (Field F) × Option String
  after_set f rest fs (ok v) = (record f { value = v } ∷ rest.0, rest.1)
  after_set f rest fs (error err) =
      (f ∷ fs, some (append "failed to set field " (append f.name (append ": " err))))

  -- The loop of ParseQueryParams over the fields: what they are after it, also where it returns an
  -- error, the second part.
  unfoldable pub parse_query_params :
      Dict String (List String) → List (Field F) → List (Field F) × Option String
  parse_query_params values [] = ([], none)
  parse_query_params values (f ∷ fs) =
      let rest = parse_query_params values fs in
      let queried = lookup f.tag values in
      if is_read f
      then after_set f rest fs
          (set_field_value f.type f.value (first_value queried) (or_zero [] queried))
      else (f ∷ rest.0, rest.1)

  -- field.IsZero()
  unfoldable pub is_zero_elem : Elem F → Bool
  is_zero_elem (Elem.string_elem s) = s == ""
  is_zero_elem (Elem.int_elem (pos n)) = nat_eq n 0
  is_zero_elem (Elem.int_elem (negsuc n)) = false
  is_zero_elem (Elem.uint_elem n) = nat_eq n 0
  is_zero_elem (Elem.float_elem x) = ops.is_zero x
  is_zero_elem (Elem.bool_elem b) = not b
  is_zero_elem (Elem.other_elem zero) = zero

  unfoldable pub is_zero : Value F → Bool
  unfolding is_zero_elem
  is_zero (Value.scalar e) = is_zero_elem e
  is_zero (Value.slice none) = true
  is_zero (Value.slice (some elems)) = false

  -- ConvertibleTo and Convert: a type to itself, and integers to integers. What involves floats or
  -- text is the library's.
  unfoldable pub convert : GoType → GoType → Value F → Option (Value F)
  convert (GoType.int_type v) (GoType.int_type w) (Value.scalar (Elem.int_elem z)) =
      some (Value.scalar (Elem.int_elem (wrap_int w z)))
  convert (GoType.int_type v) (GoType.uint_type w) (Value.scalar (Elem.int_elem z)) =
      some (Value.scalar (Elem.uint_elem (uint_of_int w z)))
  convert (GoType.uint_type v) (GoType.int_type w) (Value.scalar (Elem.uint_elem n)) =
      some (Value.scalar (Elem.int_elem (wrap_int w (pos n))))
  convert (GoType.uint_type v) (GoType.uint_type w) (Value.scalar (Elem.uint_elem n)) =
      some (Value.scalar (Elem.uint_elem (wrap_uint w n)))
  convert from to v = ite (GoType_discrete from to) (some v) (ops.convert_other from to v)

  abbrev pub or_old : Value F → Option (Value F) → Value F
  or_old old none = old
  or_old old (some new) = new

  -- A default of the field's tag, with its type, where the field is zero
  abbrev pub default_value : Field F → Option (GoType × Value F) → Value F
  default_value f none = f.value
  default_value f (some (t, v)) =
      if is_zero f.value then or_old f.value (convert t f.type v) else f.value

  -- applyDefaults; it returns no error.
  unfoldable pub apply_defaults : Dict String (GoType × Value F) → List (Field F) → List (Field F)
  apply_defaults defaults [] = []
  apply_defaults defaults (f ∷ fs) =
      let rest = apply_defaults defaults fs in
      if is_read f
      then record f { value = default_value f (lookup f.tag defaults) } ∷ rest
      else f ∷ rest

  abbrev pub then_defaults :
      Dict String (GoType × Value F)
      → List (Field F) × Option String
      → List (Field F) × Option String
  then_defaults defaults (fs, some err) = (fs, some err)
  then_defaults defaults (fs, none) = (apply_defaults defaults fs, none)

  -- ParseQueryParamsWithDefaults
  unfoldable pub parse_query_params_with_defaults :
      Dict String (List String)
      → List (Field F)
      → Dict String (GoType × Value F)
      → List (Field F) × Option String
  unfolding parse_query_params apply_defaults
  parse_query_params_with_defaults values fields defaults =
      then_defaults defaults (parse_query_params values fields)

-- What ParseQueryParams is given.
pub data Target (F : Type 0) : Type 0 where
  pointer_to_struct : List (Field F) → Target F
  something_else : Target F

-- ParseQueryParams on any target
unfoldable pub parse_target :
    {F : Type 0} → FloatOps F → Dict String (List String) → Target F → Target F × Option String
unfolding parse_query_params
parse_target ops values (Target.pointer_to_struct fs) =
    let r = parse_query_params ops values fs in (Target.pointer_to_struct r.0, r.1)
parse_target ops values Target.something_else =
    (Target.something_else, some "target must be a pointer to struct")
