-- ===== src/QueryParser/Typed.antt =====
-- The types of the values that the parser and the defaults leave in a struct.
use gqueue.Common.{
  ◌*◌, ◌<◌, String, Bool, true, false, ◌==◌, string_Eq, Option, none, some, List, [], ◌∷◌, Dict,
  lookup, or_zero, if◌then◌else◌, ℤ, pos, negsuc, Try, ok, error, All, All-append, ◌≡◌, subst, inl,
  inr, Bool-cases, arith,
}
use mathlib.Core.Logic.{ite}
use gqueue.Strconv.{atoi}
use gqueue.QueryParser.{
  Width, half, GoType, Elem, Value, Field, FloatOps, parse_uint, parse_bool, trim_space,
  split_comma, contains_comma, and_then, parsed, parse_slice_element, add_element, add_elements,
  add_value, add_values, set_slice_value,
}
use gqueue.QueryParser.Fields.{
  first_value, uint_of_int, set_field_value, is_read, after_set, parse_query_params, is_zero,
  convert, or_old, default_value, apply_defaults, GoType_discrete, then_defaults,
  parse_query_params_with_defaults,
}
use gqueue.QueryParser.Numbers.{InRange, wrap_int-InRange, wrap_uint_bound}

module _ {F : Type 0} where
  -- A value of a type that is not a slice
  abbrev pub ElemHas : GoType → Elem F → Type 0
  ElemHas GoType.string_type (Elem.string_elem s) = Unit
  ElemHas (GoType.int_type w) (Elem.int_elem z) = InRange w z
  ElemHas (GoType.uint_type w) (Elem.uint_elem n) = n < 2 * half w
  ElemHas (GoType.float_type b) (Elem.float_elem x) = Unit
  ElemHas GoType.bool_type (Elem.bool_elem b) = Unit
  ElemHas (GoType.slice_type t) (Elem.other_elem z) = Unit
  ElemHas (GoType.other_type name) (Elem.other_elem z) = Unit
  ElemHas _ _ = ⊥

  abbrev pub HasType : GoType → Value F → Type 0
  HasType (GoType.slice_type t) (Value.slice none) = Unit
  HasType (GoType.slice_type t) (Value.slice (some elems)) = All (ElemHas t) elems
  HasType (GoType.slice_type t) (Value.scalar e) = ⊥
  HasType t (Value.scalar e) = ElemHas t e
  HasType t (Value.slice o) = ⊥

  abbrev pub FieldTyped : Field F → Type 0
  FieldTyped f = HasType f.type f.value

  -- Every field has a value of its type.
  abbrev pub Typed : List (Field F) → Type 0
  Typed fs = All FieldTyped fs

  abbrev pub DefaultTyped : String × (GoType × Value F) → Type 0
  DefaultTyped d = HasType d.1.0 d.1.1

abbrev IfOk : {A : Type 0} → (A → Type 0) → Try A → Type 0
IfOk P (ok a) = P a
IfOk P (error err) = Unit

abbrev pub IfSome : {A : Type 0} → (A → Type 0) → Option A → Type 0
IfSome P (some a) = P a
IfSome P none = Unit

IfOk-parsed :
    {A B : Type 0} (P : B → Type 0) (what s : String) (f : A → B) (o : Option A)
    → ((a : A) → P (f a))
    → IfOk P (parsed what s f o)
IfOk-parsed P what s f none h = tt
IfOk-parsed P what s f (some a) h = h a

IfOk-and_then :
    {A B : Type 0} (P : A → Type 0) (Q : B → Type 0) (r : Try A) (f : A → Try B)
    → IfOk P r
    → ((a : A) → P a → IfOk Q (f a))
    → IfOk Q (and_then r f)
IfOk-and_then P Q (ok a) f h k = k a h
IfOk-and_then P Q (error err) f h k = tt

IfOk-if :
    {A : Type 0} (P : A → Type 0) (b : Bool) (x y : Try A)
    → IfOk P x
    → IfOk P y
    → IfOk P (if b then x else y)
IfOk-if P true x y h k = h
IfOk-if P false x y h k = k

module _ {F : Type 0} (ops : FloatOps F) where
  parse_slice_element-ElemHas :
      (t : GoType) (s : String) → IfOk (ElemHas t) (parse_slice_element ops t s)
  unfolding parse_slice_element
  parse_slice_element-ElemHas GoType.string_type s = tt
  parse_slice_element-ElemHas (GoType.int_type w) s =
      IfOk-parsed _ _ s _ (atoi s) (wrap_int-InRange w)
  parse_slice_element-ElemHas (GoType.uint_type w) s =
      IfOk-parsed _ _ s _ (parse_uint s) (wrap_uint_bound w)
  parse_slice_element-ElemHas (GoType.float_type b) s =
      IfOk-parsed _ _ s _ (ops.parse_float s) (λ x. tt)
  parse_slice_element-ElemHas GoType.bool_type s = IfOk-parsed _ _ s _ (parse_bool s) (λ b. tt)
  parse_slice_element-ElemHas (GoType.slice_type t) s = tt
  parse_slice_element-ElemHas (GoType.other_type name) s = tt

  add_element-All :
      (t : GoType) (piece : String) (elems : List (Elem F))
      → All (ElemHas t) elems
      → IfOk (All (ElemHas t)) (add_element ops t piece elems)
  unfolding add_element
  add_element-All t piece elems h = IfOk-if _ (trim_space piece == "") _ _ h (
      IfOk-and_then (ElemHas t) _ (parse_slice_element ops t (trim_space piece)) _
        (parse_slice_element-ElemHas t (trim_space piece))
        (λ e k. All-append (ElemHas t) elems (e ∷ []) h (k, tt)))

  add_elements-All :
      (t : GoType) (ps : List String) (elems : List (Elem F))
      → All (ElemHas t) elems
      → IfOk (All (ElemHas t)) (add_elements ops t ps elems)
  unfolding add_elements
  add_elements-All t [] elems h = h
  add_elements-All t (p ∷ ps) elems h =
      IfOk-and_then _ _ (add_element ops t p elems) _ (add_element-All t p elems h)
        (add_elements-All t ps)

  add_values-All :
      (t : GoType) (vs : List String) (elems : List (Elem F))
      → All (ElemHas t) elems
      → IfOk (All (ElemHas t)) (add_values ops t vs elems)
  unfolding add_values add_value
  add_values-All t [] elems h = h
  add_values-All t (v ∷ vs) elems h =
      IfOk-and_then _ _ (add_value ops t v elems) _
        (IfOk-if _ (contains_comma v) _ _ (add_elements-All t (split_comma v) elems h)
          (add_element-All t v elems h))
        (add_values-All t vs)

  set_field_value-HasType :
      (t : GoType) (old : Value F) (single : String) (values : List String)
      → HasType t old
      → IfOk (HasType t) (set_field_value ops t old single values)
  unfolding set_field_value set_slice_value
  set_field_value-HasType GoType.string_type old s vs h = IfOk-if _ (s == "") _ _ h tt
  set_field_value-HasType (GoType.int_type w) old s vs h =
      IfOk-if _ (s == "") _ _ h (IfOk-parsed _ _ s _ (atoi s) (wrap_int-InRange w))
  set_field_value-HasType (GoType.uint_type w) old s vs h =
      IfOk-if _ (s == "") _ _ h (IfOk-parsed _ _ s _ (parse_uint s) (wrap_uint_bound w))
  set_field_value-HasType (GoType.float_type b) old s vs h =
      IfOk-if _ (s == "") _ _ h (IfOk-parsed _ _ s _ (ops.parse_float s) (λ x. tt))
  set_field_value-HasType GoType.bool_type old s vs h =
      IfOk-if _ (s == "") _ _ h (IfOk-parsed _ _ s _ (parse_bool s) (λ b. tt))
  set_field_value-HasType (GoType.slice_type t) old s [] h = h
  set_field_value-HasType (GoType.slice_type t) old s (v ∷ vs) h =
      IfOk-and_then (All (ElemHas t)) (HasType (GoType.slice_type t)) (add_values ops t (v ∷ vs) [])
        _ (add_values-All t (v ∷ vs) [] tt) (λ elems k. k)
  set_field_value-HasType (GoType.other_type name) old s vs h = tt

  uint_of_int_bound : (w : Width) (z : ℤ) → uint_of_int w z < 2 * half w
  uint_of_int_bound w (pos n) = wrap_uint_bound w n
  uint_of_int_bound w (negsuc n) = omega (arith, wrap_uint_bound w n)

  -- reflect's conversions keep to the type that is asked for.
  abbrev pub ConvertsTyped : Type 0
  ConvertsTyped =
      (from to : GoType) (v : Value F)
      → HasType from v
      → IfSome (HasType to) (ops.convert_other from to v)

  module _ (other : ConvertsTyped) where
    IfSome-ite :
        (from to : GoType) (v : Value F) (d : Dec (from ≡ to))
        → HasType from v
        → IfSome (HasType to) (ite d (some v) (ops.convert_other from to v))
    IfSome-ite from to v (yes e) h = subst (λ t. HasType t v) e h
    IfSome-ite from to v (no ne) h = other from to v h

    convert-HasType :
        (from to : GoType) (v : Value F)
        → HasType from v
        → IfSome (HasType to) (convert ops from to v)
    unfolding convert
    convert-HasType (GoType.int_type v) (GoType.int_type w) (Value.scalar (Elem.int_elem z)) h =
        wrap_int-InRange w z
    convert-HasType (GoType.int_type v) (GoType.uint_type w) (Value.scalar (Elem.int_elem z)) h =
        uint_of_int_bound w z
    convert-HasType (GoType.uint_type v) (GoType.int_type w) (Value.scalar (Elem.uint_elem n)) h =
        wrap_int-InRange w (pos n)
    convert-HasType (GoType.uint_type v) (GoType.uint_type w) (Value.scalar (Elem.uint_elem n)) h =
        wrap_uint_bound w n
    convert-HasType from to v h = IfSome-ite from to v (GoType_discrete from to) h

    or_old-HasType :
        (t : GoType) (old : Value F) (o : Option (Value F))
        → HasType t old
        → IfSome (HasType t) o
        → HasType t (or_old ops old o)
    or_old-HasType t old none h k = h
    or_old-HasType t old (some new) h k = k

    default_value-HasType :
        (f : Field F) (o : Option (GoType × Value F))
        → FieldTyped f
        → IfSome (λ d. HasType d.0 d.1) o
        → HasType f.type (default_value ops f o)
    default_value-HasType f none h k = h
    default_value-HasType f (some (t, v)) h k = elim (Bool-cases (is_zero ops f.value)) [
      | inl e ↦
          rw e (
            or_old-HasType f.type f.value (convert ops t f.type v) h (convert-HasType t f.type v k))
      | inr e ↦ rw e h
    ]

    lookup-Typed :
        (defaults : Dict String (GoType × Value F)) (tag : String)
        → All DefaultTyped defaults
        → IfSome (λ d. HasType d.0 d.1) (lookup tag defaults)
    unfolding lookup
    lookup-Typed [] tag k = tt
    lookup-Typed ((name, d) ∷ ds) tag (k, ks) = elim (Bool-cases (name == tag)) [
      | inl e ↦ rw e k
      | inr e ↦ rw e (lookup-Typed ds tag ks)
    ]

    apply_defaults-Typed :
        (defaults : Dict String (GoType × Value F)) (fs : List (Field F))
        → All DefaultTyped defaults
        → Typed fs
        → Typed (apply_defaults ops defaults fs)
    unfolding apply_defaults
    apply_defaults-Typed defaults [] k h = tt
    apply_defaults-Typed defaults (f ∷ fs) k (h, hs) = elim (Bool-cases (is_read ops f)) [
      | inl e ↦ rw e (
        default_value-HasType f (lookup f.tag defaults) h (lookup-Typed defaults f.tag k),
        apply_defaults-Typed defaults fs k hs,
      )
      | inr e ↦ rw e (h, apply_defaults-Typed defaults fs k hs)
    ]

  after_set-Typed :
      (f : Field F) (rest : List (Field F) × Option String) (fs : List (Field F))
      (r : Try (Value F))
      → Typed (f ∷ fs)
      → Typed rest.0
      → IfOk (HasType f.type) r
      → Typed (after_set ops f rest fs r).0
  after_set-Typed f rest fs (ok v) h hs k = (k, hs)
  after_set-Typed f rest fs (error err) h hs k = h

  parse_query_params-Typed :
      (values : Dict String (List String)) (fs : List (Field F))
      → Typed fs
      → Typed (parse_query_params ops values fs).0
  unfolding parse_query_params
  parse_query_params-Typed values [] h = tt
  parse_query_params-Typed values (f ∷ fs) (h, hs) =
      let queried = lookup f.tag values in
      elim (Bool-cases (is_read ops f)) [
        | inl e ↦ rw e (
            after_set-Typed f (parse_query_params ops values fs) fs
              (set_field_value ops f.type f.value (first_value queried) (or_zero [] queried))
              (h, hs) (parse_query_params-Typed values fs hs)
              (set_field_value-HasType f.type f.value (first_value queried) (or_zero [] queried) h))
        | inr e ↦ rw e (h, parse_query_params-Typed values fs hs)
      ]

  then_defaults-Typed :
      ConvertsTyped
      → (defaults : Dict String (GoType × Value F)) → All DefaultTyped defaults
      → (r : List (Field F) × Option String) → Typed r.0
      → Typed (then_defaults ops defaults r).0
  then_defaults-Typed other defaults k (fs, none) h = apply_defaults-Typed other defaults fs k h
  then_defaults-Typed other defaults k (fs, some err) h = h

  -- Whatever the query, a struct whose fields have values of their types has such values after the
  -- query was read into it and the defaults applied, also where the reading fails: an integer keeps
  -- to the width of its field, and so do the elements of a slice. The defaults have their types, and
  -- the library's other conversions answer values of the type that is asked for.
  pub parse_query_params_with_defaults-Typed :
      ConvertsTyped
      → (values : Dict String (List String)) (fs : List (Field F))
      → (defaults : Dict String (GoType × Value F)) → All DefaultTyped defaults
      → Typed fs
      → Typed (parse_query_params_with_defaults ops values fs defaults).0
  unfolding parse_query_params_with_defaults
  parse_query_params_with_defaults-Typed other values fs defaults k h =
      then_defaults-Typed other defaults k (parse_query_params ops values fs)
        (parse_query_params-Typed values fs h)
