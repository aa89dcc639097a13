-- ===== src/QueryParser/Numbers.antt =====
-- The width of the integers that the parser stores.
use gqueue.Common.{
  ℕ, ◌*◌, ◌<◌, String, false, ◌==◌, string_Eq, some, List, ℤ, pos, negsuc, Try, ok, error, ◌≡◌,
  subst, ◌↔◌, inl, inr, Bool-cases, arith,
}
use gqueue.Strconv.{atoi}
use gqueue.QueryParser.{Width, half, GoType, Elem, Value, FloatOps, wrap_int, wrap_uint}
use gqueue.QueryParser.Fields.{set_field_value}

-- A signed integer of a width
abbrev pub InRange : Width → ℤ → Type 0
InRange w (pos n) = n < half w
InRange w (negsuc n) = n < half w

pub wrap_int-InRange : (w : Width) (z : ℤ) → InRange w (wrap_int w z)
unfolding wrap_int
wrap_int-InRange Width.w8 (pos n) = ground arith
wrap_int-InRange Width.w16 (pos n) = ground arith
wrap_int-InRange Width.w32 (pos n) = ground arith
wrap_int-InRange Width.w64 (pos n) = ground arith
wrap_int-InRange Width.w8 (negsuc n) = ground arith
wrap_int-InRange Width.w16 (negsuc n) = ground arith
wrap_int-InRange Width.w32 (negsuc n) = ground arith
wrap_int-InRange Width.w64 (negsuc n) = ground arith

pub wrap_uint_bound : (w : Width) (n : ℕ) → wrap_uint w n < 2 * half w
unfolding wrap_uint
wrap_uint_bound Width.w8 n = omega arith
wrap_uint_bound Width.w16 n = omega arith
wrap_uint_bound Width.w32 n = omega arith
wrap_uint_bound Width.w64 n = omega arith

wrap_int_same : (w : Width) (z : ℤ) → InRange w z → wrap_int w z ≡ z
unfolding wrap_int
wrap_int_same Width.w8 (pos n) h = ground arith
wrap_int_same Width.w16 (pos n) h = ground arith
wrap_int_same Width.w32 (pos n) h = ground arith
wrap_int_same Width.w64 (pos n) h = ground arith
wrap_int_same Width.w8 (negsuc n) h = ground arith
wrap_int_same Width.w16 (negsuc n) h = ground arith
wrap_int_same Width.w32 (negsuc n) h = ground arith
wrap_int_same Width.w64 (negsuc n) h = ground arith

atoi-nonempty : (s : String) (z : ℤ) → atoi s ≡ some z → (s == "") ≡ false
unfolding atoi
atoi-nonempty s z h = elim (Bool-cases (s == "")) [
  | inl e ↦ absurd (ground (arith, subst (λ t. atoi t ≡ some z) ((string_Eq.same_iff s "").0 e) h))
  | inr e ↦ e
]

abbrev int_value : {F : Type 0} → ℤ → Value F
int_value z = Value.scalar (Elem.int_elem z)

abbrev integer : {F : Type 0} → Value F → ℤ
integer (Value.scalar (Elem.int_elem z)) = z
integer v = pos 0

abbrev held : {F : Type 0} → Try (Value F) → ℤ
held (ok v) = integer v
held (error err) = pos 0

module _ {F : Type 0} (ops : FloatOps F) where
  set_field_value-int :
      (w : Width) (old : Value F) (s : String) (values : List String) (z : ℤ)
      → atoi s ≡ some z
      → set_field_value ops (GoType.int_type w) old s values ≡ ok (int_value (wrap_int w z))
  unfolding set_field_value
  set_field_value-int w old s values z h = rw (atoi-nonempty s z h, h)

  -- A text that spells a 64-bit integer is taken for an integer field of any width, without an
  -- error, and the field then holds an integer of its width; it is the integer of the text exactly
  -- where that is in the width's range.
  pub set_field_value_bounds :
      (w : Width) (old : Value F) (s : String) (values : List String) (z : ℤ)
      → atoi s ≡ some z
      → (y : ℤ) × (set_field_value ops (GoType.int_type w) old s values ≡ ok (int_value y))
        × InRange w y
        × ((y ≡ z) ↔ InRange w z)
  set_field_value_bounds w old s values z h = (
    wrap_int w z,
    set_field_value-int w old s values z h,
    wrap_int-InRange w z,
    (λ e. subst (InRange w) e (wrap_int-InRange w z), wrap_int_same w z),
  )
