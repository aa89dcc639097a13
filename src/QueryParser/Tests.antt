-- ===== src/QueryParser/Tests.antt =====
-- The query parser on a struct with a narrow integer and with lists.
use gqueue.Common.{
  ℕ, String, true, false, none, some, [], ◌∷◌, List, Dict, ok, pos, ℤ, ◌≡◌, refl, ◌↔◌, string_Eq,
}
use gqueue.Strconv.{atoi, read}
use gqueue.QueryParser.{Width, GoType, Elem, Value, Field, FloatOps, wrap_int}
use gqueue.QueryParser.Fields.{set_field_value, Target, parse_target}
use gqueue.QueryParser.Numbers.{InRange, set_field_value_bounds}

-- Floats are whole numbers, and nothing else is converted.
abbrev floats : FloatOps ℕ
floats = record {
  parse_float = λ s. none;
  to_float = λ b x. x;
  is_zero = λ x. false;
  convert_other = λ from to v. none;
}

abbrev retries : Field ℕ
retries = record {
  name = "Retries";
  tag = "retries";
  exported = true;
  type = GoType.int_type Width.w8;
  value = Value.scalar (Elem.int_elem (pos 0));
}

abbrev flags : Field ℕ
flags = record {
  name = "Flags";
  tag = "flags";
  exported = true;
  type = GoType.slice_type GoType.bool_type;
  value = Value.slice none;
}

abbrev hidden : Field ℕ
hidden = record {
  name = "hidden";
  tag = "retries";
  exported = false;
  type = GoType.other_type "chan";
  value = Value.scalar (Elem.other_elem true);
}

abbrev query : Dict String (List String)
query = ("retries", ("300" ∷ [])) ∷ ("flags", ("true,0" ∷ "T" ∷ [])) ∷ []

abbrev defaults : Dict String (GoType × Value ℕ)
defaults =
    ("retries", (GoType.uint_type Width.w64, Value.scalar (Elem.uint_elem 3)))
    ∷ ("flags", (GoType.slice_type GoType.bool_type, Value.slice (some [])))
    ∷ []

-- 300 becomes 44.
narrow :
    set_field_value floats (GoType.int_type Width.w8) retries.value "300" []
    ≡ ok (Value.scalar (Elem.int_elem (pos 44)))
unfolding set_field_value atoi wrap_int
narrow = refl

read_300 : atoi "300" ≡ some (pos 300)
unfolding atoi read
read_300 = refl

set_field_value_bounds_example :
    (y : ℤ) × (set_field_value floats (GoType.int_type Width.w8) retries.value "300" []
      ≡ ok (Value.scalar (Elem.int_elem y)))
    × InRange Width.w8 y
    × ((y ≡ pos 300) ↔ InRange Width.w8 (pos 300))
set_field_value_bounds_example =
    set_field_value_bounds floats Width.w8 retries.value "300" [] (pos 300) read_300

not_a_struct :
    parse_target floats query Target.something_else
    ≡ (Target.something_else, some "target must be a pointer to struct")
unfolding parse_target
not_a_struct = refl
