-- ===== src/QueryParser/Slices.antt =====
-- Repeated parameters and a list of values in one parameter.
use Prim.Native.String.{[] as nil, ◌∷◌ as cons}
use gqueue.Common.{
  Char, String, false, string_Eq, List, [], ◌∷◌, ◌++◌, Try, ok, error, ◌≡◌, refl, sym, ◌∙◌, ap, inl,
  inr, Bool-cases, arith, append-nil, fun_ext, some,
}
use gqueue.Topic.{append}
use gqueue.QueryParser.{
  GoType, Elem, Value, FloatOps, is_comma, contains_comma, onto_first, split_comma, and_then,
  add_element, add_elements, add_value, add_values, set_slice_value,
}

-- The values with a comma between two of them.
unfoldable pub join_comma : List String → String
unfolding append
join_comma [] = ""
join_comma (v ∷ []) = v
join_comma (v ∷ w ∷ vs) = append v (cons "," (join_comma (w ∷ vs)))

-- The pieces between the commas of all values.
unfoldable pub all_pieces : List String → List String
all_pieces [] = []
all_pieces (v ∷ vs) = split_comma v ++ all_pieces vs

split_comma-first : (s : String) → (p : String) × (ps : List String) × (split_comma s ≡ p ∷ ps)
unfolding split_comma
split_comma-first nil = (nil, [], refl)
split_comma-first (cons c s) = elim (Bool-cases (is_comma c)) [
  | inl h ↦ rw h (nil, split_comma s, refl)
  | inr h ↦ let (p, ps, e) = split_comma-first s in rw h (cons c p, ps, ap (onto_first c) e)
]

onto_first-append :
    (c : Char) (s : String) (qs : List String)
    → onto_first c (split_comma s ++ qs) ≡ onto_first c (split_comma s) ++ qs
onto_first-append c s qs = let (p, ps, e) = split_comma-first s in rw e refl

split_comma-append :
    (a b : String) → split_comma (append a (cons "," b)) ≡ split_comma a ++ split_comma b
unfolding split_comma append
split_comma-append nil b = refl
split_comma-append (cons c a) b = elim (Bool-cases (is_comma c)) [
  | inl h ↦ rw h (ap (λ ps. nil ∷ ps) (split_comma-append a b))
  | inr h ↦
      rw h (ap (onto_first c) (split_comma-append a b) ∙ onto_first-append c a (split_comma b))
]

all_pieces-join :
    (v : String) (vs : List String) → split_comma (join_comma (v ∷ vs)) ≡ all_pieces (v ∷ vs)
unfolding join_comma all_pieces
all_pieces-join v [] = sym (append-nil (split_comma v))
all_pieces-join v (w ∷ vs) =
    split_comma-append v (join_comma (w ∷ vs))
    ∙ ap (λ ps. split_comma v ++ ps) (all_pieces-join w vs)

split_comma_none : (s : String) → contains_comma s ≡ false → split_comma s ≡ s ∷ []
unfolding split_comma contains_comma
split_comma_none nil h = refl
split_comma_none (cons c s) h = elim (Bool-cases (is_comma c)) [
  | inl e ↦ absurd (ground (arith, h, e))
  | inr e ↦ rw e (ap (onto_first c) (split_comma_none s (ground (arith, h, e))))
]

and_then-ok : {A : Type 0} (r : Try A) → and_then r ok ≡ r
and_then-ok (ok a) = refl
and_then-ok (error err) = refl

and_then_assoc :
    {A B C : Type 0} (r : Try A) (f : A → Try B) (g : B → Try C)
    → and_then (and_then r f) g ≡ and_then r (λ a. and_then (f a) g)
and_then_assoc (ok a) f g = refl
and_then_assoc (error err) f g = refl

module _ {F : Type 0} (ops : FloatOps F) (t : GoType) where
  add_elements-append :
      (ps qs : List String) (elems : List (Elem F))
      → add_elements ops t (ps ++ qs) elems
        ≡ and_then (add_elements ops t ps elems) (add_elements ops t qs)
  unfolding add_elements
  add_elements-append [] qs elems = refl
  add_elements-append (p ∷ ps) qs elems =
      ap (and_then (add_element ops t p elems)) (fun_ext (add_elements-append ps qs))
      ∙ sym (
          and_then_assoc (add_element ops t p elems) (add_elements ops t ps)
            (add_elements ops t qs))

  add_value-pieces :
      (v : String) (elems : List (Elem F))
      → add_value ops t v elems ≡ add_elements ops t (split_comma v) elems
  unfolding add_value add_elements
  add_value-pieces v elems = elim (Bool-cases (contains_comma v)) [
    | inl h ↦ rw h refl
    | inr h ↦ rw (h, split_comma_none v h) (sym (and_then-ok (add_element ops t v elems)))
  ]

  pub add_values-pieces :
      (vs : List String) (elems : List (Elem F))
      → add_values ops t vs elems ≡ add_elements ops t (all_pieces vs) elems
  unfolding add_values all_pieces add_elements
  add_values-pieces [] elems = refl
  add_values-pieces (v ∷ vs) elems =
      ap (λ r. and_then r (add_values ops t vs)) (add_value-pieces v elems)
      ∙ ap (and_then (add_elements ops t (split_comma v) elems)) (fun_ext (add_values-pieces vs))
      ∙ sym (add_elements-append (split_comma v) (all_pieces vs) elems)

  add_values-single : (w : String) → add_values ops t (w ∷ []) [] ≡ add_value ops t w []
  unfolding add_values
  add_values-single w = and_then-ok (add_value ops t w [])

  -- Values that are given in parameters of their own and the same values in one parameter, with a
  -- comma between two of them, make the same slice, or fail with the same error; there is one value
  -- at least.
  pub set_slice_value_joined :
      (v : String) (vs : List String)
      → set_slice_value ops t (v ∷ vs) ≡ set_slice_value ops t (join_comma (v ∷ vs) ∷ [])
  unfolding set_slice_value
  set_slice_value_joined v vs =
      ap (λ r. and_then r (λ elems. ok (Value.slice (some elems))))
        (add_values-pieces (v ∷ vs) []
          ∙ ap (λ ps. add_elements ops t ps []) (sym (all_pieces-join v vs))
          ∙ sym (add_value-pieces (join_comma (v ∷ vs)) [])
          ∙ sym (add_values-single (join_comma (v ∷ vs))))
