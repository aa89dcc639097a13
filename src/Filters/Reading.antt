-- ===== src/Filters/Reading.antt =====
-- What a query says of the filter, described without the reflection of the parser.
use gqueue.Common.{
  ℕ, ◌^◌, ◌<◌, String, ◌==◌, string_Eq, Option, none, some, List, [], ◌∷◌, ◌++◌, Dict, lookup,
  or_zero, map, if◌then◌else◌, Try, ok, error, nat_eq, ◌≡◌, refl, sym, ◌∙◌, ap, inl, inr,
  Bool-cases, Option-cases, arith, append_assoc, append-nil,
}
use gqueue.Topic.{append}
use gqueue.Strconv.{read_digits}
use gqueue.QueryParser.{
  Width, GoType, Elem, Value, Field, FloatOps, parse_uint, in_uint64, trim_space, parsed, and_then,
  add_element, add_elements, set_slice_value, parse_slice_element, wrap_uint,
}
use gqueue.QueryParser.Slices.{all_pieces, add_values-pieces}
use gqueue.QueryParser.Fields.{
  first_value, set_field_value, after_set, parse_query_params, then_defaults, is_zero, is_zero_elem,
  convert, default_value, apply_defaults, parse_query_params_with_defaults,
}
use gqueue.Postgres.Filtered.{FilterEvents}
use gqueue.Filters.{
  strings_type, uint_type, strings_field, uint_field, strings_of, uint_of, new_filter, defaults,
  parsed_filter, parse_filter, texts,
}

-- The pieces without the space around them, and without the blank ones.
unfoldable pub nonblank : List String → List String
nonblank [] = []
nonblank (p ∷ ps) =
    let rest = nonblank ps in if trim_space p == "" then rest else trim_space p ∷ rest

-- The texts of a parameter, all that it is given with, `none` where it is not in the query.
unfoldable pub listed : Option (List String) → List String
unfolding nonblank all_pieces
listed none = []
listed (some vs) = nonblank (all_pieces vs)

-- The states: "active" alone where the parameter is not in the query.
abbrev pub listed_states : Option (List String) → List String
listed_states none = "active" ∷ []
listed_states (some []) = "active" ∷ []
listed_states (some (v ∷ vs)) = listed (some (v ∷ vs))

abbrev pub default_number : ℕ → String → String → Option ℕ → Try ℕ
default_number default field text none = error (
    append "Invalid query parameters: " (
      append "failed to set field "
        (append field (append ": " (append "invalid unsigned integer value: " text)))))
default_number default field text (some n) = ok (if nat_eq n 0 then default else n)

-- A number: its default where the parameter is not in the query, empty or zero.
unfoldable pub number : ℕ → String → String → Try ℕ
number default field text =
    if text == "" then ok default else default_number default field text (parse_uint text)

unfoldable pub described_filter : Dict String (List String) → Try FilterEvents
unfolding number listed
described_filter values = and_then (number 1 "Page" (first_value (lookup "page" values))) (λ page.
    and_then (number 500 "Limit" (first_value (lookup "limit" values))) (λ limit. ok (record {
      team_owner = listed (lookup "team_owner" values);
      service_name = listed (lookup "service_name" values);
      state = listed_states (lookup "state" values);
      page = page;
      limit = limit;
    })))

in_uint64_bound : (o : Option ℕ) (n : ℕ) → in_uint64 o ≡ some n → n < 2 ^ 64
in_uint64_bound none n h = absurd (ground (arith, h))
in_uint64_bound (some m) n h = ground (arith, h)

parse_uint_bound : (s : String) (n : ℕ) → parse_uint s ≡ some n → n < 2 ^ 64
unfolding parse_uint
parse_uint_bound s n h = in_uint64_bound (read_digits s) n h

wrap_small : (n : ℕ) → n < 2 ^ 64 → wrap_uint Width.w64 n ≡ n
unfolding wrap_uint
wrap_small n h = omega (arith, h)

module _ {F : Type 0} (ops : FloatOps F) where
  abbrev elems_of : List String → List (Elem F)
  elems_of ss = map Elem.string_elem ss

  texts-elems : (ss : List String) → texts (elems_of ss) ≡ ss
  texts-elems [] = refl
  texts-elems (s ∷ ss) = ap (λ ts. s ∷ ts) (texts-elems ss)

  add_elements-strings :
      (ps : List String) (elems : List (Elem F))
      → add_elements ops GoType.string_type ps elems ≡ ok (elems ++ elems_of (nonblank ps))
  unfolding add_elements add_element parse_slice_element nonblank
  add_elements-strings [] elems = ap ok (sym (append-nil elems))
  add_elements-strings (p ∷ ps) elems = elim (Bool-cases (trim_space p == "")) [
    | inl h ↦ rw h (add_elements-strings ps elems)
    | inr h ↦ rw h (
        add_elements-strings ps (elems ++ Elem.string_elem (trim_space p) ∷ [])
        ∙ ap ok
            (append_assoc elems (Elem.string_elem (trim_space p) ∷ []) (elems_of (nonblank ps))))
  ]

  -- What a field of strings has after the query was read.
  abbrev given : Option (List String) → Value F
  given none = Value.slice none
  given (some []) = Value.slice none
  given (some (v ∷ vs)) = Value.slice (some (elems_of (listed (some (v ∷ vs)))))

  set_field_value-strings :
      (o : Option (List String))
      → set_field_value ops strings_type (Value.slice none) (first_value o) (or_zero [] o)
        ≡ ok (given o)
  unfolding set_field_value set_slice_value listed
  set_field_value-strings none = refl
  set_field_value-strings (some []) = refl
  set_field_value-strings (some (v ∷ vs)) =
      ap (λ r. and_then r (λ es. ok (Value.slice (some es))))
        (add_values-pieces ops GoType.string_type (v ∷ vs) []
          ∙ add_elements-strings (all_pieces (v ∷ vs)) [])

  strings-given : (o : Option (List String)) → strings_of (given o) ≡ listed o
  unfolding listed all_pieces
  strings-given none = refl
  strings-given (some []) = refl
  strings-given (some (v ∷ vs)) = texts-elems (listed (some (v ∷ vs)))

  abbrev uint_value : ℕ → Value F
  uint_value n = Value.scalar (Elem.uint_elem n)

  abbrev as_value : Try ℕ → Try (Value F)
  as_value (ok n) = ok (uint_value n)
  as_value (error err) = error err

  abbrev read_number : String → Try ℕ
  read_number text =
      if text == ""
      then ok 0
      else parsed "invalid unsigned integer value: " text (λ n. n) (parse_uint text)

  set_field_value-uint :
      (text : String) (values : List String)
      → set_field_value ops uint_type (uint_value 0) text values ≡ as_value (read_number text)
  unfolding set_field_value wrap_uint
  set_field_value-uint text values = elim (Bool-cases (text == "")) [
    | inl h ↦ rw h refl
    | inr h ↦ elim (Option-cases (parse_uint text)) [
      | inl none_read ↦ rw (h, none_read) refl
      | inr (n, e) ↦
          rw (h, e) (ap (λ m. ok (uint_value m)) (wrap_small n (parse_uint_bound text n e)))
    ]
  ]

  -- Where the fields are read, one after the other, with these outcomes.
  abbrev read_fields :
      Try (Value F)
      → Try (Value F)
      → Try (Value F)
      → Try (Value F)
      → Try (Value F)
      → List (Field F) × Option String
  read_fields team service state page limit =
      let team_f = strings_field "TeamOwner" "team_owner" in
      let service_f = strings_field "ServiceName" "service_name" in
      let state_f = strings_field "State" "state" in
      let page_f = uint_field "Page" "page" in
      let limit_f = uint_field "Limit" "limit" in
      let fs5 = [] in
      let fs4 = limit_f ∷ fs5 in
      let fs3 = page_f ∷ fs4 in
      let fs2 = state_f ∷ fs3 in
      let fs1 = service_f ∷ fs2 in
      after_set ops team_f
        (after_set ops service_f
          (after_set ops state_f
            (after_set ops page_f (after_set ops limit_f ([], none) fs5 limit) fs4 page) fs3 state)
          fs2 service)
        fs1 team

  parse_query_params-fields :
      (values : Dict String (List String))
      → parse_query_params ops values new_filter
        ≡ read_fields
            (ok (given (lookup "team_owner" values)))
            (ok (given (lookup "service_name" values)))
            (ok (given (lookup "state" values)))
            (as_value (read_number (first_value (lookup "page" values))))
            (as_value (read_number (first_value (lookup "limit" values))))
  unfolding parse_query_params
  parse_query_params-fields values = rw (
    set_field_value-strings (lookup "team_owner" values),
    set_field_value-strings (lookup "service_name" values),
    set_field_value-strings (lookup "state" values),
    set_field_value-uint (first_value (lookup "page" values)) (or_zero [] (lookup "page" values)),
    set_field_value-uint (first_value (lookup "limit" values)) (or_zero [] (lookup "limit" values)),
  )

  abbrev number_default : ℕ → Option (GoType × Value F)
  number_default d = some (uint_type, uint_value d)

  page_default :
      (n : ℕ)
      → uint_of (
          default_value ops
            (record (uint_field "Page" "page") { value = uint_value n })
            (number_default 1))
        ≡ (if nat_eq n 0 then 1 else n)
  unfolding is_zero is_zero_elem convert wrap_uint
  page_default n = elim (Bool-cases (nat_eq n 0)) [ inl h ↦ rw h refl | inr h ↦ rw h refl ]

  limit_default :
      (n : ℕ)
      → uint_of (
          default_value ops
            (record (uint_field "Limit" "limit") { value = uint_value n })
            (number_default 500))
        ≡ (if nat_eq n 0 then 500 else n)
  unfolding is_zero is_zero_elem convert wrap_uint
  limit_default n = elim (Bool-cases (nat_eq n 0)) [ inl h ↦ rw h refl | inr h ↦ rw h refl ]

  state_default :
      (o : Option (List String))
      → strings_of (
          default_value ops
            (record (strings_field "State" "state") { value = given o })
            (some (strings_type, Value.slice (some (Elem.string_elem "active" ∷ [])))))
        ≡ listed_states o
  unfolding is_zero convert
  state_default none = refl
  state_default (some []) = refl
  state_default (some (v ∷ vs)) = texts-elems (listed (some (v ∷ vs)))

  abbrev settle : ℕ → String → Try ℕ → Try ℕ
  settle default field (ok n) = ok (if nat_eq n 0 then default else n)
  settle default field (error err) = error (
      append "Invalid query parameters: "
        (append "failed to set field " (append field (append ": " err))))

  settle-read_number :
      (default : ℕ) (field text : String)
      → settle default field (read_number text) ≡ number default field text
  unfolding number
  settle-read_number default field text = elim (Bool-cases (text == "")) [
    | inl h ↦ rw h refl
    | inr h ↦ elim (Option-cases (parse_uint text)) [
      | inl e ↦ rw (h, e) refl
      | inr (n, e) ↦ rw (h, e) refl
    ]
  ]

  read_fields_settled :
      (team service state : Option (List String)) (page limit : Try ℕ)
      → parsed_filter (
          then_defaults ops defaults (
            read_fields
              (ok (given team))
              (ok (given service))
              (ok (given state))
              (as_value page)
              (as_value limit)))
        ≡ and_then (settle 1 "Page" page) (λ p. and_then (settle 500 "Limit" limit) (λ l.
          ok (record {
            team_owner = listed team;
            service_name = listed service;
            state = listed_states state;
            page = p;
            limit = l;
          })))
  unfolding apply_defaults lookup
  read_fields_settled team service state (ok p) (ok l) = rw (
    strings-given team,
    strings-given service,
    state_default state,
    page_default p,
    limit_default l,
  )
  read_fields_settled team service state (ok p) (error err) = refl
  read_fields_settled team service state (error err) limit = refl

  -- What the handler makes of a query is what the query says: of the lists the texts of all values of
  -- the parameter, split at commas, without space around them and without blanks; of the two
  -- numbers the value, and 1 and 500 where it is missing, empty or zero. States are "active" only
  -- where the parameter is not there at all; one that has blanks only is the empty list. The error
  -- is that of the page's value, and else of the limit's.
  pub parse_filter-described :
      (values : Dict String (List String)) → parse_filter ops values ≡ described_filter values
  unfolding parse_filter parse_query_params_with_defaults described_filter
  parse_filter-described values =
      ap (λ r. parsed_filter (then_defaults ops defaults r)) (parse_query_params-fields values)
      ∙ read_fields_settled (lookup "team_owner" values) (lookup "service_name" values)
          (lookup "state" values) (read_number (first_value (lookup "page" values)))
          (read_number (first_value (lookup "limit" values)))
      ∙ rw (
        settle-read_number 1 "Page" (first_value (lookup "page" values)),
        settle-read_number 500 "Limit" (first_value (lookup "limit" values)),
      )
