-- ===== src/Filters.antt =====
-- The filter of the events' list: internal/domain/filters.go as the query parser sees it, with the
-- defaults of internal/app/backofficeapp/get_events_handle.go, and that handler as a whole.
pub mod Reading
pub mod BlankState
mod Tests
use gqueue.Common.{ℕ, String, Bool, true, Option, none, some, List, [], ◌∷◌, Dict, Try, ok, error}
use gqueue.Topic.{append}
use gqueue.Event.{Event}
use gqueue.Backoffice.{Handled, get_events_handle}
use gqueue.QueryParser.{Width, GoType, Elem, Value, Field, FloatOps}
use gqueue.QueryParser.Fields.{parse_query_params_with_defaults}
use gqueue.Postgres.{Row}
use gqueue.Postgres.Filtered.{FilterEvents, get_internal_events}

abbrev pub strings_type : GoType
strings_type = GoType.slice_type GoType.string_type

abbrev pub uint_type : GoType
uint_type = GoType.uint_type Width.w64

module _ {F : Type 0} where
  abbrev pub strings_field : String → String → Field F
  strings_field name tag = record {
    name = name;
    tag = tag;
    exported = true;
    type = strings_type;
    value = Value.slice none;
  }

  abbrev pub uint_field : String → String → Field F
  uint_field name tag = record {
    name = name;
    tag = tag;
    exported = true;
    type = uint_type;
    value = Value.scalar (Elem.uint_elem 0);
  }

  -- var filter domain.FilterEvents
  abbrev pub new_filter : List (Field F)
  new_filter =
      strings_field "TeamOwner" "team_owner"
      ∷ strings_field "ServiceName" "service_name"
      ∷ strings_field "State" "state"
      ∷ uint_field "Page" "page"
      ∷ uint_field "Limit" "limit"
      ∷ []

  abbrev pub defaults : Dict String (GoType × Value F)
  defaults =
      ("page", (uint_type, Value.scalar (Elem.uint_elem 1)))
      ∷ ("limit", (uint_type, Value.scalar (Elem.uint_elem 500)))
      ∷ ("state", (strings_type, Value.slice (some (Elem.string_elem "active" ∷ []))))
      ∷ []

  abbrev pub texts : List (Elem F) → List String
  texts [] = []
  texts (Elem.string_elem s ∷ es) = s ∷ texts es
  texts (e ∷ es) = texts es

  -- A field of strings; nil has no elements.
  abbrev pub strings_of : Value F → List String
  strings_of (Value.slice (some es)) = texts es
  strings_of v = []

  abbrev pub uint_of : Value F → ℕ
  uint_of (Value.scalar (Elem.uint_elem n)) = n
  uint_of v = 0

  -- The fields of the struct as the record.
  abbrev pub filter_of : List (Field F) → FilterEvents
  filter_of (team ∷ service ∷ state ∷ page ∷ limit ∷ []) = record {
    team_owner = strings_of team.value;
    service_name = strings_of service.value;
    state = strings_of state.value;
    page = uint_of page.value;
    limit = uint_of limit.value;
  }
  filter_of fields = record { team_owner = []; service_name = []; state = []; page = 0; limit = 0 }

  abbrev pub parsed_filter : List (Field F) × Option String → Try FilterEvents
  parsed_filter (fields, none) = ok (filter_of fields)
  parsed_filter (fields, some err) = error (append "Invalid query parameters: " err)

module _ {F : Type 0} (ops : FloatOps F) where
  -- queryparser.ParseQueryParamsWithDefaults(r.URL.Query(), &filter, defaults)
  unfoldable pub parse_filter : Dict String (List String) → Try FilterEvents
  unfolding parse_query_params_with_defaults
  parse_filter values =
      parsed_filter (parse_query_params_with_defaults ops values new_filter defaults)

  -- The handler of `GetEvents` on the query, with the Postgres store.
  unfoldable pub get_events :
      (String → Try (List Row)) → (List Event → Try String) → Dict String (List String) → Handled
  unfolding get_events_handle
  get_events db encode values =
      get_events_handle (get_internal_events db) encode (parse_filter values)
