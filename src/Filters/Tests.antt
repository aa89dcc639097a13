-- ===== src/Filters/Tests.antt =====
-- The list of the events on sample queries.
use Prim.Native.String.{[] as nil, ◌∷◌ as cons}
use gqueue.Common.{
  String, Bool, true, false, ◌&&◌, ◌||◌, nat_eq, code, none, some, [], ◌∷◌, List, Dict, Try, ok,
  error, if◌then◌else◌, lookup, string_Eq, ap, ◌≡◌, refl, inl, inr,
}
use gqueue.Topic.{append}
use gqueue.Http.{client_status}
use gqueue.Event.{Event}
use gqueue.Strconv.{read}
use gqueue.QueryParser.{
  FloatOps, set_slice_value, add_value, contains_comma, split_comma, trim_space,
  parse_slice_element, parse_uint, wrap_uint,
}
use gqueue.QueryParser.Fields.{set_field_value, is_zero, convert}
use gqueue.QueryParser.Slices.{all_pieces}
use gqueue.Postgres.{Row}
use gqueue.Postgres.Filtered.{select_text, concat}
use gqueue.Filters.{parse_filter, get_events}
use gqueue.Filters.Reading.{nonblank, described_filter, parse_filter-described}
use gqueue.Filters.BlankState.{Refuses, Fails, get_events_blank_state}

-- No float is read.
abbrev no_floats : FloatOps Unit
no_floats = record {
  parse_float = λ s. none;
  to_float = λ b x. x;
  is_zero = λ x. true;
  convert_other = λ from to v. none;
}

abbrev query : Dict String (List String)
query = ("state", ("active, archived" ∷ "disabled" ∷ [])) ∷ ("page", ("2" ∷ [])) ∷ []

query_filter :
    parse_filter no_floats query
    ≡ ok (record {
      team_owner = [];
      service_name = [];
      state = "active" ∷ "archived" ∷ "disabled" ∷ [];
      page = 2;
      limit = 500;
    })
unfolding parse_filter set_field_value lookup set_slice_value add_value contains_comma split_comma
    trim_space parse_slice_element parse_uint read is_zero wrap_uint convert
query_filter = refl

bad_page :
    parse_filter no_floats (("page", ("-1" ∷ [])) ∷ [])
    ≡ error "Invalid query parameters: failed to set field Page: invalid unsigned integer value: -1"
unfolding parse_filter set_field_value lookup parse_uint read append
bad_page = refl

parse_filter-described_example : parse_filter no_floats query ≡ described_filter query
parse_filter-described_example = parse_filter-described no_floats query

abbrev starts : String → String → Bool
starts nil t = true
starts (cons c p) nil = false
starts (cons c p) (cons d t) = nat_eq (code c) (code d) && starts p t

abbrev head : String
head = "SELECT id, name, service_name, state, consumers, opts FROM events WHERE "

-- A database without events, which refuses the malformed statements.
abbrev db : String → Try (List Row)
db text =
    if starts (append head " LIMIT ") text || starts (append head "AND ") text
    then error "syntax error"
    else ok []

db-Refuses : Refuses db
unfolding select_text concat append
db-Refuses c limit offset (inl e) = ("syntax error", ap (λ d. db (select_text d limit offset)) e)
db-Refuses c limit offset (inr (rest, e)) =
    ("syntax error", ap (λ d. db (select_text d limit offset)) e)

abbrev blank : Dict String (List String)
blank = ("state", (" , " ∷ [])) ∷ []

blank_pieces : nonblank (all_pieces (" , " ∷ [])) ≡ []
unfolding nonblank all_pieces split_comma trim_space
blank_pieces = refl

blank-lookup : lookup "state" blank ≡ some (" , " ∷ [])
unfolding lookup
blank-lookup = refl

abbrev encode : List Event → Try String
encode events = ok "[]"

get_events_blank_state_example : Fails (client_status (get_events no_floats db encode blank).calls)
get_events_blank_state_example =
    get_events_blank_state db encode db-Refuses no_floats blank " , " [] blank-lookup blank_pieces
