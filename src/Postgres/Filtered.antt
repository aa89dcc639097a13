-- ===== src/Postgres/Filtered.antt =====
-- GetInternalEvents of internal/interstore/postgres_store.go: the text of its statement, which the
-- filter's values are written into as they are, and its answer. The database is what it answers to
-- a text.
use gqueue.Common.{ℕ, ◌+◌, ◌-◌, ◌%◌, ◌^◌, String, List, [], ◌∷◌, map, pos, Try, ok, error}
use gqueue.Strconv.{itoa}
use gqueue.Topic.{append}
use gqueue.Event.{Event}
use gqueue.Postgres.{Row, to_domain}

-- internal/domain/filters.go
pub record FilterEvents : Type 0 where
  pub team_owner : List String
  pub service_name : List String
  pub state : List String
  pub page : ℕ
  pub limit : ℕ

unfoldable pub concat : List String → String
unfolding append
concat [] = ""
concat (s ∷ ss) = append s (concat ss)

-- strings.Join(values, "', '")
unfoldable pub join_quoted : List String → String
unfolding append
join_quoted [] = ""
join_quoted (v ∷ []) = v
join_quoted (v ∷ w ∷ vs) = append v (append "', '" (join_quoted (w ∷ vs)))

-- The condition on one column, where the filter has values for it; `column` has what is written in
-- front of the list.
unfoldable pub condition : String → List String → String
unfolding concat join_quoted
condition column [] = ""
condition column (v ∷ vs) = concat (column ∷ " IN ('" ∷ join_quoted (v ∷ vs) ∷ "')" ∷ [])

unfoldable pub sql_filter : FilterEvents → String
unfolding condition
sql_filter filters = concat (
    condition "state" filters.state
    ∷ condition "AND team_owner" filters.team_owner
    ∷ condition "AND service_name" filters.service_name
    ∷ [])

-- The statement, with modelEventFields, whose line breaks and tabs are single spaces here.
unfoldable pub select_text : String → ℕ → ℕ → String
unfolding concat
select_text condition_text limit offset = concat (
    "SELECT id, name, service_name, state, consumers, opts FROM events WHERE "
    ∷ condition_text
    ∷ " LIMIT "
    ∷ itoa (pos limit)
    ∷ " OFFSET "
    ∷ itoa (pos offset)
    ∷ [])

-- filters.Page-1 of a uint
abbrev pub offset_of : ℕ → ℕ
offset_of page = (page + (2 ^ 64 - 1)) % 2 ^ 64

unfoldable pub internal_events_text : FilterEvents → String
unfolding select_text sql_filter
internal_events_text filters =
    select_text (sql_filter filters) filters.limit (offset_of filters.page)

abbrev pub after_query : Try (List Row) → Try (List Event)
after_query (ok rows) = ok (map to_domain rows)
after_query (error err) = error (append "failed to query events: " err)

-- GetInternalEvents; a row that cannot be read is among the errors of the database.
unfoldable pub get_internal_events : (String → Try (List Row)) → FilterEvents → Try (List Event)
unfolding internal_events_text
get_internal_events db filters = after_query (db (internal_events_text filters))
