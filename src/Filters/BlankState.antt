-- ===== src/Filters/BlankState.antt =====
-- The list of the events where the parameter `state` is there but blank.
use gqueue.Common.{
  ℕ, String, some, List, [], ◌∷◌, Dict, lookup, string_Eq, Try, ok, error, ◌≡◌, refl, ◌⊎◌, inl, inr,
}
use gqueue.Topic.{append}
use gqueue.Http.{client_status}
use gqueue.Event.{Event}
use gqueue.Backoffice.{get_events_handle}
use gqueue.QueryParser.{FloatOps, and_then}
use gqueue.QueryParser.Slices.{all_pieces}
use gqueue.QueryParser.Fields.{first_value}
use gqueue.Postgres.{Row}
use gqueue.Postgres.Filtered.{
  FilterEvents, concat, condition, sql_filter, select_text, internal_events_text, offset_of,
  get_internal_events,
}
use gqueue.Filters.{get_events}
use gqueue.Filters.Reading.{nonblank, listed, number, described_filter, parse_filter-described}

-- A WHERE clause without a condition, or one that begins with AND
abbrev pub Malformed : String → Type 0
Malformed c = (c ≡ "") ⊎ ((rest : String) × (c ≡ append "AND " rest))

-- The database refuses a statement with such a clause.
abbrev pub Refuses : (String → Try (List Row)) → Type 0
Refuses db =
    (c : String) (limit offset : ℕ)
    → Malformed c
    → (err : String) × (db (select_text c limit offset) ≡ error err)

sql_filter-Malformed :
    (team service : List String) (page limit : ℕ)
    → Malformed (
        sql_filter (record {
          team_owner = team;
          service_name = service;
          state = [];
          page = page;
          limit = limit;
        }))
unfolding sql_filter condition concat append
sql_filter-Malformed [] [] page limit = inl refl
sql_filter-Malformed [] (s ∷ ss) page limit = inr (_, refl)
sql_filter-Malformed (t ∷ ts) service page limit = inr (_, refl)

-- The answer is an error, of the query or of the database.
abbrev pub Fails : ℕ → Type 0
Fails status = (status ≡ 400) ⊎ (status ≡ 500)

module _ (db : String → Try (List Row)) (encode : List Event → Try String)
    (refuses : Refuses db) where
  refused_status :
      (filters : FilterEvents)
      → Malformed (sql_filter filters)
      → client_status (get_events_handle (get_internal_events db) encode (ok filters)).calls ≡ 500
  unfolding get_events_handle get_internal_events internal_events_text client_status
  refused_status filters h =
      let (err, e) = refuses (sql_filter filters) filters.limit (offset_of filters.page) h in
      rw e refl

  numbers_status :
      (team service : List String) (page limit : Try ℕ)
      → Fails (
          client_status
            (get_events_handle (get_internal_events db) encode (
              and_then page (λ p. and_then limit (λ l. ok (record {
                team_owner = team;
                service_name = service;
                state = [];
                page = p;
                limit = l;
              }))))).calls)
  unfolding get_events_handle client_status
  numbers_status team service (ok p) (ok l) = inr (
      refused_status
        (record { team_owner = team; service_name = service; state = []; page = p; limit = l })
        (sql_filter-Malformed team service p l))
  numbers_status team service (ok p) (error err) = inl refl
  numbers_status team service (error err) limit = inl refl

  -- A query with a parameter `state` of which no text is left without its blanks, as `?state=` has
  -- it, is never answered with events, on a database that refuses a WHERE clause which is empty or
  -- begins with AND: the status is 400 or 500.
  pub get_events_blank_state :
      {F : Type 0} (ops : FloatOps F) (values : Dict String (List String)) (v : String)
      (vs : List String)
      → lookup "state" values ≡ some (v ∷ vs)
      → nonblank (all_pieces (v ∷ vs)) ≡ []
      → Fails (client_status (get_events ops db encode values).calls)
  unfolding get_events described_filter listed
  get_events_blank_state ops values v vs h blank =
      rw (parse_filter-described ops values, h, blank)
        (numbers_status (listed (lookup "team_owner" values))
          (listed (lookup "service_name" values))
          (number 1 "Page" (first_value (lookup "page" values)))
          (number 500 "Limit" (first_value (lookup "limit" values))))
