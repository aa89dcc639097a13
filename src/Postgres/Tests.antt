-- ===== src/Postgres/Tests.antt =====
-- A table with a disabled event that is registered again.
use gqueue.Common.{
  List, ◌∷◌, ◌++◌, length, ◌≤◌, Try, ok, arith, if◌then◌else◌, String, ◌≡◌, refl, true, false, none,
  [], ◌==◌, string_Eq,
}
use gqueue.MemStore.{not_found}
use gqueue.Postgres.{
  Table, get_event_by_id, update_event, upsert, disabled_event, get_internal_event,
  insert_or_update, update_where,
}
use gqueue.Topic.{append}
use gqueue.Strconv.{itoa}
use gqueue.Event.{Event}
use gqueue.Postgres.{Row, new_row}
use gqueue.Postgres.Filtered.{
  FilterEvents, sql_filter, condition, concat, join_quoted, select_text, get_internal_events,
}
use gqueue.Postgres.Pages.{Window, next_page, tail, get_internal_events-next_page}
use gqueue.Postgres.Reachability.{Reachable, Reachable-IsTable}
use gqueue.Postgres.Visible.{
  name_disabled, Stores, get_internal_event-upsert, get_event_by_id-disabled_event,
}
use gqueue.Postgres.Updated.{Updates, get_event_by_id-update_event}
use gqueue.Samples.{payment}

abbrev registered : Table
registered = (upsert none "1" 5 payment []).0

abbrev retired : Table
retired = (disabled_event none 6 "1" registered).0

retired-Reachable : Reachable retired
retired-Reachable =
    Reachable.after_disable none 6 "1"
      (Reachable.after_upsert none "1" 5 payment refl Reachable.empty)

get_event_by_id-disabled_event_example :
    (get_event_by_id none "1" retired ≡ not_found)
    × ((v : String)
        → ("1" == v) ≡ false
        → get_event_by_id none v retired ≡ get_event_by_id none v registered)
get_event_by_id-disabled_event_example = get_event_by_id-disabled_event 6 "1" registered

abbrev renamed : Event
renamed = record payment { id = "1"; name = "payment.settled" }

get_event_by_id-update_event_example :
    Updates renamed registered (update_event none "duplicate key" renamed registered).0
unfolding update_event upsert insert_or_update update_where
get_event_by_id-update_event_example =
    get_event_by_id-update_event "duplicate key" renamed registered refl

get_internal_event-upsert_example :
    let after = (upsert none "2" 7 payment retired).0 in
    (name_disabled payment.name retired ≡ true
      → get_internal_event none payment.name after ≡ not_found)
    × (name_disabled payment.name retired ≡ false
        → Stores payment (get_internal_event none payment.name after))
    × ((n : String)
        → (payment.name == n) ≡ false
        → get_internal_event none n after ≡ get_internal_event none n retired)
get_internal_event-upsert_example =
    get_internal_event-upsert "2" 7 payment retired (Reachable-IsTable retired retired-Reachable)

-- The hypothesis of the first part holds for this table.
retired_name : name_disabled payment.name retired ≡ true
unfolding upsert disabled_event insert_or_update update_where
retired_name = refl

abbrev listing : FilterEvents
listing = record { team_owner = []; service_name = []; state = "active" ∷ []; page = 1; limit = 2 }

abbrev row : String → Row
row id = new_row id 5 payment

abbrev three_rows : List Row
three_rows = row "1" ∷ row "2" ∷ row "3" ∷ []

-- It answers the first two windows of the listing.
abbrev pages_db : String → Try (List Row)
pages_db text =
    if text
      == "SELECT id, name, service_name, state, consumers, opts FROM events WHERE state IN ('active') LIMIT 2 OFFSET 0"
    then ok (row "1" ∷ row "2" ∷ [])
    else if text
        == "SELECT id, name, service_name, state, consumers, opts FROM events WHERE state IN ('active') LIMIT 2 OFFSET 1"
    then ok (row "2" ∷ row "3" ∷ [])
    else ok []

first-Window : Window pages_db listing three_rows 0
unfolding sql_filter condition concat join_quoted select_text append itoa
first-Window = refl

second-Window : Window pages_db listing three_rows 1
unfolding sql_filter condition concat join_quoted select_text append itoa
second-Window = refl

get_internal_events-next_page_example :
    (events more : List Event) × (get_internal_events pages_db listing ≡ ok events)
    × (get_internal_events pages_db (next_page listing) ≡ ok (tail events ++ more))
    × (length more ≤ 1)
get_internal_events-next_page_example =
    get_internal_events-next_page pages_db listing three_rows first-Window second-Window
      (omega arith) (omega arith) (omega arith)
