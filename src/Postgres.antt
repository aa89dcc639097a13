-- ===== src/Postgres.antt =====
-- internal/interstore/postgres_store.go: the events in the database, with the constraints of
-- deployment/tables.sql.
--
-- The SQL statements are read as operations over the rows of the table. The columns that hold JSON
-- are kept as the values that they encode. `broken` is an error of the database itself, after which
-- the table is as before; the id of a new row and the clock are given.
pub mod Names
pub mod Filtered
pub mod Opening
pub mod Pages
pub mod Reachability
pub mod Updated
pub mod Visible
mod Tests
use gqueue.Common.{
  ℕ, String, Bool, true, false, not, ◌&&◌, ◌||◌, ◌==◌, string_Eq, Option, none, some, List, [], ◌∷◌,
  map, keep, if◌then◌else◌, pos,
}
use gqueue.Event.{Consumer, Opt, Event}
use gqueue.MemStore.{Answer, found, not_found, failed}

-- One row of the table `events`.
pub record Row : Type 0 where
  pub id : String
  pub name : String
  pub service_name : String
  pub state : String
  pub consumers : List Consumer
  pub opts : Opt
  pub created_at : ℕ
  pub updated_at : ℕ
  pub deleted_at : Option ℕ

abbrev pub Table : Type 0
Table = List Row

-- deleted_at IS NULL
abbrev pub is_live : Row → Bool
is_live row = elim row.deleted_at [ none ↦ true | some t ↦ false ]

-- ModelEvent.ToDomain: the type is not stored.
abbrev pub to_domain : Row → Event
to_domain row = record {
  id = row.id;
  name = row.name;
  service_name = row.service_name;
  state = row.state;
  type = "";
  option = row.opts;
  consumers = row.consumers;
}

-- event.State is "active" where it is empty.
abbrev pub state_or_active : String → String
state_or_active state = if state == "" then "active" else state

-- DO UPDATE SET: `deleted_at` is not among the columns.
abbrev pub overwrite : ℕ → Event → Row → Row
overwrite now event row = record row {
  service_name = event.service_name;
  state = state_or_active event.state;
  consumers = event.consumers;
  opts = event.option;
  updated_at = now;
}

abbrev pub new_row : String → ℕ → Event → Row
new_row id now event = record {
  id = id;
  name = event.name;
  service_name = event.service_name;
  state = state_or_active event.state;
  consumers = event.consumers;
  opts = event.option;
  created_at = now;
  updated_at = now;
  deleted_at = none;
}

-- INSERT … ON CONFLICT (name) DO UPDATE
unfoldable pub insert_or_update : String → ℕ → Event → Table → Table
insert_or_update id now event [] = new_row id now event ∷ []
insert_or_update id now event (row ∷ rows) =
    if row.name == event.name
    then overwrite now event row ∷ rows
    else row ∷ insert_or_update id now event rows

-- Upsert; the second part is the error, `none` for nil.
unfoldable pub upsert : Option String → String → ℕ → Event → Table → Table × Option String
unfolding insert_or_update
upsert (some err) id now event table = (table, some err)
upsert none id now event table = (insert_or_update id now event table, none)

-- Every row that a test takes is changed.
unfoldable pub update_where : (Row → Bool) → (Row → Row) → Table → Table
update_where test change [] = []
update_where test change (row ∷ rows) =
    let rest = update_where test change rows in if test row then change row ∷ rest else row ∷ rest

abbrev pub disable : ℕ → Row → Row
disable now row = record row { state = "disabled"; deleted_at = some now }

-- DisabledEvent
unfoldable pub disabled_event : Option String → ℕ → String → Table → Table × Option String
unfolding update_where
disabled_event (some err) now id table = (table, some err)
disabled_event none now id table =
    (update_where (λ row. row.id == id && is_live row) (disable now) table, none)

abbrev pub first_where : (Row → Bool) → Table → Option Row
first_where test [] = none
first_where test (row ∷ rows) = if test row then some row else first_where test rows

abbrev pub answer_row : Option Row → Answer Event
answer_row none = not_found
answer_row (some row) = found (to_domain row)

-- GetInternalEvent: the state is not read.
abbrev pub answer_internal : Option Row → Answer Event
answer_internal none = not_found
answer_internal (some row) = found (record (to_domain row) { state = "" })

unfoldable pub get_internal_event : Option String → String → Table → Answer Event
get_internal_event (some err) event_name table = failed err
get_internal_event none event_name table =
    answer_internal (first_where (λ row. row.name == event_name && is_live row) table)

-- GetEventByID
unfoldable pub get_event_by_id : Option String → String → Table → Answer Event
get_event_by_id (some err) id table = failed err
get_event_by_id none id table = answer_row (first_where (λ row. row.id == id && is_live row) table)

-- GetAllEvents: no event is the empty list, not EventNotFound.
unfoldable pub get_all_events : Option String → Table → Answer (List Event)
get_all_events (some err) table = failed err
get_all_events none table =
    found (map to_domain (keep (λ row. is_live row && not (row.state == "archived")) table))

-- GetAllSchedulers
unfoldable pub get_all_schedulers : Option String → String → Table → Answer (List Event)
get_all_schedulers (some err) state table = failed err
get_all_schedulers none state table =
    found (map to_domain (keep (λ row. row.state == state && is_live row) table))

-- Another row than the one of an id has the name: the constraint UNIQUE fails the statement.
abbrev pub name_taken : String → String → Table → Bool
name_taken id name [] = false
name_taken id name (row ∷ rows) =
    (row.name == name && not (row.id == id)) || name_taken id name rows

abbrev pub has_live_id : String → Table → Bool
has_live_id id [] = false
has_live_id id (row ∷ rows) = (row.id == id && is_live row) || has_live_id id rows

abbrev pub set_event : Event → Row → Row
set_event event row = record row {
  name = event.name;
  service_name = event.service_name;
  state = event.state;
  consumers = event.consumers;
  opts = event.option;
}

-- UpdateEvent; `taken` is the text of the constraint's error.
unfoldable pub update_event : Option String → String → Event → Table → Table × Option String
unfolding update_where
update_event (some err) taken event table = (table, some err)
update_event none taken event table =
    if has_live_id event.id table && name_taken event.id event.name table
    then (table, some taken)
    else (update_where (λ row. row.id == event.id && is_live row) (set_event event) table, none)
