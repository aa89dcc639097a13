-- ===== src/Registry.antt =====
-- The events of the service as a whole: the registrations and removals that the administration API
-- makes of internal/interstore/postgres_store.go, and the refreshes of the copy that the publishers
-- read (cmd/setup/memstore/task_sync.go), in any order.
pub mod Refinement
pub mod EndToEnd
mod Tests
use gqueue.Common.{
  ℕ, String, Bool, true, false, not, ◌&&◌, ◌==◌, string_Eq, Option, none, some, List, [], ◌∷◌,
  if◌then◌else◌,
}
use gqueue.Event.{Event}
use gqueue.MemStore.{Answer, found, not_found, MemStore, load_in_mem_store, get_event}
use gqueue.Postgres.{
  Row, Table, is_live, to_domain, overwrite, new_row, disable, upsert, disabled_event,
  get_all_events, first_where,
}

pub record Service : Type 0 where
  pub table : Table
  pub cache : MemStore

-- A statement has the database's error, `none` where it goes well; a registration has the new id and
-- the time, a removal the time and the id.
pub data Op : Type 0 where
  save : Option String → String → ℕ → Event → Op
  remove : Option String → ℕ → String → Op
  tick : Option String → Op

unfoldable pub perform : Op → Service → Service
unfolding upsert disabled_event load_in_mem_store
perform (save err id now event) s = record s { table = (upsert err id now event s.table).0 }
perform (remove err now id) s = record s { table = (disabled_event err now id s.table).0 }
perform (tick err) s = record s {
  cache = (load_in_mem_store s.cache (get_all_events err s.table)).0;
}

unfoldable pub run : List Op → Service → Service
unfolding perform
run [] s = s
run (op ∷ ops) s = run ops (perform op s)

-- What a client can tell of a service: what is registered under a name, and what a publisher finds.
pub record Spec : Type 0 where
  pub entry : String → Option Row
  pub seen : String → Answer Event

abbrev pub saved : String → ℕ → Event → Option Row → Row
saved id now event none = new_row id now event
saved id now event (some row) = overwrite now event row

abbrev pub removed : ℕ → String → Option Row → Option Row
removed now id none = none
removed now id (some row) = some (if row.id == id && is_live row then disable now row else row)

abbrev pub published : Option Row → Answer Event
published none = not_found
published (some row) =
    if is_live row && not (row.state == "archived") then found (to_domain row) else not_found

abbrev pub perform_spec : Op → Spec → Spec
perform_spec (save none id now event) s = record s {
  entry = λ n. if event.name == n then some (saved id now event (s.entry n)) else s.entry n;
}
perform_spec (save (some err) id now event) s = s
perform_spec (remove none now id) s = record s { entry = λ n. removed now id (s.entry n) }
perform_spec (remove (some err) now id) s = s
perform_spec (tick none) s = record s { seen = λ n. published (s.entry n) }
perform_spec (tick (some err)) s = s

-- The same operations on two functions of a name
unfoldable pub replay : List Op → Spec → Spec
replay [] s = s
replay (op ∷ ops) s = replay ops (perform_spec op s)

abbrev pub view : Service → Spec
view s = record {
  entry = λ n. first_where (λ row. row.name == n) s.table;
  seen = λ n. get_event s.cache n;
}
