-- ===== src/Registry/Refinement.antt =====
-- The table and the copy behave as two functions of a name.
use gqueue.Common.{
  ℕ, String, Bool, false, not, ◌&&◌, ◌==◌, string_Eq, Option, none, some, List, [], ◌∷◌, map, keep,
  if◌then◌else◌, ◌≡◌, refl, ◌∙◌, ap, fun_ext, arith,
}
use gqueue.Event.{Event}
use gqueue.MemStore.{load_in_mem_store, of_lookup}
use gqueue.MemStore.Contents.{last_named, get_event-refresh}
use gqueue.Postgres.{
  Row, Table, is_live, to_domain, disable, upsert, disabled_event, get_all_events, first_where,
  insert_or_update, update_where,
}
use gqueue.Postgres.Names.{has, Unique, row_name, names-insert_or_update, update_where-Unique}
use gqueue.Registry.{
  Service, Op, perform, run, saved, removed, published, perform_spec, replay, view,
}

abbrev pub entry : Table → String → Option Row
entry table n = first_where (λ row. row.name == n) table

entry-insert_or_update :
    (id : String) (now : ℕ) (e : Event) (t : Table) (n : String)
    → entry (insert_or_update id now e t) n
      ≡ (if e.name == n then some (saved id now e (entry t n)) else entry t n)
unfolding insert_or_update
entry-insert_or_update id now e [] n = refl
entry-insert_or_update id now e (row ∷ rows) n = ground (
  arith,
  entry-insert_or_update id now e rows n,
  string_Eq.same_iff row.name e.name,
  string_Eq.same_iff row.name n,
  string_Eq.same_iff e.name n,
)

entry-disable :
    (now : ℕ) (id : String) (t : Table) (n : String)
    → entry (update_where (λ row. row.id == id && is_live row) (disable now) t) n
      ≡ removed now id (entry t n)
unfolding update_where
entry-disable now id [] n = refl
entry-disable now id (row ∷ rows) n = ground (arith, entry-disable now id rows n)

abbrev is_published : Row → Bool
is_published row = is_live row && not (row.state == "archived")

-- No event has a name that no row has.
last_named_absent :
    (n : String) (t : Table)
    → has row_name n t ≡ false
    → last_named n (map to_domain (keep is_published t)) ≡ none
unfolding keep
last_named_absent n [] h = refl
last_named_absent n (row ∷ rows) h = ground (arith, h, last_named_absent n rows)

last_named-published :
    (n : String) (t : Table)
    → Unique row_name t
    → of_lookup (last_named n (map to_domain (keep is_published t))) ≡ published (entry t n)
unfolding keep
last_named-published n [] h = refl
last_named-published n (row ∷ rows) (new, h) = ground (
  arith,
  new,
  h,
  string_Eq.same_iff row.name n,
  last_named_absent row.name rows,
  last_named-published n rows h,
)

abbrev pub Named : Service → Type 0
Named s = Unique row_name s.table

perform-Named : (op : Op) (s : Service) → Named s → Named (perform op s)
unfolding perform upsert disabled_event
perform-Named (Op.save none id now e) s h = names-insert_or_update id now e s.table h
perform-Named (Op.save (some err) id now e) s h = h
perform-Named (Op.remove none now id) s h =
    update_where-Unique row_name (λ row. row.id == id && is_live row) (disable now) s.table
      (λ row. refl) h
perform-Named (Op.remove (some err) now id) s h = h
perform-Named (Op.tick err) s h = h

perform-view : (op : Op) (s : Service) → Named s → view (perform op s) ≡ perform_spec op (view s)
unfolding perform upsert disabled_event load_in_mem_store get_all_events
perform-view (Op.save none id now e) s h =
    ap (λ f. record (view s) { entry = f }) (fun_ext (entry-insert_or_update id now e s.table))
perform-view (Op.save (some err) id now e) s h = refl
perform-view (Op.remove none now id) s h =
    ap (λ f. record (view s) { entry = f }) (fun_ext (entry-disable now id s.table))
perform-view (Op.remove (some err) now id) s h = refl
perform-view (Op.tick none) s h =
    ap (λ f. record (view s) { seen = f })
      (fun_ext (λ n.
        (get_event-refresh s.cache (map to_domain (keep is_published s.table)) n).0
        ∙ last_named-published n s.table h))
perform-view (Op.tick (some err)) s h = refl

-- From a table without two rows of one name, whatever is registered, removed and refreshed, in any
-- order and with whichever failures, the table ends without two such rows, and what is registered
-- under each name and what a publisher finds are what the same operations make of two functions of
-- the name: a registration and a removal change the first alone, the removal at the names whose
-- live row has the id, and a refresh makes the second the live events of the first that are not
-- archived.
pub run_refines :
    (ops : List Op) (s : Service)
    → Named s
    → Named (run ops s) × (view (run ops s) ≡ replay ops (view s))
unfolding run replay
run_refines [] s h = (h, refl)
run_refines (op ∷ ops) s h =
    let (named, e) = run_refines ops (perform op s) (perform-Named op s h) in
    (named, e ∙ ap (replay ops) (perform-view op s h))
