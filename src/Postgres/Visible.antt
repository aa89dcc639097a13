-- ===== src/Postgres/Visible.antt =====
-- What the store's reads see after its writes.
use gqueue.Common.{
  ℕ, String, Bool, true, false, not, ◌&&◌, ◌||◌, ◌≡◌, refl, sym, ap, ◌∙◌, ◌==◌, string_Eq, Option,
  none, some, [], ◌∷◌, if◌then◌else◌, Bool-cases, inl, inr, arith,
}
use gqueue.Event.{Event}
use gqueue.MemStore.{Answer, found, not_found}
use gqueue.Postgres.{
  Row, Table, is_live, to_domain, overwrite, new_row, insert_or_update, upsert, update_where,
  disable, disabled_event, first_where, answer_row, answer_internal, get_internal_event,
  get_event_by_id,
}
use gqueue.Postgres.Names.{has, Unique, row_name, IsTable}

-- A row has the name, and it is disabled.
abbrev pub name_disabled : String → Table → Bool
name_disabled name [] = false
name_disabled name (row ∷ rows) = (row.name == name && not (is_live row)) || name_disabled name rows

abbrev by_name : String → Row → Bool
by_name name row = row.name == name && is_live row

first_where-none :
    (name : String) (t : Table) → has row_name name t ≡ false → first_where (by_name name) t ≡ none
first_where-none name [] h = refl
first_where-none name (row ∷ rows) h = ground (arith, h, first_where-none name rows)

-- The answer is the stored event.
pub record Stores (e : Event) (answer : Answer Event) : Type 0 where
  pub event : Event
  pub is_found : answer ≡ found event
  pub name : event.name ≡ e.name
  pub service_name : event.service_name ≡ e.service_name
  pub consumers : event.consumers ≡ e.consumers
  pub option : event.option ≡ e.option

-- What a read by the event's name answers after its upsert.
abbrev pub Upserted : Event → Table → Option Row → Type 0
Upserted e t o =
    (name_disabled e.name t ≡ true → o ≡ none)
    × (name_disabled e.name t ≡ false → Stores e (answer_internal o))

not_disabled :
    (name : String) (t : Table) → has row_name name t ≡ false → name_disabled name t ≡ false
not_disabled name [] h = refl
not_disabled name (row ∷ rows) h = ground (arith, h, not_disabled name rows)

named : (row : Row) (e : Event) → (row.name == e.name) ≡ true → row.name ≡ e.name
named row e h = (string_Eq.same_iff row.name e.name).0 h

stored_row :
    (e : Event) (row : Row)
    → row.name ≡ e.name
    → row.service_name ≡ e.service_name
    → row.consumers ≡ e.consumers
    → row.opts ≡ e.option
    → Stores e (answer_internal (some row))
stored_row e row n s c o = record {
  event = record (to_domain row) { state = "" };
  is_found = refl;
  name = n;
  service_name = s;
  consumers = c;
  option = o;
}

-- The head of the table has the event's name.
overwritten :
    (now : ℕ) (e : Event) (row : Row) (rows other : Table)
    → (row.name == e.name) ≡ true
    → has row_name e.name rows ≡ false
    → Upserted e (row ∷ rows) (
        first_where
          (by_name e.name)
          (if row.name == e.name then overwrite now e row ∷ rows else other))
overwritten now e row rows other same alone = elim (Bool-cases (is_live row)) [
  | inl live ↦
      rw (same, same, live, not_disabled e.name rows alone)
        ((λ d. cc), (λ _. stored_row e (overwrite now e row) (named row e same) refl refl refl))
  | inr dead ↦ rw (same, same, dead, first_where-none e.name rows alone) ((λ _. refl), (λ d. cc))
]

first_where-insert_or_update :
    (id : String) (now : ℕ) (e : Event) (t : Table)
    → Unique row_name t
    → Upserted e t (first_where (by_name e.name) (insert_or_update id now e t))
unfolding insert_or_update
first_where-insert_or_update id now e [] h =
    rw ((string_Eq.same_iff e.name e.name).1 refl)
      ((λ d. cc), (λ _. stored_row e (new_row id now e) refl refl refl refl))
first_where-insert_or_update id now e (row ∷ rows) (alone, h) =
    elim (Bool-cases (row.name == e.name)) [
      | inl same ↦
          let n = named row e same in
          overwritten now e row rows (row ∷ insert_or_update id now e rows) same
            (ap (λ v. has row_name v rows) (sym n) ∙ alone)
      | inr differs ↦ rw (differs, differs) (first_where-insert_or_update id now e rows h)
    ]

first_where_other :
    (id n : String) (now : ℕ) (e : Event) (t : Table)
    → (e.name == n) ≡ false
    → first_where (by_name n) (insert_or_update id now e t) ≡ first_where (by_name n) t
unfolding insert_or_update
first_where_other id n now e [] d = rw d refl
first_where_other id n now e (row ∷ rows) d = elim (Bool-cases (row.name == e.name)) [
  | inl same ↦
      let no_match : (row.name == n) ≡ false = ap (λ v. v == n) (named row e same) ∙ d in
      rw (same, no_match) refl
  | inr differs ↦ rw (differs, first_where_other id n now e rows d) refl
]

-- In a table without two rows of one name, after an upsert that the database takes, a read by the
-- event's name answers the event's service, consumers and option, unless a disabled row has that
-- name: the read then answers EventNotFound. Reads by any other name answer as before.
pub get_internal_event-upsert :
    (id : String) (now : ℕ) (e : Event) (t : Table)
    → IsTable t
    → let after = (upsert none id now e t).0 in
      (name_disabled e.name t ≡ true → get_internal_event none e.name after ≡ not_found)
      × (name_disabled e.name t ≡ false → Stores e (get_internal_event none e.name after))
      × ((n : String)
          → (e.name == n) ≡ false
          → get_internal_event none n after ≡ get_internal_event none n t)
unfolding upsert get_internal_event
get_internal_event-upsert id now e t h =
    let (hidden, seen) = first_where-insert_or_update id now e t h.names in
    (
      (λ d. ap answer_internal (hidden d)),
      seen,
      (λ n d. ap answer_internal (first_where_other id n now e t d)),
    )

abbrev by_id : String → Row → Bool
by_id id row = row.id == id && is_live row

disabled_unseen :
    (now : ℕ) (id : String) (t : Table)
    → first_where (by_id id) (update_where (by_id id) (disable now) t) ≡ none
unfolding update_where
disabled_unseen now id [] = refl
disabled_unseen now id (row ∷ rows) = ground (arith, disabled_unseen now id rows)

-- A row that an update by id leaves is found as before.
disabled_other :
    (now : ℕ) (id v : String) (t : Table)
    → (id == v) ≡ false
    → first_where (by_id v) (update_where (by_id id) (disable now) t) ≡ first_where (by_id v) t
unfolding update_where
disabled_other now id v [] d = refl
disabled_other now id v (row ∷ rows) d = ground (
  arith,
  d,
  disabled_other now id v rows d,
  string_Eq.same_iff row.id id,
  string_Eq.same_iff row.id v,
  string_Eq.same_iff id v,
)

-- After an event is disabled a read by its id answers EventNotFound, and a read by any other id
-- answers as before.
pub get_event_by_id-disabled_event :
    (now : ℕ) (id : String) (t : Table)
    → let after = (disabled_event none now id t).0 in
      (get_event_by_id none id after ≡ not_found)
      × ((v : String) → (id == v) ≡ false → get_event_by_id none v after ≡ get_event_by_id none v t)
unfolding disabled_event get_event_by_id
get_event_by_id-disabled_event now id t =
    (ap answer_row (disabled_unseen now id t), (λ v d. ap answer_row (disabled_other now id v t d)))
