-- ===== src/Postgres/Updated.antt =====
-- What a read by an id sees after UpdateEvent.
use gqueue.Common.{
  String, Bool, false, ◌&&◌, ◌≡◌, refl, ap, ◌∙◌, ◌==◌, string_Eq, Option, none, some, [], ◌∷◌,
  Bool-cases, inl, inr, arith,
}
use gqueue.Event.{Event}
use gqueue.MemStore.{Answer, found}
use gqueue.Postgres.{
  Row, Table, is_live, update_where, first_where, answer_row, get_event_by_id, name_taken,
  has_live_id, set_event, update_event,
}

abbrev by_id : String → Row → Bool
by_id id row = row.id == id && is_live row

-- The first row that the test selects, as the event has it
abbrev set_first : Event → Option Row → Option Row
set_first e none = none
set_first e (some row) = some (set_event e row)

first_where-set_event :
    (e : Event) (t : Table)
    → first_where (by_id e.id) (update_where (by_id e.id) (set_event e) t)
      ≡ set_first e (first_where (by_id e.id) t)
unfolding update_where
first_where-set_event e [] = refl
first_where-set_event e (row ∷ rows) = elim (Bool-cases (by_id e.id row)) [
  | inl hit ↦ rw (hit, hit) refl
  | inr miss ↦ rw (miss, miss) (first_where-set_event e rows)
]

updated_other :
    (e : Event) (v : String) (t : Table)
    → (e.id == v) ≡ false
    → first_where (by_id v) (update_where (by_id e.id) (set_event e) t) ≡ first_where (by_id v) t
unfolding update_where
updated_other e v [] d = refl
updated_other e v (row ∷ rows) d = ground (
  arith,
  d,
  updated_other e v rows d,
  string_Eq.same_iff row.id e.id,
  string_Eq.same_iff row.id v,
  string_Eq.same_iff e.id v,
)

-- What was read under the id before, with what the event says in its place
abbrev pub updated : Event → Answer Event → Answer Event
updated e (found old) = found (record old {
  name = e.name;
  service_name = e.service_name;
  state = e.state;
  option = e.option;
  consumers = e.consumers;
})
updated e other = other

answer_row-set_first :
    (e : Event) (o : Option Row) → answer_row (set_first e o) ≡ updated e (answer_row o)
answer_row-set_first e none = refl
answer_row-set_first e (some row) = refl

-- What an update that succeeded has done: the reads by the event's id and by another.
abbrev pub Updates : Event → Table → Table → Type 0
Updates e t after =
    (get_event_by_id none e.id after ≡ updated e (get_event_by_id none e.id t))
    × ((v : String) → (e.id == v) ≡ false → get_event_by_id none v after ≡ get_event_by_id none v t)

-- After an update without an error a read by the event's id answers the event's name, service, state,
-- option and consumers where it found an event before, and EventNotFound where it did not; a read by
-- any other id answers as before.
pub get_event_by_id-update_event :
    (taken : String) (e : Event) (t : Table)
    → (update_event none taken e t).1 ≡ none
    → Updates e t (update_event none taken e t).0
unfolding update_event get_event_by_id
get_event_by_id-update_event taken e t =
    elim (Bool-cases (has_live_id e.id t && name_taken e.id e.name t)) [
      | inl refused ↦ rw refused (λ h. cc)
      | inr done ↦ rw done (λ h. (
        ap answer_row (first_where-set_event e t)
            ∙ answer_row-set_first e (first_where (by_id e.id) t),
        (λ v d. ap answer_row (updated_other e v t d)),
      ))
    ]
