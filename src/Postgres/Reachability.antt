-- ===== src/Postgres/Reachability.antt =====
-- The tables that the statements of internal/interstore/postgres_store.go make of the empty one.
use gqueue.Common.{
  ℕ, String, Bool, false, ◌&&◌, ◌≡◌, refl, sym, ap, ◌∙◌, ◌==◌, string_Eq, Option, none, some, [],
  ◌∷◌, if◌then◌else◌, Bool-cases, inl, inr, arith,
}
use gqueue.Event.{Event}
use gqueue.Postgres.{
  Row, Table, is_live, upsert, update_where, disabled_event, name_taken, has_live_id, set_event,
  update_event,
}
use gqueue.Postgres.Names.{
  has, Unique, row_name, row_id, IsTable, names-insert_or_update, ids-insert_or_update,
  update_where-Unique,
}

abbrev named_by : Event → Row → Bool
named_by e row = row.id == e.id && is_live row

-- Nothing is changed where no row has the id.
update_where_same :
    (e : Event) (t : Table)
    → has row_id e.id t ≡ false
    → update_where (named_by e) (set_event e) t ≡ t
unfolding update_where
update_where_same e [] h = refl
update_where_same e (row ∷ rows) h = ground (arith, h, update_where_same e rows)

update_where_dead :
    (e : Event) (t : Table)
    → has_live_id e.id t ≡ false
    → update_where (named_by e) (set_event e) t ≡ t
unfolding update_where
update_where_dead e [] h = refl
update_where_dead e (row ∷ rows) h = ground (arith, h, update_where_dead e rows)

-- A name that is not the event's is on no more rows than before.
has_name-set_event :
    (n : String) (e : Event) (t : Table)
    → (e.name == n) ≡ false
    → has row_name n t ≡ false
    → has row_name n (update_where (named_by e) (set_event e) t) ≡ false
unfolding update_where
has_name-set_event n e [] d h = refl
has_name-set_event n e (row ∷ rows) d h = ground (arith, d, h, has_name-set_event n e rows d)

not_named :
    (e : Event) (t : Table)
    → name_taken e.id e.name t ≡ false
    → has row_id e.id t ≡ false
    → has row_name e.name t ≡ false
not_named e [] h k = refl
not_named e (row ∷ rows) h k = ground (arith, h, k, not_named e rows)

names-set_event :
    (e : Event) (t : Table)
    → Unique row_name t
    → Unique row_id t
    → name_taken e.id e.name t ≡ false
    → Unique row_name (update_where (named_by e) (set_event e) t)
unfolding update_where
names-set_event e [] n i h = tt
names-set_event e (row ∷ rows) (n, ns) (i, is) h = elim (Bool-cases (row.id == e.id)) [
  | inl same ↦
      let alone : has row_id e.id rows ≡ false =
        ap (λ v. has row_id v rows) (sym ((string_Eq.same_iff row.id e.id).0 same)) ∙ i in
      rw (update_where_same e rows alone) (changed_head e row rows n ns h alone)
  | inr differs ↦ rw differs (
    has_name-set_event row.name e rows
        (ground (
          arith,
          h,
          differs,
          string_Eq.same_iff row.name e.name,
          string_Eq.same_iff e.name row.name,
        ))
        n,
    names-set_event e rows ns is (ground (arith, h)),
  )
]
  where
    changed_head :
        (e : Event) (row : Row) (rows : Table)
        → has row_name row.name rows ≡ false
        → Unique row_name rows
        → name_taken e.id e.name (row ∷ rows) ≡ false
        → has row_id e.id rows ≡ false
        → Unique row_name (if named_by e row then set_event e row ∷ rows else row ∷ rows)
    changed_head e row rows n ns h alone = elim (Bool-cases (named_by e row)) [
      | inl taken ↦ rw taken (not_named e rows (ground (arith, h)) alone, ns)
      | inr left ↦ rw left (n, ns)
    ]

upsert-IsTable :
    (broken : Option String) (id : String) (now : ℕ) (e : Event) (t : Table)
    → has row_id id t ≡ false
    → IsTable t
    → IsTable (upsert broken id now e t).0
unfolding upsert
upsert-IsTable none id now e t fresh h = record {
  names = names-insert_or_update id now e t h.names;
  ids = ids-insert_or_update id now e t fresh h.ids;
}
upsert-IsTable (some err) id now e t fresh h = h

disabled_event-IsTable :
    (broken : Option String) (now : ℕ) (id : String) (t : Table)
    → IsTable t
    → IsTable (disabled_event broken now id t).0
unfolding disabled_event
disabled_event-IsTable none now id t h = record {
  names = update_where-Unique row_name _ _ t (λ row. refl) h.names;
  ids = update_where-Unique row_id _ _ t (λ row. refl) h.ids;
}
disabled_event-IsTable (some err) now id t h = h

update_event-IsTable :
    (broken : Option String) (taken : String) (e : Event) (t : Table)
    → IsTable t
    → IsTable (update_event broken taken e t).0
unfolding update_event
update_event-IsTable (some err) taken e t h = h
update_event-IsTable none taken e t h = elim (Bool-cases (has_live_id e.id t)) [
  | inl live ↦ elim (Bool-cases (name_taken e.id e.name t)) [
    | inl clash ↦ rw (live, clash) h
    | inr clear ↦
        rw (live, clear)
          (record {
            names = names-set_event e t h.names h.ids clear;
            ids = update_where-Unique row_id _ _ t (λ row. refl) h.ids;
          })
  ]
  | inr dead ↦ rw dead (subst_table (update_where_dead e t dead) h)
]
  where
    subst_table : {s t : Table} → s ≡ t → IsTable t → IsTable s
    subst_table e h = rw e h

-- The tables that the store's statements make of the empty one; a new row has a new UUID.
pub data Reachable : Table → Type 0 where
  empty : Reachable []
  after_upsert :
      {t : Table} (broken : Option String) (id : String) (now : ℕ) (e : Event)
      → has row_id id t ≡ false
      → Reachable t
      → Reachable (upsert broken id now e t).0
  after_disable :
      {t : Table} (broken : Option String) (now : ℕ) (id : String)
      → Reachable t
      → Reachable (disabled_event broken now id t).0
  after_update :
      {t : Table} (broken : Option String) (taken : String) (e : Event)
      → Reachable t
      → Reachable (update_event broken taken e t).0

-- Whatever the store does and whichever of its statements fail, no two rows have the same name and no
-- two the same id.
pub Reachable-IsTable : (t : Table) → Reachable t → IsTable t
Reachable-IsTable _ empty = record { names = tt; ids = tt }
Reachable-IsTable _ (after_upsert {t} broken id now e fresh r) =
    upsert-IsTable broken id now e t fresh (Reachable-IsTable t r)
Reachable-IsTable _ (after_disable {t} broken now id r) =
    disabled_event-IsTable broken now id t (Reachable-IsTable t r)
Reachable-IsTable _ (after_update {t} broken taken e r) =
    update_event-IsTable broken taken e t (Reachable-IsTable t r)
