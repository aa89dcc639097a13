-- ===== src/Postgres/Names.antt =====
-- Rows with the same name or the same id.
use gqueue.Common.{
  ℕ, String, Bool, false, ◌||◌, ◌≡◌, refl, ◌==◌, string_Eq, [], ◌∷◌, Bool-cases, inl, inr, arith,
}
use gqueue.Event.{Event}
use gqueue.Postgres.{Row, Table, insert_or_update, update_where}

abbrev pub has : (Row → String) → String → Table → Bool
has field v [] = false
has field v (row ∷ rows) = field row == v || has field v rows

abbrev pub Unique : (Row → String) → Table → Type 0
Unique field [] = Unit
Unique field (row ∷ rows) = (has field (field row) rows ≡ false) × Unique field rows

abbrev pub row_name : Row → String
row_name row = row.name

abbrev pub row_id : Row → String
row_id row = row.id

-- The constraints of the table.
pub record IsTable (table : Table) : Type 0 where
  pub names : Unique row_name table
  pub ids : Unique row_id table

has_name-insert_or_update :
    (id n : String) (now : ℕ) (e : Event) (t : Table)
    → has row_name n (insert_or_update id now e t) ≡ (e.name == n || has row_name n t)
unfolding insert_or_update
has_name-insert_or_update id n now e [] = refl
has_name-insert_or_update id n now e (row ∷ rows) = ground (
  arith,
  string_Eq.same_iff row.name e.name,
  string_Eq.same_iff row.name n,
  string_Eq.same_iff e.name n,
  has_name-insert_or_update id n now e rows,
)

pub names-insert_or_update :
    (id : String) (now : ℕ) (e : Event) (t : Table)
    → Unique row_name t
    → Unique row_name (insert_or_update id now e t)
unfolding insert_or_update
names-insert_or_update id now e [] h = (refl, tt)
names-insert_or_update id now e (row ∷ rows) (new, h) = elim (Bool-cases (row.name == e.name)) [
  | inl same ↦ rw same (new, h)
  | inr differs ↦ rw differs (
    ground (
      arith,
      has_name-insert_or_update id row.name now e rows,
      string_Eq.same_iff row.name e.name,
      string_Eq.same_iff e.name row.name,
      new,
      differs,
    ),
    names-insert_or_update id now e rows h,
  )
]

has_id-insert_or_update :
    (id v : String) (now : ℕ) (e : Event) (t : Table)
    → (id == v) ≡ false
    → has row_id v t ≡ false
    → has row_id v (insert_or_update id now e t) ≡ false
unfolding insert_or_update
has_id-insert_or_update id v now e [] d h = ground (arith, d)
has_id-insert_or_update id v now e (row ∷ rows) d h =
    ground (arith, d, h, has_id-insert_or_update id v now e rows d)

pub ids-insert_or_update :
    (id : String) (now : ℕ) (e : Event) (t : Table)
    → has row_id id t ≡ false
    → Unique row_id t
    → Unique row_id (insert_or_update id now e t)
unfolding insert_or_update
ids-insert_or_update id now e [] fresh h = (refl, tt)
ids-insert_or_update id now e (row ∷ rows) fresh (new, h) = elim (Bool-cases (row.name == e.name)) [
  | inl same ↦ rw same (new, h)
  | inr differs ↦ rw differs (
    has_id-insert_or_update id row.id now e rows
        (ground (arith, string_Eq.same_iff row.id id, string_Eq.same_iff id row.id, fresh)) new,
    ids-insert_or_update id now e rows (ground (arith, fresh)) h,
  )
]

-- A change that keeps a field keeps who has it.
has-update_where :
    (field : Row → String) (v : String) (test : Row → Bool) (change : Row → Row) (t : Table)
    → ((row : Row) → field (change row) ≡ field row)
    → has field v (update_where test change t) ≡ has field v t
unfolding update_where
has-update_where field v test change [] k = refl
has-update_where field v test change (row ∷ rows) k = elim (Bool-cases (test row)) [
  | inl taken ↦ rw (taken, k row, has-update_where field v test change rows k) refl
  | inr left ↦ rw (left, has-update_where field v test change rows k) refl
]

pub update_where-Unique :
    (field : Row → String) (test : Row → Bool) (change : Row → Row) (t : Table)
    → ((row : Row) → field (change row) ≡ field row)
    → Unique field t
    → Unique field (update_where test change t)
unfolding update_where
update_where-Unique field test change [] k h = tt
update_where-Unique field test change (row ∷ rows) k (new, h) = elim (Bool-cases (test row)) [
  | inl taken ↦
      rw (taken, k row, has-update_where field (field row) test change rows k)
        (new, update_where-Unique field test change rows k h)
  | inr left ↦
      rw (left, has-update_where field (field row) test change rows k)
        (new, update_where-Unique field test change rows k h)
]
