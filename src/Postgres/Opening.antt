-- ===== src/Postgres/Opening.antt =====
-- internal/interstore/postgres_store.go, NewPostgresStoreFromDSN: what it asks of database/sql, and
-- what it answers.
use gqueue.Common.{String, Option, none, some, List, [], ◌∷◌, Try, ok, error}
use gqueue.Topic.{append}

pub data SqlCall : Type 0 where
  opens : String → String → SqlCall
  pings : SqlCall

-- The errors of sql.Open and of Ping, `none` for nil
pub record Database : Type 0 where
  pub opened : String → Option String
  pub pinged : String → Option String

-- The calls, and the store on the database of the DSN
unfoldable pub from_dsn : Database → String → List SqlCall × Try String
from_dsn db dsn = elim (db.opened dsn) [
  | some err ↦
      (opens "postgres" dsn ∷ [], error (append "failed to open database connection: " err))
  | none ↦ (
    opens "postgres" dsn ∷ pings ∷ [],
    elim (db.pinged dsn) [
      | some err ↦ error (append "failed to ping database: " err)
      | none ↦ ok dsn
    ],
  )
]
