-- ===== src/Store/Schema.antt =====
-- `NewStore` of store.go and `migrateTargets` of targets.go: the tables of the database file, and
-- what opening it makes of them. A single statement that fails changes nothing.
use fogping.Prelude.{
  ℕ, ◌*◌, ◌^◌, ltb, Bool, false, Option, none, some, List, [], ◌∷◌, ◌++◌, Text, codes,
  if◌then◌else◌, ◌==◌, text_eq, any,
}

-- The columns of `targets`, `rounds` and `rounds_hourly`, none without the table, and whether there
-- is a `rounds_daily`.
pub record Schema : Type 0 where
  pub columns : List Text
  pub rounds : List Text
  pub hourly : List Text
  pub daily : Bool

abbrev pub has : Text → List Text → Bool
has name columns = any (λ c. c == name) columns

abbrev pub target_columns : List Text
target_columns = codes "id" ∷ codes "name" ∷ []

abbrev pub round_columns : List Text
round_columns =
    codes "target_id"
    ∷ codes "t"
    ∷ codes "sent"
    ∷ codes "recv"
    ∷ codes "samples"
    ∷ codes "burst"
    ∷ codes "z"
    ∷ []

abbrev pub hourly_columns : List Text
hourly_columns =
    codes "target_id"
    ∷ codes "t"
    ∷ codes "lo"
    ∷ codes "p50"
    ∷ codes "p90"
    ∷ codes "p99"
    ∷ codes "hi"
    ∷ codes "loss_pct"
    ∷ codes "bursts"
    ∷ codes "n"
    ∷ []

-- The columns that `migrateTargets` adds, in its order.
abbrev pub added_columns : List Text
added_columns =
    codes "type"
    ∷ codes "host"
    ∷ codes "port"
    ∷ codes "pace"
    ∷ codes "interval_sec"
    ∷ codes "active"
    ∷ []

-- What meets an error: each pragma, each of the three statements of the schema, the query of the
-- columns, the row after which its scan fails, a column that cannot be added, and the removal of
-- the old daily table.
pub record Faults : Type 0 where
  pub folder : Option Text
  pub connection : Option Text
  pub pragmas : List (Option Text)
  pub tables : ℕ → Option Text
  pub info : Option Text
  pub scan : Option Text
  pub column : Text → Option Text
  pub daily : Option Text

-- CREATE TABLE IF NOT EXISTS
unfoldable pub created : List Text → List Text → List Text
created columns [] = columns
created columns (c ∷ present) = c ∷ present

unfoldable pub create_hourly : Faults → Schema → Option Text × Schema
unfolding created
create_hourly faults db = elim (faults.tables 2) [
  | some e ↦ (some e, db)
  | none ↦ (none, record db { hourly = created hourly_columns db.hourly })
]

unfoldable pub create_rounds : Faults → Schema → Option Text × Schema
unfolding created create_hourly
create_rounds faults db = elim (faults.tables 1) [
  | some e ↦ (some e, db)
  | none ↦ create_hourly faults (record db { rounds = created round_columns db.rounds })
]

-- The schema: one `Exec` of three statements, of which those before a failure stay done.
unfoldable pub create_tables : Faults → Schema → Option Text × Schema
unfolding created create_rounds
create_tables faults db = elim (faults.tables 0) [
  | some e ↦ (some e, db)
  | none ↦ create_rounds faults (record db { columns = created target_columns db.columns })
]

-- ALTER TABLE for each column that is missing; the first that fails ends the loop.
unfoldable pub add_columns :
    (Text → Option Text) → List Text → List Text → List Text → Option Text × List Text
add_columns fault have [] columns = (none, columns)
add_columns fault have (name ∷ names) columns =
    if has name have then add_columns fault have names columns else elim (fault name) [
      | some e ↦ (some e, columns)
      | none ↦ add_columns fault have names (columns ++ name ∷ [])
    ]

unfoldable pub migrate_targets : Faults → List Text → Option Text × List Text
unfolding add_columns
migrate_targets faults columns = elim faults.info [
  | some e ↦ (some e, columns)
  | none ↦ elim faults.scan [
    | some e ↦ (some e, columns)
    | none ↦ add_columns faults.column columns added_columns columns
  ]
]

-- The first error of the five pragmas.
unfoldable pub first_fault : List (Option Text) → Option Text
first_fault [] = none
first_fault (some e ∷ faults) = some e
first_fault (none ∷ faults) = first_fault faults

-- DROP TABLE rounds_daily, where the table is there
unfoldable pub drop_daily : Faults → Schema → Option Text × Schema
drop_daily faults db =
    if db.daily
    then elim faults.daily [ some e ↦ (some e, db) | none ↦ (none, record db { daily = false }) ]
    else (none, db)

unfoldable pub migrated : Faults → Schema → Option Text × List Text → Option Text × Schema
unfolding drop_daily
migrated faults db (some e, columns) = (some e, record db { columns = columns })
migrated faults db (none, columns) = drop_daily faults (record db { columns = columns })

unfoldable pub upgraded : Faults → Option Text × Schema → Option Text × Schema
unfolding migrate_targets migrated
upgraded faults (some e, db) = (some e, db)
upgraded faults (none, db) = migrated faults db (migrate_targets faults db.columns)

-- What follows the steps that come before the tables, with the first error of those.
unfoldable pub opened : Faults → Schema → Option Text → Option Text × Schema
unfolding create_tables upgraded
opened faults db (some e) = (some e, db)
opened faults db none = upgraded faults (create_tables faults db)

-- The error that `NewStore` returns, and the file that it leaves; `main` passes no targets.
unfoldable pub new_store : Faults → Schema → Option Text × Schema
unfolding first_fault opened
new_store faults db =
    opened faults db (first_fault (faults.folder ∷ faults.connection ∷ faults.pragmas))

-- The statements that `reclaim` gives to the database.
pub data Statement : Type 0 where
  checkpoint freelist_count page_size vacuum : Statement

-- `free` is the number of free pages, where it can be read, and `size` that of a page.
unfoldable pub reclaim : Option ℕ → ℕ → Option Text → List Statement
reclaim free size fault = checkpoint ∷ freelist_count ∷ (elim free [
  | none ↦ []
  | some n ↦
      page_size
      ∷ (if ltb (n * size) (4 * 2 ^ 20)
          then []
          else vacuum ∷ (elim fault [ some e ↦ [] | none ↦ checkpoint ∷ [] ]))
])
