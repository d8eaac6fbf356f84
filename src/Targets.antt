-- ===== src/Targets.antt =====
-- targets.go: the table of targets in the database and the statements that change it. A statement
-- that fails (its fault is an argument) changes nothing; the id of a new row is larger than every id
-- that the table ever had, by a gap that the database chooses.
pub mod Rows
pub mod Lookup
pub mod Change
pub mod Listing
pub mod Validity
pub mod Steps
pub mod Import
pub mod Reach
pub mod Tests
use fogping.Prelude.{
  ℕ, suc, ◌+◌, Bool, true, false, Option, none, some, List, [], ◌∷◌, ◌++◌, map, Text, if◌then◌else◌,
  ◌==◌, nat_eq, text_eq, ◌&&◌, not, length, keep, leb,
}
use fogping.Prelude.Map.{Map, insert}
use fogping.Prelude.Result.{Result, ok, err}
use fogping.Config.{TargetCfg}
use Rows.{Row, Table, find, find_id, reactivate, rewrite, deactivate}

-- `errNotFound`, `errNameTaken`, `errNameDeleted`, an error of the database with its message, and an
-- error wrapped with the name of the row that met it.
pub data StoreError : Type 0 where
  not_found name_taken name_deleted : StoreError
  db : Text → StoreError
  at_row : Text → StoreError → StoreError

-- errors.Is(err, errNameTaken)
unfoldable pub is_name_taken : StoreError → Bool
is_name_taken name_taken = true
is_name_taken (at_row name e) = is_name_taken e
is_name_taken e = false

-- What a statement does beside its meaning: it may fail, and an insertion may skip ids.
pub record Effect : Type 0 where
  pub fault : Option Text
  pub gap : ℕ

-- `upsertTarget` with ` WHERE targets.active=0`: the new table and the rows affected.
upsert_found : TargetCfg → ℕ → Table → Option Row → Table × ℕ
upsert_found t gap table none =
    let id = table.seq + suc gap in
    let row : Row = record { cfg = record t { id = id }; active = true } in
    (record { rows = table.rows ++ row ∷ []; seq = id }, 1)
upsert_found t gap table (some row) =
    if row.active then (table, 0) else (record table { rows = reactivate t table.rows }, 1)

unfoldable pub upsert : TargetCfg → ℕ → Table → Table × ℕ
unfolding upsert_found
upsert t gap table = upsert_found t gap table (find t.name table.rows)

-- `SELECT id FROM targets WHERE name=?` into the target; no row is an error of the query.
scan_id : TargetCfg → Option Row → Result StoreError TargetCfg
scan_id t none = err (db [])
scan_id t (some row) = ok (record t { id = row.id })

create_exec : Option Text → TargetCfg → Table × ℕ → Result StoreError TargetCfg × Table
unfolding scan_id
create_exec select t (table, n) =
    if n == 0
    then (err name_taken, table)
    else (elim select [ some e ↦ err (db e) | none ↦ scan_id t (find t.name table.rows) ], table)

unfoldable pub create_target :
    Effect → Option Text → TargetCfg → Table → Result StoreError TargetCfg × Table
unfolding create_exec
create_target effect select t table = elim effect.fault [
  | some e ↦ (err (db e), table)
  | none ↦ create_exec select t (upsert t effect.gap table)
]

-- The unique constraint on `name`: another row has the name that the row is to get. If the second
-- query fails, `active` keeps its zero value.
name_conflict : Option Text → Row → StoreError
name_conflict none row = if row.active then name_taken else name_deleted
name_conflict (some e) row = name_deleted

update_row : Option Text → TargetCfg → Table → Option Row → Result StoreError TargetCfg × Table
unfolding name_conflict
update_row select t table none = (ok t, record table { rows = rewrite t table.rows })
update_row select t table (some row) =
    if row.id == t.id
    then (ok t, record table { rows = rewrite t table.rows })
    else (err (name_conflict select row), table)

update_found : Option Text → TargetCfg → Table → Option Row → Result StoreError TargetCfg × Table
unfolding update_row
update_found select t table none = (err not_found, table)
update_found select t table (some row) =
    if row.active
    then update_row select t table (find t.name table.rows)
    else (err not_found, table)

unfoldable pub update_target :
    Option Text → Option Text → TargetCfg → Table → Result StoreError TargetCfg × Table
unfolding update_found
update_target exec select t table = elim exec [
  | some e ↦ (err (db e), table)
  | none ↦ update_found select t table (find_id t.id table.rows)
]

deactivate_found : ℕ → Table → Option Row → Option StoreError × Table
deactivate_found id table none = (some not_found, table)
deactivate_found id table (some row) =
    if row.active
    then (none, record table { rows = deactivate id table.rows })
    else (some not_found, table)

unfoldable pub deactivate_target : Option Text → ℕ → Table → Option StoreError × Table
unfolding deactivate_found
deactivate_target exec id table = elim exec [
  | some e ↦ (some (db e), table)
  | none ↦ deactivate_found id table (find_id id table.rows)
]

-- `ORDER BY id`
insert_by_id : Row → List Row → List Row
insert_by_id r [] = r ∷ []
insert_by_id r (s ∷ rows) = if leb r.id s.id then r ∷ s ∷ rows else s ∷ insert_by_id r rows

sort_by_id : List Row → List Row
unfolding insert_by_id
sort_by_id [] = []
sort_by_id (r ∷ rows) = insert_by_id r (sort_by_id rows)

unfoldable pub active_targets : Table → List TargetCfg
unfolding sort_by_id
active_targets table =
    map (λ (r : Row). r.cfg) (sort_by_id (keep (λ (r : Row). r.active) table.rows))

unfoldable pub target_rows : Table → ℕ
target_rows table = length table.rows

names_of : List Row → Map Text Bool → Map Text Bool
names_of [] out = out
names_of (r ∷ rows) out = names_of rows (insert r.name r.active out)

unfoldable pub target_names : Table → Map Text Bool
unfolding names_of
target_names table = names_of table.rows []

-- The loop of `ImportTargets`, inside its transaction; one effect for each statement.
import_row : TargetCfg → Option Text → Table × ℕ → Result StoreError Table
import_row t (some e) done = err (at_row t.name (db e))
import_row t none (table, n) = if n == 0 then err (at_row t.name name_taken) else ok table

import_next : Result StoreError Table → (Table → Result StoreError Table) → Result StoreError Table
import_next (ok table) f = f table
import_next (err e) f = err e

unfoldable pub import_rows : (ℕ → Effect) → ℕ → List TargetCfg → Table → Result StoreError Table
unfolding import_row import_next
import_rows effects i [] table = ok table
import_rows effects i (t ∷ ts) table =
    let next = import_rows effects (suc i) ts in
    import_next (import_row t (effects i).fault (upsert t (effects i).gap table)) next

-- A failure anywhere rolls back to the table that the transaction began with.
import_end : Option Text → Table → Result StoreError Table → Option StoreError × Table
import_end (some e) table (ok done) = (some (db e), table)
import_end none table (ok done) = (none, done)
import_end commit table (err e) = (some e, table)

unfoldable pub import_targets :
    Option Text → Option Text → (ℕ → Effect) → List TargetCfg → Table → Option StoreError × Table
unfolding import_end
import_targets begin commit effects ts table = elim begin [
  | some e ↦ (some (db e), table)
  | none ↦ import_end commit table (import_rows effects 0 ts table)
]
