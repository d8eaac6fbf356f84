-- ===== src/Targets/Lookup.antt =====
-- What each statement of targets.go does to the row of every name or id.
use fogping.Prelude.{
  ℕ, suc, ◌+◌, ◌≡◌, refl, Bool, true, false, Option, none, some, List, [], ◌∷◌, ◌++◌, Text, arith,
  if◌then◌else◌, ◌==◌, nat_eq, text_eq, text_beq_iff, eq_refl, Option-cases, inl, inr,
}
use fogping.Prelude.Result.{Result, ok, err}
use fogping.Config.{TargetCfg}
use fogping.Targets.Rows.{Row, Table, find, reactivate}
use fogping.Targets.{StoreError, name_taken, Effect, upsert, create_target}

-- The row that an upsert leaves under the target's name, given the row that was there.
abbrev pub upserted : TargetCfg → ℕ → Option Row → Row
upserted t id none = record { cfg = record t { id = id }; active = true }
upserted t id (some row) =
    if row.active then row else record { cfg = record t { id = row.id }; active = true }

abbrev pub refused : Option Row → Bool
refused none = false
refused (some row) = row.active

find-snoc :
    (name : Text) (row : Row) (rows : List Row)
    → find row.name rows ≡ none
    → find name (rows ++ row ∷ []) ≡ (if row.name == name then some row else find name rows)
unfolding find
find-snoc name row [] h = refl
find-snoc name row (r ∷ rows) h = ground (
  arith,
  find-snoc name row rows,
  text_beq_iff r.name row.name,
  text_beq_iff r.name name,
  text_beq_iff row.name name,
)

find-reactivate :
    (name : Text) (t : TargetCfg) (rows : List Row) (row : Row)
    → find t.name rows ≡ some row
    → find name (reactivate t rows) ≡ (
        if t.name == name
        then some (record { cfg = record t { id = row.id }; active = true })
        else find name rows)
unfolding find reactivate
find-reactivate name t [] row h = cc
find-reactivate name t (r ∷ rows) row h = ground (
  arith,
  find-reactivate name t rows row,
  text_beq_iff r.name t.name,
  text_beq_iff r.name name,
  text_beq_iff t.name name,
)

pub find-name :
    (name : Text) (rows : List Row) (row : Row) → find name rows ≡ some row → row.name ≡ name
unfolding find
find-name name [] row h = cc
find-name name (r ∷ rows) row h = ground (arith, find-name name rows row, text_beq_iff r.name name)

-- An upsert changes the row of its own name only, and reports one row exactly if it was allowed.
pub upsert_lem :
    (t : TargetCfg) (gap : ℕ) (table : Table) (name : Text)
    → (find name (upsert t gap table).0.rows ≡ (
        if t.name == name
        then some (upserted t (table.seq + suc gap) (find t.name table.rows))
        else find name table.rows))
      × ((upsert t gap table).1 ≡ (if refused (find t.name table.rows) then 0 else 1))
unfolding upsert
upsert_lem t gap table name = elim (Option-cases (find t.name table.rows)) [
  | inl fresh ↦
      let row : Row = record { cfg = record t { id = table.seq + suc gap }; active = true } in
      rw fresh (ground (arith, find-snoc name row table.rows))
  | inr (row, known) ↦ rw known (
      ground (
        arith,
        find-reactivate name t table.rows row,
        find-name t.name table.rows row,
        text_beq_iff t.name name,
      ))
]

pub upsert-refused :
    (t : TargetCfg) (gap : ℕ) (table : Table)
    → refused (find t.name table.rows) ≡ true
    → upsert t gap table ≡ (table, 0)
unfolding upsert
upsert-refused t gap table h = ground arith

abbrev pub no_fault : ℕ → Effect
no_fault gap = record { fault = none; gap = gap }

abbrev pub create_reply : TargetCfg → ℕ → Option Row → Result StoreError TargetCfg
create_reply t id none = ok (record t { id = id })
create_reply t id (some row) = if row.active then err name_taken else ok (record t { id = row.id })

pub create_target-upsert :
    (t : TargetCfg) (gap : ℕ) (select : Option Text) (table : Table)
    → (create_target (no_fault gap) select t table).1 ≡ (upsert t gap table).0
unfolding create_target
create_target-upsert t gap select table = ground arith

create_reply_lem :
    (t : TargetCfg) (gap : ℕ) (table : Table)
    → (create_target (no_fault gap) none t table).0
      ≡ create_reply t (table.seq + suc gap) (find t.name table.rows)
unfolding create_target
create_reply_lem t gap table = elim (Option-cases (find t.name table.rows)) [
  | inl fresh ↦ ground (arith, upsert_lem t gap table t.name, eq_refl t.name)
  | inr (row, known) ↦ ground (arith, upsert_lem t gap table t.name, eq_refl t.name)
]

-- With a database that does not fail, `CreateTarget` gives a new name a new row, gives a deleted
-- name its old id with the new settings, and refuses an active name; in each case the rows of all
-- other names are as they were, and the reply is the target with its id, or `errNameTaken`.
pub create_target_lem :
    (t : TargetCfg) (gap : ℕ) (table : Table)
    → ((create_target (no_fault gap) none t table).0
        ≡ create_reply t (table.seq + suc gap) (find t.name table.rows))
      × ((name : Text)
          → find name (create_target (no_fault gap) none t table).1.rows ≡ (
              if t.name == name
              then some (upserted t (table.seq + suc gap) (find t.name table.rows))
              else find name table.rows))
create_target_lem t gap table = (
  create_reply_lem t gap table,
  λ name. rw (create_target-upsert t gap none table) (upsert_lem t gap table name).0,
)

-- A creation that reports an error, other than one of the second query, has changed nothing.
pub create_target-err :
    (t : TargetCfg) (effect : Effect) (table : Table) (e : StoreError)
    → (create_target effect none t table).0 ≡ err e
    → (create_target effect none t table).1 ≡ table
unfolding create_target
create_target-err t effect table e h =
    ground (
      arith,
      eq_refl t.name,
      upsert_lem t effect.gap table t.name,
      upsert-refused t effect.gap table,
    )
