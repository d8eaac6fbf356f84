-- ===== src/Targets/Change.antt =====
-- What `UpdateTarget` and `DeactivateTarget` of targets.go do to the row of every id.
use fogping.Prelude.{
  ℕ, ◌≡◌, ◌≢◌, refl, subst, sym, true, false, Option, none, some, List, [], ◌∷◌, arith,
  if◌then◌else◌, ◌==◌, nat_eq, text_eq, nat_beq_iff, eq_of, ne_of, Option-cases, Bool-cases, inl,
  inr, ◌⊎◌,
}
use fogping.Prelude.Result.{Result, ok, err}
use fogping.Config.{TargetCfg}
use fogping.Targets.Rows.{Row, Table, find, find_id, rewrite, deactivate}
use fogping.Targets.{
  StoreError, not_found, name_taken, name_deleted, update_target, deactivate_target,
}

find_id-id : (id : ℕ) (rows : List Row) (row : Row) → find_id id rows ≡ some row → row.id ≡ id
unfolding find_id
find_id-id id [] row h = cc
find_id-id id (r ∷ rows) row h = ground (arith, find_id-id id rows row, nat_beq_iff r.id id)

find_id-deactivate :
    (id j : ℕ) (rows : List Row) (row : Row)
    → find_id id rows ≡ some row
    → find_id j (deactivate id rows)
      ≡ (if id == j then some (record row { active = false }) else find_id j rows)
unfolding find_id deactivate
find_id-deactivate id j [] row h = cc
find_id-deactivate id j (r ∷ rows) row h = ground (
  arith,
  find_id-deactivate id j rows row,
  nat_beq_iff r.id id,
  nat_beq_iff r.id j,
  nat_beq_iff id j,
)

find_id-rewrite :
    (t : TargetCfg) (j : ℕ) (rows : List Row) (row : Row)
    → find_id t.id rows ≡ some row
    → find_id j (rewrite t rows)
      ≡ (if t.id == j then some (record row { cfg = t }) else find_id j rows)
unfolding find_id rewrite
find_id-rewrite t j [] row h = cc
find_id-rewrite t j (r ∷ rows) row h = ground (
  arith,
  find_id-rewrite t j rows row,
  nat_beq_iff r.id t.id,
  nat_beq_iff r.id j,
  nat_beq_iff t.id j,
)

-- A row that is not there or not active, and a row that is not there or has the id.
abbrev pub Inactive : Option Row → Type 0
Inactive none = Unit
Inactive (some row) = row.active ≡ false

abbrev pub Owned : ℕ → Option Row → Type 0
Owned id none = Unit
Owned id (some row) = row.id ≡ id

-- With a database that does not fail, `DeactivateTarget` succeeds exactly on the id of an active
-- row; then that row alone changes, to an inactive one with the same settings. Otherwise it reports
-- `errNotFound` and changes nothing.
pub deactivate_target_lem :
    (id : ℕ) (table : Table)
    → ((row : Row) × (find_id id table.rows ≡ some row)
        × (row.active ≡ true)
        × ((deactivate_target none id table).0 ≡ none)
        × ((j : ℕ)
            → find_id j (deactivate_target none id table).1.rows
              ≡ (if id == j then some (record row { active = false }) else find_id j table.rows)))
      ⊎ Inactive (find_id id table.rows)
        × (deactivate_target none id table ≡ (some not_found, table))
unfolding deactivate_target
deactivate_target_lem id table = elim (Option-cases (find_id id table.rows)) [
  | inl absent ↦ inr (rw absent tt, ground arith)
  | inr (row, present) ↦ elim (Bool-cases row.active) [
    | inr inactive ↦ inr (rw present inactive, ground arith)
    | inl active ↦ inl (
      row,
      present,
      active,
      ground arith,
      λ j. rw (present, active) (find_id-deactivate id j table.rows row present),
    )
  ]
]

-- What `UpdateTarget` answers, given the row of the id and the row of the new name.
abbrev pub Updates : TargetCfg → Table → Option Row → Result StoreError TargetCfg × Table → Type 0
Updates t table named (ok r, after) =
    (r ≡ t)
    × Owned t.id named
    × ((row : Row) × (find_id t.id table.rows ≡ some row)
        × (row.active ≡ true)
        × ((j : ℕ)
            → find_id j after.rows
              ≡ (if t.id == j then some (record row { cfg = t }) else find_id j table.rows)))
Updates t table named (err e, after) =
    (after ≡ table)
    × (((e ≡ not_found) × Inactive (find_id t.id table.rows))
        ⊎ ((other : Row) × (named ≡ some other)
            × (other.id ≢ t.id)
            × (e ≡ (if other.active then name_taken else name_deleted))))

-- With a database that does not fail, `UpdateTarget` rewrites the active row of the id, the row
-- keeps its id, and no other row changes, provided that no other row has the new name. Else it
-- changes nothing and says why: no active row has the id, or another row, active or deleted, has
-- the name.
pub update_target_lem :
    (t : TargetCfg) (table : Table)
    → Updates t table (find t.name table.rows) (update_target none none t table)
unfolding update_target
update_target_lem t table = elim (Option-cases (find_id t.id table.rows)) [
  | inl absent ↦ rw absent (refl, inl (refl, subst Inactive (sym absent) tt))
  | inr (row, present) ↦ elim (Bool-cases row.active) [
    | inr inactive ↦
        rw (present, inactive) (refl, inl (refl, subst Inactive (sym present) inactive))
    | inl active ↦ elim (Option-cases (find t.name table.rows)) [
      | inl fresh ↦
          rw (present, active, fresh)
            (refl, tt, (row, present, active, λ j. find_id-rewrite t j table.rows row present))
      | inr (other, named) ↦ elim (Bool-cases (other.id == t.id)) [
        | inl own ↦
            rw (present, active, named, own)
              (
                refl,
                eq_of own,
                (row, present, active, λ j. find_id-rewrite t j table.rows row present),
              )
        | inr foreign ↦
            rw (present, active, named, foreign) (refl, inr (other, refl, ne_of foreign, refl))
      ]
    ]
  ]
]
