-- ===== src/Targets/Steps.antt =====
-- Every statement of targets.go, on every branch, keeps the table valid.
use fogping.Prelude.{
  ℕ, suc, ◌+◌, ◌≡◌, sym, ◌∙◌, ◌⊎◌, true, Option, none, some, List, [], ◌∷◌, Text, arith, ◌==◌,
  nat_eq, text_eq, nat_beq_iff, eq_of, ne_of, Option-cases, Bool-cases, inl, inr, All, All-append,
  All-map,
}
use fogping.Config.{TargetCfg, IsNormal}
use fogping.Targets.Rows.{Row, Table, find, rewrite, deactivate}
use fogping.Targets.{Effect, upsert, create_target, update_target, deactivate_target}
use fogping.Targets.Validity.{
  Ascends, Lacks, UniqueNames, Sound, IsValid, IsNormal-id, Ascends-snoc, find-Lacks,
  UniqueNames-snoc, Reserved, reactivate-Ascends, reactivate-UniqueNames, reactivate-Sound,
  rewrite-Ascends, rewrite-UniqueNames, rewrite-Sound,
}

pub upsert-IsValid :
    (t : TargetCfg) (gap : ℕ) (table : Table)
    → IsNormal t
    → IsValid table
    → IsValid (upsert t gap table).0
unfolding upsert
upsert-IsValid t gap table n v = elim (Option-cases (find t.name table.rows)) [
  | inl fresh ↦
      let row : Row = record { cfg = record t { id = table.seq + suc gap }; active = true } in
      rw fresh (record {
        ordered = Ascends-snoc 0 table.seq table.rows row v.ordered (omega arith);
        distinct = UniqueNames-snoc table.rows row v.distinct (find-Lacks t.name table.rows fresh);
        sound =
            All-append Sound table.rows (row ∷ []) v.sound
              ((λ _. IsNormal-id (table.seq + suc gap) n), tt);
      })
  | inr (row, known) ↦ elim (Bool-cases row.active) [
    | inl active ↦ rw (known, active) v
    | inr inactive ↦
        rw (known, inactive)
          (record {
            ordered = reactivate-Ascends t 0 table.seq table.rows v.ordered;
            distinct = reactivate-UniqueNames t table.rows v.distinct;
            sound = reactivate-Sound t table.rows n v.sound;
          })
  ]
]

create_target-table :
    (effect : Effect) (select : Option Text) (t : TargetCfg) (table : Table)
    → ((create_target effect select t table).1 ≡ table)
      ⊎ ((create_target effect select t table).1 ≡ (upsert t effect.gap table).0)
unfolding create_target
create_target-table effect select t table = ground arith

pub create_target-IsValid :
    (effect : Effect) (select : Option Text) (t : TargetCfg) (table : Table)
    → IsNormal t
    → IsValid table
    → IsValid (create_target effect select t table).1
create_target-IsValid effect select t table n v = elim (create_target-table effect select t table) [
  | inl same ↦ rw same v
  | inr changed ↦ rw changed (upsert-IsValid t effect.gap table n v)
]

find-Reserved :
    (t : TargetCfg) (rows : List Row)
    → UniqueNames rows
    → ((row : Row) → find t.name rows ≡ some row → row.id ≡ t.id)
    → Reserved t rows
unfolding find
find-Reserved t [] u h = tt
find-Reserved t (r ∷ rows) u h = elim (Bool-cases (r.name == t.name)) [
  | inl same ↦
      ((λ _. h r (rw same)), All-map (λ s ne e. absurd (ne (e ∙ sym (eq_of same)))) rows u.0)
  | inr other ↦ (
    (λ e. absurd (ne_of other e)),
    find-Reserved t rows u.1 (λ row found. h row (rw other found)),
  )
]

module _ (exec select : Option Text) (t : TargetCfg) (table : Table) where
  abbrev updated : Table
  updated = record table { rows = rewrite t table.rows }

  update_target-fresh :
      find t.name table.rows ≡ none
      → ((update_target exec select t table).1 ≡ table)
        ⊎ ((update_target exec select t table).1 ≡ updated)
  unfolding update_target
  update_target-fresh h = ground arith

  update_target-known :
      (row : Row)
      → find t.name table.rows ≡ some row
      → ((update_target exec select t table).1 ≡ table)
        ⊎ (row.id ≡ t.id) × ((update_target exec select t table).1 ≡ updated)
  unfolding update_target
  update_target-known row h = ground (arith, nat_beq_iff row.id t.id)

  -- Where the update writes, no other row has the new name.
  update_target-table :
      ((update_target exec select t table).1 ≡ table)
      ⊎ ((row : Row) → find t.name table.rows ≡ some row → row.id ≡ t.id)
        × ((update_target exec select t table).1 ≡ updated)
  update_target-table = elim (Option-cases (find t.name table.rows)) [
    | inl fresh ↦ elim (update_target-fresh fresh) [
      | inl same ↦ inl same
      | inr changed ↦ inr ((λ row found. cc), changed)
    ]
    | inr (row, known) ↦ elim (update_target-known row known) [
      | inl same ↦ inl same
      | inr (own, changed) ↦ inr ((λ other found. ground arith), changed)
    ]
  ]

pub update_target-IsValid :
    (exec select : Option Text) (t : TargetCfg) (table : Table)
    → IsNormal t
    → IsValid table
    → IsValid (update_target exec select t table).1
update_target-IsValid exec select t table n v = elim (update_target-table exec select t table) [
  | inl same ↦ rw same v
  | inr (free, changed) ↦
      let reserved = find-Reserved t table.rows v.distinct free in
      rw changed (record {
        ordered = rewrite-Ascends t 0 table.seq table.rows v.ordered;
        distinct = rewrite-UniqueNames t 0 table.seq table.rows v.ordered reserved v.distinct;
        sound = rewrite-Sound t table.rows n v.sound;
      })
]

deactivate_target-table :
    (exec : Option Text) (id : ℕ) (table : Table)
    → ((deactivate_target exec id table).1 ≡ table)
      ⊎ ((deactivate_target exec id table).1 ≡ record table { rows = deactivate id table.rows })
unfolding deactivate_target
deactivate_target-table exec id table = ground arith

deactivate-Ascends :
    (id lo hi : ℕ) (rows : List Row) → Ascends lo rows hi → Ascends lo (deactivate id rows) hi
unfolding deactivate
deactivate-Ascends id lo hi [] a = a
deactivate-Ascends id lo hi (r ∷ rows) a = ground (arith, deactivate-Ascends id r.id hi rows)

deactivate-Lacks :
    (id : ℕ) (name : Text) (rows : List Row) → Lacks name rows → Lacks name (deactivate id rows)
unfolding deactivate
deactivate-Lacks id name [] l = tt
deactivate-Lacks id name (r ∷ rows) l = elim (Bool-cases (r.id == id)) [
  | inl same ↦ rw same l
  | inr other ↦ rw other (l.0, deactivate-Lacks id name rows l.1)
]

deactivate-UniqueNames :
    (id : ℕ) (rows : List Row) → UniqueNames rows → UniqueNames (deactivate id rows)
unfolding deactivate
deactivate-UniqueNames id [] u = tt
deactivate-UniqueNames id (r ∷ rows) u = elim (Bool-cases (r.id == id)) [
  | inl same ↦ rw same u
  | inr other ↦ rw other (deactivate-Lacks id r.name rows u.0, deactivate-UniqueNames id rows u.1)
]

deactivate-Sound : (id : ℕ) (rows : List Row) → All Sound rows → All Sound (deactivate id rows)
unfolding deactivate
deactivate-Sound id [] s = tt
deactivate-Sound id (r ∷ rows) s = elim (Bool-cases (r.id == id)) [
  | inl same ↦ rw same ((λ e. cc), s.1)
  | inr other ↦ rw other (s.0, deactivate-Sound id rows s.1)
]

pub deactivate_target-IsValid :
    (exec : Option Text) (id : ℕ) (table : Table)
    → IsValid table
    → IsValid (deactivate_target exec id table).1
deactivate_target-IsValid exec id table v = elim (deactivate_target-table exec id table) [
  | inl same ↦ rw same v
  | inr changed ↦ rw changed (record {
    ordered = deactivate-Ascends id 0 table.seq table.rows v.ordered;
    distinct = deactivate-UniqueNames id table.rows v.distinct;
    sound = deactivate-Sound id table.rows v.sound;
  })
]
