-- ===== src/Targets/Import.antt =====
-- `ImportTargets` of targets.go is all or nothing, and is `CreateTarget` for each row.
use fogping.Prelude.{
  ℕ, suc, ◌+◌, ◌≡◌, refl, subst, ◌⊎◌, inl, inr, true, false, Option, none, some, List, [], ◌∷◌,
  Text, arith, nat_eq, text_eq, eq_refl, Option-cases, Bool-cases, All,
}
use fogping.Prelude.Result.{Result, ok, err, Result-cases}
use fogping.Config.{TargetCfg, IsNormal}
use fogping.Targets.Rows.{Table, find}
use fogping.Targets.{
  StoreError, db, name_taken, at_row, Effect, upsert, create_target, import_row, import_rows,
  import_targets,
}
use fogping.Targets.Lookup.{upserted, refused, upsert_lem}
use fogping.Targets.Validity.{IsValid}
use fogping.Targets.Steps.{create_target-IsValid}

module _ (effects : ℕ → Effect) where
  -- Each target in turn is created, from the `i`-th effect on, and no creation fails.
  pub data Created : ℕ → List TargetCfg → Table → Table → Type 0 where
    done : {i : ℕ} {table : Table} → Created i [] table table
    more :
        {i : ℕ} {t : TargetCfg} {ts : List TargetCfg} {table mid last : Table} (r : TargetCfg)
        → create_target (effects i) none t table ≡ (ok r, mid)
        → Created (suc i) ts mid last
        → Created i (t ∷ ts) table last

-- One row of an import is one creation: it fails exactly when the creation does.
module _ (effect : Effect) (t : TargetCfg) (table : Table) where
  abbrev Same : Type 0
  Same =
      ((r : TargetCfg) × (create_target effect none t table ≡ (ok r, (upsert t effect.gap table).0))
        × (import_row t effect.fault (upsert t effect.gap table)
            ≡ ok (upsert t effect.gap table).0))
      ⊎ ((e : StoreError) × (f : StoreError) × ((create_target effect none t table).0 ≡ err e)
          × (import_row t effect.fault (upsert t effect.gap table) ≡ err f))

  row_done :
      (id : ℕ)
      → effect.fault ≡ none
      → refused (find t.name table.rows) ≡ false
      → upserted t (table.seq + suc effect.gap) (find t.name table.rows)
        ≡ record { cfg = record t { id = id }; active = true }
      → Same
  unfolding create_target import_row
  row_done id fine free there =
      let facts = upsert_lem t effect.gap table t.name in
      inl (
        record t { id = id },
        ground (arith, facts, eq_refl t.name),
        ground (arith, facts, eq_refl t.name),
      )

  row_refused : effect.fault ≡ none → refused (find t.name table.rows) ≡ true → Same
  unfolding create_target import_row
  row_refused fine taken =
      let facts = upsert_lem t effect.gap table t.name in
      inr (name_taken, at_row t.name name_taken, ground (arith, facts), ground (arith, facts))

  import_row_lem : Same
  import_row_lem = elim (Option-cases effect.fault) [
    | inr (e, fault) ↦ inr (
      db e,
      at_row t.name (db e),
      unfold create_target in ground arith,
      unfold import_row in ground arith,
    )
    | inl fine ↦ elim (Option-cases (find t.name table.rows)) [
      | inl fresh ↦ row_done (table.seq + suc effect.gap) fine (rw fresh) (rw fresh)
      | inr (row, known) ↦ elim (Bool-cases row.active) [
        | inl active ↦ row_refused fine (rw (known, active))
        | inr inactive ↦ row_done row.id fine (rw (known, inactive)) (rw (known, inactive))
      ]
    ]
  ]

module _ (effects : ℕ → Effect) where
  import_rows-Created :
      (i : ℕ) (ts : List TargetCfg) (table last : Table)
      → import_rows effects i ts table ≡ ok last
      → Created effects i ts table last
  unfolding import_rows
  import_rows-Created i [] table last h =
      let same : table ≡ last = cc in subst (λ l. Created effects i [] table l) same done
  import_rows-Created i (t ∷ ts) table last h = elim (import_row_lem (effects i) t table) [
    | inl (r, created, passed) ↦
        more r created
          (import_rows-Created (suc i) ts (upsert t (effects i).gap table).0 last (ground arith))
    | inr (e, f, failed, stopped) ↦ absurd (ground arith)
  ]

  Created-import_rows :
      (i : ℕ) (ts : List TargetCfg) (table last : Table)
      → Created effects i ts table last
      → import_rows effects i ts table ≡ ok last
  unfolding import_rows
  Created-import_rows i [] table _ done = refl
  Created-import_rows i (t ∷ ts) table last (more {mid = mid} r created rest) =
      let ih = Created-import_rows (suc i) ts mid last rest in
      elim (import_row_lem (effects i) t table) [
        | inl (r', created', passed) ↦ ground (arith, ih)
        | inr (e, f, failed, stopped) ↦ absurd (ground arith)
      ]

  -- An import is all or nothing. Either it reports no error, and then every target was created in
  -- turn, as `CreateTarget` would have done, and the table is the one after the last; or it reports
  -- an error, and the table is as it was.
  pub import_targets_atomic :
      (begin commit : Option Text) (ts : List TargetCfg) (table : Table)
      → ((import_targets begin commit effects ts table).0 ≡ none)
          × Created effects 0 ts table (import_targets begin commit effects ts table).1
        ⊎ ((e : StoreError) × ((import_targets begin commit effects ts table).0 ≡ some e)
            × ((import_targets begin commit effects ts table).1 ≡ table))
  unfolding import_targets
  import_targets_atomic (some e) commit ts table = inr (db e, refl, refl)
  import_targets_atomic none commit ts table =
      elim (Result-cases (import_rows effects 0 ts table)) [
        | inr (e, failed) ↦ inr (e, ground arith, ground arith)
        | inl (last, passed) ↦ elim (Option-cases commit) [
          | inr (e, fault) ↦ inr (db e, ground arith, ground arith)
          | inl fine ↦
              let ends : import_targets none commit effects ts table ≡ (none, last) =
                ground arith in
              rw ends (inl (refl, import_rows-Created 0 ts table last passed))
        ]
      ]

  -- The other way round, an import succeeds when the database begins and commits its transaction
  -- and each target can be created in turn.
  pub import_targets_complete :
      (ts : List TargetCfg) (table last : Table)
      → Created effects 0 ts table last
      → import_targets none none effects ts table ≡ (none, last)
  unfolding import_targets
  import_targets_complete ts table last c = ground (arith, Created-import_rows 0 ts table last c)

  pub Created-IsValid :
      (i : ℕ) (ts : List TargetCfg) (table last : Table)
      → Created effects i ts table last
      → All IsNormal ts
      → IsValid table
      → IsValid last
  Created-IsValid i [] table _ done n v = v
  Created-IsValid i (t ∷ ts) table last (more {mid = mid} r created rest) n v =
      Created-IsValid (suc i) ts mid last rest n.1 (
        subst (λ (p : Result StoreError TargetCfg × Table). IsValid p.1) created
          (create_target-IsValid (effects i) none t table n.0 v))

pub import_targets-IsValid :
    (begin commit : Option Text) (effects : ℕ → Effect) (ts : List TargetCfg) (table : Table)
    → All IsNormal ts
    → IsValid table
    → IsValid (import_targets begin commit effects ts table).1
import_targets-IsValid begin commit effects ts table n v =
    elim (import_targets_atomic effects begin commit ts table) [
      | inl (fine, created) ↦ Created-IsValid effects 0 ts table _ created n v
      | inr (e, failed, same) ↦ rw same v
    ]
