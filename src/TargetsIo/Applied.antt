-- ===== src/TargetsIo/Applied.antt =====
-- The plan of an import against `ImportTargets`: if the table has not changed since the plan was
-- made, the import succeeds.
use fogping.Prelude.{
  ℕ, suc, ◌+◌, ◌≡◌, ◌≢◌, refl, sym, ap, ◌∙◌, inl, inr, true, false, Option, none, some, List, [],
  ◌∷◌, arith, text_eq, beq_of_ne, Option-cases, Bool-cases, All, All-map,
}
use fogping.Prelude.Map.{lookup}
use fogping.Prelude.Result.{ok}
use fogping.Config.{TargetCfg}
use fogping.Json.{Json}
use fogping.Targets.{Effect, upsert, create_target, target_names, import_targets}
use fogping.Targets.Rows.{Row, Table, find}
use fogping.Targets.Lookup.{
  refused, upsert_lem, no_fault, create_reply, create_target_lem, create_target-upsert,
}
use fogping.Targets.Validity.{IsValid}
use fogping.Targets.Listing.{lookup-target_names}
use fogping.Targets.Import.{Created, done, more, import_targets_complete}
use fogping.TargetsIo.Plan.{Plan, plan_import}
use fogping.TargetsIo.Planned.{DistinctNames}
use fogping.TargetsIo.Gate.{plan_import-gate}

abbrev Free : Table → TargetCfg → Type 0
Free table t = refused (find t.name table.rows) ≡ false

create_reply-ok :
    (t : TargetCfg) (id : ℕ) (known : Option Row)
    → refused known ≡ false
    → (r : TargetCfg) × (create_reply t id known ≡ ok r)
create_reply-ok t id none h = (record t { id = id }, refl)
create_reply-ok t id (some row) h = (record t { id = row.id }, rw h)

module _ (gaps : ℕ → ℕ) where
  -- Effects of a database that does not fail.
  abbrev pub healthy : ℕ → Effect
  healthy i = no_fault (gaps i)

  create_target-Free :
      (i : ℕ) (t : TargetCfg) (table : Table)
      → Free table t
      → (r : TargetCfg) × (create_target (healthy i) none t table
          ≡ (ok r, (upsert t (gaps i) table).0))
  create_target-Free i t table free =
      let (r, reply) = create_reply-ok t (table.seq + suc (gaps i)) (find t.name table.rows) free in
      (
        r,
        ground (
          arith,
          reply,
          (create_target_lem t (gaps i) table).0,
          create_target-upsert t (gaps i) none table,
        ),
      )

  upsert-Free :
      (i : ℕ) (t u : TargetCfg) (table : Table)
      → u.name ≢ t.name
      → Free table u
      → Free (upsert t (gaps i) table).0 u
  upsert-Free i t u table other free =
      rw ((upsert_lem t (gaps i) table u.name).0, beq_of_ne {a = t.name} (λ e. other (sym e))) free

  All-Free :
      (i : ℕ) (t : TargetCfg) (ts : List TargetCfg) (table : Table)
      → All (λ (u : TargetCfg). u.name ≢ t.name) ts
      → All (Free table) ts
      → All (Free (upsert t (gaps i) table).0) ts
  All-Free i t [] table d f = tt
  All-Free i t (u ∷ ts) table d f = (upsert-Free i t u table d.0 f.0, All-Free i t ts table d.1 f.1)

  Free-Created :
      (i : ℕ) (ts : List TargetCfg) (table : Table)
      → DistinctNames ts
      → All (Free table) ts
      → (last : Table) × Created healthy i ts table last
  Free-Created i [] table d f = (table, done)
  Free-Created i (t ∷ ts) table d f =
      let (r, created) = create_target-Free i t table f.0 in
      let (last, rest) =
        Free-Created (suc i) ts (upsert t (gaps i) table).0 d.1 (All-Free i t ts table d.0 f.1) in
      (last, more r created rest)

not_active-Free :
    (table : Table)
    → IsValid table
    → (t : TargetCfg) → lookup t.name (target_names table) ≢ some true
    → Free table t
not_active-Free table v t h = elim (Option-cases (find t.name table.rows)) [
  | inl absent ↦ rw absent
  | inr (row, known) ↦ elim (Bool-cases row.active) [
    | inr inactive ↦ rw (known, inactive)
    | inl active ↦ absurd (h (lookup-target_names t.name table v ∙ rw known (ap some active)))
  ]
]

-- If the table is valid and as it was when the plan was made from its names, and the database does
-- not fail, the import of the planned targets succeeds: it answers without an error, after creating
-- each of them in turn.
pub plan_import_applies :
    (gaps : ℕ → ℕ) (table : Table) (body : Option Json) (p : Plan)
    → IsValid table
    → plan_import (target_names table) body ≡ ok p
    → (last : Table) × (import_targets none none (healthy gaps) p.cfgs table ≡ (none, last))
      × Created (healthy gaps) 0 p.cfgs table last
plan_import_applies gaps table body p v e =
    let (_, _, _, _, _, _, _, _, distinct, inactive, _) =
      plan_import-gate (target_names table) body p e in
    let free = All-map (not_active-Free table v) p.cfgs inactive in
    let (last, created) = Free-Created gaps 0 p.cfgs table distinct free in
    (last, import_targets_complete (healthy gaps) p.cfgs table last created, created)
