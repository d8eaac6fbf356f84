-- ===== src/Runner/Stored.antt =====
-- The rows of the table for the targets that runner.go wants.
use fogping.Prelude.{
  ℕ, ◌≡◌, refl, sym, subst, ap, ◌∙◌, inl, inr, some, List, [], ◌∷◌, ◌==◌, nat_eq, text_eq,
  text_beq_iff, eq_of, eq_refl, arith, Bool-cases,
}
use fogping.Prelude.Map.{Map, lookup}
use fogping.Config.{TargetCfg}
use fogping.Targets.{active_targets}
use fogping.Targets.Rows.{Row, Table, find, find_id}
use fogping.Targets.Validity.{IsValid, UniqueNames}
use fogping.Runner.{wanted}
use fogping.Runner.Reload.{lookup-active_targets}
use fogping.Runner.Names.{active_cfg-some, find_id-Lacks}

-- The table has a row for each that is wanted.
abbrev pub Stored : Map ℕ TargetCfg → Table → Type 0
Stored want table =
    (id : ℕ) (t : TargetCfg)
    → lookup id want ≡ some t
    → (row : Row) × (find t.name table.rows ≡ some row) × (row.id ≡ id)

find_id-find :
    (id : ℕ) (row : Row) (rows : List Row)
    → UniqueNames rows
    → find_id id rows ≡ some row
    → (row.id ≡ id) × (find row.name rows ≡ some row)
unfolding find_id find
find_id-find id row [] u h = absurd (cc h)
find_id-find id row (r ∷ rows) u h = elim (Bool-cases (r.id == id)) [
  | inl this ↦
      let same : r ≡ row = ground (arith, this, h) in
      subst (λ q. (q.id ≡ id) × (find q.name (r ∷ rows) ≡ some q)) same
        (eq_of this, rw (eq_refl r.name) refl)
  | inr other ↦
      let h' : find_id id rows ≡ some row = ground (arith, other, h) in
      let (key, found) = find_id-find id row rows u.1 h' in
      let apart = find_id-Lacks r.name id row rows u.0 h' in
      (key, ground (arith, found, text_beq_iff r.name row.name, apart))
]

pub wanted-Stored :
    (table : Table) → IsValid table → Stored (wanted (active_targets table) []) table
wanted-Stored table v id t wants =
    let (r, at, cfg) =
      active_cfg-some (find_id id table.rows) t (sym (lookup-active_targets id table v) ∙ wants) in
    let (key, found) = find_id-find id r table.rows v.distinct at in
    let named = ap (λ (x : TargetCfg). find x.name table.rows) (sym cfg) in (r, named ∙ found, key)
