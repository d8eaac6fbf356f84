-- ===== src/Runner/Names.antt =====
-- The names of the probes of runner.go, and single entries of its map.
use fogping.Prelude.{
  ℕ, ◌≡◌, ◌≢◌, refl, sym, subst, ap, ◌∙◌, inl, inr, true, Option, none, some, List, [], ◌∷◌, Text,
  ◌==◌, nat_eq, text_eq, eq_of, eq_refl, arith, Bool-cases,
}
use fogping.Prelude.Map.{Map, lookup}
use fogping.Config.{TargetCfg}
use fogping.Targets.{active_targets}
use fogping.Targets.Rows.{Row, Table, find_id}
use fogping.Targets.Validity.{IsValid, Lacks, UniqueNames}
use fogping.Runner.{cfg_eq, keeps, wanted}
use fogping.Runner.Diff.{kept_of}
use fogping.Runner.Reload.{active_cfg, lookup-active_targets}

-- No two probes have the same name.
abbrev pub Apart : Map ℕ TargetCfg → Type 0
Apart live =
    (i j : ℕ) (a b : TargetCfg)
    → lookup i live ≡ some a
    → lookup j live ≡ some b
    → a.name ≡ b.name
    → i ≡ j

pub find_id-Lacks :
    (name : Text) (id : ℕ) (row : Row) (rows : List Row)
    → Lacks name rows
    → find_id id rows ≡ some row
    → row.name ≢ name
unfolding find_id
find_id-Lacks name id row [] l h = absurd (cc h)
find_id-Lacks name id row (r ∷ rows) l h = elim (Bool-cases (r.id == id)) [
  | inl this ↦ let same : r ≡ row = ground (arith, this, h) in subst (λ q. q.name ≢ name) same l.0
  | inr other ↦ find_id-Lacks name id row rows l.1 (ground (arith, other, h))
]

find_id-UniqueNames :
    (i j : ℕ) (a b : Row) (rows : List Row)
    → UniqueNames rows
    → find_id i rows ≡ some a
    → find_id j rows ≡ some b
    → a.name ≡ b.name
    → i ≡ j
unfolding find_id
find_id-UniqueNames i j a b [] u p q same = absurd (cc p)
find_id-UniqueNames i j a b (r ∷ rows) u p q same = elim (Bool-cases (r.id == i)) [
  | inl first ↦
      let ra : r ≡ a = ground (arith, first, p) in
      elim (Bool-cases (r.id == j)) [
        | inl second ↦ sym (eq_of first) ∙ eq_of second
        | inr later ↦ absurd (
            find_id-Lacks r.name j b rows u.0 (ground (arith, later, q))
              (sym same ∙ sym (ap (λ (x : Row). x.name) ra)))
      ]
  | inr later ↦ elim (Bool-cases (r.id == j)) [
    | inl first ↦
        let rb : r ≡ b = ground (arith, first, q) in
        absurd (
          find_id-Lacks r.name i a rows u.0 (ground (arith, later, p))
            (same ∙ sym (ap (λ (x : Row). x.name) rb)))
    | inr second ↦
        find_id-UniqueNames i j a b rows u.1 (ground (arith, later, p)) (ground (arith, second, q))
          same
  ]
]

pub active_cfg-some :
    (row : Option Row) (t : TargetCfg)
    → active_cfg row none ≡ some t
    → (r : Row) × (row ≡ some r) × (r.cfg ≡ t)
active_cfg-some none t h = absurd (cc h)
active_cfg-some (some row) t h = elim (Bool-cases row.active) [
  | inl active ↦ (row, refl, ground (arith, active, h))
  | inr idle ↦ absurd (ground (arith, idle, h))
]

-- The targets that a valid table wants have different names.
pub wanted-Apart : (table : Table) → IsValid table → Apart (wanted (active_targets table) [])
wanted-Apart table v i j a b p q same =
    let (r, at, ra) =
      active_cfg-some (find_id i table.rows) a (sym (lookup-active_targets i table v) ∙ p) in
    let (s, at', sb) =
      active_cfg-some (find_id j table.rows) b (sym (lookup-active_targets j table v) ∙ q) in
    find_id-UniqueNames i j r s table.rows v.distinct at at'
      (ap (λ (t : TargetCfg). t.name) ra ∙ same ∙ sym (ap (λ (t : TargetCfg). t.name) sb))

pub lookup-tail :
    (id j : ℕ) (cfg t : TargetCfg) (live : Map ℕ TargetCfg)
    → lookup j live ≡ none
    → lookup id live ≡ some t
    → lookup id ((j, cfg) ∷ live) ≡ some t
unfolding lookup
lookup-tail id j cfg t live fresh h = elim (Bool-cases (j == id)) [
  | inl this ↦ absurd (cc (subst (λ i. lookup i live ≡ none) (eq_of this) fresh, h))
  | inr other ↦ rw other h
]

pub lookup-head :
    (j : ℕ) (cfg : TargetCfg) (live : Map ℕ TargetCfg) → lookup j ((j, cfg) ∷ live) ≡ some cfg
unfolding lookup
lookup-head j cfg live = rw (eq_refl j) refl

pub kept_of-some :
    (old want : Option TargetCfg) (cfg : TargetCfg)
    → kept_of old want ≡ some cfg
    → (old ≡ some cfg) × (keeps cfg want ≡ true)
unfolding keeps
kept_of-some none want cfg h = absurd (cc h)
kept_of-some (some c) want cfg h = elim (Bool-cases (keeps c want)) [
  | inl stays ↦
      let same : some c ≡ some cfg = ground (arith, stays, h) in
      let same' : c ≡ cfg = cc same in (same, subst (λ x. keeps x want ≡ true) same' stays)
  | inr stops ↦ absurd (ground (arith, stops, h))
]
