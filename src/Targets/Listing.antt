-- ===== src/Targets/Listing.antt =====
-- `ActiveTargets` and `TargetNames` of targets.go against the rows of the table.
use mathlib.Core.List.{Perm}
use mathlib.Core.List.Perm
use fogping.Config.{TargetCfg}
use fogping.Prelude.{
  All, All-map, leb, ℕ, ◌≤◌, ◌≡◌, refl, ap, Bool, Option, none, some, List, [], ◌∷◌, map, Text,
  arith, ◌==◌, text_eq, text_beq_iff, Bool-cases, inl, inr, keep,
}
use fogping.Prelude.Map.{Map, lookup, insert, lookup-insert}
use fogping.Targets.Rows.{Row, Table, find}
use fogping.Targets.{sort_by_id, insert_by_id, active_targets, names_of, target_names}
use fogping.Targets.Validity.{Ascends, Lacks, UniqueNames, IsValid}

Ascends-keep :
    (lo lo' hi : ℕ) (rows : List Row)
    → Ascends lo rows hi
    → lo' ≤ lo
    → Ascends lo' (keep (λ (r : Row). r.active) rows) hi
Ascends-keep lo lo' hi [] a h = omega arith
Ascends-keep lo lo' hi (r ∷ rows) a h = elim (Bool-cases r.active) [
  | inl active ↦ rw active ((omega arith), Ascends-keep r.id r.id hi rows a.1 (omega arith))
  | inr inactive ↦ rw inactive (Ascends-keep r.id lo' hi rows a.1 (omega arith))
]

sort_by_id-Ascends : (lo hi : ℕ) (rows : List Row) → Ascends lo rows hi → sort_by_id rows ≡ rows
unfolding sort_by_id
sort_by_id-Ascends lo hi [] a = refl
sort_by_id-Ascends lo hi (r ∷ []) a = refl
sort_by_id-Ascends lo hi (r ∷ s ∷ rows) a =
    rw (sort_by_id-Ascends r.id hi (s ∷ rows) a.1) (ground arith)

-- The active targets of a valid table are its active rows as they stand.
pub active_targets_lem :
    (table : Table)
    → IsValid table
    → active_targets table ≡ map (λ (r : Row). r.cfg) (keep (λ (r : Row). r.active) table.rows)
unfolding active_targets
active_targets_lem table v = ap (map (λ (r : Row). r.cfg)) (
    sort_by_id-Ascends 0 table.seq (keep (λ (r : Row). r.active) table.rows)
      (Ascends-keep 0 0 table.seq table.rows v.ordered (omega arith)))

-- The list is in the order of ids.
abbrev pub ById : List TargetCfg → Type 0
ById [] = Unit
ById (t ∷ ts) = All (λ (u : TargetCfg). t.id ≤ u.id) ts × ById ts

All-insert_by_id :
    (s r : Row) (rows : List Row)
    → s.id ≤ r.id
    → All (λ (u : TargetCfg). s.id ≤ u.id) (map (λ (q : Row). q.cfg) rows)
    → All (λ (u : TargetCfg). s.id ≤ u.id) (map (λ (q : Row). q.cfg) (insert_by_id r rows))
unfolding insert_by_id
All-insert_by_id s r [] h a = (h, tt)
All-insert_by_id s r (q ∷ rows) h a = elim (Bool-cases (leb r.id q.id)) [
  | inl first ↦ rw first (h, a)
  | inr later ↦ rw later (a.0, All-insert_by_id s r rows h a.1)
]

ById-insert_by_id :
    (r : Row) (rows : List Row)
    → ById (map (λ (s : Row). s.cfg) rows)
    → ById (map (λ (s : Row). s.cfg) (insert_by_id r rows))
unfolding insert_by_id
ById-insert_by_id r [] b = (tt, tt)
ById-insert_by_id r (s ∷ rows) b = elim (Bool-cases (leb r.id s.id)) [
  | inl first ↦
      let below : r.id ≤ s.id = ground (arith, first) in
      rw first (
        (
          below,
          All-map (λ (u : TargetCfg) h. (omega (arith, below, h))) (map (λ (q : Row). q.cfg) rows)
              b.0,
        ),
        b,
      )
  | inr later ↦
      let above : s.id ≤ r.id = ground (arith, later) in
      rw later (All-insert_by_id s r rows above b.0, ById-insert_by_id r rows b.1)
]

sort_by_id-ById : (rows : List Row) → ById (map (λ (s : Row). s.cfg) (sort_by_id rows))
unfolding sort_by_id
sort_by_id-ById [] = tt
sort_by_id-ById (r ∷ rows) = ById-insert_by_id r (sort_by_id rows) (sort_by_id-ById rows)

insert_by_id-perm : (r : Row) (rows : List Row) → Perm (insert_by_id r rows) (r ∷ rows)
unfolding insert_by_id
insert_by_id-perm r [] = Perm.refl (r ∷ [])
insert_by_id-perm r (s ∷ rows) = elim (Bool-cases (leb r.id s.id)) [
  | inl first ↦ rw first (Perm.refl (r ∷ s ∷ rows))
  | inr later ↦ rw later (Perm.trans (Perm.cons s (insert_by_id-perm r rows)) (Perm.swap r s rows))
]

sort_by_id-perm : (rows : List Row) → Perm (sort_by_id rows) rows
unfolding sort_by_id
sort_by_id-perm [] = Perm.refl []
sort_by_id-perm (r ∷ rows) =
    Perm.trans (insert_by_id-perm r (sort_by_id rows)) (Perm.cons r (sort_by_id-perm rows))

-- In whatever order the table has its rows, the active targets come in the order of their ids, each
-- active row once and no other.
pub active_targets-ById :
    (table : Table)
    → ById (active_targets table)
      × Perm
          (active_targets table)
          (map (λ (r : Row). r.cfg) (keep (λ (r : Row). r.active) table.rows))
unfolding active_targets
active_targets-ById table =
    let rows = keep (λ (r : Row). r.active) table.rows in
    (sort_by_id-ById rows, Perm.map (λ (r : Row). r.cfg) (sort_by_id-perm rows))

abbrev pub activity : Option Row → Option Bool
activity none = none
activity (some row) = some row.active

abbrev or_else : Option Bool → Option Bool → Option Bool
or_else none b = b
or_else (some a) b = some a

Lacks-find : (name : Text) (rows : List Row) → Lacks name rows → find name rows ≡ none
unfolding find
Lacks-find name [] l = refl
Lacks-find name (r ∷ rows) l = ground (arith, Lacks-find name rows, text_beq_iff r.name name)

lookup-names_of :
    (name : Text) (rows : List Row) (out : Map Text Bool)
    → UniqueNames rows
    → lookup name (names_of rows out) ≡ or_else (activity (find name rows)) (lookup name out)
unfolding names_of find
lookup-names_of name [] out u = refl
lookup-names_of name (r ∷ rows) out u = elim (Bool-cases (r.name == name)) [
  | inl same ↦ ground (
    arith,
    lookup-names_of name rows (insert r.name r.active out),
    lookup-insert r.name name r.active out,
    Lacks-find r.name rows,
    text_beq_iff r.name name,
  )
  | inr other ↦ ground (
    arith,
    lookup-names_of name rows (insert r.name r.active out),
    lookup-insert r.name name r.active out,
  )
]

-- `TargetNames` maps a name exactly if a row has it, to whether that row is active.
pub lookup-target_names :
    (name : Text) (table : Table)
    → IsValid table
    → lookup name (target_names table) ≡ activity (find name table.rows)
unfolding target_names lookup
lookup-target_names name table v = ground (arith, lookup-names_of name table.rows [] v.distinct)
