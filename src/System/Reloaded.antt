-- ===== src/System/Reloaded.antt =====
-- What a reload of runner.go keeps: one probe for an id, and a valid table with the same active
-- rows.
use fogping.Prelude.{
  ℕ, suc, ◌+◌, ◌≡◌, refl, sym, ◌∙◌, inl, inr, false, Option, none, some, List, [], ◌∷◌, ◌++◌, Text,
  ◌==◌, nat_eq, text_eq, Bool-cases, Option-cases, arith, All-append,
}
use fogping.Prelude.Map.{Map, lookup}
use fogping.Config.{TargetCfg}
use fogping.Float.{Float}
use fogping.Targets.{active_targets}
use fogping.Targets.Rows.{Row, Table, find, find_id}
use fogping.Targets.Validity.{IsValid, Sound, Ascends-snoc, UniqueNames-snoc, find-Lacks}
use fogping.Store.{Memory, RoundRow}
use fogping.Store.Ensure.{Access, ensure_target, bare_row}
use fogping.Runner.{
  World, cfg_eq, keeps, forget, stop_stale, start_one, start_next, start_missing, apply_wanted,
  apply, wanted, reload,
}
use fogping.Runner.Diff.{Keyed, lookup-stop_stale}
use fogping.Runner.Reload.{Keyed-insert, active_cfg}

module _ {F : Type 0} where
  stop_stale-Keyed :
      (want live : Map ℕ TargetCfg) (s : Memory F) → Keyed live → Keyed (stop_stale want live s).0
  unfolding stop_stale
  stop_stale-Keyed want [] s k = tt
  stop_stale-Keyed want ((id, cfg) ∷ live) s k = elim (Bool-cases (keeps cfg (lookup id want))) [
    | inl stays ↦
        rw stays
          (lookup-stop_stale id want live s k.1 ∙ rw (k.0) refl, stop_stale-Keyed want live s k.1)
    | inr stops ↦ rw stops (stop_stale-Keyed want live (forget cfg (lookup id want) s) k.1)
  ]

-- A new row that is not active changes no active row.
abbrev pub SameActive : Table → Table → Type 0
SameActive a b =
    (id : ℕ) → active_cfg (find_id id a.rows) none ≡ active_cfg (find_id id b.rows) none

find_id-snoc :
    (id : ℕ) (rows : List Row) (row : Row)
    → row.active ≡ false
    → active_cfg (find_id id (rows ++ row ∷ [])) none ≡ active_cfg (find_id id rows) none
unfolding find_id
find_id-snoc id [] row idle = ground (arith, idle)
find_id-snoc id (r ∷ rows) row idle = elim (Bool-cases (r.id == id)) [
  | inl this ↦ rw this refl
  | inr other ↦ rw other (find_id-snoc id rows row idle)
]

-- Valid, and with the active rows of `first`.
pub record Kept (first table : Table) : Type 0 where
  pub valid : IsValid table
  pub same : SameActive first table

snoc-Kept :
    (first table : Table) (name : Text) (gap : ℕ)
    → find name table.rows ≡ none
    → Kept first table
    → Kept first (record {
      rows = table.rows ++ bare_row name (table.seq + suc gap) ∷ [];
      seq = table.seq + suc gap;
    })
snoc-Kept first table name gap fresh k =
    let row = bare_row name (table.seq + suc gap) in
    record {
      valid = record {
        ordered = Ascends-snoc 0 table.seq table.rows row k.valid.ordered (omega arith);
        distinct =
            UniqueNames-snoc table.rows row k.valid.distinct (find-Lacks name table.rows fresh);
        sound =
            All-append Sound table.rows (row ∷ []) k.valid.sound
              ((λ active. absurd (cc active)), tt);
      };
      same = λ id. k.same id ∙ sym (find_id-snoc id table.rows row refl);
    }

module _ (float : Float) (access : ℕ → Access) (rows : List (RoundRow (float.F)))
    (first : Table) where
  open float use {F}

  ensure_target-Kept :
      (a : Access) (t : TargetCfg) (s : Memory F) (table : Table)
      → Kept first table
      → Kept first (ensure_target float a t rows s table).2
  unfolding ensure_target
  ensure_target-Kept a t s table k = elim (Option-cases (lookup t.name s.ids)) [
    | inr (id, live) ↦ rw (live, ensure_target) k
    | inl absent ↦ elim (Option-cases a.select) [
      | inr (e, fault) ↦ rw (absent, fault, ensure_target) k
      | inl reads ↦ elim (Option-cases (find t.name table.rows)) [
        | inr (row, known) ↦ rw (absent, reads, known, ensure_target) k
        | inl fresh ↦ elim (Option-cases a.insertion) [
          | inr (e, fault) ↦ rw (absent, reads, fresh, fault, ensure_target) k
          | inl inserts ↦
              rw (absent, reads, fresh, inserts, ensure_target)
                (snoc-Kept first table t.name a.gap fresh k)
        ]
      ]
    ]
  ]

  -- One probe for an id, and a table that is kept.
  abbrev pub Holds : World F → Type 0
  Holds w = Keyed w.live × Kept first w.table

  start_one-Holds :
      (id : ℕ) (t : TargetCfg) (w : World F) (r : Option Text × Memory F × Table)
      → Keyed w.live
      → Kept first r.2
      → Holds (start_one float access rows id t w r)
  unfolding start_one
  start_one-Holds id t w (none, memory, table) k kept = (Keyed-insert id t w.live k, kept)
  start_one-Holds id t w (some e, memory, table) k kept = (k, kept)

  start_next-Holds :
      (id : ℕ) (t : TargetCfg) (w : World F) (runs : Option TargetCfg)
      → Holds w
      → Holds (start_next float access rows id t w runs)
  unfolding start_next
  start_next-Holds id t w (some cfg) h = h
  start_next-Holds id t w none h =
      start_one-Holds id t w (ensure_target float (access id) t rows w.memory w.table) h.0
        (ensure_target-Kept (access id) t w.memory w.table h.1)

  start_missing-Holds :
      (todo : Map ℕ TargetCfg) (w : World F)
      → Holds w
      → Holds (start_missing float access rows todo w)
  unfolding start_missing
  start_missing-Holds [] w h = h
  start_missing-Holds ((id, t) ∷ todo) w h =
      start_missing-Holds todo (start_next float access rows id t w (lookup id w.live))
        (start_next-Holds id t w (lookup id w.live) h)

  pub reload-Holds :
      (fault : Option Text) (w : World F) → Holds w → Holds (reload float access rows fault w).1
  unfolding reload apply apply_wanted
  reload-Holds (some e) w h = h
  reload-Holds none w h =
      let want = wanted (active_targets w.table) [] in
      let stopped = stop_stale want w.live w.memory in
      start_missing-Holds want (record w { live = stopped.0; memory = stopped.1 })
        (stop_stale-Keyed want w.live w.memory h.0, h.1)
